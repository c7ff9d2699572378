-- ===== src/KvStore/Store/Tree.antt =====
-- `GetTree` of edfsm-kv-store/src/lib.rs: which entries its responder is handed.
use mathlib.Core.List.{append_cancel_left}
use edfsm.Prelude.{
  ◌≡◌, refl, sym, ap, some, ◌∙◌, inl, inr, ◌↔◌, Bool, true, false, ◌&&◌, [], ◌∷◌, ◌++◌, append-nil,
  Ord, list_ord, eq_of_lex, ltb, arith, Bool-cases,
}
use edfsm.KvStore.KeyPath.{KeyPath, item_ord, len}
use edfsm.KvStore.KeyPath.Prefix.{
  starts_with, past, lex-starts_with, lex_cases, past-lt, length-starts_with, past_irrefl,
}
use edfsm.KvStore.Map.{included, above, below, keep, take_while, range, range_panics}
use edfsm.KvStore.Map.Order.{Above, IsSorted}
use edfsm.KvStore.Store.{KvStore, deep, tree}

module _ {ℓ} {N : Type ℓ} ⦃o : Ord N⦄ where
  abbrev pub longer : KeyPath N → KeyPath N → Bool
  longer path p = ltb (len path) (len p)

  deep-starts_with : (path p : KeyPath N) → starts_with path p ≡ true → deep path p ≡ true
  unfolding deep
  deep-starts_with path p h = length-starts_with path p h

  deep-past : (path p : KeyPath N) → past path p ≡ true → deep path p ≡ longer path p
  unfolding deep
  deep-past path p h = ground (arith, eq_of_lex p path, past_irrefl path)

module _ {ℓ} {N V : Type ℓ} ⦃o : Ord N⦄ (path : KeyPath N) where
  -- The entries whose path starts with `path`.
  unfoldable pub subtree : KvStore N V → KvStore N V
  unfolding keep
  subtree store = keep (starts_with path) store

  -- The entries behind those.
  unfoldable pub beyond : KvStore N V → KvStore N V
  unfolding keep
  beyond store = keep (past path) store

  abbrev AllPast : KvStore N V → Type 0
  AllPast [] = Unit
  AllPast ((p, v) ∷ l) = (past path p ≡ true) × AllPast l

  Above-AllPast : (p : KeyPath N) (l : KvStore N V) → past path p ≡ true → Above p l → AllPast l
  Above-AllPast p [] h a = tt
  Above-AllPast p ((q, v) ∷ l) h a = (past-lt path p q h a.0, Above-AllPast p l h a.1)

  keep-AllPast :
      (l : KvStore N V)
      → AllPast l
      → (keep (starts_with path) l ≡ [])
        × (keep (past path) l ≡ l)
        × (keep (λ k. above (included path) k && true) l ≡ l)
  unfolding keep above
  keep-AllPast [] a = (refl, refl, refl)
  keep-AllPast ((p, v) ∷ l) a =
      ground (arith, keep-AllPast l a.1, lex_cases path p, lex-starts_with path p)

  take_while-AllPast :
      (l : KvStore N V) → AllPast l → take_while (deep path) l ≡ take_while (longer path) l
  unfolding take_while
  take_while-AllPast [] a = refl
  take_while-AllPast ((p, v) ∷ l) a = rw (deep-past path p a.0, take_while-AllPast l a.1)

  abbrev Split : KvStore N V → Type ℓ
  Split l =
      take_while (deep path) (keep (λ k. above (included path) k && true) l)
      ≡ keep (starts_with path) l ++ take_while (longer path) (keep (past path) l)

  Split-cons :
      (p : KeyPath N) (v : V) (l : KvStore N V) → past path p ≡ false → Split l → Split ((p, v) ∷ l)
  unfolding keep take_while above
  Split-cons p v l not_behind ih = ground (arith, lex_cases path p, deep-starts_with path p)

  take_while-keep : (l : KvStore N V) → IsSorted l → Split l
  take_while-keep [] s = unfold keep take_while in refl
  take_while-keep ((p, v) ∷ l) s = elim (Bool-cases (past path p)) [
    | inl behind ↦
        let (none_left, all_past, all_above) =
          keep-AllPast ((p, v) ∷ l) (behind, Above-AllPast p l behind s.0) in
        rw (none_left, all_past, all_above)
          (take_while-AllPast ((p, v) ∷ l) (behind, Above-AllPast p l behind s.0))
    | inr not_behind ↦ Split-cons p v l not_behind (take_while-keep l s.1)
  ]

  -- Of a store in order, `GetTree` answers with all the entries whose path starts with `path`, in order, and then with
  -- every further entry up to the first whose path is not longer than `path`.
  pub tree-subtree :
      (store : KvStore N V)
      → IsSorted store
      → tree path store ≡ some (subtree store ++ take_while (longer path) (beyond store))
  unfolding tree range range_panics subtree beyond below
  tree-subtree store s = ap some (take_while-keep store s)

  -- Whether there is such a further entry.
  abbrev pub overshoots : KvStore N V → Bool
  overshoots [] = false
  overshoots ((p, v) ∷ l) = longer path p

  overshoots-take_while :
      (l : KvStore N V) → (take_while (longer path) l ≡ []) ↔ (overshoots l ≡ false)
  unfolding take_while
  overshoots-take_while [] = (λ h. refl, λ h. refl)
  overshoots-take_while ((p, v) ∷ l) = elim (Bool-cases (longer path p)) [
    | inl e ↦ rw e (λ h. cc, λ h. cc)
    | inr e ↦ rw e (λ h. refl, λ h. refl)
  ]

  append_cancel : (l r : KvStore N V) → (l ++ r ≡ l) ↔ (r ≡ [])
  append_cancel l r =
      (λ h. append_cancel_left l r [] (h ∙ sym (append-nil l)), λ h. rw h (append-nil l))

  -- In a store in order, the answer of `GetTree` is the entries whose path starts with the given
  -- path, as the query's comment promises, exactly when the entry behind them, if there is one,
  -- has no longer path.
  pub tree_exact :
      (store : KvStore N V)
      → IsSorted store
      → (tree path store ≡ some (subtree store)) ↔ (overshoots (beyond store) ≡ false)
  tree_exact store s = rw (tree-subtree store s) (
      let cancel = append_cancel (subtree store) (take_while (longer path) (beyond store)) in
      let none_behind = overshoots-take_while (beyond store) in
      (λ h. none_behind.0 (cancel.0 (cc h)), λ h. ap some (cancel.1 (none_behind.1 h))))
