-- ===== src/KvStore/Store/Slots.antt =====
-- Events of edfsm-kv-store/src/lib.rs, key by key: the store is a family of inner machines.
use Prim.Native.Nat.Ordering.{eq}
use edfsm.Prelude.{
  ◌≡◌, refl, ◌∙◌, Bool, true, false, Option, none, some, List, [], ◌∷◌, ◌++◌, Ord, list_ord, lex,
  eq_of_lex, arith, if◌then◌else◌,
}
use edfsm.Fsm.{Fsm, Terminating, replay}
use edfsm.KvStore.KeyPath.{KeyPath, item_ord}
use edfsm.KvStore.KeyPath.Prefix.{is_eq}
use edfsm.KvStore.Map.{get}
use edfsm.KvStore.Map.Order.{IsSorted, insert-IsSorted, remove-IsSorted}
use edfsm.KvStore.Map.Lookup.{get-insert, get-remove}
use edfsm.KvStore.Store.{Keyed, KvStore, at_entry, on_event, kv_fsm}

module _ {ℓ} {V C E SE : Type ℓ} (m : Fsm V C E SE) (term : Terminating E) (default : V) where
  -- What becomes of one place, given whether the event is terminating.
  abbrev pub next : Bool → Option V → E → Option V
  next true v e = none
  next false (some s) e = some (m.on_event s e).0
  next false none e = some (m.on_event default e).0

  -- One place of the store, on its own: absent, or a state of the inner machine. The first event
  -- makes a machine in the default state, and a terminating one drops the machine.
  abbrev pub slot : Option V → E → Option V
  slot v e = next (term.terminating e) v e

  abbrev pub slots : Option V → List E → Option V
  slots v [] = v
  slots v (e ∷ es) = slots (slot v e) es

  slots-if :
      (b : Bool) (v : Option V) (e : E) (es : List E)
      → slots (if b then slot v e else v) es ≡ slots v (if b then e ∷ es else es)
  slots-if true v e es = refl
  slots-if false v e es = refl

-- The events for one path.
abbrev pub items_at {ℓ} : {N E : Type ℓ} ⦃o : Ord N⦄ → KeyPath N → List (Keyed N E) → List E
items_at p [] = []
items_at p (e ∷ es) = if is_eq (lex p e.key) then e.item ∷ items_at p es else items_at p es

module _ {ℓ} {N E : Type ℓ} ⦃o : Ord N⦄ where
  pub items_at-++ :
      (p : KeyPath N) (es fs : List (Keyed N E))
      → items_at p (es ++ fs) ≡ items_at p es ++ items_at p fs
  items_at-++ p [] fs = refl
  items_at-++ p (e ∷ es) fs = ground (arith, items_at-++ p es fs)

module _ {ℓ} {N V C E SE : Type ℓ} ⦃o : Ord N⦄ (m : Fsm V C E SE) (term : Terminating E)
    (default : V) where
  at_entry-IsSorted :
      (key : KeyPath N) (v : Option V) (t : Bool) (e : E) (store : KvStore N V)
      → IsSorted store
      → IsSorted (at_entry m term default key v t e store).0
  at_entry-IsSorted key (some s) false e store h = insert-IsSorted key _ store h
  at_entry-IsSorted key none false e store h = insert-IsSorted key _ store h
  at_entry-IsSorted key (some s) true e store h = remove-IsSorted key store h
  at_entry-IsSorted key none true e store h = h

  -- A store whose entries are in order has them in order behind an event.
  pub on_event-IsSorted :
      (store : KvStore N V) (e : Keyed N E)
      → IsSorted store
      → IsSorted (on_event m term default store e).0
  unfolding on_event
  on_event-IsSorted store e h = at_entry-IsSorted e.key (get e.key store) _ e.item store h

  get-at_entry :
      (p key : KeyPath N) (v : Option V) (t : Bool) (e : E) (store : KvStore N V)
      → IsSorted store
      → get key store ≡ v
      → get p (at_entry m term default key v t e store).0
        ≡ (if is_eq (lex p key) then next m term default t v e else get p store)
  get-at_entry p key (some s) false e store h at =
      ground (arith, get-insert p key (m.on_event s e).0 store)
  get-at_entry p key none false e store h at =
      ground (arith, get-insert p key (m.on_event default e).0 store)
  get-at_entry p key (some s) true e store h at = ground (arith, get-remove p key store)
  get-at_entry p key none true e store h at = ground (arith, eq_of_lex p key)

  -- An event changes the place of its path as the inner machine says, and no other.
  pub get-on_event :
      (p : KeyPath N) (store : KvStore N V) (e : Keyed N E)
      → IsSorted store
      → get p (on_event m term default store e).0
        ≡ (if is_eq (lex p e.key) then slot m term default (get p store) e.item else get p store)
  unfolding on_event
  get-on_event p store e h =
      get-at_entry p e.key (get e.key store) (term.terminating e.item) e.item store h refl
      ∙ same_key (eq_of_lex p e.key)
    where
      same_key :
          (lex p e.key ≡ eq → p ≡ e.key)
          → (if is_eq (lex p e.key)
              then slot m term default (get e.key store) e.item
              else get p store)
            ≡ (if is_eq (lex p e.key)
                then slot m term default (get p store) e.item
                else get p store)
      same_key k = ground (arith, k)

  -- In a store in order, what lies at a path, after any events, is what the inner machine makes of the events for that
  -- path alone, in their order, from what lay there before.
  pub get-replay :
      (W : Type ℓ) (p : KeyPath N) (es : List (Keyed N E)) (store : KvStore N V)
      → IsSorted store
      → get p (replay (kv_fsm {W = W} m term default) store es)
        ≡ slots m term default (get p store) (items_at p es)
  unfolding replay kv_fsm
  get-replay W p [] store h = refl
  get-replay W p (e ∷ es) store h =
      get-replay W p es (on_event m term default store e).0 (on_event-IsSorted store e h)
      ∙ rw (get-on_event p store e h)
          (slots-if m term default (is_eq (lex p e.key)) (get p store) e.item (items_at p es))
