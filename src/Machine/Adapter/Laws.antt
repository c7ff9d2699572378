-- ===== src/Machine/Adapter/Laws.antt =====
-- The adapters of edfsm-machine/src/adapter.rs, one by one.
use mathlib.Core.List.{filter_map, map, filter_map-eq-map}
use edfsm.Prelude.{
  ◌≡◌, refl, sym, ap, ◌∙◌, inl, inr, Option, some, Option-cases, List, [], ◌∷◌, ◌++◌, append-nil,
  append_assoc,
}
use edfsm.Machine.Action.{ok, ◌>>◌}
use edfsm.Machine.Action.Sequence.{>>_assoc, >>_ext}
use edfsm.Machine.Adapter.{
  Place, Adapter, placeholder, vec, notify, clone_notify, with_filter_map, with_map, notify_all,
  Feed, feed,
}

module _ {ℓ} {W : Type ℓ} where
  -- Avoiding the clone makes no difference: `clone_notify` is `notify`, the override of
  -- `Placeholder` included.
  pub clone_notify-eq-notify :
      {A : Type ℓ} (o : Adapter W A) (a : A) (w : W) → clone_notify o a w ≡ notify o a w
  unfolding clone_notify notify
  clone_notify-eq-notify placeholder a w = refl
  clone_notify-eq-notify _ a w = refl

  pub notify_all-append :
      {A : Type ℓ} (o : Adapter W A) (xs ys : List A) (w : W)
      → notify_all o (xs ++ ys) w ≡ (notify_all o xs >> notify_all o ys) w
  unfolding notify_all
  notify_all-append o [] ys w = refl
  notify_all-append o (x ∷ xs) ys w =
      >>_ext (notify o x) (notify_all-append o xs ys) w
      ∙ sym (>>_assoc (notify o x) (notify_all o xs) (notify_all o ys) w)

  -- Items sent through a filter map arrive as `Iterator::filter_map` gives them: the `Some` values,
  -- in order, and the same failure at the same item.
  pub notify_all-with_filter_map :
      {A B : Type ℓ} (o : Adapter W B) (f : A → Option B) (xs : List A) (w : W)
      → notify_all (with_filter_map o f) xs w ≡ notify_all o (filter_map f xs) w
  unfolding notify_all with_filter_map filter_map
  notify_all-with_filter_map o f [] w = refl
  notify_all-with_filter_map o f (x ∷ xs) w = elim (Option-cases (f x)) [
    | inl e ↦ rw (e, notify) (notify_all-with_filter_map o f xs w)
    | inr (b, e) ↦ rw (e, notify) (>>_ext (notify o b) (notify_all-with_filter_map o f xs) w)
  ]

  pub notify_all_vec :
      {A : Type ℓ} (p : Place W (List A)) (xs : List A) (w : W)
      → ((notify_all (vec p) xs w).0 ≡ ok tt) × (p.get (notify_all (vec p) xs w).1 ≡ p.get w ++ xs)
  unfolding notify_all
  notify_all_vec p [] w = (refl, sym (append-nil _))
  notify_all_vec p (x ∷ xs) w =
      let w' = p.set (p.get w ++ x ∷ []) w in
      let (done, held) = notify_all_vec p xs w' in
      (done, held ∙ rw p.get-set (append_assoc (p.get w) (x ∷ []) xs))

  -- A sender that is mapped receives the image of each item.
  pub notify_all-with_map :
      {A B : Type ℓ} (o : Adapter W B) (f : A → B) (xs : List A) (w : W)
      → notify_all (with_map o f) xs w ≡ notify_all o (map f xs) w
  unfolding with_map
  notify_all-with_map o f xs w =
      notify_all-with_filter_map o (λ a. some (f a)) xs w
      ∙ ap (λ l. notify_all o l w) (filter_map-eq-map f xs)

  -- A vector that feeds another adapter, a vector, does not fail, and appends its items, in order,
  -- to what the other held.
  pub feed_vec :
      {A V : Type ℓ} (p : Place V (List A)) (q : Place W (List A)) (v : V) (w : W)
      → ((feed (Feed.vec p) v (vec q) w).0 ≡ ok tt)
        × (q.get (feed (Feed.vec p) v (vec q) w).1 ≡ q.get w ++ p.get v)
  unfolding feed
  feed_vec p q v w = notify_all_vec q (p.get v) w
