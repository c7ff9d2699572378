-- ===== src/Machine/Adapter/Fanout.antt =====
-- `merge` of edfsm-machine/src/adapter.rs: fan-out to any number of adapters.
use edfsm.Prelude.{◌≡◌, refl, sym, ◌∙◌, List, [], ◌∷◌, ◌++◌, append-nil, append_assoc}
use edfsm.Machine.Action.{ok, ◌>>◌}
use edfsm.Machine.Action.Sequence.{>>_assoc, >>_ext, >>_cong}
use edfsm.Machine.Adapter.{Place, Adapter, placeholder, vec, notify, merge, notify_all}

module _ {ℓ} {W A : Type ℓ} where
  -- The two adapters are notified in turn, the second only if the first did not fail; a placeholder
  -- that `merge` drops would have done nothing.
  pub notify-merge :
      (first next : Adapter W A) (a : A) (w : W)
      → notify (merge first next) a w ≡ (notify first a >> notify next a) w
  unfolding merge notify
  notify-merge placeholder next a w = refl
  notify-merge _ next a w = refl

  -- How adapters are grouped makes no difference to what each is sent, nor to the result.
  pub merge_assoc :
      (f g h : Adapter W A) (a : A) (w : W)
      → notify (merge (merge f g) h) a w ≡ notify (merge f (merge g h)) a w
  merge_assoc f g h a w =
      notify-merge (merge f g) h a w
      ∙ >>_cong (notify (merge f g) a) (notify f a >> notify g a) (notify h a) w
          (notify-merge f g a w)
      ∙ >>_assoc (notify f a) (notify g a) (notify h a) w
      ∙ sym (>>_ext (notify f a) (notify-merge g h a) w)
      ∙ sym (notify-merge f (merge g h) a w)

  -- A write at either place leaves the other as it is.
  pub record Apart (p q : Place W (List A)) : Type ℓ where
    pub left : (xs : List A) (w : W) → p.get (q.set xs w) ≡ p.get w
    pub right : (xs : List A) (w : W) → q.get (p.set xs w) ≡ q.get w

  -- Fan-out: each of two merged vectors, in places of the world that do not overlap, receives
  -- every item, in order, behind what it held.
  pub notify_all-merge :
      (p q : Place W (List A))
      → Apart p q
      → (xs : List A) (w : W)
      → ((notify_all (merge (vec p) (vec q)) xs w).0 ≡ ok tt)
        × (p.get (notify_all (merge (vec p) (vec q)) xs w).1 ≡ p.get w ++ xs)
        × (q.get (notify_all (merge (vec p) (vec q)) xs w).1 ≡ q.get w ++ xs)
  unfolding notify_all merge
  notify_all-merge p q apart [] w = (refl, sym (append-nil _), sym (append-nil _))
  notify_all-merge p q apart (x ∷ xs) w =
      let w₁ = p.set (p.get w ++ x ∷ []) w in
      let w₂ = q.set (q.get w₁ ++ x ∷ []) w₁ in
      let rest = notify_all-merge p q apart xs w₂ in
      (
        rest.0,
        rest.1 ∙ rw (apart.left, p.get-set) (append_assoc (p.get w) (x ∷ []) xs),
        rest.2 ∙ rw (q.get-set, apart.right) (append_assoc (q.get w) (x ∷ []) xs),
      )
