-- ===== src/Machine/Action/Sequence.antt =====
-- Laws of the sequence of actions.
use edfsm.Prelude.{◌≡◌, refl, ap, ◌∙◌, ◌⊎◌, inl, inr}
use edfsm.Machine.Action.{Result, ok, err, Error, Action, Exec, pure, continue, ◌>>=◌, ◌>>◌}

module _ {ℓ μ} {W : Type ℓ} {B : Type μ} where
  continue_assoc :
      (r : Result (Unit {0}) Error) (k : Exec W) (n : Action W B) (w : W)
      → continue (continue r (λ _. k) w).0 (λ _. n) (continue r (λ _. k) w).1
        ≡ continue r (λ _. k >> n) w
  continue_assoc (ok t) k n w = refl
  continue_assoc (err x) k n w = refl

  pub >>_assoc : (m k : Exec W) (n : Action W B) (w : W) → (m >> k >> n) w ≡ (m >> (k >> n)) w
  >>_assoc m k n w = continue_assoc (m w).0 k n (m w).1

  continue_ext :
      (r : Result (Unit {0}) Error) {f g : Action W B}
      → ((w : W) → f w ≡ g w)
      → (w : W) → continue r (λ _. f) w ≡ continue r (λ _. g) w
  continue_ext (ok t) h w = h w
  continue_ext (err x) h w = refl

  pub >>_ext :
      (m : Exec W) {f g : Action W B} → ((w : W) → f w ≡ g w) → (w : W) → (m >> f) w ≡ (m >> g) w
  >>_ext m h w = continue_ext (m w).0 h (m w).1

  pub >>_cong : (m n : Exec W) (k : Action W B) (w : W) → m w ≡ n w → (m >> k) w ≡ (n >> k) w
  >>_cong m n k w e = ap (λ (r : Result (Unit {0}) Error × W). continue r.0 (λ _. k) r.1) e

module _ {ℓ κ μ} {W : Type ℓ} {A : Type κ} {B : Type μ} where
  continue-eq-ok :
      (r : Result A Error) (f : A → Action W B) (w : W) (b : B)
      → (continue r f w).0 ≡ ok b
      → (a : A) × (r ≡ ok a) × (continue r f w ≡ f a w)
  continue-eq-ok (ok a) f w b h = (a, refl, refl)
  continue-eq-ok (err x) f w b h = cc

  -- A sequence that returns has returned from its first action, and is the rest from there.
  pub >>=-eq-ok :
      (m : Action W A) (f : A → Action W B) (w : W) (b : B)
      → ((m >>= f) w).0 ≡ ok b
      → (a : A) × ((m w).0 ≡ ok a) × ((m >>= f) w ≡ f a (m w).1)
  >>=-eq-ok m f w b h = continue-eq-ok (m w).0 f (m w).1 b h

module _ {ℓ κ μ} {W : Type ℓ} {A : Type κ} {B : Type μ} where
  continue_cases :
      (r : Result A Error) (f : A → Action W B) (w : W)
      → ((a : A) × (r ≡ ok a) × (continue r f w ≡ f a w))
        ⊎ ((x : Error) × (r ≡ err x) × (continue r f w ≡ (err x, w)))
  continue_cases (ok a) f w = inl (a, refl, refl)
  continue_cases (err x) f w = inr (x, refl, refl)

  -- A sequence is the rest behind a first action that returns, or stops where that fails.
  pub >>=-cases :
      (m : Action W A) (f : A → Action W B) (w : W)
      → ((a : A) × ((m w).0 ≡ ok a) × ((m >>= f) w ≡ f a (m w).1))
        ⊎ ((x : Error) × ((m w).0 ≡ err x) × ((m >>= f) w ≡ (err x, (m w).1)))
  >>=-cases m f w = continue_cases (m w).0 f (m w).1

module _ {ℓ μ ν} {W : Type ℓ} {B : Type μ} {X : Type ν} where
  continue-keeps :
      (g : W → X) (r : Result (Unit {0}) Error) (k : Action W B)
      → ((w : W) → g (k w).1 ≡ g w)
      → (w : W) → g (continue r (λ _. k) w).1 ≡ g w
  continue-keeps g (ok t) k h w = h w
  continue-keeps g (err x) k h w = refl

  -- What neither of two actions changes, their sequence does not change, failing or not.
  pub >>-keeps :
      (g : W → X) (m : Exec W) (k : Action W B)
      → ((w : W) → g (m w).1 ≡ g w)
      → ((w : W) → g (k w).1 ≡ g w)
      → (w : W) → g ((m >> k) w).1 ≡ g w
  >>-keeps g m k hm hk w = continue-keeps g (m w).0 k hk (m w).1 ∙ hm w

module _ {ℓ μ} {W : Type ℓ} {B : Type μ} where
  continue-pure : (r : Result (Unit {0}) Error) (b : B) (w : W) → (continue r (λ _. pure b) w).1 ≡ w
  continue-pure (ok t) b w = refl
  continue-pure (err x) b w = refl

  pub >>-pure : (m : Exec W) (b : B) (w : W) → ((m >> pure b) w).1 ≡ (m w).1
  >>-pure m b w = continue-pure (m w).0 b (m w).1

module _ {ℓ} {W : Type ℓ} where
  continue_unit : (r : Result (Unit {0}) Error) (w : W) → continue r (λ _. pure tt) w ≡ (r, w)
  continue_unit (ok t) w = refl
  continue_unit (err x) w = refl

  pub >>_unit : (m : Exec W) (w : W) → (m >> pure tt) w ≡ m w
  >>_unit m w = continue_unit (m w).0 (m w).1
