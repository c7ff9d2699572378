-- ===== src/Macros/Parse/Fuel.antt =====
-- The loop of `TargetStates::parse` in edfsm-macros/src/parse.rs ends: each round takes a type off
-- the stream.
use edfsm.Prelude.{ℕ, zero, suc, ◌≤◌, ◌<◌, ◌≡◌, ◌≢◌, refl, ap, ◌⊎◌, inl, inr, List, arith}
use edfsm.Macros.Syntax.{Ty, Failure, Outcome, ok, err, ◌>>=◌}
use edfsm.Macros.Parse.{Punct, Syn, cons_type, parse_states, parse_target_states}

pub Outcome-cases {ℓ} :
    {A : Type ℓ} (m : Outcome A) → ((a : A) × (m ≡ ok a)) ⊎ ((x : Failure) × (m ≡ err x))
Outcome-cases (ok a) = inl (a, refl)
Outcome-cases (err x) = inr (x, refl)

-- What a token costs, and that `syn` does not know of the fuel.
pub record Consumes {ℓ} {Stream : Type ℓ} (syn : Syn Stream) : Type ℓ where
  pub parse_type_size :
      (s r : Stream) (t : Ty) → syn.parse_type s ≡ ok (t, r) → syn.size r < syn.size s
  pub parse_punct_size :
      (p : Punct) (s r : Stream) → syn.parse_punct p s ≡ ok r → syn.size r ≤ syn.size s
  pub parse_type_error :
      (s : Stream) (x : Failure) → syn.parse_type s ≡ err x → x ≢ Failure.out_of_fuel

module _ {ℓ} {Stream : Type ℓ} (syn : Syn Stream) (consumes : Consumes syn) where
  cons_type-fuel :
      (t : Ty) (m : Outcome (List Ty × Stream))
      → m ≢ err Failure.out_of_fuel
      → cons_type syn t m ≢ err Failure.out_of_fuel
  cons_type-fuel t (ok (ts, r)) h = λ k. cc
  cons_type-fuel t (err x) h = h

  parse_states-fuel :
      (fuel : ℕ) (s : Stream)
      → syn.size s < fuel
      → parse_states syn fuel s ≢ err Failure.out_of_fuel
  unfolding parse_states
  parse_states-fuel zero s h = ground arith
  parse_states-fuel (suc fuel) s h = elim (Outcome-cases (syn.parse_type s)) [
    | inr (x, x_eq) ↦ rw (parse_states, x_eq) (λ k. consumes.parse_type_error s x x_eq (cc k))
    | inl ((t, r), t_eq) ↦ elim (Outcome-cases (syn.parse_punct Punct.or r)) [
      | inr (x, x_eq) ↦ rw (parse_states, t_eq, x_eq) (λ k. cc)
      | inl (q, q_eq) ↦
          rw (parse_states, t_eq, q_eq)
            (cons_type-fuel t (parse_states syn fuel q) (
              let a = consumes.parse_type_size s r t t_eq in
              let b = consumes.parse_punct_size Punct.or r q q_eq in
              parse_states-fuel fuel q (omega arith)))
    ]
  ]

  parse_states_enough :
      (m n : ℕ) (s : Stream)
      → syn.size s < m
      → syn.size s < n
      → parse_states syn m s ≡ parse_states syn n s
  unfolding parse_states
  parse_states_enough zero n s h k = ground arith
  parse_states_enough (suc m) zero s h k = ground arith
  parse_states_enough (suc m) (suc n) s h k = elim (Outcome-cases (syn.parse_type s)) [
    | inr (x, x_eq) ↦ rw (parse_states, x_eq) refl
    | inl ((t, r), t_eq) ↦ elim (Outcome-cases (syn.parse_punct Punct.or r)) [
      | inr (x, x_eq) ↦ rw (parse_states, t_eq, x_eq) refl
      | inl (q, q_eq) ↦
          rw (parse_states, t_eq, q_eq)
            (ap (cons_type syn t) (
              let a = consumes.parse_type_size s r t t_eq in
              let b = consumes.parse_punct_size Punct.or r q q_eq in
              parse_states_enough m n q (omega arith) (omega arith)))
    ]
  ]

  >>=-fuel {κ} :
      {A : Type ℓ} {B : Type κ} (m : Outcome A) (f : A → Outcome B)
      → m ≢ err Failure.out_of_fuel
      → ((a : A) → f a ≢ err Failure.out_of_fuel)
      → (m >>= f) ≢ err Failure.out_of_fuel
  >>=-fuel (ok a) f h k = k a
  >>=-fuel (err x) f h k = λ e. h (cc e)

  -- Where `syn` takes at least one token for a type and gives none back, the loop over the target
  -- states ends: it never runs out of the fuel that it is given, and with any more fuel it gives
  -- the same result.
  pub parse_target_states_ends :
      (s : Stream)
      → (parse_target_states syn s ≢ err Failure.out_of_fuel)
        × ((more : ℕ)
            → syn.size s < more
            → parse_states syn more s ≡ parse_states syn (suc (syn.size s)) s)
  unfolding parse_target_states
  parse_target_states_ends s = (
    >>=-fuel (parse_states syn (suc (syn.size s)) s) _
        (parse_states-fuel (suc (syn.size s)) s (omega arith)) (λ a e. cc),
    λ more h. parse_states_enough more (suc (syn.size s)) s h (omega arith),
  )
