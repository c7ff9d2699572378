-- ===== src/Macros/Parse/Targeted.antt =====
-- The target states that edfsm-macros/src/parse.rs gives to the expansion.
use Prim.Native.String.{String}
use text.Mathlib.Text.{◌==◌ as text_eq}
use edfsm.Prelude.{
  ℕ, zero, suc, ◌≡◌, refl, sym, ap, subst, ◌∙◌, Bool-cases, inl, inr, Option, some, List, [], ◌∷◌,
  ◌++◌, All,
}
use edfsm.Macros.Syntax.{
  Ty, Outcome, ok, err, >>=-eq-ok, ok-injective, TargetStates, CommandStep, EventStep, Step,
  command_as_step, event_as_step, FsmItem,
}
use edfsm.Macros.Parse.{
  Punct, Syn, cons_type, parse_states, parse_target_states, target_behind, event_behind,
  parse_command_step, peeked_target, peeked_action, parse_event_step, parse2,
}
use edfsm.Macros.Parse.Item.{Item, parse_fsm}
use edfsm.Macros.Parse.Declared.{steps_of, declared_step, declared_steps, parse_fsm-steps}
use edfsm.Macros.Parse.Fuel.{Outcome-cases}
use edfsm.Macros.Expand.NoPanic.{IsNonEmpty, IsTargeted, IsSafe}

steps_of-IsSafe :
    {A : Type 0} (f : A → Step) (x : Outcome A)
    → ((a : A) → x ≡ ok a → IsSafe (f a))
    → All IsSafe (steps_of f x)
steps_of-IsSafe f (ok a) h = (h a refl, tt)
steps_of-IsSafe f (err x) h = tt

All-append : (l k : List Step) → All IsSafe l → All IsSafe k → All IsSafe (l ++ k)
All-append [] k h g = g
All-append (s ∷ l) k (a, h) g = (a, All-append l k h g)

module _ {ℓ} {Stream : Type ℓ} (syn : Syn Stream) where
  cons_type-IsNonEmpty :
      (t : Ty) (x : Outcome (List Ty × Stream)) (r : List Ty × Stream)
      → cons_type syn t x ≡ ok r
      → IsNonEmpty r.0
  cons_type-IsNonEmpty t (ok (ts, input)) r h =
      subst (λ (p : List Ty × Stream). IsNonEmpty p.0) (ok-injective h) tt
  cons_type-IsNonEmpty t (err x) r h = cc

  parse_states-IsNonEmpty :
      (fuel : ℕ) (input : Stream) (r : List Ty × Stream)
      → parse_states syn fuel input ≡ ok r
      → IsNonEmpty r.0
  unfolding parse_states
  parse_states-IsNonEmpty zero input r h = cc
  parse_states-IsNonEmpty (suc fuel) input r h = elim (Outcome-cases (syn.parse_type input)) [
    | inl ((t, rest), e) ↦ cons_type-IsNonEmpty t _ r (rw (parse_states, e) at h)
    | inr (x, e) ↦ cc (rw (parse_states, e) at h)
  ]

  parse_target_states-IsNonEmpty :
      (input : Stream) (r : TargetStates × Stream)
      → parse_target_states syn input ≡ ok r
      → IsNonEmpty r.0.states
  unfolding parse_target_states
  parse_target_states-IsNonEmpty input r h =
      let (x, e, k) = >>=-eq-ok (parse_states syn (suc (syn.size input)) input) _ h in
      subst (λ (p : TargetStates × Stream). IsNonEmpty p.0.states) (ok-injective k)
        (parse_states-IsNonEmpty (suc (syn.size input)) input x e)

  target_behind-IsTargeted :
      (e : Ty) (before : Stream) (arrow : Outcome Stream) (r : Option TargetStates × Stream)
      → target_behind syn before arrow ≡ ok r
      → IsTargeted (some e) r.0
  target_behind-IsTargeted e before (ok input) r h =
      let (x, x_ok, k) = >>=-eq-ok (parse_target_states syn input) _ h in
      subst (λ (p : Option TargetStates × Stream). IsTargeted (some e) p.0) (ok-injective k)
        (parse_target_states-IsNonEmpty input x x_ok)
  target_behind-IsTargeted e before (err x) r h =
      subst (λ (p : Option TargetStates × Stream). IsTargeted (some e) p.0) (ok-injective h) tt

  event_behind-IsTargeted :
      (before : Stream) (arrow : Outcome Stream) (r : Option Ty × Option TargetStates × Stream)
      → event_behind syn before arrow ≡ ok r
      → IsTargeted r.0 r.1
  event_behind-IsTargeted before (ok input) r h =
      let (x, x_ok, k) = >>=-eq-ok (syn.parse_type input) _ h in
      let (y, y_ok, k₂) =
        >>=-eq-ok (target_behind syn x.1 (syn.parse_punct Punct.fat_arrow x.1)) _ k in
      subst (λ (p : Option Ty × Option TargetStates × Stream). IsTargeted p.0 p.1) (ok-injective k₂)
        (target_behind-IsTargeted x.0 x.1 (syn.parse_punct Punct.fat_arrow x.1) y y_ok)
  event_behind-IsTargeted before (err x) r h =
      subst (λ (p : Option Ty × Option TargetStates × Stream). IsTargeted p.0 p.1) (ok-injective h)
        tt

  parse_command_step-IsSafe :
      (input : Stream) (r : CommandStep × Stream)
      → parse_command_step syn input ≡ ok r
      → IsSafe (command_as_step r.0)
  unfolding parse_command_step command_as_step
  parse_command_step-IsSafe input r h =
      let (x, _, k) = >>=-eq-ok (syn.parse_type input) _ h in
      let (y, _, k₂) = >>=-eq-ok (syn.parse_punct Punct.fat_arrow x.1) _ k in
      let (z, _, k₃) = >>=-eq-ok (syn.parse_type y) _ k₂ in
      let (u, u_ok, k₄) =
        >>=-eq-ok (event_behind syn z.1 (syn.parse_punct Punct.fat_arrow z.1)) _ k₃ in
      subst (λ (p : CommandStep × Stream). IsTargeted p.0.event p.0.to_state) (ok-injective k₄)
        (event_behind-IsTargeted z.1 (syn.parse_punct Punct.fat_arrow z.1) u u_ok)

  peeked_target-IsTargeted :
      (e : Ty) (input : Stream) (r : Option TargetStates × Stream)
      → peeked_target syn input ≡ ok r
      → IsTargeted (some e) r.0
  unfolding peeked_target
  peeked_target-IsTargeted e input r h = elim (Bool-cases (syn.peek Punct.fat_arrow input)) [
    | inl arrow ↦
        let (x, _, k) =
          >>=-eq-ok (syn.parse_punct Punct.fat_arrow input) _ (rw (peeked_target, arrow) at h) in
        let (y, y_ok, k₂) = >>=-eq-ok (parse_target_states syn x) _ k in
        subst (λ (p : Option TargetStates × Stream). IsTargeted (some e) p.0) (ok-injective k₂)
          (parse_target_states-IsNonEmpty x y y_ok)
    | inr other ↦
        let k = rw (peeked_target, other) at h in
        subst (λ (p : Option TargetStates × Stream). IsTargeted (some e) p.0) (ok-injective k) tt
  ]

  parse_event_step-IsSafe :
      (input : Stream) (r : EventStep × Stream)
      → parse_event_step syn input ≡ ok r
      → IsSafe (event_as_step r.0)
  unfolding parse_event_step event_as_step
  parse_event_step-IsSafe input r h =
      let (x, _, k) = >>=-eq-ok (syn.parse_type input) _ h in
      let (y, _, k₂) = >>=-eq-ok (syn.parse_punct Punct.fat_arrow x.1) _ k in
      let (z, _, k₃) = >>=-eq-ok (syn.parse_type y) _ k₂ in
      let (u, u_ok, k₄) = >>=-eq-ok (peeked_target syn z.1) _ k₃ in
      let (v, _, k₅) = >>=-eq-ok (peeked_action syn u.1) _ k₄ in
      subst (λ (p : EventStep × Stream). IsTargeted p.0.event p.0.to_state) (ok-injective k₅)
        (peeked_target-IsTargeted z.0 z.1 u u_ok)

  parse2-ok :
      {A : Type 0} (parser : Stream → Outcome (A × Stream)) (input : Stream) (a : A)
      → parse2 syn parser input ≡ ok a
      → (rest : Stream) × (parser input ≡ ok (a, rest))
  unfolding parse2
  parse2-ok {A} parser input a h =
      let (x, x_ok, k) = >>=-eq-ok (parser input) _ h in
      elim (Bool-cases (syn.is_empty x.1)) [
        | inl e ↦ (x.1, x_ok ∙ ap (λ (b : A). ok (b, x.1)) (ok-injective (rw e at k)))
        | inr e ↦ cc (rw e at k)
      ]

  declared_step-IsSafe : (item : Item Stream) → All IsSafe (declared_step syn item)
  declared_step-IsSafe (Item.type_item n t) = tt
  declared_step-IsSafe (Item.macro_item n tokens) =
      let commands =
        steps_of-IsSafe command_as_step (parse2 syn (parse_command_step syn) tokens) (λ s h.
          let (rest, e) = parse2-ok (parse_command_step syn) tokens s h in
          parse_command_step-IsSafe tokens (s, rest) e) in
      let events = steps_of-IsSafe event_as_step (parse2 syn (parse_event_step syn) tokens) (λ s h.
        let (rest, e) = parse2-ok (parse_event_step syn) tokens s h in
        parse_event_step-IsSafe tokens (s, rest) e) in
      elim (Bool-cases (text_eq n "state")) [
        | inl a ↦ rw a tt
        | inr a ↦ elim (Bool-cases (text_eq n "command")) [
          | inl b ↦ rw (a, b) commands
          | inr b ↦ elim (Bool-cases (text_eq n "event")) [
            | inl c ↦ rw (a, b, c) events
            | inr c ↦ rw (a, b, c) tt
          ]
        ]
      ]
  declared_step-IsSafe Item.other_item = tt

  declared_steps-IsSafe : (items : List (Item Stream)) → All IsSafe (declared_steps syn items)
  declared_steps-IsSafe [] = tt
  declared_steps-IsSafe (item ∷ items) =
      All-append (declared_step syn item) (declared_steps syn items) (declared_step-IsSafe item)
        (declared_steps-IsSafe items)

  -- What is parsed has target states only beside an event, and then one at least.
  pub parse_fsm-IsSafe :
      (trait_path : Option (List String)) (items : List (Item Stream)) (fsm : FsmItem)
      → parse_fsm syn trait_path items ≡ ok fsm
      → All IsSafe fsm.steps
  parse_fsm-IsSafe trait_path items fsm h =
      subst (All IsSafe) (sym (parse_fsm-steps syn trait_path items fsm h))
        (declared_steps-IsSafe items)
