-- ===== src/Macros/Expand/Landing.antt =====
-- The states that the arms of `on_change` are for, in edfsm-macros/src/expand.rs.
use Prim.Native.String.{String}
use edfsm.Prelude.{
  ℕ, ◌≡◌, subst, ◌↔◌, Bool, true, false, Option, none, some, List, [], ◌∷◌, ◌++◌, All,
}
use edfsm.Macros.Syntax.{Ty, infer, path, other, Outcome, ok, ok-injective, TargetStates, Step}
use edfsm.Macros.Expand.{
  EventArm, ChangeArm, Arms, state_or_any, optional_ident, target, change_arms, event_arms,
  step_arms, steps_arms,
}
use edfsm.Macros.Expand.Inversion.{step_arms-eq-ok, steps_arms-eq-ok}
use edfsm.Macros.Expand.WellFormed.{
  IsLanding, IsActing, iff_trans, state_or_any-none, optional_ident-some, first_target-some,
}

abbrev pub IsPresent : Option String → Type 0
IsPresent none = ⊥
IsPresent (some s) = Unit

-- Each arm has a variant of the state; `State::(s)` is no pattern.
abbrev pub IsStated : List ChangeArm → Type 0
IsStated arms = All (λ (a : ChangeArm). IsPresent a.state) arms

second_of_ok :
    {a b : List EventArm} {c d : List ChangeArm}
    → ◌≡◌ {A = Outcome (List EventArm × List ChangeArm)} (ok (a, c)) (ok (b, d))
    → c ≡ d
second_of_ok h = cc h

-- What the arms of a step say of it: an arm without a state is one for a step that has no state.
abbrev IsPlaced : Bool → Option String → Option String → Option String → Type 0
IsPlaced true none (some event) none = ⊥
IsPlaced _ _ _ _ = Unit

IsPlaced-from :
    (action : Bool) (from : String) (event to : Option String)
    → IsPlaced action (some from) event to
IsPlaced-from true from event to = tt
IsPlaced-from false from event to = tt

IsPlaced-to :
    (action : Bool) (from : Option String) (event to : String)
    → IsPlaced action from (some event) (some to)
IsPlaced-to true none event to = tt
IsPlaced-to true (some from) event to = tt
IsPlaced-to false from event to = tt

IsPlaced-still : (action : Bool) (from : Option String) → IsPlaced action from none none
IsPlaced-still true none = tt
IsPlaced-still true (some from) = tt
IsPlaced-still false from = tt

same_truth {ℓ κ} : {A : Type ℓ} {B : Type κ} → A → B → A ↔ B
same_truth a b = (λ h. b, λ h. a)

IsPlaced-IsLanding :
    (t : Ty) (e : Option Ty) (ts : Option TargetStates) (from event to : Option String) (n : ℕ)
    (action : Bool)
    → state_or_any t ≡ ok from
    → optional_ident e ≡ ok event
    → target ts ≡ ok (to, n)
    → IsPlaced action from event to ↔ IsLanding action t e ts
unfolding target state_or_any optional_ident
IsPlaced-IsLanding t e ts from event to n false f g h = same_truth tt tt
IsPlaced-IsLanding (path l) e ts none event to n true f g h = absurd (state_or_any-none l f)
IsPlaced-IsLanding (path l) e ts (some from) event to n true f g h = same_truth tt tt
IsPlaced-IsLanding other e ts from event to n true f g h = cc
IsPlaced-IsLanding infer e ts (some from) event to n true f g h = cc
IsPlaced-IsLanding infer none ts none (some event) to n true f g h = cc
IsPlaced-IsLanding infer none ts none none to n true f g h = same_truth tt tt
IsPlaced-IsLanding infer (some e) ts none none to n true f g h = absurd (optional_ident-some e g)
IsPlaced-IsLanding infer (some e) none none (some event) none n true f g h = (λ k. k, λ k. k)
IsPlaced-IsLanding infer (some e) none none (some event) (some to) n true f g h = cc
IsPlaced-IsLanding infer (some e) (some ts) none (some event) none n true f g h =
    absurd (first_target-some ts.states n h)
IsPlaced-IsLanding infer (some e) (some ts) none (some event) (some to) n true f g h =
    same_truth tt tt

All-append_iff : (l k : List ChangeArm) → IsStated (l ++ k) ↔ (IsStated l × IsStated k)
All-append_iff [] k = (λ h. (tt, h), λ h. h.1)
All-append_iff (a ∷ l) k =
    let ih = All-append_iff l k in
    (λ h. ((h.0, (ih.0 h.1).0), (ih.0 h.1).1), λ h. (h.0.0, ih.1 (h.0.1, h.1)))

module _ (lower : String → String) where
  change_arms-IsPlaced :
      (action : Bool) (state event : String)
      → IsStated (change_arms lower action (some state) event)
  unfolding change_arms
  change_arms-IsPlaced true state event = (tt, tt)
  change_arms-IsPlaced false state event = tt

  event_arms-IsPlaced :
      (from event to : Option String) (n : ℕ) (action : Bool) (events : List EventArm)
      (changes : List ChangeArm)
      → event_arms lower from event to n action ≡ ok (events, changes)
      → IsStated changes ↔ IsPlaced action from event to
  unfolding event_arms change_arms
  event_arms-IsPlaced (some from) (some event) (some to) n action events changes h =
      rw (← second_of_ok h) (
        same_truth (change_arms-IsPlaced action to event) (IsPlaced-to action (some from) event to))
  event_arms-IsPlaced none (some event) (some to) n action events changes h =
      rw (← second_of_ok h)
        (same_truth (change_arms-IsPlaced action to event) (IsPlaced-to action none event to))
  event_arms-IsPlaced (some from) none (some to) n action events changes h =
      rw (← second_of_ok h) (same_truth tt (IsPlaced-from action from none (some to)))
  event_arms-IsPlaced none none (some to) n action events changes h = cc
  event_arms-IsPlaced (some from) (some event) none n action events changes h =
      rw (← second_of_ok h) (
        same_truth (change_arms-IsPlaced action from event)
          (IsPlaced-from action from (some event) none))
  event_arms-IsPlaced none (some event) none n true events changes h =
      rw (← second_of_ok h) (λ k. k.0, λ k. absurd k)
  event_arms-IsPlaced none (some event) none n false events changes h =
      rw (← second_of_ok h) (same_truth tt tt)
  event_arms-IsPlaced from none none n action events changes h =
      rw (← second_of_ok h) (same_truth tt (IsPlaced-still action from))

  step_arms-IsActing :
      (s : Step) (a : Arms) → step_arms lower s ≡ ok a → IsStated a.changes ↔ IsActing s
  step_arms-IsActing s a h =
      let p = step_arms-eq-ok lower s a h in
      rw (← p.result) (
        iff_trans
          (event_arms-IsPlaced p.from p.event p.to p.count s.on_change p.events p.changes p.arms_ok)
          (IsPlaced-IsLanding s.from_state s.event s.to_state p.from p.event p.to p.count
            s.on_change p.from_ok p.event_ok p.target_ok))

  -- The arms of `on_change` have their states exactly where each action has one that it is for.
  pub steps_arms-IsActing :
      (l : List Step) (a : Arms) → steps_arms lower l ≡ ok a → IsStated a.changes ↔ All IsActing l
  unfolding steps_arms
  steps_arms-IsActing [] a h =
      subst (λ b. IsStated b.changes ↔ Unit {0}) (ok-injective h) (same_truth tt tt)
  steps_arms-IsActing (s ∷ l) a h =
      let p = steps_arms-eq-ok lower s l a h in
      let head = step_arms-IsActing s p.head p.head_ok in
      let tail = steps_arms-IsActing l p.tail p.tail_ok in
      rw (← p.result) (
        iff_trans (All-append_iff p.head.changes p.tail.changes)
          (λ (a, b). (head.0 a, tail.0 b), λ (a, b). (head.1 a, tail.1 b)))
