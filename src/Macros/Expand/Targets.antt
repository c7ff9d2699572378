-- ===== src/Macros/Expand/Targets.antt =====
-- The target states of a description that edfsm-macros/src/expand.rs accepts.
use Prim.Native.String.{String}
use edfsm.Prelude.{ℕ, ◌≡◌, Option, none, some, List, [], ◌∷◌, All}
use edfsm.Macros.Syntax.{Ty, ok, >>=-eq-ok, TargetStates, Step, FsmItem}
use edfsm.Macros.Expand.{
  ident_from_type, target, first_target, steps_arms, Arms, Expansion, expand_arms,
}
use edfsm.Macros.Expand.Inversion.{step_arms-eq-ok, steps_arms-eq-ok, expand_arms-eq-ok}
use edfsm.Macros.Expand.Table.{name_of, ident_from_type-eq-ok}

-- The first type is there, and is the name of a state.
abbrev pub FirstIsName : List Ty → Type 0
FirstIsName [] = ⊥
FirstIsName (t ∷ rest) = (i : String) × (name_of t ≡ some i)

abbrev pub TargetIsName : Option TargetStates → Type 0
TargetIsName none = Unit
TargetIsName (some ts) = FirstIsName ts.states

abbrev pub NamesTarget : Step → Type 0
NamesTarget s = TargetIsName s.to_state

first_target-FirstIsName :
    (l : List Ty) (r : Option String × ℕ) → first_target l ≡ ok r → FirstIsName l
unfolding first_target
first_target-FirstIsName [] r h = cc
first_target-FirstIsName (t ∷ rest) r h =
    let (i, i_ok, _) = >>=-eq-ok (ident_from_type t) _ h in (i, ident_from_type-eq-ok t i i_ok)

target-TargetIsName :
    (t : Option TargetStates) (r : Option String × ℕ) → target t ≡ ok r → TargetIsName t
unfolding target
target-TargetIsName none r h = tt
target-TargetIsName (some ts) r h = first_target-FirstIsName ts.states r h

module _ (lower : String → String) where
  steps_arms-NamesTarget :
      (steps : List Step) (a : Arms) → steps_arms lower steps ≡ ok a → All NamesTarget steps
  steps_arms-NamesTarget [] a h = tt
  steps_arms-NamesTarget (s ∷ steps) a h =
      let p = steps_arms-eq-ok lower s steps a h in
      let q = step_arms-eq-ok lower s p.head p.head_ok in
      (
        target-TargetIsName s.to_state (q.to, q.count) q.target_ok,
        steps_arms-NamesTarget steps p.tail p.tail_ok,
      )

  -- Where the expansion succeeds, each step that has target states has a first one, and it is the
  -- plain name of a state: never `_`, and never a path of several segments or with arguments.
  pub expand_arms-NamesTarget :
      (fsm : FsmItem) (x : Expansion) → expand_arms lower fsm ≡ ok x → All NamesTarget fsm.steps
  expand_arms-NamesTarget fsm x h =
      let p = expand_arms-eq-ok lower fsm x h in steps_arms-NamesTarget fsm.steps p.arms p.arms_ok
