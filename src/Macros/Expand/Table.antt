-- ===== src/Macros/Expand/Table.antt =====
-- The generated code against the description that it is generated from, for
-- edfsm-macros/src/expand.rs: the first declared step that fits reacts.
use Prim.Native.String.{String}
use text.Mathlib.Text.{◌==◌ as text_eq}
use edfsm.Prelude.{
  ◌≡◌, refl, ap₂, subst, ◌∙◌, ◌&&◌, Option, none, some, List, [], ◌∷◌, ◌++◌, arith, if◌then◌else◌,
}
use edfsm.Macros.Syntax.{
  Ty, infer, path, other, ok, Step, IgnoreCommand, FsmItem, >>=-eq-ok, ok-injective,
}
use edfsm.Macros.Expand.{
  CommandArm, Arms, Expansion, ident_from_type, state_or_any, optional_ident, command_arms,
  handler_for, step_arms, steps_arms, command_rest, ignored_commands, expand_arms,
}
use edfsm.Macros.Expand.Run.{Code, fits, react, run_commands, or_none, generated}
use edfsm.Macros.Expand.Inversion.{step_arms-eq-ok, steps_arms-eq-ok, expand_arms-eq-ok}

-- The name that a type is, if it is one.
abbrev pub name_of : Ty → Option String
name_of (path (segment ∷ [])) = if segment.has_arguments then none else some segment.ident
name_of _ = none

abbrev pub optional_name : Option Ty → Option String
optional_name none = none
optional_name (some t) = name_of t

pub ident_from_type-eq-ok : (t : Ty) (i : String) → ident_from_type t ≡ ok i → name_of t ≡ some i
unfolding ident_from_type
ident_from_type-eq-ok (path (segment ∷ [])) i h = ground arith
ident_from_type-eq-ok (path []) i h = cc
ident_from_type-eq-ok (path (a ∷ b ∷ l)) i h = cc
ident_from_type-eq-ok infer i h = cc
ident_from_type-eq-ok other i h = cc

pub state_or_any-eq-ok : (t : Ty) (o : Option String) → state_or_any t ≡ ok o → name_of t ≡ o
unfolding state_or_any ident_from_type
state_or_any-eq-ok (path (segment ∷ [])) o h = ground arith
state_or_any-eq-ok (path []) o h = cc
state_or_any-eq-ok (path (a ∷ b ∷ l)) o h = cc
state_or_any-eq-ok infer o h = cc
state_or_any-eq-ok other o h = cc

pub optional_ident-eq-ok :
    (t : Option Ty) (o : Option String) → optional_ident t ≡ ok o → optional_name t ≡ o
unfolding optional_ident ident_from_type
optional_ident-eq-ok none o h = cc
optional_ident-eq-ok (some (path (segment ∷ []))) o h = ground arith
optional_ident-eq-ok (some (path [])) o h = cc
optional_ident-eq-ok (some (path (a ∷ b ∷ l))) o h = cc
optional_ident-eq-ok (some infer) o h = cc
optional_ident-eq-ok (some other) o h = cc

abbrev pub or_else {ℓ} : {A : Type ℓ} → Option A → Option A → Option A
or_else none b = b
or_else (some a) b = some a

pub or_none-or_else {ℓ} :
    {A : Type ℓ} (d : A) (a b : Option A) → or_none d b ≡ d → or_none d (or_else a b) ≡ or_none d a
or_none-or_else d none b h = h
or_none-or_else d (some a) b h = refl

-- arms that emit no event
abbrev Ignoring : List CommandArm → Type 0
Ignoring [] = Unit
Ignoring (CommandArm.handle from command handler event ∷ arms) = ⊥
Ignoring (CommandArm.ignore from command ∷ arms) = Ignoring arms
Ignoring (CommandArm.otherwise ∷ arms) = Ignoring arms

ignored_commands-Ignoring :
    (ignored : List IgnoreCommand) (arms : List CommandArm)
    → ignored_commands ignored ≡ ok arms
    → Ignoring arms
unfolding ignored_commands
ignored_commands-Ignoring [] arms h = subst Ignoring (ok-injective h) tt
ignored_commands-Ignoring (i ∷ ignored) arms h =
    let (from, from_ok, h₁) = >>=-eq-ok (state_or_any i.from_state) _ h in
    let (command, command_ok, h₂) = >>=-eq-ok (ident_from_type i.command) _ h₁ in
    let (rest, rest_ok, h₃) = >>=-eq-ok (ignored_commands ignored) _ h₂ in
    subst Ignoring (ok-injective h₃) (ignored_commands-Ignoring ignored rest rest_ok)

command_rest-Ignoring :
    (ignored : List IgnoreCommand) (arms : List CommandArm)
    → command_rest ignored ≡ ok arms
    → Ignoring arms
unfolding command_rest
command_rest-Ignoring [] arms h = subst Ignoring (ok-injective h) tt
command_rest-Ignoring (i ∷ ignored) arms h = ignored_commands-Ignoring (i ∷ ignored) arms h

pub steps_arms-nil :
    (lower : String → String) (a : Arms)
    → steps_arms lower [] ≡ ok a
    → record { commands = []; events = []; changes = [] } ≡ a
unfolding steps_arms
steps_arms-nil lower a h = cc

module _ {ℓ} {S C E SE : Type ℓ} (code : Code S C E SE) (lower : String → String) where
  -- One declared step, at a state and a command: `from => command [=> event …]`.
  abbrev pub reaction :
      Option String → Option String → Option String → S → C → SE → Option (Option E × SE)
  reaction from none event s c se = none
  reaction from (some command) event s c se =
      if fits from (code.state_name s) && text_eq command (code.command_name c)
      then some (react code (handler_for lower "for_" from command) event s c se)
      else none

  -- The first declared step that fits the state and the command.
  abbrev pub first_reaction : List Step → S → C → SE → Option (Option E × SE)
  first_reaction [] s c se = none
  first_reaction (step ∷ steps) s c se =
      or_else
        (reaction (name_of step.from_state) (optional_name step.command) (optional_name step.event)
          s c se)
        (first_reaction steps s c se)

  run_commands-append :
      (xs ys : List CommandArm) (s : S) (c : C) (se : SE)
      → run_commands code (xs ++ ys) s c se
        ≡ or_else (run_commands code xs s c se) (run_commands code ys s c se)
  unfolding run_commands
  run_commands-append [] ys s c se = refl
  run_commands-append (CommandArm.otherwise ∷ xs) ys s c se = refl
  run_commands-append (CommandArm.ignore from command ∷ xs) ys s c se =
      ground (arith, run_commands-append xs ys s c se)
  run_commands-append (CommandArm.handle from command handler event ∷ xs) ys s c se =
      ground (arith, run_commands-append xs ys s c se)

  run_commands-command_arms :
      (from command event : Option String) (s : S) (c : C) (se : SE)
      → run_commands code (command_arms lower from command event) s c se
        ≡ reaction from command event s c se
  unfolding run_commands command_arms
  run_commands-command_arms from none event s c se = refl
  run_commands-command_arms from (some command) event s c se = refl

  run_commands-step_arms :
      (step : Step) (a : Arms) (s : S) (c : C) (se : SE)
      → step_arms lower step ≡ ok a
      → run_commands code a.commands s c se
        ≡ reaction
            (name_of step.from_state)
            (optional_name step.command)
            (optional_name step.event)
            s
            c
            se
  run_commands-step_arms step a s c se h =
      let p = step_arms-eq-ok lower step a h in
      rw
        (
          ← p.result,
          state_or_any-eq-ok step.from_state p.from p.from_ok,
          optional_ident-eq-ok step.command p.command p.command_ok,
          optional_ident-eq-ok step.event p.event p.event_ok,
        )
        (run_commands-command_arms p.from p.command p.event s c se)

  run_commands-steps_arms :
      (steps : List Step) (a : Arms) (s : S) (c : C) (se : SE)
      → steps_arms lower steps ≡ ok a
      → run_commands code a.commands s c se ≡ first_reaction steps s c se
  run_commands-steps_arms [] a s c se h =
      rw (← steps_arms-nil lower a h) (unfold run_commands in refl)
  run_commands-steps_arms (step ∷ steps) a s c se h =
      let p = steps_arms-eq-ok lower step steps a h in
      rw (← p.result) (
        run_commands-append p.head.commands p.tail.commands s c se
        ∙ ap₂ or_else (run_commands-step_arms step p.head s c se p.head_ok)
            (run_commands-steps_arms steps p.tail s c se p.tail_ok))

  Ignoring-quiet :
      (arms : List CommandArm) (s : S) (c : C) (se : SE)
      → Ignoring arms
      → or_none (none, se) (run_commands code arms s c se) ≡ (none, se)
  unfolding run_commands
  Ignoring-quiet [] s c se h = refl
  Ignoring-quiet (CommandArm.otherwise ∷ arms) s c se h = refl
  Ignoring-quiet (CommandArm.ignore from command ∷ arms) s c se h =
      ground (arith, Ignoring-quiet arms s c se h)
  Ignoring-quiet (CommandArm.handle from command handler event ∷ arms) s c se h = absurd h

  -- The `for_command` that is generated, where the expansion succeeds, is the table of the
  -- description: the first declared step whose state, or `_`, and whose command fit calls the
  -- handler named for them, and gives its result in the step's event, or no event if the step
  -- names none. Where no step fits, there is no event and the effector is untouched.
  pub generated-for_command :
      (fsm : FsmItem) (x : Expansion) (s : S) (c : C) (se : SE)
      → expand_arms lower fsm ≡ ok x
      → (generated code x).for_command s c se ≡ or_none (none, se) (first_reaction fsm.steps s c se)
  unfolding generated
  generated-for_command fsm x s c se h =
      let p = expand_arms-eq-ok lower fsm x h in
      rw
        (
          ← p.result,
          run_commands-append p.arms.commands p.commands s c se,
          run_commands-steps_arms fsm.steps p.arms s c se p.arms_ok,
        )
        (or_none-or_else (none, se) (first_reaction fsm.steps s c se)
          (run_commands code p.commands s c se)
          (Ignoring-quiet p.commands s c se
            (command_rest-Ignoring fsm.ignore_commands p.commands p.commands_ok)))
