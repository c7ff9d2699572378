-- ===== src/Macros/Expand/NoPanic.antt =====
-- Panics in edfsm-macros/src/expand.rs.
use Prim.Native.String.{String}
use edfsm.Prelude.{ℕ, ◌≡◌, Bool, Option, none, some, List, [], ◌∷◌, All, arith}
use edfsm.Macros.Syntax.{
  Ty, infer, path, other, ok, Calm, >>=-Calm, ok-Calm, Entry, TargetStates, Step, IgnoreCommand,
  IgnoreEvent, FsmItem,
}
use edfsm.Macros.Expand.{
  ident_from_type, state_or_any, optional_ident, first_target, target, entry_arm, entry_arms,
  event_arms, step_arms, steps_arms, ignored_commands, command_rest, ignored_events, event_rest,
  last_segment, is_fsm, check_trait, expand_arms,
}
use edfsm.Macros.Expand.WellFormed.{optional_ident-some}

abbrev pub IsNonEmpty {ℓ} : {A : Type ℓ} → List A → Type 0
IsNonEmpty [] = ⊥
IsNonEmpty (a ∷ l) = Unit

-- Target states come with an event, and there is one at least.
abbrev pub IsTargeted : Option Ty → Option TargetStates → Type 0
IsTargeted e none = Unit
IsTargeted none (some ts) = ⊥
IsTargeted (some e) (some ts) = IsNonEmpty ts.states

abbrev pub IsSafe : Step → Type 0
IsSafe s = IsTargeted s.event s.to_state

ident_from_type-Calm : (t : Ty) → Calm (ident_from_type t)
unfolding ident_from_type
ident_from_type-Calm (path (segment ∷ [])) = λ h. ground arith
ident_from_type-Calm (path []) = λ h. cc
ident_from_type-Calm (path (a ∷ b ∷ l)) = λ h. cc
ident_from_type-Calm infer = λ h. cc
ident_from_type-Calm other = λ h. cc

state_or_any-Calm : (t : Ty) → Calm (state_or_any t)
unfolding state_or_any
state_or_any-Calm infer = λ h. cc
state_or_any-Calm (path l) =
    >>=-Calm (ident_from_type (path l)) _ (ident_from_type-Calm (path l)) (λ i _. ok-Calm (some i))
state_or_any-Calm other =
    >>=-Calm (ident_from_type other) _ (ident_from_type-Calm other) (λ i _. ok-Calm (some i))

optional_ident-Calm : (t : Option Ty) → Calm (optional_ident t)
unfolding optional_ident
optional_ident-Calm none = λ h. cc
optional_ident-Calm (some t) =
    >>=-Calm (ident_from_type t) _ (ident_from_type-Calm t) (λ i _. ok-Calm (some i))

first_target-Calm : (l : List Ty) → IsNonEmpty l → Calm (first_target l)
unfolding first_target
first_target-Calm [] h = absurd h
first_target-Calm (t ∷ l) h =
    >>=-Calm (ident_from_type t) _ (ident_from_type-Calm t) (λ i _. ok-Calm _)

target-Calm : (e : Option Ty) (t : Option TargetStates) → IsTargeted e t → Calm (target t)
unfolding target
target-Calm e none h = λ k. cc
target-Calm none (some ts) h = absurd h
target-Calm (some e) (some ts) h = first_target-Calm ts.states h

module _ (lower : String → String) where
  event_arms-Calm :
      (e : Option Ty) (t : Option TargetStates) (from event to : Option String) (n : ℕ)
      (action : Bool)
      → IsTargeted e t
      → optional_ident e ≡ ok event
      → target t ≡ ok (to, n)
      → Calm (event_arms lower from event to n action)
  unfolding event_arms target
  event_arms-Calm e t (some from) (some event) (some to) n action s g h = λ k. cc
  event_arms-Calm e t (some from) none (some to) n action s g h = λ k. cc
  event_arms-Calm e t none (some event) (some to) n action s g h = λ k. cc
  event_arms-Calm e none none none (some to) n action s g h = cc
  event_arms-Calm none (some ts) none none (some to) n action s g h = absurd s
  event_arms-Calm (some e) (some ts) none none (some to) n action s g h =
      absurd (optional_ident-some e g)
  event_arms-Calm e t (some from) (some event) none n action s g h = λ k. cc
  event_arms-Calm e t none (some event) none n action s g h = λ k. cc
  event_arms-Calm e t from none none n action s g h = λ k. cc

  step_arms-Calm : (s : Step) → IsSafe s → Calm (step_arms lower s)
  unfolding step_arms
  step_arms-Calm s safe =
      >>=-Calm (state_or_any s.from_state) _ (state_or_any-Calm s.from_state) (λ from _.
        >>=-Calm (optional_ident s.command) _ (optional_ident-Calm s.command) (λ command _.
          >>=-Calm (optional_ident s.event) _ (optional_ident-Calm s.event) (λ event g.
            >>=-Calm (target s.to_state) _ (target-Calm s.event s.to_state safe) (λ to h.
              >>=-Calm (event_arms lower from event to.0 to.1 s.on_change) _
                (event_arms-Calm s.event s.to_state from event to.0 to.1 s.on_change safe g h)
                (λ arms _. ok-Calm _)))))

  steps_arms-Calm : (l : List Step) → All IsSafe l → Calm (steps_arms lower l)
  unfolding steps_arms
  steps_arms-Calm [] h = λ k. cc
  steps_arms-Calm (s ∷ l) (safe, h) =
      >>=-Calm (step_arms lower s) _ (step_arms-Calm s safe)
        (λ a _. >>=-Calm (steps_arms lower l) _ (steps_arms-Calm l h) (λ b _. ok-Calm _))

  entry_arm-Calm : (e : Entry) → Calm (entry_arm lower e)
  unfolding entry_arm
  entry_arm-Calm e =
      >>=-Calm (ident_from_type e.state) _ (ident_from_type-Calm e.state) (λ i _. ok-Calm _)

  entry_arms-Calm : (l : List Entry) → Calm (entry_arms lower l)
  unfolding entry_arms
  entry_arms-Calm [] = λ k. cc
  entry_arms-Calm (e ∷ l) =
      >>=-Calm (entry_arm lower e) _ (entry_arm-Calm e)
        (λ a _. >>=-Calm (entry_arms lower l) _ (entry_arms-Calm l) (λ b _. ok-Calm _))

ignored_commands-Calm : (l : List IgnoreCommand) → Calm (ignored_commands l)
unfolding ignored_commands
ignored_commands-Calm [] = λ k. cc
ignored_commands-Calm (i ∷ l) =
    >>=-Calm (state_or_any i.from_state) _ (state_or_any-Calm i.from_state) (λ _ _.
      >>=-Calm (ident_from_type i.command) _ (ident_from_type-Calm i.command)
        (λ _ _. >>=-Calm (ignored_commands l) _ (ignored_commands-Calm l) (λ _ _. ok-Calm _)))

command_rest-Calm : (l : List IgnoreCommand) → Calm (command_rest l)
unfolding command_rest
command_rest-Calm [] = λ k. cc
command_rest-Calm (i ∷ l) = ignored_commands-Calm (i ∷ l)

ignored_events-Calm : (l : List IgnoreEvent) → Calm (ignored_events l)
unfolding ignored_events
ignored_events-Calm [] = λ k. cc
ignored_events-Calm (i ∷ l) =
    >>=-Calm (state_or_any i.from_state) _ (state_or_any-Calm i.from_state) (λ _ _.
      >>=-Calm (ident_from_type i.event) _ (ident_from_type-Calm i.event)
        (λ _ _. >>=-Calm (ignored_events l) _ (ignored_events-Calm l) (λ _ _. ok-Calm _)))

event_rest-Calm : (l : List IgnoreEvent) → Calm (event_rest l)
unfolding event_rest
event_rest-Calm [] = λ k. cc
event_rest-Calm (i ∷ l) = ignored_events-Calm (i ∷ l)

is_fsm-Calm : (s : Option String) → Calm (is_fsm s)
is_fsm-Calm none = λ k. cc
is_fsm-Calm (some s) = λ k. ground arith

check_trait-Calm : (t : Option (List String)) → Calm (check_trait t)
unfolding check_trait
check_trait-Calm none = λ k. cc
check_trait-Calm (some segments) = is_fsm-Calm (last_segment segments)

-- A description whose steps have target states only beside an event, and then one at least, expands,
-- or not, without a panic.
pub expand_arms-Calm :
    (lower : String → String) (fsm : FsmItem) → All IsSafe fsm.steps → Calm (expand_arms lower fsm)
unfolding expand_arms
expand_arms-Calm lower fsm safe =
    >>=-Calm (check_trait fsm.trait_path) _ (check_trait-Calm fsm.trait_path) (λ _ _.
      >>=-Calm (entry_arms lower fsm.entry_handlers) _ (entry_arms-Calm lower fsm.entry_handlers)
        (λ _ _.
          >>=-Calm (steps_arms lower fsm.steps) _ (steps_arms-Calm lower fsm.steps safe) (λ _ _.
            >>=-Calm (command_rest fsm.ignore_commands) _ (command_rest-Calm fsm.ignore_commands)
              (λ _ _.
                >>=-Calm (event_rest fsm.ignore_events) _ (event_rest-Calm fsm.ignore_events)
                  (λ _ _. ok-Calm _)))))
