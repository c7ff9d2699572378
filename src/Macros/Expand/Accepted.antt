-- ===== src/Macros/Expand/Accepted.antt =====
-- The descriptions that edfsm-macros/src/expand.rs makes arms of.
use Prim.Native.String.{String}
use text.Mathlib.TextEquality.{eq_iff}
use edfsm.Prelude.{◌≡◌, refl, ap, ◌↔◌, Option, none, some, List, [], ◌∷◌, All, arith}
use mathlib.Core.Option.{some-injective}
use edfsm.Macros.Syntax.{Entry, Step, IgnoreCommand, IgnoreEvent, FsmItem}
use edfsm.Macros.Expand.{
  ident_from_type, state_or_any, optional_ident, target, entry_arm, entry_arms, event_arms,
  step_arms, steps_arms, ignored_commands, command_rest, ignored_events, event_rest, last_segment,
  is_fsm, check_trait, expand_arms,
}
use edfsm.Macros.Expand.WellFormed.{
  Succeeds, IsStep, IsEntry, IsIgnoredCommand, IsIgnoredEvent, IsFsmTrait, IsShaped, chain,
  chain_ok, iff_trans, ident_from_type-IsPlain, state_or_any-IsState, optional_ident-IsOptional,
  target-IsTarget, event_arms-IsAnchored,
}

is_fsm_iff :
    (s : String) → Succeeds (is_fsm (some s)) ↔ (◌≡◌ {A = Option String} (some s) (some "Fsm"))
is_fsm_iff s = (
  λ h. ap some ((eq_iff s "Fsm").0 (ground (arith, h))),
  λ h. (tt, ground (arith, (eq_iff s "Fsm").1 (some-injective s "Fsm" h))),
)

option_is_fsm_iff : (s : Option String) → Succeeds (is_fsm s) ↔ (s ≡ some "Fsm")
option_is_fsm_iff none = (λ h. cc, λ h. cc)
option_is_fsm_iff (some s) = is_fsm_iff s

check_trait-IsFsmTrait : (t : Option (List String)) → Succeeds (check_trait t) ↔ IsFsmTrait t
unfolding check_trait
check_trait-IsFsmTrait none = (λ h. cc, λ h. absurd h)
check_trait-IsFsmTrait (some segments) = option_is_fsm_iff (last_segment segments)

module _ (lower : String → String) where
  step_arms-IsStep : (s : Step) → Succeeds (step_arms lower s) ↔ IsStep s
  unfolding step_arms
  step_arms-IsStep s =
      iff_trans
        (chain (state_or_any s.from_state) _ (state_or_any-IsState s.from_state) (λ from f.
          chain (optional_ident s.command) _ (optional_ident-IsOptional s.command) (λ command _.
            chain (optional_ident s.event) _ (optional_ident-IsOptional s.event) (λ event g.
              chain (target s.to_state) _ (target-IsTarget s.to_state) (λ to h.
                chain_ok (event_arms lower from event to.0 to.1 s.on_change) _ (
                  event_arms-IsAnchored lower s.from_state s.event s.to_state from event to.0 to.1
                    s.on_change f g h))))))
        (
          λ (a, (b, (c, (d, e)))). record {
            from = a;
            command = b;
            event = c;
            to = d;
            anchored = e;
          },
          λ r. (r.from, (r.command, (r.event, (r.to, r.anchored)))),
        )

  steps_arms-IsStep : (l : List Step) → Succeeds (steps_arms lower l) ↔ All IsStep l
  unfolding steps_arms
  steps_arms-IsStep [] = (λ h. tt, λ h. (_, refl))
  steps_arms-IsStep (s ∷ l) =
      chain (step_arms lower s) _ (step_arms-IsStep s)
        (λ a _. chain_ok (steps_arms lower l) _ (steps_arms-IsStep l))

  entry_arm-IsEntry : (e : Entry) → Succeeds (entry_arm lower e) ↔ IsEntry e
  unfolding entry_arm
  entry_arm-IsEntry e = chain_ok (ident_from_type e.state) _ (ident_from_type-IsPlain e.state)

  entry_arms-IsEntry : (l : List Entry) → Succeeds (entry_arms lower l) ↔ All IsEntry l
  unfolding entry_arms
  entry_arms-IsEntry [] = (λ h. tt, λ h. (_, refl))
  entry_arms-IsEntry (e ∷ l) =
      chain (entry_arm lower e) _ (entry_arm-IsEntry e)
        (λ a _. chain_ok (entry_arms lower l) _ (entry_arms-IsEntry l))

swap_assoc {ℓ} : {A B C : Type ℓ} → (A × (B × C)) ↔ ((A × B) × C)
swap_assoc = (λ (a, (b, c)). ((a, b), c), λ ((a, b), c). (a, (b, c)))

ignored_commands_iff :
    (l : List IgnoreCommand) → Succeeds (ignored_commands l) ↔ All IsIgnoredCommand l
unfolding ignored_commands
ignored_commands_iff [] = (λ h. tt, λ h. (_, refl))
ignored_commands_iff (i ∷ l) =
    iff_trans
      (chain (state_or_any i.from_state) _ (state_or_any-IsState i.from_state) (λ from _.
        chain (ident_from_type i.command) _ (ident_from_type-IsPlain i.command)
          (λ command _. chain_ok (ignored_commands l) _ (ignored_commands_iff l))))
      swap_assoc

command_rest_iff : (l : List IgnoreCommand) → Succeeds (command_rest l) ↔ All IsIgnoredCommand l
unfolding command_rest
command_rest_iff [] = (λ h. tt, λ h. (_, refl))
command_rest_iff (i ∷ l) = ignored_commands_iff (i ∷ l)

ignored_events_iff : (l : List IgnoreEvent) → Succeeds (ignored_events l) ↔ All IsIgnoredEvent l
unfolding ignored_events
ignored_events_iff [] = (λ h. tt, λ h. (_, refl))
ignored_events_iff (i ∷ l) =
    iff_trans
      (chain (state_or_any i.from_state) _ (state_or_any-IsState i.from_state) (λ from _.
        chain (ident_from_type i.event) _ (ident_from_type-IsPlain i.event)
          (λ event _. chain_ok (ignored_events l) _ (ignored_events_iff l))))
      swap_assoc

event_rest_iff : (l : List IgnoreEvent) → Succeeds (event_rest l) ↔ All IsIgnoredEvent l
unfolding event_rest
event_rest_iff [] = (λ h. tt, λ h. (_, refl))
event_rest_iff (i ∷ l) = ignored_events_iff (i ∷ l)

-- The arms of a description whose types are as asked.
pub expand_arms-IsShaped :
    (lower : String → String) (fsm : FsmItem) → Succeeds (expand_arms lower fsm) ↔ IsShaped fsm
unfolding expand_arms
expand_arms-IsShaped lower fsm =
    iff_trans
      (chain (check_trait fsm.trait_path) _ (check_trait-IsFsmTrait fsm.trait_path) (λ _ _.
        chain (entry_arms lower fsm.entry_handlers) _ (entry_arms-IsEntry lower fsm.entry_handlers)
          (λ _ _. chain (steps_arms lower fsm.steps) _ (steps_arms-IsStep lower fsm.steps) (λ _ _.
            chain (command_rest fsm.ignore_commands) _ (command_rest_iff fsm.ignore_commands)
              (λ _ _.
                chain_ok (event_rest fsm.ignore_events) _ (event_rest_iff fsm.ignore_events))))))
      (
        λ (a, (b, (c, (d, e)))). record {
          trait_path = a;
          entries = b;
          steps = c;
          ignore_commands = d;
          ignore_events = e;
        },
        λ r. (r.trait_path, (r.entries, (r.steps, (r.ignore_commands, r.ignore_events)))),
      )
