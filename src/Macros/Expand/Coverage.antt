-- ===== src/Macros/Expand/Coverage.antt =====
-- When the `match` expressions that edfsm-macros/src/expand.rs generates cover every case.
use Prim.Native.String.{String}
use edfsm.Prelude.{Bool, ◌≡◌, ◌≢◌, sym, ap, ◌∙◌, none, List, [], ◌∷◌, ◌++◌, arith}
use edfsm.Macros.Syntax.{ok, FsmItem, IgnoreCommand, IgnoreEvent}
use edfsm.Macros.Expand.{
  CommandArm, EventArm, Expansion, ImplItem, command_rest, event_rest, expand,
}
use edfsm.Macros.Expand.Run.{Code, run_commands, run_events}
use edfsm.Macros.Expand.Inversion.{expand_arms-eq-ok, expand-expand_arms}

command_rest_none :
    (ignored : List IgnoreCommand) (arms : List CommandArm)
    → ignored ≡ []
    → command_rest ignored ≡ ok arms
    → arms ≡ CommandArm.otherwise ∷ []
unfolding command_rest
command_rest_none [] arms h k = cc
command_rest_none (i ∷ rest) arms h k = cc

event_rest_none :
    (ignored : List IgnoreEvent) (arms : List EventArm)
    → ignored ≡ []
    → event_rest ignored ≡ ok arms
    → arms ≡ EventArm.otherwise ∷ []
unfolding event_rest
event_rest_none [] arms h k = cc
event_rest_none (i ∷ rest) arms h k = cc

module _ {ℓ} {S C E SE : Type ℓ} (code : Code S C E SE) where
  run_commands-otherwise :
      (arms : List CommandArm) (s : S) (c : C) (se : SE)
      → run_commands code (arms ++ CommandArm.otherwise ∷ []) s c se ≢ none
  unfolding run_commands
  run_commands-otherwise [] s c se = λ h. cc
  run_commands-otherwise (CommandArm.handle from command handler event ∷ arms) s c se =
      ground (arith, run_commands-otherwise arms s c se)
  run_commands-otherwise (CommandArm.ignore from command ∷ arms) s c se =
      ground (arith, run_commands-otherwise arms s c se)
  run_commands-otherwise (CommandArm.otherwise ∷ arms) s c se = λ h. cc

  run_events-otherwise :
      (arms : List EventArm) (s : S) (e : E)
      → run_events code (arms ++ EventArm.otherwise ∷ []) s e ≢ none
  unfolding run_events
  run_events-otherwise [] s e = λ h. cc
  run_events-otherwise (EventArm.otherwise ∷ arms) s e = λ h. cc
  run_events-otherwise (EventArm.ignore from event ∷ arms) s e =
      ground (arith, run_events-otherwise arms s e)
  run_events-otherwise (EventArm.update_if from event handler ∷ arms) s e =
      ground (arith, run_events-otherwise arms s e)
  run_events-otherwise (EventArm.transition from event handler to ∷ arms) s e =
      ground (arith, run_events-otherwise arms s e)
  run_events-otherwise (EventArm.decide from event handler ∷ arms) s e =
      ground (arith, run_events-otherwise arms s e)
  run_events-otherwise (EventArm.update from event handler ∷ arms) s e =
      ground (arith, run_events-otherwise arms s e)

  -- A description that ignores no command and no event explicitly expands to `match` expressions
  -- that cover every state with every command, and with every event.
  pub expand_covers :
      (reads : ImplItem → Bool) (lower : String → String) (fsm : FsmItem) (x : Expansion)
      → expand reads lower fsm ≡ ok x
      → fsm.ignore_commands ≡ []
      → fsm.ignore_events ≡ []
      → (s : S)
      → ((c : C) (se : SE) → run_commands code x.arms.commands s c se ≢ none)
        × ((e : E) → run_events code x.arms.events s e ≢ none)
  expand_covers reads lower fsm x h no_commands no_events s =
      let p = expand_arms-eq-ok lower fsm x (expand-expand_arms reads lower fsm x h) in
      let commands : x.arms.commands ≡ p.arms.commands ++ CommandArm.otherwise ∷ [] =
        ap (λ (y : Expansion). y.arms.commands) (sym p.result)
        ∙ ap (λ l. p.arms.commands ++ l)
            (command_rest_none fsm.ignore_commands p.commands no_commands p.commands_ok) in
      let events : x.arms.events ≡ p.arms.events ++ EventArm.otherwise ∷ [] =
        ap (λ (y : Expansion). y.arms.events) (sym p.result)
        ∙ ap (λ l. p.arms.events ++ l)
            (event_rest_none fsm.ignore_events p.events no_events p.events_ok) in
      (
        λ c se. rw commands (run_commands-otherwise p.arms.commands s c se),
        λ e. rw events (run_events-otherwise p.arms.events s e),
      )
