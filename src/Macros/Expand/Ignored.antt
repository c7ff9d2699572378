-- ===== src/Macros/Expand/Ignored.antt =====
-- The arms of ignored events in edfsm-macros/src/expand.rs.
use edfsm.Prelude.{◌≡◌, refl, subst, none, List, [], ◌∷◌, arith}
use edfsm.Macros.Syntax.{ok, IgnoreEvent, >>=-eq-ok, ok-injective}
use edfsm.Macros.Expand.{EventArm, ident_from_type, state_or_any, event_rest, ignored_events}
use edfsm.Macros.Expand.Run.{Code, run_events, or_none}

-- arms that change nothing
abbrev pub Ignoring : List EventArm → Type 0
Ignoring [] = Unit
Ignoring (EventArm.ignore from event ∷ arms) = Ignoring arms
Ignoring (EventArm.otherwise ∷ arms) = Ignoring arms
Ignoring _ = ⊥

ignored_events-Ignoring :
    (ignored : List IgnoreEvent) (arms : List EventArm)
    → ignored_events ignored ≡ ok arms
    → Ignoring arms
unfolding ignored_events
ignored_events-Ignoring [] arms h = subst Ignoring (ok-injective h) tt
ignored_events-Ignoring (i ∷ ignored) arms h =
    let (from, from_ok, h₁) = >>=-eq-ok (state_or_any i.from_state) _ h in
    let (event, event_ok, h₂) = >>=-eq-ok (ident_from_type i.event) _ h₁ in
    let (rest, rest_ok, h₃) = >>=-eq-ok (ignored_events ignored) _ h₂ in
    subst Ignoring (ok-injective h₃) (ignored_events-Ignoring ignored rest rest_ok)

pub event_rest-Ignoring :
    (ignored : List IgnoreEvent) (arms : List EventArm)
    → event_rest ignored ≡ ok arms
    → Ignoring arms
unfolding event_rest
event_rest-Ignoring [] arms h = subst Ignoring (ok-injective h) tt
event_rest-Ignoring (i ∷ ignored) arms h = ignored_events-Ignoring (i ∷ ignored) arms h

pub Ignoring-quiet {ℓ} :
    {S C E SE : Type ℓ} (code : Code S C E SE) (arms : List EventArm) (s : S) (e : E)
    → Ignoring arms
    → or_none (s, none) (run_events code arms s e) ≡ (s, none)
unfolding run_events
Ignoring-quiet code [] s e h = refl
Ignoring-quiet code (EventArm.otherwise ∷ arms) s e h = refl
Ignoring-quiet code (EventArm.ignore from event ∷ arms) s e h =
    ground (arith, Ignoring-quiet code arms s e h)
Ignoring-quiet code (EventArm.update_if from event handler ∷ arms) s e h = absurd h
Ignoring-quiet code (EventArm.transition from event handler to ∷ arms) s e h = absurd h
Ignoring-quiet code (EventArm.decide from event handler ∷ arms) s e h = absurd h
Ignoring-quiet code (EventArm.update from event handler ∷ arms) s e h = absurd h
