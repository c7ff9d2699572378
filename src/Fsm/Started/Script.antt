-- ===== src/Fsm/Started/Script.antt =====
-- The function `test_step` of edfsm/src/lib.rs, as a program over a machine like that of the test module.
use edfsm.Prelude.{ℕ, ◌==◌, Bool, true, false, ◌&&◌, Option, none, some, if◌then◌else◌}
use edfsm.Fsm.{Fsm, Input, command, event, step}
use edfsm.Fsm.Started.{
  State, idle, running, Command, start, stop, Event, started, stopped, EffectHandlers, fresh,
}

-- `matches!(e, Some(…))` and `e.is_none()`
abbrev pub same_event : Option Event → Option Event → Bool
same_event none none = true
same_event (some started) (some started) = true
same_event (some stopped) (some stopped) = true
same_event _ _ = false

-- the three `assert_eq!`
abbrev pub counts : EffectHandlers → ℕ → ℕ → ℕ → Bool
counts se a b c = se.started == a && se.stopped == b && se.transitioned_stopped_to_started == c

-- One `MyFsm::step`, at a state of its own, with the assertions behind it; a failed assertion is
-- `none`.
unfoldable pub asserted :
    Fsm State Command Event EffectHandlers
    → State
    → Input Command Event
    → Option Event
    → ℕ
    → ℕ
    → ℕ
    → EffectHandlers
    → Option EffectHandlers
unfolding step
asserted m s i expected a b c se =
    let (e, s', se') = step m s i se in
    if same_event e expected && counts se' a b c then some se' else none

-- A failed assertion ends the test.
infixl 10 ◌>>=◌
abbrev ◌>>=◌ :
    Option EffectHandlers → (EffectHandlers → Option EffectHandlers) → Option EffectHandlers
none >>= rest = none
some se >>= rest = rest se

-- stepping through various states given commands
unfoldable pub commands_tested : Fsm State Command Event EffectHandlers → Option EffectHandlers
unfolding asserted
commands_tested m = do
  se ← asserted m idle (command start) (some started) 1 0 1 fresh
  se ← asserted m running (command start) none 1 0 1 se
  se ← asserted m running (command stop) (some stopped) 1 1 1 se
  asserted m idle (command stop) none 1 1 1 se

-- stepping through various states given events
unfoldable pub events_tested : Fsm State Command Event EffectHandlers → Option EffectHandlers
unfolding asserted
events_tested m = do
  se ← asserted m idle (event started) (some started) 1 0 1 fresh
  se ← asserted m running (event started) none 1 0 1 se
  se ← asserted m running (event stopped) (some stopped) 1 1 1 se
  asserted m idle (event stopped) none 1 1 1 se
