-- ===== src/Fsm/Tests.antt =====
-- The state machine of the tests of edfsm/src/lib.rs, and the theorems at it.
use edfsm.Prelude.{ℕ, suc, ◌≡◌, refl, Option, none, some}
use edfsm.Fsm.{command, event, Change, transitioned, Fsm, step, replay}
use edfsm.Fsm.Step.{IsQuiet, reported, step-replay}

data State : Type 0 where
  idle running : State

data Command : Type 0 where
  start stop : Command

data Event : Type 0 where
  started stopped : Event

-- struct EffectHandlers
record Handlers : Type 0 where
  starts : ℕ
  stops : ℕ
  entries : ℕ

abbrev for_command : State → Command → Handlers → Option Event × Handlers
for_command running stop se = (some stopped, se)
for_command idle start se = (some started, se)
for_command _ _ se = (none, se)

abbrev on_event : State → Event → State × Option Change
on_event running stopped = (idle, some transitioned)
on_event idle started = (running, some transitioned)
on_event s _ = (s, none)

abbrev on_entry : State → Handlers → Change → Handlers
on_entry running se transitioned = record se { entries = suc se.entries }
on_entry _ se _ = se

abbrev react : State → Event → Handlers → Handlers
react idle stopped se = record se { stops = suc se.stops }
react running started se = record se { starts = suc se.starts }
react _ _ se = se

abbrev my_fsm : Fsm State Command Event Handlers
my_fsm = record {
  for_command = for_command;
  on_event = on_event;
  on_change = λ s e se c. react s e (on_entry s se c);
}

abbrev fresh : Handlers
fresh = record { starts = 0; stops = 0; entries = 0 }

-- the assertions of `test_step`
start_idle :
    step my_fsm idle (command start) fresh
    ≡ (some started, running, record { starts = 1; stops = 0; entries = 1 })
unfolding step
start_idle = refl

start_running : step my_fsm running (command start) fresh ≡ (none, running, fresh)
unfolding step
start_running = refl

stop_running :
    step my_fsm running (event stopped) fresh
    ≡ (some stopped, idle, record { starts = 0; stops = 1; entries = 0 })
unfolding step
stop_running = refl

my_fsm_quiet : (s : State) (e : Event) → (on_event s e).1 ≡ none → (on_event s e).0 ≡ s
my_fsm_quiet running stopped h = cc
my_fsm_quiet running started h = refl
my_fsm_quiet idle started h = cc
my_fsm_quiet idle stopped h = refl

my_fsm-IsQuiet : IsQuiet my_fsm
my_fsm-IsQuiet = record { quiet = my_fsm_quiet }

step-replay_example :
    (step my_fsm idle (command start) fresh).1
    ≡ replay my_fsm idle (reported (step my_fsm idle (command start) fresh).0)
step-replay_example = step-replay my_fsm my_fsm-IsQuiet idle (command start) fresh
