-- ===== src/KvStore/Durable/Tests.antt =====
-- A store of counters as a task, with vectors as its log, observer and output: two ticks, a restart's
-- history, and what the store holds.
use edfsm.Prelude.{
  ℕ, ◌+◌, ◌≡◌, refl, Bool, true, false, none, some, List, [], ◌∷◌, nat_ord, list_ord,
}
use edfsm.Fsm.{Input, event, updated, Fsm, Terminating, step}
use edfsm.Fsm.Step.{IsQuiet}
use edfsm.Machine.Action.{Result, Error, ok}
use edfsm.Machine.Adapter.{vec, notify, clone_notify, notify_all, feed, history, hydrator}
use edfsm.Machine.Output.{OutputBuffer, default, output_drain, push}
use edfsm.Machine.Task.{
  Channel, Template, Run, task, hydrate, initialise, flush, main_loop, round, record_event,
}
use edfsm.Machine.Task.Durable.{Spares, vec-IsJournal}
use edfsm.Machine.Task.Trace.{Ledger, logged_place, notified_place, sent_place, vec_log}
use edfsm.KvStore.KeyPath.{KeyPath, name, item_ord}
use edfsm.KvStore.Map
use edfsm.KvStore.Store.{
  Keyed, KvStore, Env, Query, kv_fsm, on_event, on_change, keyed_drain, keyed_terminating,
  keyed_init,
}
use edfsm.KvStore.Store.Slots.{slots, items_at}
use edfsm.KvStore.Store.Quiet.{IsEager}
use edfsm.KvStore.Durable.{store_task, store_task-slots}

data Tick : Type 0 where
  tick stop : Tick

abbrev is_stop : Tick → Bool
is_stop tick = false
is_stop stop = true

abbrev ending : Terminating Tick
ending = record { terminating = is_stop }

abbrev counter : Fsm ℕ (Unit {0}) Tick (OutputBuffer ℕ)
counter = record {
  for_command = λ n c se. (none, se);
  on_event = λ n e. (n + 1, some updated);
  on_change = λ n e se c. push se n;
}

counter-IsQuiet : IsQuiet counter
counter-IsQuiet = record { quiet = λ n e h. cc }

counter-IsEager : IsEager counter ending 0
counter-IsEager = record { eager = λ e t h. cc }

abbrev at : KeyPath ℕ → Tick → Keyed ℕ Tick
at p e = record { key = p; item = e }

abbrev path_a : KeyPath ℕ
path_a = name 1 ∷ []

abbrev path_b : KeyPath ℕ
path_b = name 2 ∷ []

abbrev Inputs : Type 0
Inputs = List (Input (Query ℕ (Unit {0}) ℕ Tick) (Keyed ℕ Tick))

abbrev inputs : Inputs
inputs = event (at path_a tick) ∷ event (at path_b tick) ∷ event (at path_b stop) ∷ []

abbrev given : Channel (Input (Query ℕ (Unit {0}) ℕ Tick) (Keyed ℕ Tick)) (Unit {0}) Inputs
given = record { channel = λ n. (tt, inputs); received = λ rx. rx }

abbrev Books : Type 0
Books = Ledger (Keyed ℕ Tick) (Keyed ℕ ℕ)

abbrev store_template :
    Template Books (Keyed ℕ Tick) (Env ℕ (OutputBuffer ℕ) (Unit {0})) (Keyed ℕ ℕ) (Unit {0}) Inputs
store_template = record {
  sender = some tt;
  receiver = inputs;
  effects = record {
    effects = record { key = []; item = record { items = [] } };
    world = tt;
    panicked = false;
  };
  log = vec_log;
  output = vec sent_place;
  events = vec notified_place;
}

events-Spares : Spares store_template.log store_template.events
unfolding history notify
events-Spares = record { spares = λ e w. refl }

output-Spares : Spares store_template.log store_template.output
unfolding history notify
output-Spares = record { spares = λ e w. refl }

-- two ticks have been logged before
abbrev books : Books
books = record { logged = at path_a tick ∷ at path_a tick ∷ []; notified = []; sent = [] }

abbrev ran : Result (Unit {0}) Error × Run (KvStore ℕ ℕ) (Env ℕ (OutputBuffer ℕ) (Unit {0})) Books
ran = store_task counter ending 0 output_drain given store_template books

ran_done : ran.0 ≡ ok tt
unfolding task hydrate initialise flush main_loop round record_event feed history clone_notify
    notify notify_all hydrator step kv_fsm on_event on_change keyed_drain keyed_terminating
    keyed_init output_drain default push Map.get Map.insert Map.remove
ran_done = refl

ran_holds : Map.get path_a ran.1.state ≡ some 3
unfolding task hydrate initialise flush main_loop round record_event feed history clone_notify
    notify notify_all hydrator step kv_fsm on_event on_change keyed_drain keyed_terminating
    keyed_init output_drain default push Map.get Map.insert Map.remove
ran_holds = refl

store_task-slots_example :
    Map.get path_a ran.1.state
    ≡ slots counter ending 0 none (items_at path_a (history vec_log.source ran.1.world))
store_task-slots_example =
    store_task-slots counter ending 0 output_drain given store_template books path_a counter-IsQuiet
      counter-IsEager (vec-IsJournal logged_place) events-Spares output-Spares ran_done
