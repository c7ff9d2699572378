-- ===== src/KvStore/Sent/Tests.antt =====
-- A store of counters run as a task, and what it sends.
use edfsm.Prelude.{ℕ, ◌≡◌, refl, false, none, some, List, [], ◌∷◌, nat_ord, list_ord}
use edfsm.Fsm.{Input, command, event, step, replay}
use edfsm.Machine.Action.{ok}
use edfsm.Machine.Output.{OutputBuffer, push, default, drain_all, output_drain}
use edfsm.Machine.Task.{Channel, task}
use edfsm.Machine.Task.Trace.{Ledger, assembled}
use edfsm.KvStore.KeyPath.{item_ord}
use edfsm.KvStore.Map.{get, insert}
use edfsm.KvStore.Store.{
  Keyed, Env, Query, default_store, default_keyed, for_command, on_event, on_change, kv_fsm,
  keyed_drain, keyed_terminating, keyed_init,
}
use edfsm.KvStore.Store.Slots.{slots, items_at}
use edfsm.KvStore.Store.Outputs.{IsDrainedTo, place_outputs}
use edfsm.KvStore.Store.Family.{handled}
use edfsm.KvStore.Sent.{task-family}
use edfsm.KvStore.Tests.{Event, tick, reset, Output, tock, counter, ending, at, path_a, path_c}

buffer-IsDrainedTo : IsDrainedTo (output_drain {A = Output}) default
unfolding output_drain default
buffer-IsDrainedTo = record { emptied = λ se. refl; nothing = refl }

abbrev Command : Type 0
Command = Query ℕ (Unit {0}) ℕ Event

abbrev In : Type 0
In = Input Command (Keyed ℕ Event)

-- an upsert that resets, between events for two paths
abbrev inputs : List In
inputs =
    event (at path_a tick)
    ∷ event (at path_c tick)
    ∷ command (Query.upsert path_a (λ v w. (reset, w)))
    ∷ []

abbrev scripted : Channel In ℕ (List In)
scripted = record { channel = λ n. (n, inputs); received = λ rx. rx }

abbrev books : Ledger (Keyed ℕ Event) (Keyed ℕ Output)
books = record { logged = at path_a tick ∷ []; notified = []; sent = [] }

fresh_env : Env ℕ (OutputBuffer Output) (Unit {0})
fresh_env = record { effects = default_keyed default; world = tt; panicked = false }

fresh_clean : fresh_env.effects.item ≡ default
unfolding fresh_env default_keyed
fresh_clean = refl

fresh_calm : fresh_env.panicked ≡ false
unfolding fresh_env
fresh_calm = refl

task-family_example :
    let d = keyed_drain output_drain in
    let (res, run) =
      task
        (kv_fsm counter ending 0)
        d
        keyed_terminating
        keyed_init
        scripted
        (assembled scripted fresh_env 4)
        default_store
        books in
    let before = slots counter ending 0 none (tick ∷ []) in
    let store =
      replay
        (kv_fsm {SE = OutputBuffer Output} {W = Unit {0}} counter ending 0)
        default_store
        books.logged in
    let events =
      items_at path_a
        (handled counter output_drain ending 0 store (d.drain_all fresh_env).1 inputs) in
    (res ≡ ok tt)
    × (run.effects.panicked ≡ false)
    × (items_at path_a run.world.sent
        ≡ place_outputs counter output_drain ending 0 default before events)
    × (get path_a run.state ≡ slots counter ending 0 before events)
task-family_example =
    task-family counter output_drain ending 0 default buffer-IsDrainedTo scripted path_a fresh_env 4
      books fresh_clean fresh_calm (tt, (tt, (refl, tt)))

-- the events for the path: the tick, and the reset that the query yields; and what the counter puts
-- out for the tick that takes it from 9 to 10, before it is dropped
events_a :
    items_at path_a (
      handled {SE = OutputBuffer Output} counter output_drain ending 0
        ((path_a, 9) ∷ [])
        fresh_env
        inputs)
    ≡ tick ∷ reset ∷ []
unfolding step kv_fsm for_command on_event on_change keyed_drain get insert fresh_env default_keyed
events_a = refl

outputs_a :
    place_outputs counter output_drain ending 0 default (some 9) (tick ∷ reset ∷ []) ≡ tock ∷ []
unfolding step output_drain drain_all default push
outputs_a = refl
