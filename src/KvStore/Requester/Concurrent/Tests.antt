-- ===== src/KvStore/Requester/Concurrent/Tests.antt =====
-- Two clients of a store of counters, and a schedule of what they do and of the task's moves.
use edfsm.Prelude.{
  ℕ, ◌≡◌, refl, ◌==◌, false, Option, none, some, List, [], ◌∷◌, map, length, if◌then◌else◌, nat_ord,
  list_ord, arith,
}
use edfsm.Fsm.{Input}
use edfsm.Machine.Action.{Result, ok, err}
use edfsm.Machine.Output.{OutputBuffer, output_drain}
use edfsm.Machine.Task.{Run}
use edfsm.Machine.Task.Trace.{Ledger}
use edfsm.Machine.Queue.{View}
use edfsm.Machine.Schedule.{
  Sys, result, task_move, Reach, here, task as move_on, send, drop, drive, opened, launched,
}
use edfsm.Machine.Queue.Line.{line, line-IsFifo}
use edfsm.KvStore.KeyPath.{item_ord}
use edfsm.KvStore.Map
use edfsm.KvStore.Store.{Keyed, KvStore, Env, Query}
use edfsm.KvStore.Requester.{Oneshot, Extant, found}
use edfsm.KvStore.Requester.Served.Atomic.{Request, read, write, Reply, value, extant}
use edfsm.KvStore.Requester.Queries.{query, slots_in, all_updated}
use edfsm.KvStore.Requester.Concurrent.{store_wiring, concurrent-served}
use edfsm.KvStore.Tests.{Event, tick, Output, counter, ending, path_a, path_c}

abbrev Mail : Type 0
Mail = List (ℕ × Reply ℕ)

abbrev find_value : ℕ → Mail → Result ℕ (Unit {0})
find_value rx [] = err tt
find_value rx ((tx, value r) ∷ l) = if rx == tx then ok r else find_value rx l
find_value rx ((tx, extant e) ∷ l) = find_value rx l

abbrev find_extant : ℕ → Mail → Result Extant (Unit {0})
find_extant rx [] = err tt
find_extant rx ((tx, extant e) ∷ l) = if rx == tx then ok e else find_extant rx l
find_extant rx ((tx, value r) ∷ l) = find_extant rx l

abbrev values : Oneshot Mail ℕ ℕ ℕ (Unit {0})
values = record {
  channel = λ w. ((length w, length w), w);
  send = λ tx r w. (tx, value r) ∷ w;
  recv = λ rx w. (find_value rx w, w);
}

abbrev extants : Oneshot Mail Extant ℕ ℕ (Unit {0})
extants = record {
  channel = λ w. ((length w, length w), w);
  send = λ tx e w. (tx, extant e) ∷ w;
  recv = λ rx w. (find_extant rx w, w);
}

abbrev or_zero : Option ℕ → ℕ
or_zero none = 0
or_zero (some n) = n

-- an upsert of one client, and a get of another
abbrev ticked : ℕ × Request ℕ ℕ Event ℕ
ticked = (1, write path_a (λ v. tick))

abbrev asked : ℕ × Request ℕ ℕ Event ℕ
asked = (2, read path_a or_zero)

abbrev Message : Type 0
Message = Input (Query ℕ Mail ℕ Event) (Keyed ℕ Event)

abbrev cells : KvStore ℕ ℕ
cells = (path_a, 8) ∷ (path_c, 4) ∷ []

abbrev start :
    Run (KvStore ℕ ℕ) (Env ℕ (OutputBuffer Output) Mail) (Ledger (Keyed ℕ Event) (Keyed ℕ Output))
start = record {
  state = cells;
  effects = record {
    effects = record { key = []; item = record { items = [] } };
    world = [];
    panicked = false;
  };
  world = record { logged = []; notified = []; sent = [] };
}

abbrev System : Type 0
System =
    Sys (View Message) (KvStore ℕ ℕ) (Keyed ℕ Event) (Env ℕ (OutputBuffer Output) Mail)
      (Ledger (Keyed ℕ Event) (Keyed ℕ Output))

abbrev next : System → System
next s = task_move (store_wiring counter ending 0 values extants output_drain) (line Message) s

abbrev holding : List Message → ℕ → System → System
holding queue n s = record s { channel = record { queued = queue; senders = n; capacity = 1 } }

abbrev begun : System
begun = launched (line Message) (opened (line Message) 1 2) start

-- the get is sent while the task handles the upsert
abbrev both_sent : System
both_sent =
    holding (query values extants asked ∷ []) 0
      (next (holding (query values extants ticked ∷ []) 2 begun))

both_sent_reach :
    Reach
      (store_wiring counter ending 0 values extants output_drain)
      (line Message)
      begun
      (map (query values extants) (ticked ∷ asked ∷ []))
      both_sent
unfolding task_move launched opened
both_sent_reach =
    drop
      (drop
        (send (query values extants asked)
          (record { queued = query values extants asked ∷ []; senders = 2; capacity = 1 })
          (move_on (
            send (query values extants ticked)
              (record { queued = query values extants ticked ∷ []; senders = 2; capacity = 1 }) here
              refl (omega arith) refl))
          refl (omega arith) refl)
        (omega arith))
      (omega arith)

concurrent-served_example :
    let u =
      drive
        (store_wiring counter ending 0 values extants output_drain)
        (line Message)
        6
        both_sent in
    (result u.phase ≡ some (ok tt))
    × (u.run.effects.world ≡ (2, value 9) ∷ (1, extant found) ∷ [])
    × (slots_in u.run.state ≡ all_updated counter ending 0 (ticked ∷ asked ∷ []) (slots_in cells))
unfolding Map.get task_move launched opened
concurrent-served_example =
    concurrent-served counter ending 0 values extants output_drain (line Message)
      (line-IsFifo Message) 1 2 (omega arith) (ticked ∷ asked ∷ []) start ((refl, tt), (tt, tt))
      both_sent_reach refl
