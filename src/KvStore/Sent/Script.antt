-- ===== src/KvStore/Sent/Script.antt =====
-- The tests of edfsm-kv-store/tests/basic_kv.rs: what the store sends and answers for the inputs of the
-- producer and the asker.
use edfsm.Prelude.{
  ℕ, zero, suc, ◌+◌, ◌≡◌, refl, false, Option, none, some, List, [], ◌∷◌, ◌++◌, length, nat_ord,
  list_ord,
}
use edfsm.Fsm.{Input, command, event, step}
use edfsm.Machine.Output.{OutputBuffer, push, output_drain}
use edfsm.Machine.Task.Trace.{Trace, trace}
use edfsm.KvStore.KeyPath.{item_ord}
use edfsm.KvStore.Map.{get, insert}
use edfsm.KvStore.Store.{
  Keyed, KvStore, Env, Query, default_store, for_command, on_event, on_change, kv_fsm, keyed_drain,
  keyed_terminating,
}
use edfsm.KvStore.Tests.{Event, tick, Output, counter, ending}

-- what the asker is answered
abbrev Answers : Type 0
Answers = List (Option ℕ)

abbrev Asked : Type 0
Asked = Input (Query ℕ Answers ℕ Event) (Keyed ℕ Event)

-- `for _ in 0..count { sender.send(Input::Event(Keyed { key: Path::root(), item: Event::Tick })) }`
abbrev producer : ℕ → List Asked → List Asked
producer zero rest = rest
producer (suc count) rest = event (record { key = []; item = tick }) ∷ producer count rest

abbrev sum_of : KvStore ℕ ℕ → ℕ
sum_of [] = 0
sum_of ((path, n) ∷ entries) = n + sum_of entries

-- the two queries, for the count at the root and the sum of all counts
abbrev asker : List Asked → List Asked
asker rest =
    command (Query.get [] (λ v answers. (tt, answers ++ v ∷ [])))
    ∷ command (Query.get_all (λ entries answers. (tt, answers ++ some (sum_of entries) ∷ [])))
    ∷ rest

abbrev kept :
    List Asked
    → Trace (KvStore ℕ ℕ) (Keyed ℕ Event) (Env ℕ (OutputBuffer Output) Answers) (Keyed ℕ Output)
kept inputs =
    trace (kv_fsm counter ending 0) (keyed_drain output_drain) keyed_terminating default_store
      (record {
        effects = record { key = []; item = record { items = [] } };
        world = [];
        panicked = false;
      })
      inputs

-- `basic_kv_test`, where the asker comes in behind forty events: nine outputs are sent.
basic_kv_test :
    let t = kept (producer 40 (asker (producer 59 []))) in
    (length t.outputs ≡ 9)
    × ((t.state ≡ ([], 99) ∷ []) × (t.effects.world ≡ some 40 ∷ some 40 ∷ []))
unfolding trace step kv_fsm for_command on_event on_change keyed_drain keyed_terminating get insert
    output_drain push
basic_kv_test = (refl, (refl, refl))

-- `empty_kv_test`: none is sent.
empty_kv_test :
    let t = kept (asker []) in
    (length t.outputs ≡ 0) × ((t.state ≡ []) × (t.effects.world ≡ none ∷ some 0 ∷ []))
unfolding trace step kv_fsm for_command on_event on_change keyed_drain keyed_terminating get insert
    output_drain push
empty_kv_test = (refl, (refl, refl))
