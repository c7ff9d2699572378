-- ===== src/Machine/Task/Trace.antt =====
-- A machine as an automaton: what `task` of edfsm-machine/src/lib.rs writes to a log, an observer
-- of events and an output that are vectors, against a plain recursion on the inputs.
use edfsm.Prelude.{
  ℕ, ◌≡◌, refl, ◌∙◌, Bool, false, Option, none, some, List, [], ◌∷◌, ◌++◌, append-nil, append_assoc,
  if◌then◌else◌, Bool-cases, inl, inr,
}
use edfsm.Fsm.{Input, Fsm, Init, Terminating, Drain, step, replay}
use edfsm.Fsm.Step.{reported}
use edfsm.Machine.Action.{ok}
use edfsm.Machine.Adapter.{Place, vec, notify, clone_notify, notify_all, merge, Feed, history}
use edfsm.Machine.Task.{
  Log, Channel, Template, Run, flush, record_event, round, main_loop, task, merge_output,
  with_event_log, merge_event_log, machine_with_effects,
}
use edfsm.Machine.Task.Durable.{task-started}

-- The three vectors.
pub record Ledger {ℓ} (E O : Type ℓ) : Type ℓ where
  pub logged : List E
  pub notified : List E
  pub sent : List O

module _ {ℓ} {E O : Type ℓ} where
  abbrev pub logged_place : Place (Ledger E O) (List E)
  logged_place = record {
    get = λ w. w.logged;
    set = λ l w. record w { logged = l };
    get-set = λ l w. refl;
  }

  abbrev pub notified_place : Place (Ledger E O) (List E)
  notified_place = record {
    get = λ w. w.notified;
    set = λ l w. record w { notified = l };
    get-set = λ l w. refl;
  }

  abbrev pub sent_place : Place (Ledger E O) (List O)
  sent_place = record {
    get = λ w. w.sent;
    set = λ l w. record w { sent = l };
    get-set = λ l w. refl;
  }

  abbrev pub vec_log : Log (Ledger E O) E
  vec_log = record { adapter = vec logged_place; source = Feed.vec logged_place }

-- What happens in a run.
pub record Trace {ℓ} (S E SE O : Type ℓ) : Type ℓ where
  pub emitted : List E
  pub outputs : List O
  pub state : S
  pub effects : SE

module _ {ℓ} {S C E SE O : Type ℓ} (m : Fsm S C E SE) (d : Drain SE O) (term : Terminating E) where
  abbrev pub ends : Option E → Bool
  ends none = false
  ends (some e) = term.terminating e

  -- One step for each input, up to the first that returns a terminating event; the outputs of a
  -- step are drained behind it.
  unfoldable pub trace : S → SE → List (Input C E) → Trace S E SE O
  trace s se [] = record { emitted = []; outputs = []; state = s; effects = se }
  trace s se (i ∷ inputs) =
      let (o, s', se₁) = step m s i se in
      let (items, se₂) = d.drain_all se₁ in
      let rest = trace s' se₂ inputs in
      if ends o
      then record { emitted = reported o; outputs = items; state = s'; effects = se₂ }
      else record {
        emitted = reported o ++ rest.emitted;
        outputs = items ++ rest.outputs;
        state = rest.state;
        effects = rest.effects;
      }

  abbrev pub written : Ledger E O → List E → List O → Ledger E O
  written w es os = record {
    logged = w.logged ++ es;
    notified = w.notified ++ es;
    sent = w.sent ++ os;
  }

  abbrev pub result_of : Trace S E SE O → Ledger E O → Run S SE (Ledger E O)
  result_of t w = record {
    state = t.state;
    effects = t.effects;
    world = written w t.emitted t.outputs;
  }

  notify_all_sent :
      (items : List O) (w : Ledger E O)
      → notify_all (vec sent_place) items w ≡ (ok tt, record w { sent = w.sent ++ items })
  unfolding notify_all
  notify_all_sent [] w = rw append-nil
  notify_all_sent (x ∷ items) w =
      notify_all_sent items (record w { sent = w.sent ++ x ∷ [] })
      ∙ rw (append_assoc w.sent (x ∷ []) items)

  record_event-written :
      (o : Option E) (r : Run S SE (Ledger E O))
      → record_event term vec_log (vec notified_place) o r
        ≡ (ok (ends o), record r { world = written r.world (reported o) [] })
  unfolding record_event clone_notify notify
  record_event-written none r = simp append-nil
  record_event-written (some e) r = simp append-nil

  flush-written :
      (r : Run S SE (Ledger E O))
      → flush d (vec sent_place) r ≡ (
        ok tt,
        record r {
          effects = (d.drain_all r.effects).1;
          world = record (r.world) { sent = r.world.sent ++ (d.drain_all r.effects).0 };
        },
      )
  unfolding flush
  flush-written r = rw notify_all_sent

  -- The run behind one input.
  abbrev pub round_end : Input C E → Run S SE (Ledger E O) → Run S SE (Ledger E O)
  round_end i r =
      let (o, s, se₁) = step m r.state i r.effects in
      let (items, se₂) = d.drain_all se₁ in
      record { state = s; effects = se₂; world = written r.world (reported o) items }

  pub round-written :
      (i : Input C E) (r : Run S SE (Ledger E O))
      → round m d term vec_log (vec sent_place) (vec notified_place) i r
        ≡ (ok (ends (step m r.state i r.effects).0), round_end i r)
  unfolding round
  round-written i r = rw (record_event-written, flush-written) (simp append-nil)

  -- The main loop, with a log, an observer and an output that are vectors, returns without an
  -- error; it appends the events of `trace` to the log and to the observer, and the outputs of
  -- `trace` to the output, and leaves the state and the effector of `trace`.
  pub main_loop-trace :
      (inputs : List (Input C E)) (r : Run S SE (Ledger E O))
      → main_loop m d term vec_log (vec sent_place) (vec notified_place) inputs r
        ≡ (ok tt, result_of (trace r.state r.effects inputs) r.world)
  unfolding main_loop trace
  main_loop-trace [] r = simp append-nil
  main_loop-trace (i ∷ inputs) r = elim (Bool-cases (ends (step m r.state i r.effects).0)) [
    | inl e ↦ rw (round-written, e)
    | inr e ↦ rw (round-written, e) (main_loop-trace inputs (round_end i r) ∙ simp append_assoc)
  ]

module _ {ℓ} {C E SE O Tx Rx : Type ℓ} (ch : Channel (Input C E) Tx Rx) where
  -- A new machine with the three vectors connected.
  abbrev pub assembled : SE → ℕ → Template (Ledger E O) E SE O Tx Rx
  assembled effects buffer =
      merge_event_log
        (with_event_log (merge_output (machine_with_effects ch effects buffer) (vec sent_place))
          vec_log)
        (vec notified_place)

module _ {ℓ} {S C E SE O Tx Rx : Type ℓ} (m : Fsm S C E SE) (d : Drain SE O) (term : Terminating E)
    (init : Init S SE) (ch : Channel (Input C E) Tx Rx) where
  -- A whole `task` of a new machine whose output, log and event observer are vectors: the state is
  -- rebuilt from the log, the effector is initialised with it, what that outputs is sent, and the
  -- rest is `trace` on the inputs received. It returns without an error, and the log grows by the
  -- events of the run alone: those replayed are not logged, observed or acted on again.
  pub task-trace :
      (effects : SE) (buffer : ℕ) (default : S) (w : Ledger E O)
      → let s = replay m default w.logged in
        let (items, se) = d.drain_all (init.init effects s) in
        let run = trace m d term s se (ch.received (ch.channel buffer).1) in
        task m d term init ch (assembled ch effects buffer) default w ≡ (
          ok tt,
          record {
            state = run.state;
            effects = run.effects;
            world = record {
              logged = w.logged ++ run.emitted;
              notified = w.notified ++ run.emitted;
              sent = w.sent ++ (items ++ run.outputs);
            };
          },
        )
  unfolding machine_with_effects merge_output with_event_log merge_event_log merge history
  task-trace effects buffer default w =
      task-started m d term init ch (assembled ch effects buffer) default w
      ∙ rw (flush-written m d term, main_loop-trace) (simp append_assoc)
