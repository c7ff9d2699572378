-- ===== src/Machine/Task/Crash.antt =====
-- What the task of edfsm-machine/src/lib.rs leaves behind where a log or an output fails.
mod Tests
use edfsm.Prelude.{
  ◌≡◌, refl, sym, ap, ◌∙◌, inl, inr, Bool, true, false, Option, none, some, List, [], ◌∷◌, ◌++◌,
  append-nil,
}
use edfsm.Fsm.{Input, Fsm, Init, Terminating, Drain, step, replay}
use edfsm.Fsm.Step.{IsQuiet, reported}
use edfsm.Machine.Action.{Result, ok, err, Error, Exec, pure, ◌>>=◌, ◌>>◌}
use edfsm.Machine.Action.Sequence.{>>=-cases, >>-keeps, >>-pure}
use edfsm.Machine.Adapter.{Adapter, notify, clone_notify, history}
use edfsm.Machine.Task.{
  Log, Channel, Template, Run, outside, flush, record_event, stepped, round, or_break, main_loop,
  task,
}
use edfsm.Machine.Task.Durable.{
  IsJournal, Spares, InSync, Pending, stepped-Pending, flush-InSync, started, task-started,
}

-- A log that refuses an event has not taken it.
pub record IsAtomic {ℓ} {W E : Type ℓ} (log : Log W E) : Type ℓ where
  pub refuses :
      (e : E) (w : W) (x : Error)
      → (clone_notify log.adapter e w).0 ≡ err x
      → history log.source (clone_notify log.adapter e w).1 ≡ history log.source w

module _ {ℓ} {S C E SE O W : Type ℓ} (m : Fsm S C E SE) (d : Drain SE O) (term : Terminating E)
    (log : Log W E) (output : Adapter W O) (events : Adapter W E) (default : S) where
  -- The log lacks one event at most.
  abbrev Lacking : Run S SE W → Type ℓ
  Lacking r = (o : Option E) × Pending m d term log output events default o r

  abbrev Synced : Run S SE W → Type ℓ
  Synced r = InSync m d term log output events default r

  -- In step with the log, or, behind an error, short of one event at most.
  abbrev Kept : {A : Type 0} → Result A Error → Run S SE W → Type ℓ
  Kept (ok a) r = Synced r
  Kept (err x) r = Lacking r

  Synced-Lacking : (r : Run S SE W) → Synced r → Lacking r
  Synced-Lacking r h = (none, rw append-nil h)

  Synced-Kept : {A : Type 0} (res : Result A Error) (r : Run S SE W) → Synced r → Kept res r
  Synced-Kept (ok a) r h = h
  Synced-Kept (err x) r h = Synced-Lacking r h

  Kept-Lacking : {A : Type 0} (res : Result A Error) (r : Run S SE W) → Kept res r → Lacking r
  Kept-Lacking (ok a) r h = Synced-Lacking r h
  Kept-Lacking (err x) r h = h

  module _ (spares_events : Spares log events) (spares_output : Spares log output)
      (j : IsJournal log) (a : IsAtomic log) where
    record_event-Kept :
        (o : Option E) (r : Run S SE W)
        → Pending m d term log output events default o r
        → Kept (record_event term log events o r).0 (record_event term log events o r).1
    unfolding record_event
    record_event-Kept none r h = rw append-nil at h
    record_event-Kept (some e) r h =
        let rest = outside (notify events e) >> pure (term.terminating e) in
        let r' = (outside (clone_notify log.adapter e) r).1 in
        elim (>>=-cases (outside (clone_notify log.adapter e)) (λ _. rest) r) [
          | inl (_, logged, at_rest) ↦
              let state_kept : (rest r').1.state ≡ r.state =
                >>-keeps (λ t. t.state) (outside (notify events e)) (pure (term.terminating e))
                  (λ t. refl) (λ t. refl) r' in
              let log_kept : history log.source (rest r').1.world ≡ history log.source r'.world =
                >>-keeps (λ t. history log.source t.world) (outside (notify events e))
                  (pure (term.terminating e)) (λ t. spares_events.spares e t.world) (λ t. refl)
                  r' in
              rw at_rest (
                Synced-Kept (rest r').0 (rest r').1 (
                  state_kept
                  ∙ h
                  ∙ ap (replay m default) (sym (log_kept ∙ j.appends e r.world logged))))
          | inr (x, failed, at_end) ↦ rw at_end (
            some e,
            h ∙ ap (λ l. replay m default (l ++ e ∷ [])) (sym (a.refuses e r.world x failed)),
          )
        ]

    module _ (q : IsQuiet m) where
      round-Kept :
          (i : Input C E) (r : Run S SE W)
          → Synced r
          → Kept (round m d term log output events i r).0 (round m d term log output events i r).1
      unfolding round
      round-Kept i r h =
          let o = (step m r.state i r.effects).0 in
          let r₁ = (stepped m i r).1 in
          let r₂ = (record_event term log events o r₁).1 in
          let recorded =
            record_event-Kept o r₁ (stepped-Pending m d term log output events default q i r h) in
          elim (>>=-cases (record_event term log events o) (λ t. flush d output >> pure t) r₁) [
            | inl (t, done, at_rest) ↦
                let synced : Synced r₂ = rw done at recorded in
                rw at_rest (
                  Synced-Kept ((flush d output >> pure t) r₂).0 ((flush d output >> pure t) r₂).1 (
                    rw (>>-pure (flush d output) t r₂) (
                      flush-InSync m d term log output events default spares_events spares_output r₂
                        synced)))
            | inr (x, failed, at_end) ↦ rw at_end (rw failed at recorded)
          ]

      or_break-Kept :
          (t : Bool) (rest : Exec (Run S SE W)) (r : Run S SE W)
          → Synced r
          → Kept (rest r).0 (rest r).1
          → Kept (or_break t rest r).0 (or_break t rest r).1
      or_break-Kept true rest r h k = h
      or_break-Kept false rest r h k = k

      main_loop-Kept :
          (inputs : List (Input C E)) (r : Run S SE W)
          → Synced r
          → Kept
              (main_loop m d term log output events inputs r).0
              (main_loop m d term log output events inputs r).1
      unfolding main_loop
      main_loop-Kept [] r h = h
      main_loop-Kept (i ∷ inputs) r h =
          let rest = main_loop m d term log output events inputs in
          let one = round m d term log output events i in
          let kept = round-Kept i r h in
          elim (>>=-cases one (λ t. or_break t rest) r) [
            | inl (t, done, at_rest) ↦
                let synced : Synced (one r).1 = rw done at kept in
                rw at_rest
                  (or_break-Kept t rest (one r).1 synced (main_loop-Kept inputs (one r).1 synced))
            | inr (x, failed, at_end) ↦ rw at_end (rw failed at kept)
          ]

module _ {ℓ} {S C E SE O W Tx Rx : Type ℓ} (m : Fsm S C E SE) (d : Drain SE O)
    (term : Terminating E) (init : Init S SE) (ch : Channel (Input C E) Tx Rx)
    (t : Template W E SE O Tx Rx) (default : S) where
  -- However `task` ends, in an error or not, its state is the replay of the log's history and of
  -- one further event at most. Asked of the parts: an event that changes nothing leaves the state
  -- as it is, the log appends each event that it accepts and keeps its history where it refuses
  -- one, and the other adapters spare the log.
  pub task_crash :
      (w : W)
      → IsQuiet m
      → IsJournal t.log
      → IsAtomic t.log
      → Spares t.log t.events
      → Spares t.log t.output
      → let (res, left) = task m d term init ch t default w in
        (o : Option E) × (left.state
          ≡ replay m default (history t.log.source left.world ++ reported o))
  task_crash w q j a spares_events spares_output =
      let inputs = ch.received t.receiver in
      let loop = main_loop m d term t.log t.output t.events inputs in
      let r = (flush d t.output (started m d term init ch t default w)).1 in
      let synced =
        flush-InSync m d term t.log t.output t.events default spares_events spares_output
          (started m d term init ch t default w) refl in
      rw (task-started m d term init ch t default w)
        (elim (>>=-cases (flush d t.output) (λ _. loop) (started m d term init ch t default w)) [
          | inl (_, done, at_rest) ↦ rw at_rest (
              Kept-Lacking m d term t.log t.output t.events default (loop r).0 (loop r).1 (
                main_loop-Kept m d term t.log t.output t.events default spares_events spares_output
                  j a q inputs r synced))
          | inr (x, failed, at_end) ↦
              rw at_end (Synced-Lacking m d term t.log t.output t.events default r synced)
        ])
