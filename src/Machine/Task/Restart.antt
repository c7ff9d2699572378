-- ===== src/Machine/Task/Restart.antt =====
-- Tasks of edfsm-machine/src/lib.rs that are stopped and started again from the log.
mod Tests
use edfsm.Prelude.{
  ℕ, ◌≡◌, refl, sym, ap, ap₂, subst, ◌∙◌, Bool, false, Option, List, [], ◌∷◌, ◌++◌, append-nil,
  append_assoc, Bool-cases, inl, inr, if◌then◌else◌,
}
use edfsm.Fsm.{Input, Fsm, Init, Terminating, Drain, step, replay}
use edfsm.Fsm.Step.{IsQuiet, reported, replay-append, step-replay}
use edfsm.Machine.Action.{Result, Error, ok}
use edfsm.Machine.Task.{Channel, Run, task}
use edfsm.Machine.Task.Trace.{Ledger, Trace, ends, trace, written, assembled, task-trace}

module _ {ℓ} {S C E SE O : Type ℓ} (m : Fsm S C E SE) (d : Drain SE O) (term : Terminating E) where
  -- No step on the inputs returns a terminating event.
  abbrev pub Continues : S → SE → List (Input C E) → Type 0
  Continues s se [] = Unit
  Continues s se (i ∷ inputs) =
      let (o, s', se₁) = step m s i se in
      (ends m d term o ≡ false) × Continues s' (d.drain_all se₁).1 inputs

  -- One run behind another.
  abbrev pub then_run : Trace S E SE O → Trace S E SE O → Trace S E SE O
  then_run a b = record {
    emitted = a.emitted ++ b.emitted;
    outputs = a.outputs ++ b.outputs;
    state = b.state;
    effects = b.effects;
  }

  pub Continues-append :
      (inputs more : List (Input C E)) (s : S) (se : SE)
      → Continues s se (inputs ++ more)
      → Continues s se inputs
        × Continues (trace m d term s se inputs).state (trace m d term s se inputs).effects more
  unfolding trace
  Continues-append [] more s se h = (tt, h)
  Continues-append (i ∷ inputs) more s se (a, h) =
      let (o, s', se₁) = step m s i se in
      let k = Continues-append inputs more s' (d.drain_all se₁).1 h in ((a, k.0), rw a k.1)

  pub trace-append :
      (inputs more : List (Input C E)) (s : S) (se : SE)
      → Continues s se inputs
      → let first = trace m d term s se inputs in
        trace m d term s se (inputs ++ more)
        ≡ then_run first (trace m d term first.state first.effects more)
  unfolding trace
  trace-append [] more s se h = refl
  trace-append (i ∷ inputs) more s se (a, h) =
      let (o, s', se₁) = step m s i se in
      rw (a, trace-append inputs more s' (d.drain_all se₁).1 h) (simp (append_assoc))

  pub trace-replay :
      IsQuiet m
      → (inputs : List (Input C E)) (s : S) (se : SE)
      → let run = trace m d term s se inputs in run.state ≡ replay m s run.emitted
  unfolding trace replay
  trace-replay q [] s se = refl
  trace-replay q (i ∷ inputs) s se =
      let (o, s', se₁) = step m s i se in
      let rest = trace m d term s' (d.drain_all se₁).1 inputs in
      elim (Bool-cases (ends m d term (step m s i se).0)) [
        | inl e ↦ rw e (step-replay m q s i se)
        | inr e ↦ rw e (
            trace-replay q inputs s' (d.drain_all se₁).1
            ∙ ap (λ t. replay m t rest.emitted) (step-replay m q s i se)
            ∙ sym (replay-append m s (reported (step m s i se).0) rest.emitted))
      ]

-- An effector that is `clean` behind each drain, and that has nothing to send when it starts from it.
pub record IsRenewed {ℓ} {S SE O : Type ℓ} (d : Drain SE O) (init : Init S SE) (clean : SE)
    : Type ℓ where
  pub renewed : (se : SE) → (d.drain_all se).1 ≡ clean
  pub silent : (s : S) → (d.drain_all (init.init clean s)).0 ≡ []

abbrev pub all_of {ℓ} : {A : Type ℓ} → List (List A) → List A
all_of [] = []
all_of (l ∷ ls) = l ++ all_of ls

module _ {ℓ} {S C E SE O Tx Rx : Type ℓ} (m : Fsm S C E SE) (d : Drain SE O) (term : Terminating E)
    (init : Init S SE) (ch : List (Input C E) → Channel (Input C E) Tx Rx) (clean : SE) (buffer : ℕ)
    (default : S) where
  -- The task of a new machine over a channel that delivers the inputs.
  abbrev pub session :
      List (Input C E) → Ledger E O → Result (Unit {0}) Error × Run S SE (Ledger E O)
  session inputs w = task m d term init (ch inputs) (assembled (ch inputs) clean buffer) default w

  -- One task after another, each from the log that the one before has left.
  abbrev pub sessions : List (List (Input C E)) → Ledger E O → Ledger E O
  sessions [] w = w
  sessions (inputs ∷ rest) w = sessions rest (session inputs w).1.world

  module _ (fresh : IsRenewed d init clean)
      (delivers : (l : List (Input C E)) → (ch l).received ((ch l).channel buffer).1 ≡ l) where
    session-trace :
        (inputs : List (Input C E)) (w : Ledger E O)
        → let run = trace m d term (replay m default w.logged) clean inputs in
          session inputs w ≡ (
            ok tt,
            record {
              state = run.state;
              effects = run.effects;
              world = written m d term w run.emitted run.outputs;
            },
          )
    session-trace inputs w =
        let s = replay m default w.logged in
        task-trace m d term init (ch inputs) clean buffer default w
        ∙ rw (delivers inputs, fresh.renewed (init.init clean s), fresh.silent s) refl

    trace-clean :
        (inputs : List (Input C E)) (s : S) → (trace m d term s clean inputs).effects ≡ clean
    unfolding trace
    trace-clean [] s = refl
    trace-clean (i ∷ inputs) s =
        let (o, s', se₁) = step m s i clean in
        elim (Bool-cases (ends m d term o)) [
          | inl e ↦ rw e (fresh.renewed se₁)
          | inr e ↦ rw (e, fresh.renewed se₁) (trace-clean inputs s')
        ]

    -- What a restart rebuilds is the state that the task had.
    restarted :
        IsQuiet m
        → (inputs : List (Input C E)) (w : Ledger E O)
        → replay m default (session inputs w).1.world.logged
          ≡ (trace m d term (replay m default w.logged) clean inputs).state
    restarted q inputs w =
        let run = trace m d term (replay m default w.logged) clean inputs in
        rw (session-trace inputs w) (
          replay-append m default w.logged run.emitted
          ∙ sym (trace-replay m d term q inputs (replay m default w.logged) clean))

    session-append :
        IsQuiet m
        → (inputs more : List (Input C E)) (w : Ledger E O)
        → Continues m d term (replay m default w.logged) clean inputs
        → (session (inputs ++ more) w).1.world ≡ (session more (session inputs w).1.world).1.world
    session-append q inputs more w h =
        let s = replay m default w.logged in
        rw
          (
            session-trace (inputs ++ more) w,
            session-trace more (session inputs w).1.world,
            restarted q inputs w,
            session-trace inputs w,
            trace-append m d term inputs more s clean h,
            trace-clean inputs s,
          )
          (simp (append_assoc))

    session_idle : (w : Ledger E O) → (session [] w).1.world ≡ w
    unfolding trace
    session_idle w = rw (session-trace [] w) (simp append-nil)

    sessions-world :
        IsQuiet m
        → (parts : List (List (Input C E))) (w : Ledger E O)
        → Continues m d term (replay m default w.logged) clean (all_of parts)
        → (session (all_of parts) w).1.world ≡ sessions parts w
    sessions-world q [] w h = session_idle w
    sessions-world q (inputs ∷ parts) w h =
        let s = replay m default w.logged in
        let (first, later) = Continues-append m d term inputs (all_of parts) s clean h in
        let from = (trace m d term s clean inputs).state in
        session-append q inputs (all_of parts) w first
        ∙ sessions-world q parts (session inputs w).1.world (
            rw (restarted q inputs w) (
              subst (λ se. Continues m d term from se (all_of parts)) (trace-clean inputs s) later))

    -- For a quiet machine, an effector that is as new behind each drain and has nothing to send when
    -- it starts, a channel that delivers the inputs, and inputs of which none ends the task: whatever
    -- the points at which the task is stopped and started again from its log, the log, the observer
    -- and the output hold in the end what one task for all the inputs leaves there. That task returns
    -- without an error, in the state that one more start would rebuild.
    pub sessions-session :
        (parts : List (List (Input C E))) (w : Ledger E O)
        → IsQuiet m
        → Continues m d term (replay m default w.logged) clean (all_of parts)
        → let (result, run) = session (all_of parts) w in
          (result ≡ ok tt)
          × (run.world ≡ sessions parts w)
          × (run.state ≡ replay m default (sessions parts w).logged)
    sessions-session parts w q h =
        let whole = sessions-world q parts w h in
        (
          rw (session-trace (all_of parts) w) refl,
          whole,
          rw (← whole, restarted q (all_of parts) w, session-trace (all_of parts) w) refl,
        )
