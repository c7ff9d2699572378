-- ===== src/Machine/Schedule.antt =====
-- The main loop of `task` in edfsm-machine/src/lib.rs as moves, between which the senders of its
-- channel act. A move ends at `recv`, before the log and the observers are told, or before the outputs
-- are sent: while these are awaited, others can touch the channel alone.
pub mod Sound
pub mod Follows
pub mod Moves
pub mod Launched
pub mod Returns
pub mod Whole
mod Tests
use edfsm.Prelude.{
  ℕ, zero, suc, ◌<◌, ◌≡◌, Bool, true, false, Option, none, some, List, [], ◌∷◌, ◌++◌,
}
use edfsm.Fsm.{Input, Fsm, Terminating, Drain, step}
use edfsm.Machine.Action.{Result, ok, err, Error, Exec}
use edfsm.Machine.Adapter.{Adapter}
use edfsm.Machine.Task.{Log, Run, flush, record_event, main_loop}
use edfsm.Machine.Queue.{View, Poll, ready, closed, pending, Mpsc}

-- Where the task stands: at `recv`, before the log and the observers are told of a step, before the
-- outputs of the step are sent, or at its end.
pub data Phase {ℓ} (E : Type ℓ) : Type ℓ where
  receiving : Phase E
  handling : Option E → Phase E
  flushing : Bool → Phase E
  stopped : Result (Unit {0}) Error → Phase E
  -- `recv` gave `None`
  finished : Phase E

pub record Sys {ℓ} (Ch S E SE W : Type ℓ) : Type ℓ where
  pub channel : Ch
  pub run : Run S SE W
  pub phase : Phase E

-- What the task returns, if it has.
abbrev pub result {ℓ} : {E : Type ℓ} → Phase E → Option (Result (Unit {0}) Error)
result (stopped res) = some res
result finished = some (ok tt)
result _ = none

-- `if terminating { break; }`
abbrev pub decided {ℓ} : {E : Type ℓ} → Bool → Phase E
decided true = stopped (ok tt)
decided false = receiving

abbrev pub recorded {ℓ} : {E : Type ℓ} → Result Bool Error → Phase E
recorded (ok t) = flushing t
recorded (err x) = stopped (err x)

abbrev pub flushed {ℓ} : {E : Type ℓ} → Bool → Result (Unit {0}) Error → Phase E
flushed t (ok done) = decided t
flushed t (err x) = stopped (err x)

-- The parts that the task holds beside its channel.
pub record Wiring {ℓ} (S C E SE O W : Type ℓ) : Type (ℓ + 1) where
  pub machine : Fsm S C E SE
  pub drain : Drain SE O
  pub terminating : Terminating E
  pub log : Log W E
  pub output : Adapter W O
  pub events : Adapter W E

-- The main loop, on the messages that `recv` gives.
abbrev pub loop {ℓ} :
    {S C E SE O W : Type ℓ} → Wiring S C E SE O W → List (Input C E) → Exec (Run S SE W)
loop w inputs = main_loop w.machine w.drain w.terminating w.log w.output w.events inputs

module _ {ℓ} {S C E SE O W Ch : Type ℓ} (w : Wiring S C E SE O W) (q : Mpsc (Input C E) Ch) where
  abbrev pub polled : Poll (Input C E) → Ch → Sys Ch S E SE W → Sys Ch S E SE W
  polled (ready i) c s =
      let (e, state, effects) = step w.machine s.run.state i s.run.effects in
      record {
        channel = c;
        run = record (s.run) { state = state; effects = effects };
        phase = handling e;
      }
  polled closed c s = record s { channel = c; phase = finished }
  polled pending c s = record s { channel = c }

  -- What the task does up to its next await.
  abbrev pub advance : Phase E → Sys Ch S E SE W → Sys Ch S E SE W
  advance receiving s = let (p, c) = q.recv s.channel in polled p c s
  advance (handling e) s =
      let (res, r) = record_event w.terminating w.log w.events e s.run in
      record s { run = r; phase = recorded res }
  advance (flushing t) s =
      let (res, r) = flush w.drain w.output s.run in record s { run = r; phase = flushed t res }
  advance (stopped res) s = s
  advance finished s = s

  unfoldable pub task_move : Sys Ch S E SE W → Sys Ch S E SE W
  task_move s = advance s.phase s

  -- The states that can be reached, with the messages that have been sent on the way.
  pub data Reach (s : Sys Ch S E SE W) : List (Input C E) → Sys Ch S E SE W → Type ℓ where
    here : Reach s [] s
    task :
        {sent : List (Input C E)} {t : Sys Ch S E SE W}
        → Reach s sent t
        → Reach s sent (task_move t)
    -- The receiver is dropped when the task returns: what is sent later is refused.
    send :
        {sent : List (Input C E)} {t : Sys Ch S E SE W} (i : Input C E) (c : Ch)
        → Reach s sent t
        → result t.phase ≡ none
        → 0 < (q.view t.channel).senders
        → q.try_send i t.channel ≡ some c
        → Reach s (sent ++ i ∷ []) (record t { channel = c })
    clone :
        {sent : List (Input C E)} {t : Sys Ch S E SE W}
        → Reach s sent t
        → 0 < (q.view t.channel).senders
        → Reach s sent (record t { channel = q.clone_sender t.channel })
    drop :
        {sent : List (Input C E)} {t : Sys Ch S E SE W}
        → Reach s sent t
        → 0 < (q.view t.channel).senders
        → Reach s sent (record t { channel = q.drop_sender t.channel })

  -- The task alone, for a number of moves.
  unfoldable pub drive : ℕ → Sys Ch S E SE W → Sys Ch S E SE W
  unfolding task_move
  drive zero s = s
  drive (suc n) s = drive n (task_move s)

module _ {ℓ} {I Ch : Type ℓ} (q : Mpsc I Ch) where
  -- `channel(buffer)`, and a number of calls of `input`
  unfoldable pub opened : ℕ → ℕ → Ch
  opened buffer zero = q.channel buffer
  opened buffer (suc handles) = q.clone_sender (opened buffer handles)

  -- `self.sender = None`: the task closes the sender that the template holds
  unfoldable pub launched : {S E SE W : Type ℓ} → Ch → Run S SE W → Sys Ch S E SE W
  launched c r = record { channel = q.drop_sender c; run = r; phase = receiving }
