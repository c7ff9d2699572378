-- ===== src/Machine/Task.antt =====
-- edfsm-machine/src/lib.rs: the machine `Template`, its wiring, and the future `task`.
-- The channel is tokio's: a sender, and a receiver that stands for the inputs that `recv` will
-- deliver until it returns `None`. A run is the sequential code of one task; what other tasks do
-- between its awaits shows in the inputs delivered and in how the world answers.
pub mod Durable
pub mod Crash
pub mod Trace
pub mod Interface
pub mod Build
pub mod Restart
pub mod Counter
mod Script
mod Tests
use edfsm.Prelude.{ℕ, Bool, true, false, Option, none, some, List, [], ◌∷◌, if◌then◌else◌}
use edfsm.Fsm.{Input, Fsm, Init, Terminating, Drain, step}
use edfsm.Machine.Action.{Result, ok, err, Error, Action, Exec, pure, ◌>>=◌, ◌>>◌}
use edfsm.Machine.Adapter.{
  Adapter, placeholder, notify, clone_notify, merge, notify_all, Feed, feed, hydrator,
}

-- An event log: `impl Adapter<Item = Event<M>> + Feed<Item = Event<M>>`
pub record Log {ℓ} (W E : Type ℓ) : Type (ℓ + 1) where
  pub adapter : Adapter W E
  pub source : Feed W E

-- The channel of the library, for messages of type `I`.
pub record Channel {ℓ} (I Tx Rx : Type ℓ) : Type ℓ where
  pub channel : ℕ → Tx × Rx
  pub received : Rx → List I

-- struct Template
pub record Template {ℓ} (W E SE O Tx Rx : Type ℓ) : Type (ℓ + 1) where
  pub sender : Option Tx
  pub receiver : Rx
  pub effects : SE
  pub log : Log W E
  pub output : Adapter W O
  pub events : Adapter W E

-- What the task holds while it runs.
pub record Run {ℓ} (S SE W : Type ℓ) : Type ℓ where
  pub state : S
  pub effects : SE
  pub world : W

abbrev pub default_buffer : ℕ
default_buffer = 10

module _ {ℓ} {W E SE O Tx Rx : Type ℓ} where
  -- `unwrap` panics on `None`: a machine before its task always has the sender
  unfoldable pub input : Template W E SE O Tx Rx → Option Tx
  input t = t.sender

  unfoldable pub with_output : Template W E SE O Tx Rx → Adapter W O → Template W E SE O Tx Rx
  with_output t output = record t { output = output }

  unfoldable pub merge_output : Template W E SE O Tx Rx → Adapter W O → Template W E SE O Tx Rx
  merge_output t output = record t { output = merge t.output output }

  unfoldable pub with_event_log : Template W E SE O Tx Rx → Log W E → Template W E SE O Tx Rx
  with_event_log t log = record t { log = log }

  unfoldable pub merge_event_log : Template W E SE O Tx Rx → Adapter W E → Template W E SE O Tx Rx
  merge_event_log t events = record t { events = merge t.events events }

module _ {ℓ} {C E SE Tx Rx : Type ℓ} (ch : Channel (Input C E) Tx Rx) where
  unfoldable pub machine_with_effects : {W O : Type ℓ} → SE → ℕ → Template W E SE O Tx Rx
  machine_with_effects effects buffer =
      let (sender, receiver) = ch.channel buffer in
      record {
        sender = some sender;
        receiver = receiver;
        effects = effects;
        log = record { adapter = placeholder; source = Feed.placeholder };
        output = placeholder;
        events = placeholder;
      }

  unfoldable pub machine : {W O : Type ℓ} → SE → Template W E SE O Tx Rx
  unfolding machine_with_effects
  machine default_effects = machine_with_effects default_effects default_buffer

module _ {ℓ} {S SE W : Type ℓ} where
  -- an adapter's action, in the task
  abbrev pub outside : Exec W → Exec (Run S SE W)
  outside m r = let (res, w) = m r.world in (res, record r { world = w })

module _ {ℓ} {S SE O W : Type ℓ} where
  -- `for item in self.effects.drain_all() { self.output.notify(item).await? }`
  unfoldable pub flush : Drain SE O → Adapter W O → Exec (Run S SE W)
  flush d output r =
      let (items, se) = d.drain_all r.effects in
      outside (notify_all output items) (record r { effects = se })

module _ {ℓ} {S E SE W : Type ℓ} where
  -- `if let Some(e) = M::step(…) { … }`: whether a terminating event is seen
  unfoldable pub record_event :
      Terminating E → Log W E → Adapter W E → Option E → Action (Run S SE W) Bool
  record_event term log events none = pure false
  record_event term log events (some e) = do
    outside (clone_notify log.adapter e)
    outside (notify events e)
    pure (term.terminating e)

module _ {ℓ} {S C E SE W : Type ℓ} where
  -- `M::step(&mut state, input, &mut self.effects)`
  abbrev pub stepped : Fsm S C E SE → Input C E → Action (Run S SE W) (Option E)
  stepped m i r =
      let (e, s, se) = step m r.state i r.effects in (ok e, record r { state = s; effects = se })

-- `if terminating { break; }` at the end of a round
abbrev pub or_break {ℓ} : {W : Type ℓ} → Bool → Exec W → Exec W
or_break true rest = pure tt
or_break false rest = rest

module _ {ℓ} {S C E SE O W : Type ℓ} (m : Fsm S C E SE) (d : Drain SE O) (term : Terminating E)
    (log : Log W E) (output : Adapter W O) (events : Adapter W E) where
  -- one round of the main loop: whether to break
  unfoldable pub round : Input C E → Action (Run S SE W) Bool
  round i = do
    e ← stepped m i
    terminating ← record_event term log events e
    flush d output
    pure terminating

  -- `while let Some(input) = self.receiver.recv().await { … }`
  unfoldable pub main_loop : List (Input C E) → Exec (Run S SE W)
  main_loop [] = pure tt
  main_loop (i ∷ inputs) =
      let rest = main_loop inputs in round i >>= λ terminating. or_break terminating rest

module _ {ℓ} {S C E SE W : Type ℓ} where
  -- the state, rehydrated from the log by an adapter that acts on the state
  unfoldable pub hydrate : Fsm S C E SE → Log W E → Exec (Run S SE W)
  hydrate m log r =
      let (res, s) = feed log.source r.world (hydrator m) r.state in (res, record r { state = s })

module _ {ℓ} {S SE W : Type ℓ} where
  -- `self.effects.init(&state)`
  unfoldable pub initialise : Init S SE → Exec (Run S SE W)
  initialise init r = (ok tt, record r { effects = init.init r.effects r.state })

module _ {ℓ} {S C E SE O W Tx Rx : Type ℓ} (m : Fsm S C E SE) (d : Drain SE O)
    (term : Terminating E) (init : Init S SE) (ch : Channel (Input C E) Tx Rx) where
  -- `task` behind its first lines, which close the local sender and make the default state
  unfoldable pub run_task : Template W E SE O Tx Rx → Exec (Run S SE W)
  run_task t = do
    hydrate m t.log
    initialise init
    flush d t.output
    main_loop m d term t.log t.output t.events (ch.received t.receiver)

  -- The result of `task` in a world, with the state, the effector and the world that it leaves.
  unfoldable pub task : Template W E SE O Tx Rx → S → W → Result (Unit {0}) Error × Run S SE W
  unfolding run_task
  task t default w =
      let closed = record t { sender = none } in
      run_task closed (record { state = default; effects = closed.effects; world = w })
