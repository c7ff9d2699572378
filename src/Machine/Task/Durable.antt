-- ===== src/Machine/Task/Durable.antt =====
-- Event sourcing, for `task` of edfsm-machine/src/lib.rs: the log rebuilds the state.
use edfsm.Prelude.{
  ◌≡◌, refl, sym, ap, ◌∙◌, Bool, true, false, Option, none, some, List, [], ◌∷◌, ◌++◌, append-nil,
}
use edfsm.Fsm.{Input, Fsm, Init, Terminating, Drain, step, replay}
use edfsm.Fsm.Step.{IsQuiet, reported, replay-append, step-replay}
use edfsm.Machine.Action.{Result, ok, Error, Exec, pure, ◌>>◌}
use edfsm.Machine.Action.Sequence.{>>=-eq-ok, >>-keeps, >>-pure}
use edfsm.Machine.Adapter.{
  Place, Adapter, vec, notify, clone_notify, notify_all, Feed, history, feed, hydrator,
}
use edfsm.Machine.Task.{
  Log, Channel, Template, Run, outside, flush, record_event, stepped, round, or_break, main_loop,
  hydrate, initialise, task,
}

module _ {ℓ} {W E : Type ℓ} where
  -- What a log is relied on for: an event that it accepts is the next in its history.
  pub record IsJournal (log : Log W E) : Type ℓ where
    pub appends :
        (e : E) (w : W)
        → (clone_notify log.adapter e w).0 ≡ ok tt
        → history log.source (clone_notify log.adapter e w).1 ≡ history log.source w ++ e ∷ []

  -- An adapter that does not write to the log.
  pub record Spares {A : Type ℓ} (log : Log W E) (o : Adapter W A) : Type ℓ where
    pub spares : (a : A) (w : W) → history log.source (notify o a w).1 ≡ history log.source w

  -- A vector, as a log, is a journal.
  pub vec-IsJournal :
      (p : Place W (List E)) → IsJournal (record { adapter = vec p; source = Feed.vec p })
  unfolding history clone_notify notify
  vec-IsJournal p = record { appends = λ e w h. p.get-set _ w }

  module _ {A : Type ℓ} (log : Log W E) (o : Adapter W A) (sp : Spares log o) where
    notify_all-history :
        (items : List A) (w : W)
        → history log.source (notify_all o items w).1 ≡ history log.source w
    unfolding notify_all
    notify_all-history [] w = refl
    notify_all-history (a ∷ items) w =
        >>-keeps (history log.source) (notify o a) (notify_all o items) (sp.spares a)
          (notify_all-history items) w

-- Feeding the hydrator replays the items, and does not fail.
pub notify_all-hydrator {ℓ} :
    {S C E SE : Type ℓ} (m : Fsm S C E SE) (es : List E) (s : S)
    → notify_all (hydrator m) es s ≡ (ok tt, replay m s es)
unfolding notify_all hydrator replay
notify_all-hydrator m [] s = refl
notify_all-hydrator m (e ∷ es) s = notify_all-hydrator m es (m.on_event s e).0

pub feed-hydrator {ℓ} :
    {S C E SE W : Type ℓ} (m : Fsm S C E SE) (source : Feed W E) (s : S) (w : W)
    → feed source w (hydrator m) s ≡ (ok tt, replay m s (history source w))
unfolding feed replay
feed-hydrator m Feed.placeholder s w = refl
feed-hydrator m (Feed.vec p) s w = notify_all-hydrator m (p.get w) s
feed-hydrator m (Feed.stream h) s w = notify_all-hydrator m (h w) s

-- Rehydration applies the whole history of the log, in order, to the state, by `on_event` alone:
-- the effector and the world are untouched, and it does not fail.
pub hydrate-replay {ℓ} :
    {S C E SE W : Type ℓ} (m : Fsm S C E SE) (log : Log W E) (r : Run S SE W)
    → hydrate m log r ≡ (ok tt, record r { state = replay m r.state (history log.source r.world) })
unfolding hydrate
hydrate-replay m log r = rw (feed-hydrator m log.source r.state r.world)

module _ {ℓ} {S C E SE O W : Type ℓ} (m : Fsm S C E SE) (d : Drain SE O) (term : Terminating E)
    (log : Log W E) (output : Adapter W O) (events : Adapter W E) (default : S) where
  -- A restart from the log would rebuild this state.
  abbrev pub InSync : Run S SE W → Type ℓ
  InSync r = r.state ≡ replay m default (history log.source r.world)

  -- ... once the event `o` is logged.
  abbrev pub Pending : Option E → Run S SE W → Type ℓ
  Pending o r = r.state ≡ replay m default (history log.source r.world ++ reported o)

  pub stepped-Pending :
      IsQuiet m
      → (i : Input C E) (r : Run S SE W) → InSync r
      → Pending (step m r.state i r.effects).0 (stepped m i r).1
  stepped-Pending q i r h =
      step-replay m q r.state i r.effects
      ∙ ap (λ s. replay m s (reported (step m r.state i r.effects).0)) h
      ∙ sym (replay-append m default (history log.source r.world) _)

  module _ (spares_events : Spares log events) (spares_output : Spares log output) where
    pub flush-InSync : (r : Run S SE W) → InSync r → InSync (flush d output r).1
    unfolding flush
    flush-InSync r h =
        rw (notify_all-history log output spares_output (d.drain_all r.effects).0 r.world) h

    record_event-InSync :
        IsJournal log
        → (o : Option E) (r : Run S SE W) (b : Bool) → Pending o r
        → (record_event term log events o r).0 ≡ ok b
        → InSync (record_event term log events o r).1
    unfolding record_event
    record_event-InSync j none r b h done = rw append-nil at h
    record_event-InSync j (some e) r b h done =
        let rest = outside (notify events e) >> pure (term.terminating e) in
        let r' = (outside (clone_notify log.adapter e) r).1 in
        let (_, logged, at_rest) =
          >>=-eq-ok (outside (clone_notify log.adapter e)) (λ _. rest) r b done in
        let state_kept : (rest r').1.state ≡ r.state =
          >>-keeps (λ t. t.state) (outside (notify events e)) (pure (term.terminating e))
            (λ t. refl) (λ t. refl) r' in
        let log_kept : history log.source (rest r').1.world ≡ history log.source r'.world =
          >>-keeps (λ t. history log.source t.world) (outside (notify events e))
            (pure (term.terminating e)) (λ t. spares_events.spares e t.world) (λ t. refl) r' in
        rw at_rest
          (state_kept ∙ h ∙ ap (replay m default) (sym (log_kept ∙ j.appends e r.world logged)))

    module _ (q : IsQuiet m) (j : IsJournal log) where
      round-InSync :
          (i : Input C E) (r : Run S SE W) (b : Bool)
          → InSync r
          → (round m d term log output events i r).0 ≡ ok b
          → InSync (round m d term log output events i r).1
      unfolding round
      round-InSync i r b h done =
          let o = (step m r.state i r.effects).0 in
          let r₁ = (stepped m i r).1 in
          let (t, recorded, at_rest) =
            >>=-eq-ok (record_event term log events o) (λ t. flush d output >> pure t) r₁ b done in
          let r₂ = (record_event term log events o r₁).1 in
          rw (at_rest, >>-pure (flush d output) t r₂)
            (flush-InSync r₂ (record_event-InSync j o r₁ t (stepped-Pending q i r h) recorded))

      or_break-InSync :
          (t : Bool) (rest : Exec (Run S SE W)) (r : Run S SE W)
          → InSync r
          → ((rest r).0 ≡ ok tt → InSync (rest r).1)
          → (or_break t rest r).0 ≡ ok tt
          → InSync (or_break t rest r).1
      or_break-InSync true rest r h k done = h
      or_break-InSync false rest r h k done = k done

      main_loop-InSync :
          (inputs : List (Input C E)) (r : Run S SE W)
          → InSync r
          → (main_loop m d term log output events inputs r).0 ≡ ok tt
          → InSync (main_loop m d term log output events inputs r).1
      unfolding main_loop
      main_loop-InSync [] r h done = h
      main_loop-InSync (i ∷ inputs) r h done =
          let rest = main_loop m d term log output events inputs in
          let one = round m d term log output events i in
          let (b, at_round, at_rest) = >>=-eq-ok one (λ t. or_break t rest) r tt done in
          let r' = (one r).1 in
          let h' = round-InSync i r b h at_round in
          rw at_rest (
            or_break-InSync b rest r' h' (main_loop-InSync inputs r' h')
              (sym (ap (λ (x : Result (Unit {0}) Error × Run S SE W). x.0) at_rest) ∙ done))

module _ {ℓ} {S C E SE O W Tx Rx : Type ℓ} (m : Fsm S C E SE) (d : Drain SE O)
    (term : Terminating E) (init : Init S SE) (ch : Channel (Input C E) Tx Rx)
    (t : Template W E SE O Tx Rx) (default : S) where
  -- The run behind rehydration and `init`.
  abbrev pub started : W → Run S SE W
  started w =
      let s = replay m default (history t.log.source w) in
      record { state = s; effects = init.init t.effects s; world = w }

  -- `task` begins by rehydrating its state, and then tells the effector the state that it got.
  pub task-started :
      (w : W)
      → task m d term init ch t default w
        ≡ (flush d t.output >> main_loop m d term t.log t.output t.events (ch.received t.receiver))
            (started w)
  unfolding task initialise
  task-started w = rw hydrate-replay

  -- When `task` returns without an error, its state is the replay, from the default state, of the
  -- log's whole history. Asked of the parts: an event that changes nothing leaves the state as it
  -- is, the log appends each event that it accepts, and the other adapters spare the log.
  pub task-replay :
      (w : W)
      → IsQuiet m
      → IsJournal t.log
      → Spares t.log t.events
      → Spares t.log t.output
      → (task m d term init ch t default w).0 ≡ ok tt
      → (task m d term init ch t default w).1.state
        ≡ replay m default (history t.log.source (task m d term init ch t default w).1.world)
  task-replay w q j spares_events spares_output done =
      let inputs = ch.received t.receiver in
      let loop = main_loop m d term t.log t.output t.events inputs in
      let done' =
        sym (ap (λ (x : Result (Unit {0}) Error × Run S SE W). x.0) (task-started w)) ∙ done in
      let (_, _, at_rest) = >>=-eq-ok (flush d t.output) (λ _. loop) (started w) tt done' in
      let r = (flush d t.output (started w)).1 in
      let synced =
        flush-InSync m d term t.log t.output t.events default spares_events spares_output
          (started w) refl in
      rw (task-started w, at_rest)
        (main_loop-InSync m d term t.log t.output t.events default spares_events spares_output q j
          inputs r synced
          (sym (ap (λ (x : Result (Unit {0}) Error × Run S SE W). x.0) at_rest) ∙ done'))
