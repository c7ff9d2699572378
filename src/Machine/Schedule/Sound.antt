-- ===== src/Machine/Schedule/Sound.antt =====
-- What is left of the main loop of edfsm-machine/src/lib.rs at each await of the task.
use edfsm.Prelude.{
  ◌≡◌, refl, ap, ◌∙◌, Bool, true, false, none, some, List, [], ◌∷◌, ◌++◌, append-nil,
}
use edfsm.Fsm.{Input, step}
use edfsm.Machine.Action.{Result, ok, err, Error, Exec, pure, continue, ◌>>=◌, ◌>>◌}
use edfsm.Machine.Task.{Run, flush, record_event, round, or_break, main_loop}
use edfsm.Machine.Queue.{Mpsc}
use edfsm.Machine.Schedule.{
  Wiring, loop, Phase, receiving, handling, flushing, stopped, finished, result, recorded, flushed,
}

module _ {ℓ} {S C E SE O W Ch : Type ℓ} (w : Wiring S C E SE O W) (q : Mpsc (Input C E) Ch) where
  -- What is left to do at a phase, on the messages that are still to come.
  abbrev pub resume : Phase E → List (Input C E) → Exec (Run S SE W)
  resume receiving rest r = loop w rest r
  resume (handling e) rest r =
      (record_event w.terminating w.log w.events e
          >>= (λ t. flush w.drain w.output >> pure t)
          >>= λ t. or_break t (loop w rest))
        r
  resume (flushing t) rest r =
      ((flush w.drain w.output >> pure t) >>= λ t. or_break t (loop w rest)) r
  resume (stopped res) rest r = (res, r)
  resume finished rest r = (ok tt, r)

  pub record_rest :
      (rest : List (Input C E)) (x : Result Bool Error × Run S SE W)
      → let y = continue x.0 (λ t. flush w.drain w.output >> pure t) x.1 in
        continue y.0 (λ t. or_break t (loop w rest)) y.1 ≡ resume (recorded x.0) rest x.1
  record_rest rest (ok t, r) = refl
  record_rest rest (err x, r) = refl

  pub flush_rest :
      (rest : List (Input C E)) (t : Bool) (x : Result (Unit {0}) Error × Run S SE W)
      → let y = continue {A = Unit {0}} x.0 (λ _. pure t) x.1 in
        continue y.0 (λ t. or_break t (loop w rest)) y.1 ≡ resume (flushed t x.0) rest x.1
  flush_rest rest true (ok done, r) = refl
  flush_rest rest false (ok done, r) = refl
  flush_rest rest t (err x, r) = refl

  -- A message, once it is polled, is what the main loop w begins with.
  pub loop-cons :
      (i : Input C E) (rest : List (Input C E)) (r : Run S SE W)
      → let (e, state, effects) = step w.machine r.state i r.effects in
        loop w (i ∷ rest) r
        ≡ resume (handling e) rest (record r { state = state; effects = effects })
  unfolding main_loop round
  loop-cons i rest r = refl

  pub loop-nil : (r : Run S SE W) → loop w [] r ≡ (ok tt, r)
  unfolding main_loop
  loop-nil r = refl

  -- What the task has done, given the messages taken from the channel and those that are queued.
  abbrev pub Sound :
      Phase E → List (Input C E) → List (Input C E) → Run S SE W → Run S SE W → Type ℓ
  Sound finished taken queue r₀ r = (queue ≡ []) × (loop w taken r₀ ≡ (ok tt, r))
  Sound p taken queue r₀ r = (rest : List (Input C E)) → loop w (taken ++ rest) r₀ ≡ resume p rest r

  pub Sound-recorded :
      (taken queue : List (Input C E)) (r₀ : Run S SE W) (x : Result Bool Error × Run S SE W)
      → ((rest : List (Input C E)) → loop w (taken ++ rest) r₀ ≡ resume (recorded x.0) rest x.1)
      → Sound (recorded x.0) taken queue r₀ x.1
  Sound-recorded taken queue r₀ (ok t, r) h = h
  Sound-recorded taken queue r₀ (err x, r) h = h

  pub Sound-flushed :
      (t : Bool) (taken queue : List (Input C E)) (r₀ : Run S SE W)
      (x : Result (Unit {0}) Error × Run S SE W)
      → ((rest : List (Input C E)) → loop w (taken ++ rest) r₀ ≡ resume (flushed t x.0) rest x.1)
      → Sound (flushed t x.0) taken queue r₀ x.1
  Sound-flushed true taken queue r₀ (ok done, r) h = h
  Sound-flushed false taken queue r₀ (ok done, r) h = h
  Sound-flushed t taken queue r₀ (err x, r) h = h

  -- Before the task has returned, the queue does not matter.
  pub Sound-more :
      (p : Phase E) (taken queue queue' : List (Input C E)) (r₀ r : Run S SE W)
      → result p ≡ none
      → Sound p taken queue r₀ r
      → Sound p taken queue' r₀ r
  Sound-more receiving taken queue queue' r₀ r live h = h
  Sound-more (handling e) taken queue queue' r₀ r live h = h
  Sound-more (flushing t) taken queue queue' r₀ r live h = h
  Sound-more (stopped res) taken queue queue' r₀ r live h = h
  Sound-more finished taken queue queue' r₀ r live h = cc

  pub Sound-result :
      (p : Phase E) (taken queue : List (Input C E)) (r₀ r : Run S SE W)
      (res : Result (Unit {0}) Error)
      → result p ≡ some res
      → Sound p taken queue r₀ r
      → loop w (taken ++ queue) r₀ ≡ (res, r)
  Sound-result (stopped x) taken queue r₀ r res h sound = sound queue ∙ cc h
  Sound-result finished taken queue r₀ r res h (empty, sound) =
      ap (λ l. loop w (taken ++ l) r₀) empty
      ∙ ap (λ l. loop w l r₀) (append-nil taken)
      ∙ sound
      ∙ cc h
  Sound-result receiving taken queue r₀ r res h sound = cc
  Sound-result (handling e) taken queue r₀ r res h sound = cc
  Sound-result (flushing t) taken queue r₀ r res h sound = cc
