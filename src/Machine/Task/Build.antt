-- ===== src/Machine/Task/Build.antt =====
-- How a machine is put together by the methods of edfsm-machine/src/lib.rs, and who is told.
mod Tests
use edfsm.Prelude.{ℕ, ◌≡◌, refl, sym, ap, ◌∙◌, List, [], ◌∷◌, ◌++◌}
use edfsm.Fsm.{Input, Fsm, Init, Terminating, Drain}
use edfsm.Machine.Action.{Exec, pure, ◌>>◌}
use edfsm.Machine.Action.Sequence.{>>_assoc, >>_ext, >>_cong, >>_unit}
use edfsm.Machine.Adapter.{Adapter, placeholder, notify, merge, Feed}
use edfsm.Machine.Adapter.Fanout.{notify-merge}
use edfsm.Machine.Task.Interface.{Machine, template_machine}
use edfsm.Machine.Task.{
  Log, Channel, Template, with_output, merge_output, with_event_log, merge_event_log,
  machine_with_effects,
}

-- The methods that connect.
pub data Connect {ℓ} (W E O : Type ℓ) : Type (ℓ + 1) where
  output : Adapter W O → Connect W E O
  more_output : Adapter W O → Connect W E O
  event_log : Log W E → Connect W E O
  more_events : Adapter W E → Connect W E O

module _ {ℓ} {T : Type (ℓ + 1)} {W S E SE O Tx : Type ℓ} (mach : Machine T W S E SE O Tx) where
  unfoldable pub connect : Connect W E O → T → T
  connect (output a) t = mach.with_output t a
  connect (more_output a) t = mach.merge_output t a
  connect (event_log log) t = mach.with_event_log t log
  connect (more_events a) t = mach.merge_event_log t a

  unfoldable pub build : List (Connect W E O) → T → T
  unfolding connect
  build [] t = t
  build (c ∷ cs) t = build cs (connect c t)

module _ {ℓ} {W : Type ℓ} where
  -- One adapter after the other, until one fails.
  abbrev pub notify_each : {A : Type ℓ} → List (Adapter W A) → A → Exec W
  notify_each [] a = pure tt
  notify_each (o ∷ os) a = notify o a >> notify_each os a

  -- What is told by `o` alone, or by each of `os`.
  abbrev Tells : {A : Type ℓ} → Adapter W A → List (Adapter W A) → Type ℓ
  Tells {A} o os = (a : A) (w : W) → notify o a w ≡ notify_each os a w

  one-Tells : {A : Type ℓ} (o : Adapter W A) → Tells o (o ∷ [])
  one-Tells o a w = sym (>>_unit (notify o a) w)

  notify_each-snoc :
      {A : Type ℓ} (os : List (Adapter W A)) (o : Adapter W A) (a : A) (w : W)
      → notify_each (os ++ o ∷ []) a w ≡ (notify_each os a >> notify o a) w
  notify_each-snoc [] o a w = >>_unit (notify o a) w
  notify_each-snoc (p ∷ os) o a w =
      >>_ext (notify p a) (notify_each-snoc os o a) w
      ∙ sym (>>_assoc (notify p a) (notify_each os a) (notify o a) w)

  merge-Tells :
      {A : Type ℓ} (o p : Adapter W A) (os : List (Adapter W A))
      → Tells o os
      → Tells (merge o p) (os ++ p ∷ [])
  merge-Tells o p os h a w =
      notify-merge o p a w
      ∙ >>_cong (notify o a) (notify_each os a) (notify p a) w (h a w)
      ∙ sym (notify_each-snoc os p a w)

module _ {ℓ} {W E O : Type ℓ} where
  -- The outputs that are connected in the end: those since the last that replaced the others.
  abbrev pub outputs : List (Connect W E O) → List (Adapter W O) → List (Adapter W O)
  outputs [] os = os
  outputs (output o ∷ cs) os = outputs cs (o ∷ [])
  outputs (more_output o ∷ cs) os = outputs cs (os ++ o ∷ [])
  outputs (event_log log ∷ cs) os = outputs cs os
  outputs (more_events o ∷ cs) os = outputs cs os

  -- The observers of events: all of them.
  abbrev pub observers : List (Connect W E O) → List (Adapter W E) → List (Adapter W E)
  observers [] os = os
  observers (output o ∷ cs) os = observers cs os
  observers (more_output o ∷ cs) os = observers cs os
  observers (event_log log ∷ cs) os = observers cs os
  observers (more_events o ∷ cs) os = observers cs (os ++ o ∷ [])

  -- The log: the last one.
  abbrev pub last_log : List (Connect W E O) → Log W E → Log W E
  last_log [] log = log
  last_log (event_log log' ∷ cs) log = last_log cs log'
  last_log (c ∷ cs) log = last_log cs log

module _ {ℓ} {S C E SE O W Tx Rx : Type ℓ} (m : Fsm S C E SE) (d : Drain SE O)
    (term : Terminating E) (init : Init S SE) (ch : Channel (Input C E) Tx Rx) where
  build-Tells :
      (cs : List (Connect W E O)) (t : Template W E SE O Tx Rx) (os : List (Adapter W O))
      (es : List (Adapter W E))
      → Tells t.output os
      → Tells t.events es
      → Tells (build (template_machine m d term init ch) cs t).output (outputs cs os)
        × Tells (build (template_machine m d term init ch) cs t).events (observers cs es)
        × ((build (template_machine m d term init ch) cs t).log ≡ last_log cs t.log)
  unfolding build connect with_output merge_output with_event_log merge_event_log
  build-Tells [] t os es h k = (h, k, refl)
  build-Tells (output o ∷ cs) t os es h k =
      build-Tells cs (with_output t o) (o ∷ []) es (one-Tells o) k
  build-Tells (more_output o ∷ cs) t os es h k =
      build-Tells cs (merge_output t o) (os ++ o ∷ []) es (merge-Tells t.output o os h) k
  build-Tells (event_log log ∷ cs) t os es h k = build-Tells cs (with_event_log t log) os es h k
  build-Tells (more_events o ∷ cs) t os es h k =
      build-Tells cs (merge_event_log t o) os (es ++ o ∷ []) h (merge-Tells t.events o es k)

  -- However a machine is put together: an output message is sent to each adapter that has been
  -- connected since the last `with_output`, that one included, in the order of connection; an event
  -- is told to each adapter of `merge_event_log`, in that order; the sequence stops at the first
  -- that fails; and the log is the last that has been connected.
  pub build_tells :
      (effects : SE) (buffer : ℕ) (cs : List (Connect W E O))
      → let t : Template W E SE O Tx Rx =
          build (template_machine m d term init ch) cs (machine_with_effects ch effects buffer) in
        ((o : O) (w : W) → notify t.output o w ≡ notify_each (outputs cs []) o w)
        × ((e : E) (w : W) → notify t.events e w ≡ notify_each (observers cs []) e w)
        × (t.log ≡ last_log cs (record { adapter = placeholder; source = Feed.placeholder }))
  unfolding machine_with_effects notify
  build_tells effects buffer cs =
      build-Tells cs (machine_with_effects ch effects buffer) [] [] (λ a w. refl) (λ a w. refl)
