-- ===== src/Fsm.antt =====
-- edfsm/src/lib.rs: the trait `Fsm` with its `step`, and the traits `Init`, `Terminating`, `Drain`.
-- `&mut S` and `&mut SE` are states passed in and out; `&S` is passed in alone.
pub mod Step
pub mod Started
mod Tests
use edfsm.Prelude.{Bool, Option, none, some, List, [], ◌∷◌}

-- enum Input<C, E>
pub data Input {ℓ} (C E : Type ℓ) : Type ℓ where
  command : C → Input C E
  event : E → Input C E

-- enum Change
pub data Change : Type 0 where
  transitioned updated : Change

-- The methods that an implementation of the trait gives.
pub record Fsm {ℓ} (S C E SE : Type ℓ) : Type ℓ where
  pub for_command : S → C → SE → Option E × SE
  pub on_event : S → E → S × Option Change
  pub on_change : S → E → SE → Change → SE

-- trait Init<S>, implemented by the effector
pub record Init {ℓ} (S SE : Type ℓ) : Type ℓ where
  pub init : SE → S → SE

-- trait Terminating, implemented by the event
pub record Terminating {ℓ} (E : Type ℓ) : Type ℓ where
  pub terminating : E → Bool

-- trait Drain: the messages removed, and the effector that is left
pub record Drain {ℓ} (SE O : Type ℓ) : Type ℓ where
  pub drain_all : SE → List O × SE

module _ {ℓ} {S C E SE : Type ℓ} (m : Fsm S C E SE) where
  -- `let e = match i { … }` of `step`
  abbrev pub emitted : S → Input C E → SE → Option E × SE
  emitted s (command c) se = m.for_command s c se
  emitted s (event e) se = (some e, se)

  -- `if let Some(c) = r { … } else { None }` of `step`
  abbrev pub changed : E → S × Option Change → SE → Option E × S × SE
  changed e (s, some c) se = (some e, s, m.on_change s e se c)
  changed e (s, none) se = (none, s, se)

  -- `if let Some(e) = e { … } else { None }` of `step`
  abbrev pub applied : S → Option E → SE → Option E × S × SE
  applied s (some e) se = changed e (m.on_event s e) se
  applied s none se = (none, s, se)

  -- The event that is returned, the state and the effector that are left.
  unfoldable pub step : S → Input C E → SE → Option E × S × SE
  step s i se = let (e, se') = emitted s i se in applied s e se'

  -- State reconstituted from events, `on_event` alone being called.
  unfoldable pub replay : S → List E → S
  replay s [] = s
  replay s (e ∷ es) = replay (m.on_event s e).0 es
