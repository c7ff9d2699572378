-- ===== src/Machine/Output.antt =====
-- edfsm-machine/src/output.rs
use edfsm.Prelude.{List, [], ◌∷◌, ◌++◌}
use edfsm.Fsm.{Init, Drain}

-- struct OutputBuffer
pub record OutputBuffer {ℓ} (A : Type ℓ) : Type ℓ where
  pub items : List A

module _ {ℓ} {A : Type ℓ} where
  unfoldable pub push : OutputBuffer A → A → OutputBuffer A
  push b item = record { items = b.items ++ item ∷ [] }

  unfoldable pub default : OutputBuffer A
  default = record { items = [] }

  -- `Vec::drain(0..)`: all the items are gone, also where the iterator is dropped half way
  unfoldable pub drain_all : OutputBuffer A → List A × OutputBuffer A
  unfolding default
  drain_all b = (b.items, default)

  instance unfoldable pub output_drain : Drain (OutputBuffer A) A
  unfolding drain_all
  output_drain = record { drain_all = drain_all }

unfoldable pub output_init {ℓ} : {S A : Type ℓ} → Init S (OutputBuffer A)
output_init = record { init = λ b s. b }
