-- ===== src/Machine/Action.antt =====
-- edfsm-machine/src/error.rs, and what `async` code with `?` does to the state that it can reach:
-- it leaves a state beside its result, an error included.
pub mod Sequence

-- enum Error
pub data Error : Type 0 where
  channel_closed : Error

-- core::result::Result
pub data Result {ℓ κ} (A : Type ℓ) (X : Type κ) : Type (ℓ ⊔ κ) where
  ok : A → Result A X
  err : X → Result A X

-- The conversions `From<SendError>`, `From<RecvError>` and `From<ProducerError>`: each gives
-- `ChannelClosed`, whatever the error.
unfoldable pub from_external {κ} : {X : Type κ} → X → Error
from_external x = channel_closed

abbrev pub Action {ℓ κ} : Type ℓ → Type κ → Type (ℓ ⊔ κ)
Action W A = W → Result A Error × W

-- The code that returns `Result<()>`.
abbrev pub Exec {ℓ} : Type ℓ → Type ℓ
Exec W = Action W (Unit {0})

module _ {ℓ κ} {W : Type ℓ} {A : Type κ} where
  abbrev pub pure : A → Action W A
  pure a w = (ok a, w)

  abbrev pub raise : Error → Action W A
  raise x w = (err x, w)

module _ {ℓ κ μ} {W : Type ℓ} {A : Type κ} {B : Type μ} where
  abbrev pub continue : Result A Error → (A → Action W B) → Action W B
  continue (ok a) f w = f a w
  continue (err x) f w = (err x, w)

  infixl 10 ◌>>=◌
  -- `?`, or `.await?`, and the code behind it
  abbrev pub ◌>>=◌ : Action W A → (A → Action W B) → Action W B
  ◌>>=◌ m f w = continue (m w).0 f (m w).1

module _ {ℓ μ} {W : Type ℓ} {B : Type μ} where
  infixl 10 ◌>>◌
  abbrev pub ◌>>◌ : Exec W → Action W B → Action W B
  m >> k = m >>= λ _. k

-- `r?` in a function whose error type is `Error`, at an error of another library
abbrev pub question_mark {ℓ κ} :
    {W : Type ℓ} {X : Type κ} → Result (Unit {0}) X × W → Result (Unit {0}) Error × W
unfolding from_external
question_mark (ok t, w) = (ok t, w)
question_mark (err x, w) = (err (from_external x), w)
