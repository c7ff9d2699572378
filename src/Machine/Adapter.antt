-- ===== src/Machine/Adapter.antt =====
-- edfsm-machine/src/adapter.rs, and `Hydrator` of edfsm-machine/src/lib.rs.
-- An adapter acts on the world `W` behind it: channels, logs and vectors. The trait's
-- implementations are the constructors, and each method is a function by clauses.
pub mod Laws
pub mod Fanout
pub mod Streambed
mod Tests
use edfsm.Prelude.{Option, none, some, List, [], ◌∷◌, ◌++◌, ◌≡◌}
use edfsm.Fsm.{Fsm}
use edfsm.Machine.Action.{Result, ok, err, Exec, pure, question_mark, ◌>>=◌, ◌>>◌}

-- Where a value of type `A` lies in the world.
pub record Place {ℓ} (W A : Type ℓ) : Type ℓ where
  pub get : W → A
  pub set : A → W → W
  pub get-set : (a : A) (w : W) → get (set a w) ≡ a

pub data Adapter {ℓ} (W : Type ℓ) : Type ℓ → Type (ℓ + 1) where
  -- struct Placeholder
  placeholder : {A : Type ℓ} → Adapter W A
  -- struct Merge
  merged : {A : Type ℓ} → Adapter W A → Adapter W A → Adapter W A
  -- struct FilterMap
  filter_mapped : {A B : Type ℓ} → (A → Option B) → Adapter W B → Adapter W A
  -- Vec<A>
  vec : {A : Type ℓ} → Place W (List A) → Adapter W A
  -- mpsc::Sender, broadcast::Sender, LogAdapter: the library's `send` or `produce`
  external : {A X : Type ℓ} → (A → W → Result (Unit {0}) X × W) → Adapter W A
  -- any other implementation, by its `notify`
  implemented : {A : Type ℓ} → (A → Exec W) → Adapter W A

module _ {ℓ} {W : Type ℓ} where
  unfoldable pub notify : {A : Type ℓ} → Adapter W A → A → Exec W
  notify placeholder a w = pure tt w
  notify (merged first next) a w = (notify first a >> notify next a) w
  notify (filter_mapped func inner) a w = elim (func a) [
    | some b ↦ notify inner b w
    | none ↦ pure tt w
  ]
  notify (vec p) a w = (ok tt, p.set (p.get w ++ a ∷ []) w)
  notify (external send) a w = question_mark (send a w)
  notify (implemented f) a w = f a w

  unfoldable pub clone_notify : {A : Type ℓ} → Adapter W A → A → Exec W
  clone_notify placeholder a = pure tt
  clone_notify self a = notify self a

  -- `Placeholder` is replaced by the other adapter
  unfoldable pub merge : {A : Type ℓ} → Adapter W A → Adapter W A → Adapter W A
  merge placeholder other = other
  merge self other = merged self other

  unfoldable pub with_filter_map : {A B : Type ℓ} → Adapter W B → (A → Option B) → Adapter W A
  with_filter_map self func = filter_mapped func self

  unfoldable pub with_map : {A B : Type ℓ} → Adapter W B → (A → B) → Adapter W A
  unfolding with_filter_map
  with_map self func = with_filter_map self (λ a. some (func a))

  -- `into` is the conversion that `A: Into<Self::Item>` gives
  unfoldable pub adapt : {A B : Type ℓ} → Adapter W B → (A → B) → Adapter W A
  unfolding with_filter_map
  adapt self into = with_filter_map self (λ a. some (into a))

-- Result::ok
abbrev pub discard_err {ℓ κ} : {A : Type ℓ} {X : Type κ} → Result A X → Option A
discard_err (ok a) = some a
discard_err (err x) = none

module _ {ℓ} {W : Type ℓ} where
  unfoldable pub adapt_fallible : {A B X : Type ℓ} → Adapter W B → (A → Result B X) → Adapter W A
  unfolding with_filter_map
  adapt_fallible self try_into = with_filter_map self (λ a. discard_err (try_into a))

  -- the loops `for a in … { output.notify(a).await? }`
  unfoldable pub notify_all : {A : Type ℓ} → Adapter W A → List A → Exec W
  unfolding notify
  notify_all output [] = pure tt
  notify_all output (a ∷ items) = notify output a >> notify_all output items

-- trait Feed: its implementations. `stream` is `LogAdapter`, by the history that the log holds.
pub data Feed {ℓ} (W A : Type ℓ) : Type ℓ where
  placeholder : Feed W A
  vec : Place W (List A) → Feed W A
  stream : (W → List A) → Feed W A

module _ {ℓ} {W A : Type ℓ} where
  -- the items that a feed provides, in order
  unfoldable pub history : Feed W A → W → List A
  history placeholder w = []
  history (vec p) w = p.get w
  history (stream h) w = h w

  -- `output` acts on a world of its own
  unfoldable pub feed : {X : Type ℓ} → Feed W A → W → Adapter X A → Exec X
  unfolding history notify_all
  feed placeholder w output = pure tt
  feed self w output = notify_all output (history self w)

-- struct Hydrator: the adapter whose world is the state of the machine
unfoldable pub hydrator {ℓ} : {S C E SE : Type ℓ} → Fsm S C E SE → Adapter S E
hydrator m = implemented (λ e s. (ok tt, (m.on_event s e).0))
