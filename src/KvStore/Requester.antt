-- ===== src/KvStore/Requester.antt =====
-- edfsm-kv-store/src/async_query.rs: queries whose result comes back over a oneshot channel, which
-- is the library's: a parameter.
pub mod Answered
pub mod Served
pub mod Queries
pub mod Concurrent
use edfsm.Prelude.{Bool, true, false, Option, none, some, List}
use edfsm.Fsm.{Input, command}
use edfsm.Machine.Action.{Result, ok, err, Error, Action, ◌>>◌, from_external}
use edfsm.Machine.Adapter.{Adapter, notify}
use edfsm.KvStore.KeyPath.{KeyPath}
use edfsm.KvStore.Map.{Bound}
use edfsm.KvStore.Store.{Keyed, RespondOne, RespondMany, Query}

-- tokio's oneshot channel, for a reply of type `R`, in a world. Whether `send` fails is ignored by
-- the code; `recv` is the await of the receiver.
pub record Oneshot {ℓ κ μ} (W : Type ℓ) (R : Type κ) (Tx Rx X : Type μ) : Type (ℓ ⊔ κ ⊔ μ) where
  pub channel : W → (Tx × Rx) × W
  pub send : Tx → R → W → W
  pub recv : Rx → W → Result R X × W

-- enum Extant
pub data Extant : Type 0 where
  found not_found : Extant

-- From<bool>
unfoldable pub extant : Bool → Extant
extant true = found
extant false = not_found

-- Option::is_some
abbrev pub is_some {ℓ} : {A : Type ℓ} → Option A → Bool
is_some none = false
is_some (some a) = true

-- `rx.await?`
abbrev pub awaited {ℓ κ μ} :
    {W : Type ℓ} {R : Type κ} {X : Type μ} → Result R X × W → Result R Error × W
unfolding from_external
awaited (ok r, w) = (ok r, w)
awaited (err x, w) = (err (from_external x), w)

module _ {ℓ κ μ} {W : Type ℓ} {R : Type κ} {Tx Rx X : Type μ} (one : Oneshot W R Tx Rx X) where
  -- The closures of `respond_one` and `respond_many`, which own the sender.
  unfoldable pub respond_one {ν} :
      {V : Type ℓ} {E : Type ν} → Tx → (Option V → R × E) → RespondOne W V E
  respond_one tx func v w = let (r, e) = func v in (e, one.send tx r w)

  unfoldable pub respond_many {ν} :
      {N V : Type ℓ} {E : Type ν} → Tx → (List (KeyPath N × V) → R × E) → RespondMany N W V E
  respond_many tx func vs w = let (r, e) = func vs in (e, one.send tx r w)

-- struct Requester: the adapter that queries are sent to
abbrev pub Requester {ℓ} : Type ℓ → Type ℓ → Type ℓ → Type ℓ → Type (ℓ + 1)
Requester N W V E = Adapter W (Input (Query N W V E) (Keyed N E))

-- requester
abbrev pub requester {ℓ} :
    {N W V E : Type ℓ} → Adapter W (Input (Query N W V E) (Keyed N E)) → Requester N W V E
requester sender = sender

module _ {ℓ κ μ} {N W V E : Type ℓ} {R : Type κ} {Tx Rx X : Type μ} (one : Oneshot W R Tx Rx X)
    (self : Requester N W V E) where
  unfoldable pub dispatch : Query N W V E → Rx → Action W R
  dispatch query rx = notify self (command query) >> λ w. awaited (one.recv rx w)

  unfoldable pub get : KeyPath N → (Option V → R) → Action W R
  unfolding dispatch respond_one
  get path func w =
      let ((tx, rx), w) = one.channel w in
      dispatch (Query.get path (respond_one one tx (λ v. (func v, tt)))) rx w

  unfoldable pub get_tree : KeyPath N → (List (KeyPath N × V) → R) → Action W R
  unfolding dispatch respond_many
  get_tree path func w =
      let ((tx, rx), w) = one.channel w in
      dispatch (Query.get_tree path (respond_many one tx (λ vs. (func vs, tt)))) rx w

  unfoldable pub get_range :
      Bound (KeyPath N) → Bound (KeyPath N) → (List (KeyPath N × V) → R) → Action W R
  unfolding dispatch respond_many
  get_range lo hi func w =
      let ((tx, rx), w) = one.channel w in
      dispatch (Query.get_range lo hi (respond_many one tx (λ vs. (func vs, tt)))) rx w

  unfoldable pub get_all : (List (KeyPath N × V) → R) → Action W R
  unfolding dispatch respond_many
  get_all func w =
      let ((tx, rx), w) = one.channel w in
      dispatch (Query.get_all (respond_many one tx (λ vs. (func vs, tt)))) rx w

module _ {ℓ μ} {N W V E : Type ℓ} {Tx Rx X : Type μ} where
  unfoldable pub upsert :
      Oneshot W Extant Tx Rx X → Requester N W V E → KeyPath N → (Option V → E) → Action W Extant
  unfolding dispatch respond_one extant
  upsert one self path func w =
      let ((tx, rx), w) = one.channel w in
      dispatch one self (Query.upsert path (respond_one one tx (λ v. (extant (is_some v), func v))))
        rx w

  unfoldable pub insert :
      Oneshot W (KeyPath N) Tx Rx X
      → Requester N W V E
      → (List (KeyPath N × V) → Keyed N E)
      → Action W (KeyPath N)
  unfolding dispatch respond_many
  insert one self func w =
      let ((tx, rx), w) = one.channel w in
      dispatch one self (Query.insert (respond_many one tx (λ vs. let e = func vs in (e.key, e))))
        rx w
