-- ===== src/Machine/Queue.antt =====
-- The bounded channel between the senders of edfsm-machine/src/lib.rs and the task: tokio's
-- `mpsc`, of another library, by what its operations do to the messages that are queued.
pub mod Line
use edfsm.Prelude.{◌<◌, ℕ, ◌+◌, ◌<◌, ◌≡◌, ◌≢◌, Option, none, some, List, [], ◌∷◌, ◌++◌, length}

-- What shows of a channel whose receiver is there.
pub record View {ℓ} (I : Type ℓ) : Type ℓ where
  pub queued : List I
  pub senders : ℕ
  pub capacity : ℕ

-- A poll of `recv`.
pub data Poll {ℓ} (I : Type ℓ) : Type ℓ where
  ready : I → Poll I
  closed pending : Poll I

pub record Mpsc {ℓ} (I Ch : Type ℓ) : Type ℓ where
  pub channel : ℕ → Ch
  pub clone_sender : Ch → Ch
  pub drop_sender : Ch → Ch
  -- `none`: the sender waits
  pub try_send : I → Ch → Option Ch
  pub recv : Ch → Poll I × Ch
  pub view : Ch → View I

-- What is documented of it: a channel has room for one message at least, messages come out as they went in, one is accepted if there is room, and
-- `recv` gives nothing more once all senders are gone and all messages are taken.
pub record IsFifo {ℓ} {I Ch : Type ℓ} (q : Mpsc I Ch) : Type ℓ where
  pub view-channel :
      (n : ℕ) → 0 < n → q.view (q.channel n) ≡ record { queued = []; senders = 1; capacity = n }
  pub view-clone_sender :
      (c : Ch) → q.view (q.clone_sender c) ≡ record (q.view c) { senders = (q.view c).senders + 1 }
  pub view-drop_sender :
      (c : Ch) (n : ℕ)
      → (q.view c).senders ≡ n + 1
      → q.view (q.drop_sender c) ≡ record (q.view c) { senders = n }
  pub send_accepted :
      (i : I) (c c' : Ch)
      → q.try_send i c ≡ some c'
      → (length (q.view c).queued < (q.view c).capacity)
        × (q.view c' ≡ record (q.view c) { queued = (q.view c).queued ++ i ∷ [] })
  pub send_room :
      (i : I) (c : Ch) → length (q.view c).queued < (q.view c).capacity → q.try_send i c ≢ none
  pub recv_ready :
      (c : Ch) (i : I) (l : List I)
      → (q.view c).queued ≡ i ∷ l
      → ((q.recv c).0 ≡ ready i) × (q.view (q.recv c).1 ≡ record (q.view c) { queued = l })
  pub recv_closed :
      (c : Ch)
      → (q.view c).queued ≡ []
      → (q.view c).senders ≡ 0
      → ((q.recv c).0 ≡ closed) × (q.view (q.recv c).1 ≡ q.view c)
  pub recv_pending :
      (c : Ch)
      → (q.view c).queued ≡ []
      → 0 < (q.view c).senders
      → ((q.recv c).0 ≡ pending) × ((q.recv c).1 ≡ c)
