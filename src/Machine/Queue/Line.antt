-- ===== src/Machine/Queue/Line.antt =====
-- A channel that is a list of messages, as one that edfsm-machine/src/lib.rs can be given.
use Prim.Native.Nat.{◌-◌}
use edfsm.Prelude.{
  ℕ, zero, suc, ◌+◌, ◌<◌, ◌≡◌, ◌≢◌, refl, Bool, true, false, Option, none, some, List, [], ◌∷◌,
  ◌++◌, ltb, length, arith,
}
use edfsm.Machine.Queue.{View, Poll, ready, closed, pending, Mpsc, IsFifo}

abbrev pub accept : {I : Type 0} → Bool → I → View I → Option (View I)
accept true i v = some (record v { queued = v.queued ++ i ∷ [] })
accept false i v = none

abbrev pub poll : {I : Type 0} → List I → ℕ → View I → Poll I × View I
poll (i ∷ l) n v = (ready i, record v { queued = l })
poll [] zero v = (closed, v)
poll [] (suc n) v = (pending, v)

abbrev pub line : (I : Type 0) → Mpsc I (View I)
line I = record {
  channel = λ n. record { queued = []; senders = 1; capacity = n };
  clone_sender = λ v. record v { senders = v.senders + 1 };
  drop_sender = λ v. record v { senders = v.senders - 1 };
  try_send = λ i v. accept (ltb (length v.queued) v.capacity) i v;
  recv = λ v. poll v.queued v.senders v;
  view = λ v. v;
}

line_send :
    {I : Type 0} (i : I) (v v' : View I) (b : Bool)
    → ltb (length v.queued) v.capacity ≡ b
    → accept b i v ≡ some v'
    → (length v.queued < v.capacity) × (v' ≡ record v { queued = v.queued ++ i ∷ [] })
line_send i v v' true e h = (ground arith, cc)
line_send i v v' false e h = cc

line_room :
    {I : Type 0} (i : I) (v : View I)
    → length v.queued < v.capacity
    → accept (ltb (length v.queued) v.capacity) i v ≢ none
line_room i v h = ground arith

line_ready :
    {I : Type 0} (v : View I) (queue : List I) (i : I) (l : List I)
    → queue ≡ i ∷ l
    → ((poll queue v.senders v).0 ≡ ready i)
      × ((poll queue v.senders v).1 ≡ record v { queued = l })
line_ready v [] i l h = cc
line_ready v (j ∷ k) i l h = (cc, cc)

line_closed :
    {I : Type 0} (v : View I) (queue : List I) (n : ℕ)
    → queue ≡ []
    → n ≡ 0
    → ((poll queue n v).0 ≡ closed) × ((poll queue n v).1 ≡ v)
line_closed v [] zero h k = (refl, refl)
line_closed v [] (suc n) h k = absurd (omega arith)
line_closed v (i ∷ l) n h k = cc

line_pending :
    {I : Type 0} (v : View I) (queue : List I) (n : ℕ)
    → queue ≡ []
    → 0 < n
    → ((poll queue n v).0 ≡ pending) × ((poll queue n v).1 ≡ v)
line_pending v [] zero h k = absurd (omega arith)
line_pending v [] (suc n) h k = (refl, refl)
line_pending v (i ∷ l) n h k = cc

line_drop :
    {I : Type 0} (v : View I) (n : ℕ)
    → v.senders ≡ n + 1
    → record v { senders = v.senders - 1 } ≡ record v { senders = n }
line_drop v n h = ground arith

pub line-IsFifo : (I : Type 0) → IsFifo (line I)
line-IsFifo I = record {
  view-channel = λ n room. refl;
  view-clone_sender = λ v. refl;
  view-drop_sender = line_drop;
  send_accepted = λ i v v' h. line_send i v v' (ltb (length v.queued) v.capacity) refl h;
  send_room = line_room;
  recv_ready = λ v i l h. line_ready v v.queued i l h;
  recv_closed = λ v h k. line_closed v v.queued v.senders h k;
  recv_pending = λ v h k. line_pending v v.queued v.senders h k;
}
