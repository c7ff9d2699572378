-- ===== src/KvStore/Requester/Served.antt =====
-- The requests of edfsm-kv-store/src/async_query.rs, served by a round of the main loop of
-- edfsm-machine/src/lib.rs that runs the store of edfsm-kv-store/src/lib.rs.
pub mod Many
pub mod Atomic
mod Tests
use edfsm.Prelude.{
  ◌≡◌, refl, sym, ap, ◌∙◌, ◌++◌, Bool, false, Option, none, some, List, Ord, list_ord, lex,
  if◌then◌else◌,
}
use edfsm.Fsm.{Input, command, Fsm, Terminating, Drain, step}
use edfsm.Fsm.Step.{reported}
use edfsm.Machine.Action.{Result, Error, ok, err, Exec}
use edfsm.Machine.Adapter.{implemented, vec, notify}
use edfsm.Machine.Task.{Run, round}
use edfsm.Machine.Task.Trace.{Ledger, vec_log, sent_place, notified_place, round-written}
use edfsm.KvStore.KeyPath.{KeyPath, item_ord}
use edfsm.KvStore.KeyPath.Prefix.{is_eq}
use edfsm.KvStore.Map.{get}
use edfsm.KvStore.Map.Order.{IsSorted}
use edfsm.KvStore.Store.{Keyed, KvStore, Env, Query, kv_fsm, keyed_drain, keyed_terminating}
use edfsm.KvStore.Store.Slots.{slot}
use edfsm.KvStore.Store.Commands.{step-upsert}
use edfsm.KvStore.Requester.{Oneshot, Requester, Extant, awaited, respond_one, dispatch, upsert}
use edfsm.KvStore.Requester.Answered.{Delivers, Keeps, Serves, presence, upsert_answered}

-- All that the task and those who ask share: the task's store and effector, its log, observer and
-- output, and the oneshot channels.
pub record Host {ℓ} (N V E SE O P : Type ℓ) : Type ℓ where
  pub cells : KvStore N V
  pub effects : Keyed N SE
  pub books : Ledger (Keyed N E) (Keyed N O)
  pub post : P

-- The oneshot channels, seen from the host.
abbrev pub hosted {ℓ κ μ} :
    {N V E SE O P : Type ℓ} {R : Type κ} {Tx Rx X : Type μ}
    → Oneshot P R Tx Rx X
    → Oneshot (Host N V E SE O P) R Tx Rx X
hosted one = record {
  channel = λ h. let (c, post) = one.channel h.post in (c, record h { post = post });
  send = λ tx r h. record h { post = one.send tx r h.post };
  recv = λ rx h. let (r, post) = one.recv rx h.post in (r, record h { post = post });
}

-- A round's result, as `send` has none but success.
abbrev pub accepted : Result Bool Error → Result (Unit {0}) Error
accepted (ok t) = ok tt
accepted (err x) = err x

pub hosted-Delivers {ℓ κ μ} :
    {N V E SE O P : Type ℓ} {R : Type κ} {Tx Rx X : Type μ} {one : Oneshot P R Tx Rx X}
    → Delivers one
    → Delivers (hosted {N = N} {V = V} {E = E} {SE = SE} {O = O} one)
hosted-Delivers laws = record { delivers = λ made h r. laws.delivers made.post h.post r }

-- `rx.await?` leaves the world as the receiver leaves it.
awaited-world {ℓ κ μ} :
    {W : Type ℓ} {R : Type κ} {X : Type μ} (x : Result R X × W) → (awaited x).1 ≡ x.1
unfolding awaited
awaited-world (ok r, w) = refl
awaited-world (err x, w) = refl

module _ {ℓ} {N V C E SE O P : Type ℓ} ⦃o : Ord N⦄ (m : Fsm V C E SE) (d : Drain SE O)
    (term : Terminating E) (default : V) where
  abbrev pub env_of : Host N V E SE O P → Env N SE (Host N V E SE O P)
  env_of h = record { effects = h.effects; world = h; panicked = false }

  abbrev pub run_of :
      Host N V E SE O P
      → Run (KvStore N V) (Env N SE (Host N V E SE O P)) (Ledger (Keyed N E) (Keyed N O))
  run_of h = record { state = h.cells; effects = env_of h; world = h.books }

  abbrev pub back :
      Run (KvStore N V) (Env N SE (Host N V E SE O P)) (Ledger (Keyed N E) (Keyed N O))
      → Host N V E SE O P
  back r = record (r.effects.world) {
    cells = r.state;
    effects = r.effects.effects;
    books = r.world;
  }

  -- The sender of the task's channel, for a task that takes each input up at once: one round of its
  -- main loop.
  unfoldable pub one_round :
      Input (Query N (Host N V E SE O P) V E) (Keyed N E) → Exec (Host N V E SE O P)
  one_round i h =
      let (res, r) =
        round (kv_fsm m term default) (keyed_drain d) keyed_terminating vec_log (vec sent_place)
          (vec notified_place) i (run_of h) in
      (accepted res, back r)

  abbrev pub served : Requester N (Host N V E SE O P) V E
  served = implemented one_round

  -- What the round does with what its step leaves.
  unfoldable pub concluded :
      Host N V E SE O P
      → Option (Keyed N E) × KvStore N V × Env N SE (Host N V E SE O P)
      → Host N V E SE O P
  concluded h (e, cells, env) =
      let (items, ready) = (keyed_drain d).drain_all env in
      let books : Ledger (Keyed N E) (Keyed N O) = record {
        logged = h.books.logged ++ reported e;
        notified = h.books.notified ++ reported e;
        sent = h.books.sent ++ items;
      } in
      back (record { state = cells; effects = ready; world = books })

  one_round-concluded :
      (q : Query N (Host N V E SE O P) V E) (h : Host N V E SE O P)
      → notify served (command q) h
        ≡ (ok tt, concluded h (step (kv_fsm m term default) h.cells (command q) (env_of h)))
  unfolding notify one_round concluded
  one_round-concluded q h =
      rw
        (round-written (kv_fsm m term default) (keyed_drain d) keyed_terminating (command q)
          (run_of h))
        refl

  pub served-Serves : Serves {SE = SE} m term default served
  served-Serves = record {
    store = λ h. h.cells;
    env = env_of;
    behind = concluded;
    serves = one_round-concluded;
  }

  pub hosted-Keeps {κ μ} :
      {R : Type κ} {Tx Rx X : Type μ} (one : Oneshot P R Tx Rx X)
      → Keeps (hosted {N = N} {V = V} {E = E} {SE = SE} {O = O} one) concluded
  unfolding concluded keyed_drain
  hosted-Keeps one = record { keeps = λ rx h after. refl }

  -- The store behind a request.
  pub dispatch-concluded {κ μ} :
      {R : Type κ} {Tx Rx X : Type μ} (one : Oneshot P R Tx Rx X)
      (q : Query N (Host N V E SE O P) V E) (rx : Rx) (h : Host N V E SE O P)
      → (dispatch (hosted one) served q rx h).1.cells
        ≡ (step (kv_fsm {SE = SE} m term default) h.cells (command q) (env_of h)).1
  unfolding dispatch concluded
  dispatch-concluded one q rx h = rw (one_round-concluded q h) (
      ap (λ (w : Host N V E SE O P). w.cells)
        (awaited-world (
          (hosted one).recv rx
            (concluded h (step (kv_fsm {SE = SE} m term default) h.cells (command q) (env_of h))))))

  -- For a store in order, a oneshot channel that delivers, and a task that takes each input up at
  -- once, with a log, an observer and an output that are vectors: an upsert comes back with whether
  -- there was a value at the path, and the task has applied the event that the function gives for it
  -- to that path, and left all others as they were.
  pub upsert-served {μ} :
      {Tx Rx X : Type μ} (one : Oneshot P Extant Tx Rx X) (p path : KeyPath N) (func : Option V → E)
      (h : Host N V E SE O P)
      → Delivers one
      → IsSorted h.cells
      → ((upsert (hosted one) served path func h).0 ≡ ok (presence (get path h.cells)))
        × (get p (upsert (hosted one) served path func h).1.cells ≡ (
            if is_eq (lex p path)
            then slot m term default (get p h.cells) (func (get path h.cells))
            else get p h.cells))
  unfolding upsert respond_one served-Serves concluded
  upsert-served one p path func h delivers sorted =
      let asked : Host N V E SE O P = ((hosted one).channel h).1 in
      (
        upsert_answered m term default served served-Serves (hosted one) (hosted-Delivers delivers)
            (hosted-Keeps one) path func h,
        ap (get p) (dispatch-concluded one _ _ asked)
            ∙ step-upsert m term default p path _ h.cells (env_of asked) sorted,
      )
