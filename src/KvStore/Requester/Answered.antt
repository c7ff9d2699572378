-- ===== src/KvStore/Requester/Answered.antt =====
-- What the requests of edfsm-kv-store/src/async_query.rs come back with, where a task that runs the
-- store of edfsm-kv-store/src/lib.rs serves them.
use edfsm.Prelude.{◌≡◌, refl, ap, ◌∙◌, Option, none, some, List, Ord, list_ord}
use edfsm.Fsm.{command, Change, Fsm, Terminating, changed, applied, step}
use edfsm.Machine.Action.{Result, ok, err}
use edfsm.Machine.Adapter.{notify}
use edfsm.KvStore.KeyPath.{KeyPath, item_ord}
use edfsm.KvStore.Map
use edfsm.KvStore.Map.{Bound, range}
use edfsm.KvStore.Store.{
  Keyed, KvStore, Env, Query, tree, for_command, change_entry, on_change, kv_fsm,
}
use edfsm.KvStore.Requester.{
  Oneshot, Requester, Extant, found, not_found, extant, is_some, awaited, respond_one, respond_many,
  dispatch, get, get_tree, get_range, get_all, upsert, insert,
}

-- What is sent over a oneshot channel is received, whatever else has happened.
pub record Delivers {ℓ κ μ} {W : Type ℓ} {R : Type κ} {Tx Rx X : Type μ} (one : Oneshot W R Tx Rx X)
    : Type (ℓ ⊔ κ ⊔ μ) where
  pub delivers :
      (made w : W) (r : R)
      → (one.recv (one.channel made).0.1 (one.send (one.channel made).0.0 r w)).0 ≡ ok r

-- What a task does behind its step, from the world before and what the step leaves, takes no reply
-- away.
pub record Keeps {ℓ κ μ} {N V E SE W : Type ℓ} {R : Type κ} {Tx Rx X : Type μ}
    (one : Oneshot W R Tx Rx X) (behind : W → Option (Keyed N E) × KvStore N V × Env N SE W → W)
    : Type (ℓ ⊔ κ ⊔ μ) where
  pub keeps :
      (rx : Rx) (w : W) (after : Option (Keyed N E) × KvStore N V × Env N SE W)
      → (one.recv rx (behind w after)).0 ≡ (one.recv rx after.2.world).0

-- Whether there is a value.
abbrev pub presence {ℓ} : {A : Type ℓ} → Option A → Extant
presence none = not_found
presence (some a) = found

pub extant-presence {ℓ} : {A : Type ℓ} (v : Option A) → extant (is_some v) ≡ presence v
unfolding extant
extant-presence none = refl
extant-presence (some a) = refl

awaited-ok {ℓ κ μ} :
    {W : Type ℓ} {R : Type κ} {X : Type μ} (x : Result R X × W) (r : R)
    → x.0 ≡ ok r
    → (awaited x).0 ≡ ok r
unfolding awaited
awaited-ok (ok a, w) r h = cc
awaited-ok (err x, w) r h = cc

module _ {ℓ} {N V C E SE W : Type ℓ} ⦃o : Ord N⦄ (m : Fsm V C E SE) (term : Terminating E)
    (default : V) where
  -- A task behind the adapter makes one step for the query: `store` and `env` are what it holds
  -- when it gets at the query, given the world in which the query was sent, and `behind` is what it
  -- does with what the step leaves.
  pub record Serves (self : Requester N W V E) : Type ℓ where
    pub store : W → KvStore N V
    pub env : W → Env N SE W
    pub behind : W → Option (Keyed N E) × KvStore N V × Env N SE W → W
    pub serves :
        (q : Query N W V E) (w : W)
        → let after = step (kv_fsm m term default) (store w) (command q) (env w) in
          notify self (command q) w ≡ (ok tt, behind w after)

  change_entry-world :
      (v : Option V) (e : Keyed N E) (env : Env N SE W) (c : Change)
      → (change_entry m v e env c).world ≡ env.world
  change_entry-world none e env c = refl
  change_entry-world (some s) e env c = refl

  changed-world :
      (e : Keyed N E) (store : KvStore N V) (c : Option Change) (env : Env N SE W)
      → (changed (kv_fsm m term default) e (store, c) env).2.world ≡ env.world
  unfolding kv_fsm on_change
  changed-world e store none env = refl
  changed-world e store (some c) env = change_entry-world (Map.get e.key store) e env c

  applied-world :
      (store : KvStore N V) (e : Option (Keyed N E)) (env : Env N SE W)
      → (applied (kv_fsm m term default) store e env).2.world ≡ env.world
  applied-world store none env = refl
  applied-world store (some e) env =
      let r = (kv_fsm m term default).on_event store e in changed-world e r.0 r.1 env

  -- Of a step, only the first half acts on the world.
  pub step-world :
      (store : KvStore N V) (q : Query N W V E) (env : Env N SE W)
      → (step (kv_fsm m term default) store (command q) env).2.world
        ≡ ((kv_fsm m term default).for_command store q env).1.world
  unfolding step
  step-world store q env =
      applied-world store ((kv_fsm m term default).for_command store q env).0
        ((kv_fsm m term default).for_command store q env).1

  module _ {κ μ} {R : Type κ} {Tx Rx X : Type μ} (one : Oneshot W R Tx Rx X)
      (delivers : Delivers one) (self : Requester N W V E) (task : Serves self)
      (keeps : Keeps one task.behind) where
    -- The world behind the making of the channel, and the receiver.
    dispatched :
        (q : Query N W V E) (made before : W) (r : R)
        → ((kv_fsm m term default).for_command
            (task.store (one.channel made).1)
            q
            (task.env (one.channel made).1)).1.world
          ≡ one.send (one.channel made).0.0 r before
        → (dispatch one self q (one.channel made).0.1 (one.channel made).1).0 ≡ ok r
    unfolding dispatch
    dispatched q made before r h =
        let w = (one.channel made).1 in
        let rx = (one.channel made).0.1 in
        let after = step (kv_fsm m term default) (task.store w) (command q) (task.env w) in
        rw (task.serves q w) (
          awaited-ok (one.recv rx (task.behind w after)) r (
            keeps.keeps rx w after
            ∙ ap (λ x. (one.recv rx x).0) (step-world (task.store w) q (task.env w) ∙ h)
            ∙ delivers.delivers made before r))

    -- Where the oneshot channel delivers, and a task makes one step for the query and takes no reply
    -- away, `get` comes back with the function of the value that the store has at the path.
    pub get_answered :
        (path : KeyPath N) (func : Option V → R) (w : W)
        → (get one self path func w).0 ≡ ok (func (Map.get path (task.store (one.channel w).1)))
    unfolding get kv_fsm for_command respond_one
    get_answered path func w = dispatched _ w (task.env (one.channel w).1).world _ refl

    -- Where the oneshot channel delivers, and a task makes one step for the query and takes no reply
    -- away, `get_tree`, `get_all`, and a `get_range` that does not panic come back with the function of the
    -- entries that the query is for.
    pub many_answered :
        (path : KeyPath N) (lo hi : Bound (KeyPath N)) (below entries : List (KeyPath N × V))
        (func : List (KeyPath N × V) → R) (w : W)
        → tree path (task.store (one.channel w).1) ≡ some below
        → range lo hi (task.store (one.channel w).1) ≡ some entries
        → ((get_tree one self path func w).0 ≡ ok (func below))
          × ((get_all one self func w).0 ≡ ok (func (task.store (one.channel w).1)))
          × ((get_range one self lo hi func w).0 ≡ ok (func entries))
    unfolding get_tree get_all get_range kv_fsm for_command respond_many
    many_answered path lo hi below entries func w g h = (
      dispatched _ w (task.env (one.channel w).1).world _ (rw (kv_fsm, for_command, g) refl),
      dispatched _ w (task.env (one.channel w).1).world _ refl,
      dispatched _ w (task.env (one.channel w).1).world _ (rw (kv_fsm, for_command, h) refl),
    )

  module _ {μ} {Tx Rx X : Type μ} (self : Requester N W V E) (task : Serves self) where
    -- Where the oneshot channel delivers, and a task makes one step for the query and takes no reply
    -- away, `upsert` comes back with whether the store has a value at the path when the task gets at it.
    pub upsert_answered :
        (one : Oneshot W Extant Tx Rx X) (delivers : Delivers one) (keeps : Keeps one task.behind)
        (path : KeyPath N) (func : Option V → E) (w : W)
        → let store = task.store (one.channel w).1 in
          (upsert one self path func w).0 ≡ ok (presence (Map.get path store))
    unfolding upsert kv_fsm for_command respond_one extant
    upsert_answered one delivers keeps path func w =
        dispatched one delivers self task keeps _ w (task.env (one.channel w).1).world _ (
          ap (λ r. one.send (one.channel w).0.0 r (task.env (one.channel w).1).world)
            (extant-presence (Map.get path (task.store (one.channel w).1))))

    -- Where the oneshot channel delivers, and a task makes one step for the query and takes no reply
    -- away, `insert` comes back with the path of the event that the function gives for all the entries.
    pub insert_answered :
        (one : Oneshot W (KeyPath N) Tx Rx X) (delivers : Delivers one)
        (keeps : Keeps one task.behind) (func : List (KeyPath N × V) → Keyed N E) (w : W)
        → (insert one self func w).0 ≡ ok (func (task.store (one.channel w).1)).key
    unfolding insert kv_fsm for_command respond_many
    insert_answered one delivers keeps func w =
        dispatched one delivers self task keeps _ w (task.env (one.channel w).1).world _ refl
