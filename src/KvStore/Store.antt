-- ===== src/KvStore/Store.antt =====
-- edfsm-kv-store/src/lib.rs: `KvStore` as a state machine over an inner one.
-- A responder is a boxed closure: it acts on what it has captured, a world `W` (channels, most
-- often), and returns a value. The iterator that it is given is the list of its items.
pub mod Slots
pub mod Interleaving
pub mod Quiet
pub mod Inner
pub mod Tree
pub mod Commands
pub mod Unwound
pub mod Outputs
pub mod Family
use edfsm.Prelude.{
  ℕ, Bool, true, false, Option, none, some, List, [], ◌∷◌, Ord, list_ord, if◌then◌else◌, ltb, ◌||◌,
  lex, map,
}
use Prim.Native.Nat.Ordering.{lt, eq, gt}
use edfsm.Fsm.{Change, transitioned, Fsm, Init, Terminating, Drain}
use edfsm.KvStore.KeyPath.{KeyPath, item_ord, root, len}
use edfsm.KvStore.KeyPath.Prefix.{is_eq}
use edfsm.KvStore.Map
use edfsm.KvStore.Map.{Bound, included, unbounded, range, take_while}

-- struct Keyed
pub record Keyed {ℓ} (N A : Type ℓ) : Type ℓ where
  pub key : KeyPath N
  pub item : A

-- RespondOne, RespondMany
abbrev pub RespondOne {ℓ κ} : Type ℓ → Type ℓ → Type κ → Type (ℓ ⊔ κ)
RespondOne W V E = Option V → W → E × W

abbrev pub RespondMany {ℓ κ} : Type ℓ → Type ℓ → Type ℓ → Type κ → Type (ℓ ⊔ κ)
RespondMany N W V E = List (KeyPath N × V) → W → E × W

-- enum Query
pub data Query {ℓ} (N W V E : Type ℓ) : Type ℓ where
  get : KeyPath N → RespondOne W V (Unit {0}) → Query N W V E
  get_tree : KeyPath N → RespondMany N W V (Unit {0}) → Query N W V E
  get_range : Bound (KeyPath N) → Bound (KeyPath N) → RespondMany N W V (Unit {0}) → Query N W V E
  get_all : RespondMany N W V (Unit {0}) → Query N W V E
  upsert : KeyPath N → RespondOne W V E → Query N W V E
  insert : RespondMany N W V (Keyed N E) → Query N W V E

-- struct KvStore(BTreeMap<Path, State<M>>)
abbrev pub KvStore {ℓ} : Type ℓ → Type ℓ → Type ℓ
KvStore N V = List (KeyPath N × V)

-- Default for KvStore
abbrev pub default_store {ℓ} : {N V : Type ℓ} → KvStore N V
default_store = []

-- What a call can change: the effector `Keyed<Effect<M>>`, the world of the responders, and
-- whether a panic has unwound out of the call.
pub record Env {ℓ} (N SE W : Type ℓ) : Type ℓ where
  pub effects : Keyed N SE
  pub world : W
  pub panicked : Bool

module _ {ℓ} {N : Type ℓ} ⦃o : Ord N⦄ where
  -- the closure of `take_while`
  unfoldable pub deep : KeyPath N → KeyPath N → Bool
  unfolding len
  deep path p = ltb (len path) (len p) || is_eq (lex p path)

module _ {ℓ} {N V : Type ℓ} ⦃o : Ord N⦄ where
  -- The entries that `GetTree` hands to its responder; `none` is a panic of the range.
  unfoldable pub tree : KeyPath N → KvStore N V → Option (List (KeyPath N × V))
  unfolding range take_while deep
  tree path store = elim (range (included path) unbounded store) [
    | some entries ↦ some (take_while (deep path) entries)
    | none ↦ none
  ]

module _ {ℓ} {N W E SE : Type ℓ} where
  -- respond(…); None
  abbrev pub answer : Unit {0} × W → Env N SE W → Option (Keyed N E) × Env N SE W
  answer (done, w) env = (none, record env { world = w })

  -- A panic ends the call with no event and nothing done. It unwinds the task as well, so that what
  -- follows it is not a run of the code: there `panicked` stays set.
  abbrev pub unwound :
      Env N SE W → Option (Option (Keyed N E) × Env N SE W) → Option (Keyed N E) × Env N SE W
  unwound env (some r) = r
  unwound env none = (none, record env { panicked = true })

module _ {ℓ} {N W V E SE : Type ℓ} ⦃o : Ord N⦄ where
  -- The event, and what the call leaves; `none` is a panic.
  unfoldable pub for_command :
      KvStore N V → Query N W V E → Env N SE W → Option (Option (Keyed N E) × Env N SE W)
  unfolding Map.get tree range
  for_command store (get path respond) env =
      some (answer (respond (Map.get path store) env.world) env)
  for_command store (get_tree path respond) env = elim (tree path store) [
    | none ↦ none
    | some entries ↦ some (answer (respond entries env.world) env)
  ]
  for_command store (get_range lo hi respond) env = elim (range lo hi store) [
    | none ↦ none
    | some entries ↦ some (answer (respond entries env.world) env)
  ]
  for_command store (get_all respond) env = some (answer (respond store env.world) env)
  for_command store (upsert path respond) env =
      let (e, w) = respond (Map.get path store) env.world in
      some (some (record { key = path; item = e }), record env { world = w })
  for_command store (insert respond) env =
      let (e, w) = respond store env.world in some (some e, record env { world = w })

module _ {ℓ} {N V C E SE : Type ℓ} ⦃o : Ord N⦄ (m : Fsm V C E SE) (term : Terminating E)
    (default : V) where
  -- `M::on_event` on the value of an entry, which stays in the map
  abbrev pub written : KeyPath N → V → E → KvStore N V → KvStore N V × Option Change
  written key s e store = (Map.insert key (m.on_event s e).0 store, (m.on_event s e).1)

  -- the `match` on the entry and on `terminating`
  abbrev pub at_entry : KeyPath N → Option V → Bool → E → KvStore N V → KvStore N V × Option Change
  at_entry key (some s) false e store = written key s e store
  at_entry key none false e store = written key default e store
  at_entry key (some s) true e store = (Map.remove key store, some transitioned)
  at_entry key none true e store = (store, none)

  unfoldable pub on_event : KvStore N V → Keyed N E → KvStore N V × Option Change
  on_event store e = at_entry e.key (Map.get e.key store) (term.terminating e.item) e.item store

module _ {ℓ} {N V C E SE W : Type ℓ} ⦃o : Ord N⦄ (m : Fsm V C E SE) where
  abbrev pub change_entry : Option V → Keyed N E → Env N SE W → Change → Env N SE W
  change_entry (some s) e env change = record env {
    effects = record { key = e.key; item = m.on_change s e.item env.effects.item change };
  }
  change_entry none e env change = env

  unfoldable pub on_change : KvStore N V → Keyed N E → Env N SE W → Change → Env N SE W
  on_change store e env change = change_entry (Map.get e.key store) e env change

-- impl Fsm for KvStore<M>
unfoldable pub kv_fsm {ℓ} :
    {N V C E SE W : Type ℓ} ⦃o : Ord N⦄
    → Fsm V C E SE
    → Terminating E
    → V
    → Fsm (KvStore N V) (Query N W V E) (Keyed N E) (Env N SE W)
kv_fsm m term default = record {
  for_command = λ store q env. unwound env (for_command store q env);
  on_event = on_event m term default;
  on_change = on_change m;
}

module _ {ℓ} {N SE O W : Type ℓ} where
  -- impl Drain for Keyed<SE>
  unfoldable pub keyed_drain : Drain SE O → Drain (Env N SE W) (Keyed N O)
  keyed_drain d = record {
    drain_all = λ env.
        let (items, se) = d.drain_all env.effects.item in
        (
          map (λ item. record { key = env.effects.key; item = item }) items,
          record env { effects = record { key = env.effects.key; item = se } },
        );
  }

-- impl Terminating for Keyed: no event ends the store
unfoldable pub keyed_terminating {ℓ} : {N A : Type ℓ} → Terminating (Keyed N A)
keyed_terminating = record { terminating = λ e. false }

-- impl Init for Keyed
unfoldable pub keyed_init {ℓ} : {S N SE W : Type ℓ} → Init S (Env N SE W)
keyed_init = record { init = λ env store. env }

-- impl Default for Keyed: the root, and the default of the effector
unfoldable pub default_keyed {ℓ} : {N SE : Type ℓ} → SE → Keyed N SE
unfolding root
default_keyed default_effects = record { key = root; item = default_effects }
