-- ===== src/KvStore/Store/Quiet.antt =====
-- When `KvStore` of edfsm-kv-store/src/lib.rs can be rebuilt from its log.
use edfsm.Prelude.{
  ◌≡◌, ◌≢◌, refl, sym, ap, ◌∙◌, Bool, true, false, Option, none, some, [], Ord, list_ord,
}
use edfsm.Fsm.{event, Fsm, Terminating, step}
use edfsm.Fsm.Step.{IsQuiet}
use edfsm.KvStore.KeyPath.{KeyPath, item_ord}
use edfsm.KvStore.Map.{get, insert}
use edfsm.KvStore.Map.Lookup.{get-insert_self, insert-get}
use edfsm.KvStore.Store.{Keyed, KvStore, Env, at_entry, on_event, kv_fsm}

-- A new inner machine takes every event but a terminating one for a change.
pub record IsEager {ℓ} {V C E SE : Type ℓ} (m : Fsm V C E SE) (term : Terminating E) (default : V)
    : Type ℓ where
  pub eager : (e : E) → term.terminating e ≡ false → (m.on_event default e).1 ≢ none

module _ {ℓ} {N V C E SE : Type ℓ} ⦃o : Ord N⦄ (m : Fsm V C E SE) (term : Terminating E)
    (default : V) where
  at_entry_quiet :
      IsQuiet m
      → IsEager m term default
      → (key : KeyPath N) (v : Option V) (t : Bool) (e : E) (store : KvStore N V)
      → get key store ≡ v
      → term.terminating e ≡ t
      → (at_entry m term default key v t e store).1 ≡ none
      → (at_entry m term default key v t e store).0 ≡ store
  at_entry_quiet q g key (some s) false e store at te h =
      insert-get key (m.on_event s e).0 store (at ∙ ap some (sym (q.quiet s e h)))
  at_entry_quiet q g key none false e store at te h = absurd (g.eager e te h)
  at_entry_quiet q g key (some s) true e store at te h = cc
  at_entry_quiet q g key none true e store at te h = refl

  -- Where the inner machine is quiet and eager, an event for which the store reports no change
  -- leaves the store as it is.
  pub kv_fsm-IsQuiet :
      (W : Type ℓ)
      → IsQuiet m
      → IsEager m term default
      → IsQuiet (kv_fsm {N = N} {W = W} m term default)
  unfolding kv_fsm on_event
  kv_fsm-IsQuiet W q g = record {
    quiet = λ store e h. at_entry_quiet q g e.key (get e.key store) _ e.item store refl refl h;
  }

  -- An event for an absent path that is not terminating, and that a new inner machine ignores,
  -- puts a machine at the path all the same: the step returns no event, so that none is logged,
  -- and the path, absent before, is present.
  pub step_unlogged :
      {W : Type ℓ} (store : KvStore N V) (e : Keyed N E) (env : Env N SE W)
      → get e.key store ≡ none
      → term.terminating e.item ≡ false
      → (m.on_event default e.item).1 ≡ none
      → let after = step (kv_fsm m term default) store (event e) env in
        (after.0 ≡ none) × (get e.key after.1 ≡ some (m.on_event default e.item).0)
  unfolding step kv_fsm on_event
  step_unlogged store e env absent live ignored =
      rw (absent, live, ignored) (refl, get-insert_self e.key _ store)

  -- So the store cannot be rebuilt from its log: it is not quiet, wherever a new inner machine
  -- ignores an event that is not terminating.
  pub not-kv_fsm-IsQuiet :
      (W : Type ℓ) (key : KeyPath N) (e : E)
      → term.terminating e ≡ false
      → (m.on_event default e).1 ≡ none
      → ¬ IsQuiet (kv_fsm {N = N} {W = W} m term default)
  unfolding kv_fsm on_event get insert
  not-kv_fsm-IsQuiet W key e live ignored q =
      let sent : Keyed N E = record { key = key; item = e } in
      cc (rw live at (q.quiet [] sent (rw live ignored)))
