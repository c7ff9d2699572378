-- ===== src/KvStore/Store/Interleaving.antt =====
-- Events of edfsm-kv-store/src/lib.rs for different paths: how they interleave does not matter.
use edfsm.Prelude.{◌≡◌, sym, ap, ◌∙◌, List, [], ◌∷◌, Ord, list_ord}
use edfsm.Fsm.{Fsm, Terminating, replay}
use edfsm.KvStore.KeyPath.{KeyPath, item_ord}
use edfsm.KvStore.Map.Order.{IsSorted}
use edfsm.KvStore.Map.Extensional.{get-ext}
use edfsm.KvStore.Store.{Keyed, KvStore, on_event, kv_fsm}
use edfsm.KvStore.Store.Slots.{slots, items_at, on_event-IsSorted, get-replay}

module _ {ℓ} {N V C E SE : Type ℓ} ⦃o : Ord N⦄ (m : Fsm V C E SE) (term : Terminating E)
    (default : V) (W : Type ℓ) where
  -- A replay leaves the entries in order.
  pub replay-IsSorted :
      (es : List (Keyed N E)) (store : KvStore N V)
      → IsSorted store
      → IsSorted (replay (kv_fsm {W = W} m term default) store es)
  unfolding replay kv_fsm
  replay-IsSorted [] store s = s
  replay-IsSorted (e ∷ es) store s =
      replay-IsSorted es (on_event m term default store e).0
        (on_event-IsSorted m term default store e s)

  -- Two sequences of events that have the same events for each path, in the same order, lead
  -- from a store in order to the same store, however the events for different paths interleave.
  pub replay_interleaving :
      (es fs : List (Keyed N E)) (store : KvStore N V)
      → IsSorted store
      → ((p : KeyPath N) → items_at p es ≡ items_at p fs)
      → replay (kv_fsm {W = W} m term default) store es
        ≡ replay (kv_fsm {W = W} m term default) store fs
  replay_interleaving es fs store s same =
      get-ext (replay (kv_fsm {W = W} m term default) store es)
        (replay (kv_fsm {W = W} m term default) store fs) (replay-IsSorted es store s)
        (replay-IsSorted fs store s)
        (λ p.
          get-replay m term default W p es store s
          ∙ ap (slots m term default (_)) (same p)
          ∙ sym (get-replay m term default W p fs store s))
