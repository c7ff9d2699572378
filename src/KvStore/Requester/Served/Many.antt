-- ===== src/KvStore/Requester/Served/Many.antt =====
-- The requests of edfsm-kv-store/src/async_query.rs for several entries, and `insert`, served by a
-- round of the main loop.
use edfsm.Prelude.{
  ◌≡◌, ap, ◌∙◌, refl, false, ◌&&◌, ◌++◌, List, Option, Ord, list_ord, lex, if◌then◌else◌,
}
use edfsm.Fsm.{Fsm, Terminating, Drain}
use edfsm.Machine.Action.{ok}
use edfsm.KvStore.KeyPath.{KeyPath, item_ord}
use edfsm.KvStore.KeyPath.Prefix.{is_eq}
use edfsm.KvStore.Map
use edfsm.KvStore.Map.{Bound, range, range_panics, keep, take_while, above, below}
use edfsm.KvStore.Map.Order.{IsSorted}
use edfsm.KvStore.Store.{Keyed, Query}
use edfsm.KvStore.Store.Tree.{subtree, beyond, longer, tree-subtree}
use edfsm.KvStore.Store.Slots.{slot}
use edfsm.KvStore.Store.Commands.{IsRead, step_read, step-insert}
use edfsm.KvStore.Requester.{
  Oneshot, Requester, respond_many, respond_one, get, get_tree, get_range, get_all, insert,
  dispatch,
}
use edfsm.KvStore.Requester.Answered.{Delivers, get_answered, many_answered, insert_answered}
use edfsm.KvStore.Requester.Served.{
  Host, hosted, env_of, served, served-Serves, concluded, hosted-Delivers, hosted-Keeps,
  dispatch-concluded,
}

module _ {ℓ} {N V C E SE O P : Type ℓ} ⦃o : Ord N⦄ (m : Fsm V C E SE) (d : Drain SE O)
    (term : Terminating E) (default : V) where
  abbrev node : Requester N (Host N V E SE O P) V E
  node = served m d term default

  -- A read leaves the store as it was.
  dispatch_read {κ μ} :
      {R : Type κ} {Tx Rx X : Type μ} (one : Oneshot P R Tx Rx X)
      (q : Query N (Host N V E SE O P) V E) (rx : Rx) (h : Host N V E SE O P)
      → IsRead q
      → (dispatch (hosted one) node q rx h).1.cells ≡ h.cells
  dispatch_read one q rx h read =
      dispatch-concluded m d term default one q rx h
      ∙ (step_read m term default h.cells q (env_of m d term default h) read).1

  module _ {κ μ} {R : Type κ} {Tx Rx X : Type μ} (one : Oneshot P R Tx Rx X)
      (delivers : Delivers one) where
    abbrev asked : Host N V E SE O P → Host N V E SE O P
    asked h = ((hosted one).channel h).1

    pub get-served :
        (path : KeyPath N) (value : Option V → R) (h : Host N V E SE O P)
        → let one_read = get (hosted one) node path value h in
          (one_read.0 ≡ ok (value (Map.get path h.cells))) × (one_read.1.cells ≡ h.cells)
    unfolding get respond_one served-Serves concluded
    get-served path value h = (
      get_answered m term default (hosted one) (hosted-Delivers delivers) node
          (served-Serves m d term default) (hosted-Keeps m d term default one) path value h,
      dispatch_read one _ _ (asked h) tt,
    )

    -- For a store in order, a oneshot channel that delivers, and a task that takes each input up at
    -- once, with a log, an observer and an output that are vectors: `get` comes back with the function
    -- of the value at the path; `get_tree` with that of the entries whose path starts with the given
    -- one and of those behind them, up to the first whose path is not longer; `get_range`, for bounds
    -- that are not refused, with that of the entries within them; `get_all` with that of all entries;
    -- and each leaves the store as it was.
    pub reads-served :
        (path : KeyPath N) (lo hi : Bound (KeyPath N)) (value : Option V → R)
        (func : List (KeyPath N × V) → R) (h : Host N V E SE O P)
        → IsSorted h.cells
        → range_panics lo hi ≡ false
        → let one_read = get (hosted one) node path value h in
          let tree_read = get_tree (hosted one) node path func h in
          let range_read = get_range (hosted one) node lo hi func h in
          let all_read = get_all (hosted one) node func h in
          ((one_read.0 ≡ ok (value (Map.get path h.cells))) × (one_read.1.cells ≡ h.cells))
          × ((tree_read.0
                ≡ ok
                    (func (subtree path h.cells ++ take_while (longer path) (beyond path h.cells))))
              × (tree_read.1.cells ≡ h.cells))
          × ((range_read.0 ≡ ok (func (keep (λ k. above lo k && below hi k) h.cells)))
              × (range_read.1.cells ≡ h.cells))
          × ((all_read.0 ≡ ok (func h.cells)) × (all_read.1.cells ≡ h.cells))
    unfolding range get_tree get_range get_all respond_many served-Serves concluded
    reads-served path lo hi value func h sorted fits =
        let kept : (q : Query N (Host N V E SE O P) V E) (rx : Rx)
            → IsRead q
            → (dispatch (hosted one) node q rx (asked h)).1.cells ≡ h.cells =
          λ q rx read. dispatch_read one q rx (asked h) read in
        let many =
          many_answered m term default (hosted one) (hosted-Delivers delivers) node
            (served-Serves m d term default) (hosted-Keeps m d term default one) path lo hi _ _ func
            h (tree-subtree path h.cells sorted) (rw (range, fits) refl) in
        (
          get-served path value h,
          (many.0, kept _ _ tt),
          (many.2, kept _ _ tt),
          (many.1, kept _ _ tt),
        )

  -- For a store in order, a oneshot channel that delivers, and a task that takes each input up at
  -- once, with a log, an observer and an output that are vectors: an insert comes back with the path
  -- of the event that the function gives for all the entries, and the task has applied that event to
  -- that path, and left all others as they were.
  pub insert-served {μ} :
      {Tx Rx X : Type μ} (one : Oneshot P (KeyPath N) Tx Rx X) (p : KeyPath N)
      (func : List (KeyPath N × V) → Keyed N E) (h : Host N V E SE O P)
      → Delivers one
      → IsSorted h.cells
      → let e = func h.cells in
        let asked = insert (hosted one) node func h in
        (asked.0 ≡ ok e.key)
        × (Map.get p asked.1.cells ≡ (
            if is_eq (lex p e.key)
            then slot m term default (Map.get p h.cells) e.item
            else Map.get p h.cells))
  unfolding insert respond_many served-Serves concluded
  insert-served one p func h delivers sorted =
      let asked : Host N V E SE O P = ((hosted one).channel h).1 in
      (
        insert_answered m term default node (served-Serves m d term default) (hosted one)
            (hosted-Delivers delivers) (hosted-Keeps m d term default one) func h,
        ap (Map.get p) (dispatch-concluded m d term default one _ _ asked)
            ∙ step-insert m term default p _ h.cells (env_of m d term default asked) sorted,
      )
