-- ===== src/KvStore/Store/Family.antt =====
-- The store of edfsm-kv-store/src/lib.rs in the main loop of edfsm-machine/src/lib.rs, for any inputs:
-- a family of inner machines, by path.
use Prim.Native.Nat.Ordering.{eq}
use edfsm.Prelude.{
  ◌≡◌, refl, sym, ap, ap₂, subst, ◌∙◌, false, Option, none, some, List, [], ◌∷◌, ◌++◌, Ord,
  list_ord, lex, eq_of_lex, arith, if◌then◌else◌,
}
use edfsm.Fsm.{Input, Fsm, Terminating, Drain, emitted, applied, step}
use edfsm.Fsm.Step.{reported, changed-state}
use edfsm.Machine.Task.Trace.{Trace, trace, ends}
use edfsm.KvStore.KeyPath.{KeyPath, item_ord}
use edfsm.KvStore.KeyPath.Prefix.{is_eq}
use edfsm.KvStore.Map.{get}
use edfsm.KvStore.Map.Order.{IsSorted}
use edfsm.KvStore.Store.{
  Keyed, KvStore, Env, Query, on_event, kv_fsm, keyed_drain, keyed_terminating,
}
use edfsm.KvStore.Store.Slots.{slot, slots, items_at, items_at-++, get-on_event, on_event-IsSorted}
use edfsm.KvStore.Store.Outputs.{
  IsDrainedTo, items_at-tagged, output_for, place_outputs, applied-outputs, emitted-effects,
}

module _ {ℓ} {N V C E SE O : Type ℓ} ⦃o : Ord N⦄ (m : Fsm V C E SE) (d : Drain SE O)
    (term : Terminating E) (default : V) (clean : SE) where
  -- At one place: what is put out, and what is there afterwards, for the event of a round.
  outputs_at : KeyPath N → KvStore N V → Option (Keyed N E) → List O
  outputs_at p store none = []
  outputs_at p store (some e) =
      if is_eq (lex p e.key)
      then output_for m d term default clean (term.terminating e.item) (get p store) e.item
      else []

  value_at : KeyPath N → KvStore N V → Option (Keyed N E) → Option V
  value_at p store none = get p store
  value_at p store (some e) =
      if is_eq (lex p e.key) then slot m term default (get p store) e.item else get p store

  place_outputs-reported :
      (p : KeyPath N) (store : KvStore N V) (e : Option (Keyed N E)) (es : List (Keyed N E))
      → place_outputs m d term default clean (get p store) (items_at p (reported e ++ es))
        ≡ outputs_at p store e
          ++ place_outputs m d term default clean (value_at p store e) (items_at p es)
  unfolding outputs_at value_at
  place_outputs-reported p store none es = refl
  place_outputs-reported p store (some e) es = ground arith

  slots-reported :
      (p : KeyPath N) (store : KvStore N V) (e : Option (Keyed N E)) (es : List (Keyed N E))
      → slots m term default (get p store) (items_at p (reported e ++ es))
        ≡ slots m term default (value_at p store e) (items_at p es)
  unfolding value_at
  slots-reported p store none es = refl
  slots-reported p store (some e) es = ground arith

  outputs_same :
      (p : KeyPath N) (store : KvStore N V) (e : Keyed N E)
      → (if is_eq (lex p e.key)
          then output_for m d term default clean (term.terminating e.item) (get e.key store) e.item
          else [])
        ≡ outputs_at p store (some e)
  unfolding outputs_at
  outputs_same p store e = same_key (eq_of_lex p e.key)
    where
      same_key :
          (lex p e.key ≡ eq → p ≡ e.key)
          → (if is_eq (lex p e.key)
              then output_for m d term default clean
                  (term.terminating e.item)
                  (get e.key store)
                  e.item
              else [])
            ≡ (if is_eq (lex p e.key)
                then output_for m d term default clean
                    (term.terminating e.item)
                    (get p store)
                    e.item
                else [])
      same_key k = ground (arith, k)

module _ {ℓ} {N V C E SE O W : Type ℓ} ⦃o : Ord N⦄ (m : Fsm V C E SE) (d : Drain SE O)
    (term : Terminating E) (default : V) where
  -- The events that a run handles: those given, and those that queries yield, a change or not.
  abbrev pub handled :
      KvStore N V → Env N SE W → List (Input (Query N W V E) (Keyed N E)) → List (Keyed N E)
  handled store env [] = []
  handled store env (i ∷ inputs) =
      let after = step (kv_fsm m term default) store i env in
      let rest = handled after.1 ((keyed_drain d).drain_all after.2).1 inputs in
      reported (emitted (kv_fsm m term default) store i env).0 ++ rest

-- No event ends the run of a store.
pub no_end {ℓ} :
    {S C N E SE O : Type ℓ} (m : Fsm S C (Keyed N E) SE) (d : Drain SE O) (e : Option (Keyed N E))
    → ends m d keyed_terminating e ≡ false
unfolding keyed_terminating
no_end m d none = refl
no_end m d (some e) = refl

module _ {ℓ} {N V C E SE O W : Type ℓ} ⦃o : Ord N⦄ (m : Fsm V C E SE) (d : Drain SE O)
    (term : Terminating E) (default : V) (clean : SE) (drained : IsDrainedTo d clean) where
  abbrev kv : Fsm (KvStore N V) (Query N W V E) (Keyed N E) (Env N SE W)
  kv = kv_fsm m term default

  -- What a round leaves, from a store in order and an effector that is as new.
  record Round (p : KeyPath N) (store : KvStore N V) (e : Option (Keyed N E))
      (r : Option (Keyed N E) × KvStore N V × Env N SE W) : Type ℓ where
    outputs :
        items_at p ((keyed_drain d).drain_all r.2).0 ≡ outputs_at m d term default clean p store e
    value : get p r.1 ≡ value_at m d term default clean p store e
    sorted : IsSorted r.1
    again : ((keyed_drain d).drain_all r.2).1.effects.item ≡ clean

  state_of :
      (store : KvStore N V) (e : Keyed N E) (env : Env N SE W)
      → (applied kv store (some e) env).1 ≡ (on_event m term default store e).0
  unfolding kv_fsm
  state_of store e env =
      changed-state kv e (on_event m term default store e).0 (on_event m term default store e).1 env

  applied-Round :
      (p : KeyPath N) (store : KvStore N V) (e : Option (Keyed N E)) (env : Env N SE W)
      → IsSorted store
      → env.effects.item ≡ clean
      → Round p store e (applied kv store e env)
  unfolding keyed_drain outputs_at value_at
  applied-Round p store none env s h = record {
    outputs = rw (h, drained.nothing) refl;
    value = refl;
    sorted = s;
    again = drained.emptied env.effects.item;
  }
  applied-Round p store (some e) env s h = record {
    outputs =
        ap (items_at p) (applied-outputs m d term default clean drained store e env s h)
        ∙ items_at-tagged p e.key _
        ∙ outputs_same m d term default clean p store e;
    value = ap (get p) (state_of store e env) ∙ get-on_event m term default p store e s;
    sorted =
        subst IsSorted (sym (state_of store e env)) (on_event-IsSorted m term default store e s);
    again = drained.emptied _;
  }

  step-Round :
      (p : KeyPath N) (store : KvStore N V) (i : Input (Query N W V E) (Keyed N E))
      (env : Env N SE W)
      → IsSorted store
      → env.effects.item ≡ clean
      → Round p store (emitted kv store i env).0 (step kv store i env)
  unfolding step
  step-Round p store i env s h =
      applied-Round p store (emitted kv store i env).0 (emitted kv store i env).1 s
        (ap (λ (k : Keyed N SE). k.item) (emitted-effects m term default store i env) ∙ h)

  -- A round, and what the rest of the run does from where it leaves.
  with_rest :
      (p : KeyPath N) (store : KvStore N V) (e : Option (Keyed N E))
      (r : Option (Keyed N E) × KvStore N V × Env N SE W)
      (run : Trace (KvStore N V) (Keyed N E) (Env N SE W) (Keyed N O)) (es : List (Keyed N E))
      → Round p store e r
      → (items_at p run.outputs ≡ place_outputs m d term default clean (get p r.1) (items_at p es))
        × (get p run.state ≡ slots m term default (get p r.1) (items_at p es))
      → (items_at p (((keyed_drain d).drain_all r.2).0 ++ run.outputs)
          ≡ place_outputs m d term default clean (get p store) (items_at p (reported e ++ es)))
        × (get p run.state ≡ slots m term default (get p store) (items_at p (reported e ++ es)))
  with_rest p store e r run es round (outs, value) = (
    items_at-++ p ((keyed_drain d).drain_all r.2).0 run.outputs
        ∙ ap₂ (λ a b. a ++ b) round.outputs
            (outs ∙ ap (λ v. place_outputs m d term default clean v (items_at p es)) round.value)
        ∙ sym (place_outputs-reported m d term default clean p store e es),
    value
        ∙ ap (λ v. slots m term default v (items_at p es)) round.value
        ∙ sym (slots-reported m d term default clean p store e es),
  )

  -- For an effector that is as new once it is drained, and a store in order: whatever inputs the main
  -- loop takes, the outputs for a path are what the inner machine there puts out for the events
  -- for that path alone, in their order, and what the store has there in the end is what it makes of
  -- them.
  pub family :
      (p : KeyPath N) (inputs : List (Input (Query N W V E) (Keyed N E))) (store : KvStore N V)
      (env : Env N SE W)
      → IsSorted store
      → env.effects.item ≡ clean
      → let run =
          trace (kv_fsm m term default) (keyed_drain d) keyed_terminating store env inputs in
        let events = items_at p (handled m d term default store env inputs) in
        (items_at p run.outputs ≡ place_outputs m d term default clean (get p store) events)
        × (get p run.state ≡ slots m term default (get p store) events)
  unfolding trace
  family p [] store env s h = (refl, refl)
  family p (i ∷ inputs) store env s h =
      let after = step (kv_fsm m term default) store i env in
      let next = ((keyed_drain d).drain_all after.2).1 in
      let round = step-Round p store i env s h in
      rw (no_end (kv_fsm m term default) (keyed_drain d) after.0) (
        with_rest p store (emitted (kv_fsm m term default) store i env).0 after
          (trace (kv_fsm m term default) (keyed_drain d) keyed_terminating after.1 next inputs)
          (handled m d term default after.1 next inputs) round
          (family p inputs after.1 next round.sorted round.again))
