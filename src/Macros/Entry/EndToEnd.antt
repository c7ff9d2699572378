-- ===== src/Macros/Entry/EndToEnd.antt =====
-- From the declarations of an `impl` block to what the generated code does: edfsm-macros/src/lib.rs
-- composed of parse.rs and expand.rs.
use Prim.Native.String.{String}
use edfsm.Prelude.{◌≡◌, refl, ap, ◌∙◌, inl, inr, Bool, true, Bool-cases, Option, none, List, arith}
use edfsm.Macros.Syntax.{Failure, Outcome, ok, err, FsmItem}
use edfsm.Macros.Parse.{Syn}
use edfsm.Macros.Parse.Item.{Item, parse_fsm}
use edfsm.Macros.Parse.Declared.{declared_steps, parse_fsm-steps}
use edfsm.Macros.Parse.Fuel.{Outcome-cases}
use edfsm.Macros.Expand.{Expansion, ImplItem, expand}
use edfsm.Macros.Expand.Inversion.{expand-expand_arms}
use edfsm.Macros.Expand.Run.{Code, generated, or_none, settle}
use edfsm.Macros.Expand.Table.{first_reaction, generated-for_command}
use edfsm.Macros.Expand.EventTable.{first_response, generated-on_event}
use edfsm.Macros.Entry.{code, emitted_error, emitted_fsm, impl_fsm}

code_injective : {x y : Expansion} → code x ≡ code y → x ≡ y
code_injective h = cc

error-not-code : (f : Failure) (x : Expansion) → emitted_error f ≡ code x → ⊥
error-not-code f x h = ground (arith, h)

pub emitted-code :
    (reads : ImplItem → Bool) (lower : String → String) (parsed : Outcome FsmItem) (x : Expansion)
    → emitted_fsm reads lower parsed ≡ code x
    → (fsm : FsmItem) × (parsed ≡ ok fsm) × (expand reads lower fsm ≡ ok x)
unfolding emitted_fsm
emitted-code reads lower (ok fsm) x h = elim (Outcome-cases (expand reads lower fsm)) [
  | inl (y, e) ↦ (fsm, refl, e ∙ ap ok (code_injective (rw e at h)))
  | inr (f, e) ↦ absurd (error-not-code f x (rw e at h))
]
emitted-code reads lower (err f) x h = absurd (error-not-code f x h)

module _ {ℓ κ} {Stream : Type κ} {S C E SE : Type ℓ} (syn : Syn Stream) (reads : ImplItem → Bool)
    (lower : String → String) (handlers : Code S C E SE) where
  -- Where the macro emits code for an `impl` block, the block's own attribute has no argument, and
  -- the generated `for_command` and `on_event` are the tables of the block's `command!` and `event!`
  -- items in the order of their declaration: the first that fits the state and the command, or the
  -- event, reacts, and where none fits nothing changes.
  pub impl_fsm-code :
      (input : Stream) (trait_path : Option (List String)) (items : List (Item Stream))
      (x : Expansion)
      → impl_fsm syn reads lower input trait_path items ≡ code x
      → let steps = declared_steps syn items in
        (syn.is_empty input ≡ true)
        × ((s : S) (c : C) (se : SE)
            → (generated handlers x).for_command s c se
              ≡ or_none (none, se) (first_reaction handlers lower steps s c se))
        × ((s : S) (e : E)
            → (generated handlers x).on_event s e
              ≡ settle (or_none (s, none) (first_response handlers lower steps s e)))
  unfolding impl_fsm
  impl_fsm-code input trait_path items x h = elim (Bool-cases (syn.is_empty input)) [
    | inr full ↦ cc (rw full at h)
    | inl empty ↦
        let (fsm, parsed, expanded) =
          emitted-code reads lower (parse_fsm syn trait_path items) x (rw empty at h) in
        let arms = expand-expand_arms reads lower fsm x expanded in
        let steps = parse_fsm-steps syn trait_path items fsm parsed in
        (
          empty,
          λ s c se.
              generated-for_command handlers lower fsm x s c se arms
              ∙ ap (λ l. or_none (none, se) (first_reaction handlers lower l s c se)) steps,
          λ s e.
              generated-on_event handlers lower fsm x s e arms
              ∙ ap (λ l. settle (or_none (s, none) (first_response handlers lower l s e))) steps,
        )
  ]
