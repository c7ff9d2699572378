-- ===== src/Macros/Entry/Written.antt =====
-- The attribute of edfsm-macros/src/lib.rs at an `impl` block that is written in the forms of the
-- documentation: which blocks yield code, and which machine the code is.
use Prim.Native.String.{String}
use edfsm.Prelude.{◌≡◌, refl, sym, ap, ap₂, ◌∙◌, ◌↔◌, Bool, true, Option, List, map, arith}
use edfsm.Macros.Syntax.{ok, FsmItem}
use edfsm.Macros.Parse.{Syn}
use edfsm.Macros.Parse.Item.{Parsed, finish}
use edfsm.Macros.Parse.Declared.{finish-steps}
use edfsm.Macros.Parse.Printer.{Printer}
use edfsm.Macros.Parse.Decl.{Decl, declared}
use edfsm.Macros.Parse.Block.{written, parse_fsm-written}
use edfsm.Macros.Expand.{Expansion, ImplItem, expand}
use edfsm.Macros.Expand.Run.{Code, generated}
use edfsm.Macros.Expand.Described.{described, generated-described}
use edfsm.Macros.Expand.WellFormed.{WellFormed}
use edfsm.Macros.Expand.Reading.{Reads, HasEnums, expand-WellFormed}
use edfsm.Macros.Entry.{code, emitted_fsm, impl_fsm}
use edfsm.Macros.Entry.EndToEnd.{emitted-code}

finish-entries :
    (t : Option (List String)) (p : Parsed) (fsm : FsmItem)
    → finish t p ≡ ok fsm
    → fsm.entry_handlers ≡ p.entry_handlers
unfolding finish
finish-entries t p fsm h = ground arith

expanded-code :
    (reads : ImplItem → Bool) (lower : String → String) (fsm : FsmItem) (x : Expansion)
    → expand reads lower fsm ≡ ok x
    → emitted_fsm reads lower (ok fsm) ≡ code x
unfolding emitted_fsm
expanded-code reads lower fsm x h = rw h refl

module _ {ℓ κ} {Stream : Type κ} {S C E SE : Type ℓ} (syn : Syn Stream) (pr : Printer syn)
    (reads : ImplItem → Bool) (lower : String → String) (handlers : Code S C E SE) where
  impl_fsm-finish :
      (input : Stream) (trait_path : Option (List String)) (ds : List Decl)
      → syn.is_empty input ≡ true
      → impl_fsm syn reads lower input trait_path (map (written syn pr) ds)
        ≡ emitted_fsm reads lower (finish trait_path (declared ds))
  unfolding impl_fsm
  impl_fsm-finish input trait_path ds h =
      rw h (ap (emitted_fsm reads lower) (parse_fsm-written syn pr trait_path ds))

  -- For an `impl` block that is written in the forms of the documentation, that declares the four
  -- types, those of the state, the command and the event being paths without arguments, and whose
  -- attribute has no argument: the macro emits code exactly where the description is well formed, and
  -- the machine that the code is, is the one that the written entries, commands and events stand for,
  -- on every state, command, event and change. Asked is that the library reads back the tokens, and
  -- as items each type, and functions over such types if each pattern in them is one.
  pub impl_fsm-written :
      (input : Stream) (trait_path : Option (List String)) (ds : List Decl) (fsm : FsmItem)
      → syn.is_empty input ≡ true
      → finish trait_path (declared ds) ≡ ok fsm
      → Reads reads
      → HasEnums fsm
      → let emitted = impl_fsm syn reads lower input trait_path (map (written syn pr) ds) in
        (((x : Expansion) × (emitted ≡ code x)) ↔ WellFormed fsm)
        × ((x : Expansion)
            → emitted ≡ code x
            → generated handlers x
              ≡ described handlers lower (declared ds).entry_handlers (declared ds).steps)
  impl_fsm-written input trait_path ds fsm empty complete law enums =
      let accepted =
        impl_fsm-finish input trait_path ds empty ∙ ap (emitted_fsm reads lower) complete in
      let expanded : (x : Expansion)
          → impl_fsm syn reads lower input trait_path (map (written syn pr) ds) ≡ code x
          → expand reads lower fsm ≡ ok x =
        λ x e.
          let (fsm', same, h) = emitted-code reads lower (ok fsm) x (sym accepted ∙ e) in
          ap (expand reads lower) (cc same) ∙ h in
      (
        (
          λ (x, e). (expand-WellFormed lower reads fsm law enums).0 (x, expanded x e),
          λ w.
              let (x, h) = (expand-WellFormed lower reads fsm law enums).1 w in
              (x, accepted ∙ expanded-code reads lower fsm x h),
        ),
        λ x e.
            generated-described handlers lower reads fsm x (expanded x e)
            ∙ ap₂ (described handlers lower) (finish-entries trait_path (declared ds) fsm complete)
                (finish-steps trait_path (declared ds) fsm complete),
      )
