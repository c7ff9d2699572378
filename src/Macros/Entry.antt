-- ===== src/Macros/Entry.antt =====
-- edfsm-macros/src/lib.rs: the attribute `impl_fsm`, from the tokens of an `impl` block to the code.
pub mod EndToEnd
pub mod Written
pub mod Valid
pub mod Exercise
pub mod NoPanic
mod Tests
use Prim.Native.String.{String}
use edfsm.Prelude.{Bool, true, false, Option, List, if◌then◌else◌}
use edfsm.Macros.Syntax.{Failure, panic, Outcome, ok, err, FsmItem}
use edfsm.Macros.Parse.{Syn}
use edfsm.Macros.Parse.Item.{Item, parse_fsm}
use edfsm.Macros.Expand.{Expansion, ImplItem, expand}

-- What the macro leaves in place of the block: code, an error that the compiler reports, or a panic.
pub data Emitted : Type 0 where
  code : Expansion → Emitted
  compile_error : Failure → Emitted
  aborted panicked : Emitted

-- `to_compile_error`, for an error that is returned
abbrev pub emitted_error : Failure → Emitted
emitted_error panic = panicked
emitted_error x = compile_error x

abbrev pub emitted_expansion : Outcome Expansion → Emitted
emitted_expansion (ok x) = code x
emitted_expansion (err x) = emitted_error x

abbrev pub emitted_fsm : (ImplItem → Bool) → (String → String) → Outcome FsmItem → Emitted
unfolding expand
emitted_fsm reads lower (ok fsm) = emitted_expansion (expand reads lower fsm)
emitted_fsm reads lower (err x) = emitted_error x

module _ {ℓ} {Stream : Type ℓ} (syn : Syn Stream) (reads : ImplItem → Bool)
    (lower : String → String) where
  -- The attribute's own tokens, the trait's path and the items of the block.
  unfoldable pub impl_fsm : Stream → Option (List String) → List (Item Stream) → Emitted
  unfolding emitted_fsm parse_fsm
  impl_fsm input trait_path items =
      if syn.is_empty input
      then emitted_fsm reads lower (parse_fsm syn trait_path items)
      else aborted
