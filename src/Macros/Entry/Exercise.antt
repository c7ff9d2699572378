-- ===== src/Macros/Entry/Exercise.antt =====
-- The machine of edfsm/tests/exercise_fsm.rs, from its `impl` block to its test.
pub mod Emitted
use Prim.Native.String.{String}
use text.Mathlib.Text.{◌==◌ as text_eq}
use edfsm.Prelude.{
  ◌≡◌, refl, ◌∙◌, true, false, Option, none, some, List, [], ◌∷◌, map, if◌then◌else◌,
}
use edfsm.Fsm.{Change, transitioned, updated, Fsm, command, step}
use edfsm.Macros.Syntax.{infer, path, ok, Ty, FsmItem}
use edfsm.Macros.Parse.Printer.{no_event, yields, moves}
use edfsm.Macros.Parse.Decl.{Decl, declared}
use edfsm.Macros.Parse.Block.{written}
use edfsm.Macros.Parse.Item.{finish}
use edfsm.Macros.Parse.Tokens.{named, tokens, printer}
use edfsm.Macros.Expand.{Expansion}
use edfsm.Macros.Expand.Run.{Code, generated}
use edfsm.Macros.Expand.Described.{described}
use edfsm.Macros.Expand.Sample.{same}
use edfsm.Macros.Expand.WellFormed.{WellFormed}
use edfsm.Macros.Entry.Written.{impl_fsm-written}
use edfsm.Macros.Entry.{code, impl_fsm}

pub data AbState : Type 0 where
  a b : AbState

pub data AbCommand : Type 0 where
  i0 i1 i2 i3 : AbCommand

pub data AbEvent : Type 0 where
  o0 o1 o2 : AbEvent

-- `EffectHandlerBox<SE>`
abbrev pub boxed : Ty
boxed = path (record { ident = "EffectHandlerBox"; has_arguments = true } ∷ [])

-- the `impl` block
abbrev pub exercise_block : List Decl
exercise_block =
    Decl.state_type (named "State")
    ∷ Decl.command_type (named "Command")
    ∷ Decl.event_type (named "Event")
    ∷ Decl.effect_type boxed
    ∷ Decl.entry (named "B")
    ∷ Decl.command (named "A") (named "I0") (moves (named "O0") (named "B") [])
    ∷ Decl.command (named "B") (named "I1") (moves (named "O1") (named "A") (named "B" ∷ []))
    ∷ Decl.command (named "B") (named "I2") (yields (named "O2"))
    ∷ Decl.event (named "B") (named "O2") none true
    ∷ Decl.command (named "B") (named "I3") no_event
    ∷ Decl.command infer (named "I1") (moves (named "O1") (named "A") [])
    ∷ Decl.command infer (named "I2") (yields (named "O2"))
    ∷ Decl.command infer (named "I3") no_event
    ∷ Decl.ignore_event (named "A") (named "O2")
    ∷ Decl.ignore_command (named "B") (named "I0")
    ∷ Decl.ignore_event (named "B") (named "O0")
    ∷ []

abbrev pub ab_state : AbState → String
ab_state a = "A"
ab_state b = "B"

abbrev pub ab_command : AbCommand → String
ab_command i0 = "I0"
ab_command i1 = "I1"
ab_command i2 = "I2"
ab_command i3 = "I3"

abbrev pub ab_event : AbEvent → String
ab_event o0 = "O0"
ab_event o1 = "O1"
ab_event o2 = "O2"

-- `on_a_o0` and `on_any_o1`
unfoldable pub ab_transition : String → Option AbState
ab_transition handler =
    if text_eq handler "on_A_O0"
    then some b
    else if text_eq handler "on_any_O1"
    then some a
    else none

-- `on_b_o1`
unfoldable pub ab_decide : String → Option (Change × Option AbState)
ab_decide handler = if text_eq handler "on_B_O1" then some (updated, some a) else none

module _ {SE : Type 0} (say_hi : SE → SE) where
  -- `for_a_i0`, `for_b_i1`, `for_any_i1`, `for_b_i2` and `for_any_i2`
  unfoldable pub ab_handler : String → SE → Option AbEvent × SE
  ab_handler handler se =
      if text_eq handler "for_A_I0"
      then (some o0, say_hi se)
      else if text_eq handler "for_B_I1"
      then (some o1, se)
      else if text_eq handler "for_any_I1"
      then (some o1, se)
      else if text_eq handler "for_B_I2"
      then (some o2, se)
      else if text_eq handler "for_any_I2"
      then (some o2, se)
      else (none, se)

  -- impl MyFsm, by the names of its functions, which are left in the letters of the block; those that
  -- return nothing have an empty body
  unfoldable pub ab_handlers : Code AbState AbCommand AbEvent SE
  unfolding ab_handler ab_transition ab_decide
  ab_handlers = record {
    state_name = ab_state;
    command_name = ab_command;
    event_name = ab_event;
    for_event = λ handler event s c se. ab_handler handler se;
    for_effect = λ handler s c se. se;
    on_transition = λ handler to s e. (s, ab_transition handler);
    on_decide = λ handler s e. (s, ab_decide handler);
    on_update = λ handler s e. s;
    on_update_if = λ handler s e. (s, false);
    on_entry = λ handler s se. se;
    on_change = λ handler s e se. se;
  }

  -- What the block says, by cases. The event `O2` is taken for a change in the state `A` as well: the
  -- arm of `_ => I2 => O2` stands before the one that ignores it.
  unfoldable pub ab_for_command : AbState → AbCommand → SE → Option AbEvent × SE
  ab_for_command a i0 se = (some o0, say_hi se)
  ab_for_command b i0 se = (none, se)
  ab_for_command s i1 se = (some o1, se)
  ab_for_command s i2 se = (some o2, se)
  ab_for_command s i3 se = (none, se)

unfoldable pub ab_on_event : AbState → AbEvent → AbState × Option Change
ab_on_event a o0 = (b, some transitioned)
ab_on_event b o0 = (b, none)
ab_on_event a o1 = (a, some transitioned)
ab_on_event b o1 = (a, some updated)
ab_on_event s o2 = (s, some updated)

abbrev pub ab_fsm : {SE : Type 0} → (SE → SE) → Fsm AbState AbCommand AbEvent SE
ab_fsm say_hi = record {
  for_command = ab_for_command say_hi;
  on_event = ab_on_event;
  on_change = λ s e se c. se;
}

-- `main` of the test, with the events that it discards and the effector
unfoldable pub exercised :
    {SE : Type 0} → Fsm AbState AbCommand AbEvent SE → SE → List (Option AbEvent) × SE
unfolding step
exercised m se =
    let (e0, s, se) = step m a (command i0) se in
    let (e1, s, se) = step m b (command i1) se in
    let (e2, s, se) = step m b (command i2) se in
    let (e3, s, se) = step m b (command i3) se in (e0 ∷ e1 ∷ e2 ∷ e3 ∷ [], se)
