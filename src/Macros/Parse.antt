-- ===== src/Macros/Parse.antt =====
-- edfsm-macros/src/parse.rs. The parser of types, names and punctuation is the library `syn`: a
-- parameter, with what is left of the stream. A `parse` that fails leaves the stream as it was.
pub mod Item
pub mod Declared
pub mod Printer
pub mod RoundTrip
pub mod Decl
pub mod Block
pub mod Types
pub mod MacroItems
pub mod Accepted
pub mod Targeted
pub mod NoPanic
pub mod Fuel
pub mod Tokens
pub mod Sample
mod Tests
use Prim.Native.String.{String}
use text.Mathlib.Text.{◌==◌ as text_eq}
use edfsm.Prelude.{
  ℕ, zero, suc, ◌≡◌, Bool, true, false, Option, none, some, List, [], ◌∷◌, if◌then◌else◌,
}
use edfsm.Macros.Syntax.{
  Ty, Failure, Outcome, ok, err, ◌>>=◌, Entry, TargetStates, CommandStep, EventStep, IgnoreCommand,
  IgnoreEvent,
}

-- token::FatArrow, token::Or, token::Div
pub data Punct : Type 0 where
  fat_arrow or div : Punct

-- syn's `ParseStream`
pub record Syn {ℓ} (Stream : Type ℓ) : Type ℓ where
  pub parse_type : Stream → Outcome (Ty × Stream)
  pub parse_ident : Stream → Outcome (String × Stream)
  pub parse_punct : Punct → Stream → Outcome Stream
  pub peek : Punct → Stream → Bool
  pub is_empty : Stream → Bool
  -- a bound on the parses that can succeed
  pub size : Stream → ℕ

module _ {ℓ} {Stream : Type ℓ} (syn : Syn Stream) where
  -- `/ entry` or `/ action`: the one word that is allowed
  unfoldable pub qualifier : String → Stream → Outcome Stream
  qualifier word input = do
    (ident, input) ← syn.parse_ident input
    if text_eq ident word then ok input else err (Failure.unknown_qualifier ident)

  -- impl Parse for Entry
  unfoldable pub parse_entry : Stream → Outcome (Entry × Stream)
  unfolding qualifier
  parse_entry input = do
    (state, input) ← syn.parse_type input
    input ← syn.parse_punct Punct.div input
    input ← qualifier "entry" input
    ok (record { state = state }, input)

  abbrev pub cons_type : Ty → Outcome (List Ty × Stream) → Outcome (List Ty × Stream)
  cons_type t (ok (ts, input)) = ok (t ∷ ts, input)
  cons_type t (err x) = err x

  -- the `loop` of `TargetStates::parse`, with fuel for the types that may follow
  unfoldable pub parse_states : ℕ → Stream → Outcome (List Ty × Stream)
  parse_states zero input = err Failure.out_of_fuel
  parse_states (suc fuel) input = elim (syn.parse_type input) [
    | err x ↦ err x
    | ok (t, input') ↦ cons_type t (elim (syn.parse_punct Punct.or input') [
      | ok input'' ↦ parse_states fuel input''
      | err x ↦ ok ([], input')
    ])
  ]

  -- impl Parse for TargetStates
  unfoldable pub parse_target_states : Stream → Outcome (TargetStates × Stream)
  parse_target_states input = do
    (states, input) ← parse_states (suc (syn.size input)) input
    ok (record { states = states }, input)

  -- `if input.parse::<token::FatArrow>().is_ok() { Some(input.parse()?) } else { None }`, at the
  -- result of the parse of the arrow; `before` is what it leaves if it fails
  abbrev pub target_behind : Stream → Outcome Stream → Outcome (Option TargetStates × Stream)
  target_behind before (ok input) = do
    (states, input) ← parse_target_states input
    ok (some states, input)
  target_behind before (err x) = ok (none, before)

  abbrev pub event_behind :
      Stream → Outcome Stream → Outcome (Option Ty × Option TargetStates × Stream)
  event_behind before (ok input) = do
    (event, input) ← syn.parse_type input
    (to_state, input) ← target_behind input (syn.parse_punct Punct.fat_arrow input)
    ok (some event, to_state, input)
  event_behind before (err x) = ok (none, none, before)

  -- impl Parse for CommandStep
  unfoldable pub parse_command_step : Stream → Outcome (CommandStep × Stream)
  parse_command_step input = do
    (from_state, input) ← syn.parse_type input
    input ← syn.parse_punct Punct.fat_arrow input
    (command, input) ← syn.parse_type input
    (event, to_state, input) ← event_behind input (syn.parse_punct Punct.fat_arrow input)
    ok (
      record {
        from_state = from_state;
        command = some command;
        event = event;
        to_state = to_state;
      },
      input,
    )

  -- `if input.peek(token::FatArrow) { … }`
  unfoldable pub peeked_target : Stream → Outcome (Option TargetStates × Stream)
  peeked_target input =
      if syn.peek Punct.fat_arrow input
      then (do
        input ← syn.parse_punct Punct.fat_arrow input
        (states, input) ← parse_target_states input
        ok (some states, input))
      else ok (none, input)

  -- `if input.peek(token::Div) { … }`
  unfoldable pub peeked_action : Stream → Outcome (Bool × Stream)
  unfolding qualifier
  peeked_action input =
      if syn.peek Punct.div input
      then (do
        input ← syn.parse_punct Punct.div input
        input ← qualifier "action" input
        ok (true, input))
      else ok (false, input)

  -- impl Parse for EventStep
  unfoldable pub parse_event_step : Stream → Outcome (EventStep × Stream)
  unfolding peeked_target peeked_action
  parse_event_step input = do
    (from_state, input) ← syn.parse_type input
    input ← syn.parse_punct Punct.fat_arrow input
    (event, input) ← syn.parse_type input
    (to_state, input) ← peeked_target input
    (on_change, input) ← peeked_action input
    ok (
      record {
        from_state = from_state;
        command = none;
        event = some event;
        to_state = to_state;
        on_change = on_change;
      },
      input,
    )

  -- impl Parse for IgnoreCommand
  unfoldable pub parse_ignore_command : Stream → Outcome (IgnoreCommand × Stream)
  parse_ignore_command input = do
    (from_state, input) ← syn.parse_type input
    input ← syn.parse_punct Punct.fat_arrow input
    (command, input) ← syn.parse_type input
    ok (record { from_state = from_state; command = command }, input)

  -- impl Parse for IgnoreEvent
  unfoldable pub parse_ignore_event : Stream → Outcome (IgnoreEvent × Stream)
  parse_ignore_event input = do
    (from_state, input) ← syn.parse_type input
    input ← syn.parse_punct Punct.fat_arrow input
    (event, input) ← syn.parse_type input
    ok (record { from_state = from_state; event = event }, input)

  -- syn's `parse2`: nothing may be left
  unfoldable pub parse2 : {A : Type 0} → (Stream → Outcome (A × Stream)) → Stream → Outcome A
  parse2 parser input = do
    (a, input) ← parser input
    if syn.is_empty input then ok a else err Failure.syntax
