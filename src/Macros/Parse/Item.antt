-- ===== src/Macros/Parse/Item.antt =====
-- `impl Parse for Fsm` of edfsm-macros/src/parse.rs: the items of the `impl` block, one by one.
use Prim.Native.String.{String}
use text.Mathlib.Text.{◌==◌ as text_eq}
use edfsm.Prelude.{Option, none, some, List, [], ◌∷◌, ◌++◌, if◌then◌else◌}
use edfsm.Macros.Syntax.{
  Ty, Failure, Outcome, ok, err, ◌>>=◌, Entry, Step, IgnoreCommand, IgnoreEvent, command_as_step,
  event_as_step, FsmItem,
}
use edfsm.Macros.Parse.{
  Syn, parse2, parse_entry, parse_command_step, parse_event_step, parse_ignore_command,
  parse_ignore_event,
}

-- syn::ImplItem, as the associated types, the macros and all others
pub data Item {ℓ} (Stream : Type ℓ) : Type ℓ where
  type_item : String → Ty → Item Stream
  macro_item : String → Stream → Item Stream
  other_item : Item Stream

-- the local variables of the loop
pub record Parsed : Type 0 where
  pub state_enum : Option Ty
  pub command_enum : Option Ty
  pub event_enum : Option Ty
  pub effect_handlers : Option Ty
  pub entry_handlers : List Entry
  pub steps : List Step
  pub ignore_commands : List IgnoreCommand
  pub ignore_events : List IgnoreEvent

abbrev pub nothing_parsed : Parsed
nothing_parsed = record {
  state_enum = none;
  command_enum = none;
  event_enum = none;
  effect_handlers = none;
  entry_handlers = [];
  steps = [];
  ignore_commands = [];
  ignore_events = [];
}

unfoldable pub parse_type_item : String → Ty → Parsed → Outcome Parsed
parse_type_item n ty p =
    if text_eq n "S"
    then ok (record p { state_enum = some ty })
    else if text_eq n "C"
    then ok (record p { command_enum = some ty })
    else if text_eq n "E"
    then ok (record p { event_enum = some ty })
    else if text_eq n "SE"
    then ok (record p { effect_handlers = some ty })
    else err (Failure.unknown_type n)

-- the `if let` behind the loop
unfoldable pub finish : Option (List String) → Parsed → Outcome FsmItem
finish trait_path p = finish_with p.state_enum p.command_enum p.event_enum p.effect_handlers
  where
    finish_with : Option Ty → Option Ty → Option Ty → Option Ty → Outcome FsmItem
    finish_with (some s) (some c) (some e) (some se) = ok (record {
      state_enum = s;
      command_enum = c;
      event_enum = e;
      effect_handlers = se;
      entry_handlers = p.entry_handlers;
      steps = p.steps;
      ignore_commands = p.ignore_commands;
      ignore_events = p.ignore_events;
      trait_path = trait_path;
    })
    finish_with _ _ _ _ = err Failure.missing_types

abbrev pub add_entry : Parsed → Entry → Outcome Parsed
add_entry p e = ok (record p { entry_handlers = p.entry_handlers ++ e ∷ [] })

abbrev pub add_step : Parsed → Step → Outcome Parsed
add_step p s = ok (record p { steps = p.steps ++ s ∷ [] })

abbrev pub add_ignore_command : Parsed → IgnoreCommand → Outcome Parsed
add_ignore_command p i = ok (record p { ignore_commands = p.ignore_commands ++ i ∷ [] })

abbrev pub add_ignore_event : Parsed → IgnoreEvent → Outcome Parsed
add_ignore_event p i = ok (record p { ignore_events = p.ignore_events ++ i ∷ [] })

module _ {ℓ} {Stream : Type ℓ} (syn : Syn Stream) where
  unfoldable pub parse_macro_item : String → Stream → Parsed → Outcome Parsed
  parse_macro_item n tokens p =
      if text_eq n "state"
      then (do e ← parse2 syn (parse_entry syn) tokens; add_entry p e)
      else if text_eq n "command"
      then (do s ← parse2 syn (parse_command_step syn) tokens; add_step p (command_as_step s))
      else if text_eq n "event"
      then (do s ← parse2 syn (parse_event_step syn) tokens; add_step p (event_as_step s))
      else if text_eq n "ignore_command"
      then (do i ← parse2 syn (parse_ignore_command syn) tokens; add_ignore_command p i)
      else if text_eq n "ignore_event"
      then (do i ← parse2 syn (parse_ignore_event syn) tokens; add_ignore_event p i)
      else err (Failure.unknown_macro n)

  unfoldable pub parse_item : Item Stream → Parsed → Outcome Parsed
  unfolding parse_type_item parse_macro_item
  parse_item (Item.type_item ident ty) p = parse_type_item ident ty p
  parse_item (Item.macro_item name tokens) p = parse_macro_item name tokens p
  parse_item Item.other_item p = err Failure.unexpected_item

  unfoldable pub parse_items : List (Item Stream) → Parsed → Outcome Parsed
  unfolding parse_item
  parse_items [] p = ok p
  parse_items (item ∷ items) p = do q ← parse_item item p; parse_items items q

  -- impl Parse for Fsm, at the trait's path and the items of the `impl` block
  unfoldable pub parse_fsm : Option (List String) → List (Item Stream) → Outcome FsmItem
  unfolding parse_items finish
  parse_fsm trait_path items = do p ← parse_items items nothing_parsed; finish trait_path p
