-- ===== src/Macros/Parse/Tests.antt =====
-- Runs of the parsers of edfsm-macros/src/parse.rs, over a stream of tokens.
use edfsm.Prelude.{ℕ, ◌<◌, ◌≡◌, ◌≢◌, ◌↔◌, All, refl, none, some, List, [], ◌∷◌, length, map}
use edfsm.Macros.Syntax.{infer, Failure, ok, err, command_as_step, event_as_step}
use edfsm.Macros.Parse.{
  qualifier, parse_entry, parse_states, parse_target_states, parse_command_step, parse_event_step,
  parse_ignore_event, peeked_target, peeked_action, parse2,
}
use edfsm.Macros.Parse.Item.{
  Item, parse_fsm, parse_items, parse_item, parse_type_item, parse_macro_item, finish,
}
use edfsm.Macros.Parse.Types.{Assoc, assoc_name}
use edfsm.Macros.Parse.Accepted.{IsItem, SomeDeclares, parse_fsm-IsItem}
use edfsm.Macros.Expand.WellFormed.{Succeeds}
use edfsm.Macros.Parse.Decl.{declared}
use edfsm.Macros.Parse.Block.{written, parse_fsm-written}
use edfsm.Macros.Parse.Sample.{block}
use edfsm.Macros.Parse.Fuel.{parse_target_states_ends}
use edfsm.Macros.Parse.Tokens.{
  Token, tokens, printer, named, consumes, small_impl, small_fsm, type_token, ident_token,
  arrow_token, or_token, div_token,
}

-- a block as in the documentation, with the type `S` declared twice
parse_fsm-written_example :
    parse_fsm tokens (some ("Fsm" ∷ [])) (map (written tokens printer) block)
    ≡ finish (some ("Fsm" ∷ [])) (declared block)
parse_fsm-written_example = parse_fsm-written tokens printer (some ("Fsm" ∷ [])) block

abbrev three_states : List Token
three_states =
    type_token (named "A") ∷ or_token ∷ type_token (named "B") ∷ or_token ∷ type_token infer ∷ []

parse_target_states_ends_example :
    (parse_target_states tokens three_states ≢ err Failure.out_of_fuel)
    × ((more : ℕ)
        → length three_states < more
        → parse_states tokens more three_states ≡ parse_states tokens 6 three_states)
parse_target_states_ends_example = parse_target_states_ends tokens consumes three_states

-- `state!(A / exit)` is refused
refuses_exit :
    parse2 tokens (parse_entry tokens) (type_token infer ∷ div_token ∷ ident_token "exit" ∷ [])
    ≡ err (Failure.unknown_qualifier "exit")
unfolding parse2 parse_entry qualifier
refuses_exit = refl

-- an `impl` block without an associated type is refused
refuses_missing :
    parse_fsm tokens none (
      Item.type_item "S" infer
      ∷ Item.macro_item "ignore_event" (type_token infer ∷ arrow_token ∷ type_token infer ∷ [])
      ∷ [])
    ≡ err Failure.missing_types
unfolding parse_fsm parse_items parse_item parse_type_item parse_macro_item finish parse2
    parse_ignore_event
refuses_missing = refl

small_parses : parse_fsm tokens (some ("Fsm" ∷ [])) small_impl ≡ ok small_fsm
unfolding parse_fsm parse_items parse_item parse_type_item parse_macro_item finish parse2
    parse_command_step parse_event_step peeked_target peeked_action command_as_step event_as_step
small_parses = refl

-- the small block is one
parse_fsm-IsItem_example : Succeeds (parse_fsm tokens (some ("Fsm" ∷ [])) small_impl) ↔ (
    All (IsItem tokens) small_impl × ((a : Assoc) → SomeDeclares tokens (assoc_name a) small_impl))
parse_fsm-IsItem_example = parse_fsm-IsItem tokens (some ("Fsm" ∷ [])) small_impl
