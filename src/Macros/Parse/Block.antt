-- ===== src/Macros/Parse/Block.antt =====
-- A whole `impl` block that is written in the forms of the documentation, and what
-- edfsm-macros/src/parse.rs reads from it.
use Prim.Native.String.{String}
use edfsm.Prelude.{◌≡◌, refl, sym, ap, Option, some, List, [], ◌∷◌, map, append-nil}
use edfsm.Macros.Syntax.{Ty, ok, command_as_step, event_as_step}
use edfsm.Macros.Parse.{
  Punct, Syn, parse2, parse_entry, parse_ignore_command, parse_ignore_event, qualifier,
}
use edfsm.Macros.Parse.Item.{
  Item, Parsed, nothing_parsed, parse_type_item, parse_macro_item, parse_item, parse_items, finish,
  parse_fsm,
}
use edfsm.Macros.Parse.Printer.{Printer}
use edfsm.Macros.Parse.RoundTrip.{
  put_command, put_event, put_arrow, parse-put_command, parse-put_event,
}
use edfsm.Macros.Parse.Decl.{
  Decl, state_type, command_type, event_type, effect_type, entry, command, event, ignore_command,
  ignore_event, declares, declared, both, both_assoc, nothing-both, both-nothing,
}

module _ {ℓ} {Stream : Type ℓ} (syn : Syn Stream) (pr : Printer syn) where
  abbrev pub put_entry : Ty → Stream
  put_entry s = pr.put_type s (pr.put_punct Punct.div (pr.put_ident "entry" pr.finished))

  abbrev pub put_ignore : Ty → Ty → Stream
  put_ignore from t = pr.put_type from (put_arrow syn pr (pr.put_type t pr.finished))

  -- The item that a declaration is written as.
  abbrev pub written : Decl → Item Stream
  written (state_type t) = Item.type_item "S" t
  written (command_type t) = Item.type_item "C" t
  written (event_type t) = Item.type_item "E" t
  written (effect_type t) = Item.type_item "SE" t
  written (entry s) = Item.macro_item "state" (put_entry s)
  written (command from c tail) = Item.macro_item "command" (put_command syn pr from c tail)
  written (event from e to action) = Item.macro_item "event" (put_event syn pr from e to action)
  written (ignore_command from c) = Item.macro_item "ignore_command" (put_ignore from c)
  written (ignore_event from e) = Item.macro_item "ignore_event" (put_ignore from e)

  parse-put_entry :
      (s : Ty) → parse2 syn (parse_entry syn) (put_entry s) ≡ ok (record { state = s })
  unfolding parse2 parse_entry qualifier
  parse-put_entry s =
      let l = pr.put_ident "entry" pr.finished in
      rw
        (
          pr.parse-put_type s (pr.put_punct Punct.div l),
          pr.parse-put_punct Punct.div l,
          pr.parse-put_ident "entry" pr.finished,
          pr.is_empty-finished,
        )
        refl

  parse-put_ignore_command :
      (from c : Ty)
      → parse2 syn (parse_ignore_command syn) (put_ignore from c)
        ≡ ok (record { from_state = from; command = c })
  unfolding parse2 parse_ignore_command
  parse-put_ignore_command from c =
      let l = pr.put_type c pr.finished in
      rw
        (
          pr.parse-put_type from (put_arrow syn pr l),
          pr.parse-put_punct Punct.fat_arrow l,
          pr.parse-put_type c pr.finished,
          pr.is_empty-finished,
        )
        refl

  parse-put_ignore_event :
      (from e : Ty)
      → parse2 syn (parse_ignore_event syn) (put_ignore from e)
        ≡ ok (record { from_state = from; event = e })
  unfolding parse2 parse_ignore_event
  parse-put_ignore_event from e =
      let l = pr.put_type e pr.finished in
      rw
        (
          pr.parse-put_type from (put_arrow syn pr l),
          pr.parse-put_punct Punct.fat_arrow l,
          pr.parse-put_type e pr.finished,
          pr.is_empty-finished,
        )
        refl

  parse_item-written :
      (d : Decl) (p : Parsed) → parse_item syn (written d) p ≡ ok (both p (declares d))
  unfolding parse_item parse_type_item parse_macro_item command_as_step event_as_step
  parse_item-written (state_type t) p = simp (append-nil)
  parse_item-written (command_type t) p =
      ap ok (sym (both-nothing (record p { command_enum = some t })))
  parse_item-written (event_type t) p =
      ap ok (sym (both-nothing (record p { event_enum = some t })))
  parse_item-written (effect_type t) p =
      ap ok (sym (both-nothing (record p { effect_handlers = some t })))
  parse_item-written (entry s) p = rw (parse-put_entry s) (simp (append-nil))
  parse_item-written (command from c tail) p =
      rw (parse-put_command syn pr from c tail) (simp (append-nil))
  parse_item-written (event from e to action) p =
      rw (parse-put_event syn pr from e to action) (simp (append-nil))
  parse_item-written (ignore_command from c) p =
      rw (parse-put_ignore_command from c) (simp (append-nil))
  parse_item-written (ignore_event from e) p =
      rw (parse-put_ignore_event from e) (simp (append-nil))

  parse_items-written :
      (ds : List Decl) (p : Parsed) → parse_items syn (map written ds) p ≡ ok (both p (declared ds))
  unfolding parse_items
  parse_items-written [] p = ap ok (sym (both-nothing p))
  parse_items-written (d ∷ ds) p =
      rw (parse_item-written d p, parse_items-written ds (both p (declares d)))
        (ap ok (both_assoc p (declares d) (declared ds)))

  -- A block whose declarations are written in the forms of the documentation, in any order and
  -- number, is read as what is written: of each associated type the last declaration, and the
  -- entries, the steps of both kinds and the ignored commands and events in the order of their
  -- declaration. No item is refused; what is left is the test that the four types are declared.
  pub parse_fsm-written :
      (trait_path : Option (List String)) (ds : List Decl)
      → parse_fsm syn trait_path (map written ds) ≡ finish trait_path (declared ds)
  unfolding parse_fsm
  parse_fsm-written trait_path ds =
      rw (parse_items-written ds nothing_parsed)
        (ap (finish trait_path) (nothing-both (declared ds)))
