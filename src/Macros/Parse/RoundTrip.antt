-- ===== src/Macros/Parse/RoundTrip.antt =====
-- The steps that are written in the form of the documentation, and what edfsm-macros/src/parse.rs
-- reads from them.
use edfsm.Prelude.{
  ℕ, zero, suc, ◌<◌, ◌≡◌, refl, Bool, true, false, Option, none, some, List, [], ◌∷◌, length, arith,
}
use edfsm.Macros.Syntax.{Ty, Failure, ok, err}
use edfsm.Macros.Parse.{
  Punct, Syn, qualifier, parse_states, parse_target_states, parse_command_step, peeked_target,
  peeked_action, parse_event_step, parse2,
}
use edfsm.Macros.Parse.Printer.{
  Printer, CommandTail, no_event, yields, moves, tail_event, tail_target, event_target,
}

module _ {ℓ} {Stream : Type ℓ} (syn : Syn Stream) (pr : Printer syn) where
  abbrev pub put_states : Ty → List Ty → Stream → Stream
  put_states t [] r = pr.put_type t r
  put_states t (u ∷ us) r = pr.put_type t (pr.put_punct Punct.or (put_states u us r))

  abbrev pub put_arrow : Stream → Stream
  put_arrow = pr.put_punct Punct.fat_arrow

  abbrev pub put_tail : CommandTail → Stream
  put_tail no_event = pr.finished
  put_tail (yields e) = put_arrow (pr.put_type e pr.finished)
  put_tail (moves e t ts) = put_arrow (pr.put_type e (put_arrow (put_states t ts pr.finished)))

  abbrev pub put_command : Ty → Ty → CommandTail → Stream
  put_command from command tail = pr.put_type from (put_arrow (pr.put_type command (put_tail tail)))

  abbrev pub put_action : Bool → Stream
  put_action true = pr.put_punct Punct.div (pr.put_ident "action" pr.finished)
  put_action false = pr.finished

  abbrev pub put_target : Option (Ty × List Ty) → Stream → Stream
  put_target none r = r
  put_target (some (t, ts)) r = put_arrow (put_states t ts r)

  abbrev pub put_event : Ty → Ty → Option (Ty × List Ty) → Bool → Stream
  put_event from event to action =
      pr.put_type from (put_arrow (pr.put_type event (put_target to (put_action action))))

  size-put_states : (t : Ty) (ts : List Ty) (r : Stream) → length ts < syn.size (put_states t ts r)
  size-put_states t [] r = let h = pr.size-put_type t r in omega arith
  size-put_states t (u ∷ us) r =
      let h = size-put_states u us r in
      let h₁ = pr.size-put_punct Punct.or (put_states u us r) in
      let h₂ = pr.size-put_type t (pr.put_punct Punct.or (put_states u us r)) in omega arith

  parse-put_states :
      (fuel : ℕ) (t : Ty) (ts : List Ty) (r : Stream)
      → length ts < fuel
      → syn.parse_punct Punct.or r ≡ err Failure.syntax
      → parse_states syn fuel (put_states t ts r) ≡ ok (t ∷ ts, r)
  unfolding parse_states
  parse-put_states zero t ts r h k = ground arith
  parse-put_states (suc fuel) t [] r h k = rw (parse_states, pr.parse-put_type t r, k) refl
  parse-put_states (suc fuel) t (u ∷ us) r h k =
      rw
        (
          parse_states,
          pr.parse-put_type t (pr.put_punct Punct.or (put_states u us r)),
          pr.parse-put_punct Punct.or (put_states u us r),
          parse-put_states fuel u us r (omega arith) k,
        )
        refl

  parse-put_target_states :
      (t : Ty) (ts : List Ty) (r : Stream)
      → syn.parse_punct Punct.or r ≡ err Failure.syntax
      → parse_target_states syn (put_states t ts r) ≡ ok (record { states = t ∷ ts }, r)
  unfolding parse_target_states
  parse-put_target_states t ts r k =
      let h = size-put_states t ts r in
      rw (parse-put_states (suc (syn.size (put_states t ts r))) t ts r (omega arith) k) refl

  -- On streams that `syn` reads back, a command step that is written as `from => command`, with `=> event`, and with target states
  -- behind it or not, is read as the step that is written, whatever the number of target states.
  pub parse-put_command :
      (from command : Ty) (tail : CommandTail)
      → parse2 syn (parse_command_step syn) (put_command from command tail)
        ≡ ok (record {
          from_state = from;
          command = some command;
          event = tail_event tail;
          to_state = tail_target tail;
        })
  unfolding parse2 parse_command_step
  parse-put_command from command no_event =
      rw
        (
          pr.parse-put_type from (put_arrow (pr.put_type command pr.finished)),
          pr.parse-put_punct Punct.fat_arrow (pr.put_type command pr.finished),
          pr.parse-put_type command pr.finished,
          pr.parse-finished Punct.fat_arrow,
          pr.is_empty-finished,
        )
        refl
  parse-put_command from command (yields e) =
      let l = pr.put_type e pr.finished in
      rw
        (
          pr.parse-put_type from (put_arrow (pr.put_type command (put_arrow l))),
          pr.parse-put_punct Punct.fat_arrow (pr.put_type command (put_arrow l)),
          pr.parse-put_type command (put_arrow l),
          pr.parse-put_punct Punct.fat_arrow l,
          pr.parse-put_type e pr.finished,
          pr.parse-finished Punct.fat_arrow,
          pr.is_empty-finished,
        )
        refl
  parse-put_command from command (moves e t ts) =
      let k = put_states t ts pr.finished in
      let l = pr.put_type e (put_arrow k) in
      rw
        (
          pr.parse-put_type from (put_arrow (pr.put_type command (put_arrow l))),
          pr.parse-put_punct Punct.fat_arrow (pr.put_type command (put_arrow l)),
          pr.parse-put_type command (put_arrow l),
          pr.parse-put_punct Punct.fat_arrow l,
          pr.parse-put_type e (put_arrow k),
          pr.parse-put_punct Punct.fat_arrow k,
          parse-put_target_states t ts pr.finished (pr.parse-finished Punct.or),
          pr.is_empty-finished,
        )
        refl

  or-put_action :
      (action : Bool) → syn.parse_punct Punct.or (put_action action) ≡ err Failure.syntax
  or-put_action true = pr.or-div (pr.put_ident "action" pr.finished)
  or-put_action false = pr.parse-finished Punct.or

  arrow-put_action : (action : Bool) → syn.peek Punct.fat_arrow (put_action action) ≡ false
  arrow-put_action true = pr.arrow-div (pr.put_ident "action" pr.finished)
  arrow-put_action false = pr.peek-finished Punct.fat_arrow

  peeked_target-put_target :
      (to : Option (Ty × List Ty)) (action : Bool)
      → peeked_target syn (put_target to (put_action action))
        ≡ ok (event_target to, put_action action)
  unfolding peeked_target
  peeked_target-put_target none action = rw (arrow-put_action action) refl
  peeked_target-put_target (some (t, ts)) action =
      let k = put_states t ts (put_action action) in
      rw
        (
          pr.peek-put_punct Punct.fat_arrow k,
          pr.parse-put_punct Punct.fat_arrow k,
          parse-put_target_states t ts (put_action action) (or-put_action action),
        )
        refl

  peeked_action-put_action :
      (action : Bool) → peeked_action syn (put_action action) ≡ ok (action, pr.finished)
  unfolding peeked_action qualifier
  peeked_action-put_action true =
      let k = pr.put_ident "action" pr.finished in
      rw
        (
          pr.peek-put_punct Punct.div k,
          pr.parse-put_punct Punct.div k,
          pr.parse-put_ident "action" pr.finished,
        )
        refl
  peeked_action-put_action false = rw (pr.peek-finished Punct.div) refl

  -- On streams that `syn` reads back, an event step that is written as `from => event`, with target states and with `/ action` behind
  -- it or not, is read as the step that is written, whatever the number of target states.
  pub parse-put_event :
      (from event : Ty) (to : Option (Ty × List Ty)) (action : Bool)
      → parse2 syn (parse_event_step syn) (put_event from event to action)
        ≡ ok (record {
          from_state = from;
          command = none;
          event = some event;
          to_state = event_target to;
          on_change = action;
        })
  unfolding parse2 parse_event_step
  parse-put_event from event to action =
      let k = put_target to (put_action action) in
      rw
        (
          pr.parse-put_type from (put_arrow (pr.put_type event k)),
          pr.parse-put_punct Punct.fat_arrow (pr.put_type event k),
          pr.parse-put_type event k,
          peeked_target-put_target to action,
          peeked_action-put_action action,
          pr.is_empty-finished,
        )
        refl
