-- ===== src/Macros/Parse/Printer.antt =====
-- Streams that edfsm-macros/src/parse.rs reads back what is put into, and what a step puts there.
use Prim.Native.String.{String}
use edfsm.Prelude.{◌<◌, ◌≡◌, true, false, Option, none, some, List, ◌∷◌}
use edfsm.Macros.Syntax.{Ty, Failure, ok, err, TargetStates}
use edfsm.Macros.Parse.{Punct, Syn}

-- Streams that the library `syn` reads back.
pub record Printer {ℓ} {Stream : Type ℓ} (syn : Syn Stream) : Type ℓ where
  pub finished : Stream
  pub put_type : Ty → Stream → Stream
  pub put_ident : String → Stream → Stream
  pub put_punct : Punct → Stream → Stream
  pub parse-put_type : (t : Ty) (r : Stream) → syn.parse_type (put_type t r) ≡ ok (t, r)
  pub parse-put_ident : (i : String) (r : Stream) → syn.parse_ident (put_ident i r) ≡ ok (i, r)
  pub parse-put_punct : (p : Punct) (r : Stream) → syn.parse_punct p (put_punct p r) ≡ ok r
  pub parse-finished : (p : Punct) → syn.parse_punct p finished ≡ err Failure.syntax
  pub or-div : (r : Stream) → syn.parse_punct Punct.or (put_punct Punct.div r) ≡ err Failure.syntax
  pub peek-put_punct : (p : Punct) (r : Stream) → syn.peek p (put_punct p r) ≡ true
  pub peek-finished : (p : Punct) → syn.peek p finished ≡ false
  pub arrow-div : (r : Stream) → syn.peek Punct.fat_arrow (put_punct Punct.div r) ≡ false
  pub is_empty-finished : syn.is_empty finished ≡ true
  pub size-put_type : (t : Ty) (r : Stream) → syn.size r < syn.size (put_type t r)
  pub size-put_punct : (p : Punct) (r : Stream) → syn.size r < syn.size (put_punct p r)

-- What may follow a command: nothing, `=> event`, or `=> event => first | more …`.
pub data CommandTail : Type 0 where
  no_event : CommandTail
  yields : Ty → CommandTail
  moves : Ty → Ty → List Ty → CommandTail

abbrev pub tail_event : CommandTail → Option Ty
tail_event no_event = none
tail_event (yields e) = some e
tail_event (moves e t ts) = some e

abbrev pub tail_target : CommandTail → Option TargetStates
tail_target no_event = none
tail_target (yields e) = none
tail_target (moves e t ts) = some (record { states = t ∷ ts })

-- What may follow an event: nothing, or `=> first | more …`.
abbrev pub event_target : Option (Ty × List Ty) → Option TargetStates
event_target none = none
event_target (some (t, ts)) = some (record { states = t ∷ ts })
