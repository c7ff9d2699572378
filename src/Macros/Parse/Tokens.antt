-- ===== src/Macros/Parse/Tokens.antt =====
-- A stream of tokens that stands in for the library `syn`, for the tests of edfsm-macros.
use Prim.Native.String.{String}
use edfsm.Prelude.{
  ◌≤◌, ◌<◌, ◌≡◌, ◌≢◌, refl, Bool, true, false, Option, none, some, List, [], ◌∷◌, length, arith,
}
use edfsm.Macros.Syntax.{Ty, path, Failure, Outcome, ok, err, Calm, FsmItem, Step}
use edfsm.Macros.Parse.{Punct, Syn}
use edfsm.Macros.Parse.Item.{Item}
use edfsm.Macros.Parse.Printer.{Printer}
use edfsm.Macros.Parse.Fuel.{Consumes}
use edfsm.Macros.Parse.NoPanic.{IsCalm}

pub data Token : Type 0 where
  type_token : Ty → Token
  ident_token : String → Token
  arrow_token or_token div_token : Token

abbrev pub take_type : List Token → Outcome (Ty × List Token)
take_type (type_token t ∷ r) = ok (t, r)
take_type _ = err Failure.syntax

abbrev pub take_ident : List Token → Outcome (String × List Token)
take_ident (ident_token i ∷ r) = ok (i, r)
take_ident _ = err Failure.syntax

abbrev pub take_punct : Punct → List Token → Outcome (List Token)
take_punct Punct.fat_arrow (arrow_token ∷ r) = ok r
take_punct Punct.or (or_token ∷ r) = ok r
take_punct Punct.div (div_token ∷ r) = ok r
take_punct _ _ = err Failure.syntax

abbrev pub is_ok {ℓ} : {A : Type ℓ} → Outcome A → Bool
is_ok (ok a) = true
is_ok (err x) = false

abbrev pub no_token : List Token → Bool
no_token [] = true
no_token (t ∷ r) = false

abbrev pub tokens : Syn (List Token)
tokens = record {
  parse_type = take_type;
  parse_ident = take_ident;
  parse_punct = take_punct;
  peek = λ p s. is_ok (take_punct p s);
  is_empty = no_token;
  size = length;
}

abbrev pub punct_token : Punct → Token
punct_token Punct.fat_arrow = arrow_token
punct_token Punct.or = or_token
punct_token Punct.div = div_token

pub take-punct_token : (p : Punct) (r : List Token) → take_punct p (punct_token p ∷ r) ≡ ok r
take-punct_token Punct.fat_arrow r = refl
take-punct_token Punct.or r = refl
take-punct_token Punct.div r = refl

pub take_punct-nil : (p : Punct) → take_punct p [] ≡ err Failure.syntax
take_punct-nil Punct.fat_arrow = refl
take_punct-nil Punct.or = refl
take_punct-nil Punct.div = refl

pub peek-punct_token :
    (p : Punct) (r : List Token) → is_ok (take_punct p (punct_token p ∷ r)) ≡ true
peek-punct_token Punct.fat_arrow r = refl
peek-punct_token Punct.or r = refl
peek-punct_token Punct.div r = refl

pub peek-nil : (p : Punct) → is_ok (take_punct p []) ≡ false
peek-nil Punct.fat_arrow = refl
peek-nil Punct.or = refl
peek-nil Punct.div = refl

abbrev pub printer : Printer tokens
printer = record {
  finished = [];
  put_type = λ t r. type_token t ∷ r;
  put_ident = λ i r. ident_token i ∷ r;
  put_punct = λ p r. punct_token p ∷ r;
  parse-put_type = λ t r. refl;
  parse-put_ident = λ i r. refl;
  parse-put_punct = take-punct_token;
  parse-finished = take_punct-nil;
  or-div = λ r. refl;
  peek-put_punct = peek-punct_token;
  peek-finished = peek-nil;
  arrow-div = λ r. refl;
  is_empty-finished = refl;
  size-put_type = λ t r. omega arith;
  size-put_punct = λ p r. omega arith;
}

pub take_type_size : (s r : List Token) (t : Ty) → take_type s ≡ ok (t, r) → length r < length s
take_type_size [] r t h = cc
take_type_size (type_token u ∷ s) r t h = ground arith
take_type_size (ident_token i ∷ s) r t h = cc
take_type_size (arrow_token ∷ s) r t h = cc
take_type_size (or_token ∷ s) r t h = cc
take_type_size (div_token ∷ s) r t h = cc

pub take_punct_size : (p : Punct) (s r : List Token) → take_punct p s ≡ ok r → length r ≤ length s
take_punct_size Punct.fat_arrow (arrow_token ∷ s) r h = ground arith
take_punct_size Punct.or (or_token ∷ s) r h = ground arith
take_punct_size Punct.div (div_token ∷ s) r h = ground arith
take_punct_size _ s r h = cc

pub take_type_error : (s : List Token) (x : Failure) → take_type s ≡ err x → x ≢ Failure.out_of_fuel
take_type_error [] x h = λ k. cc
take_type_error (type_token u ∷ s) x h = λ k. cc
take_type_error (ident_token i ∷ s) x h = λ k. cc
take_type_error (arrow_token ∷ s) x h = λ k. cc
take_type_error (or_token ∷ s) x h = λ k. cc
take_type_error (div_token ∷ s) x h = λ k. cc

abbrev pub named : String → Ty
named i = path (record { ident = i; has_arguments = false } ∷ [])

abbrev pub consumes : Consumes tokens
consumes = record {
  parse_type_size = take_type_size;
  parse_punct_size = take_punct_size;
  parse_type_error = take_type_error;
}

take_type-Calm : (s : List Token) → Calm (take_type s)
take_type-Calm [] = λ k. cc
take_type-Calm (type_token u ∷ s) = λ k. cc
take_type-Calm (ident_token i ∷ s) = λ k. cc
take_type-Calm (arrow_token ∷ s) = λ k. cc
take_type-Calm (or_token ∷ s) = λ k. cc
take_type-Calm (div_token ∷ s) = λ k. cc

take_ident-Calm : (s : List Token) → Calm (take_ident s)
take_ident-Calm [] = λ k. cc
take_ident-Calm (type_token u ∷ s) = λ k. cc
take_ident-Calm (ident_token i ∷ s) = λ k. cc
take_ident-Calm (arrow_token ∷ s) = λ k. cc
take_ident-Calm (or_token ∷ s) = λ k. cc
take_ident-Calm (div_token ∷ s) = λ k. cc

take_punct-Calm : (p : Punct) (s : List Token) → Calm (take_punct p s)
take_punct-Calm Punct.fat_arrow (arrow_token ∷ s) = λ k. cc
take_punct-Calm Punct.or (or_token ∷ s) = λ k. cc
take_punct-Calm Punct.div (div_token ∷ s) = λ k. cc
take_punct-Calm _ s = λ k. cc

pub tokens-Calm : IsCalm tokens
tokens-Calm = record { types = take_type-Calm; idents = take_ident-Calm; puncts = take_punct-Calm }

abbrev pub arrowed : String → String → List Token → List Token
arrowed a b rest = type_token (named a) ∷ arrow_token ∷ type_token (named b) ∷ rest

-- the types, `event!(Running => Stopped)` and `command!(Idle => Start)`
abbrev pub small_impl : List (Item (List Token))
small_impl =
    Item.type_item "S" (named "State")
    ∷ Item.macro_item "event" (arrowed "Running" "Stopped" [])
    ∷ Item.type_item "C" (named "Command")
    ∷ Item.type_item "E" (named "Event")
    ∷ Item.type_item "SE" (named "EffectHandlers")
    ∷ Item.macro_item "command" (arrowed "Idle" "Start" [])
    ∷ []

abbrev pub small_step : String → Option Ty → Option Ty → Step
small_step from command event = record {
  from_state = named from;
  command = command;
  event = event;
  to_state = none;
  on_change = false;
}

abbrev pub small_fsm : FsmItem
small_fsm = record {
  state_enum = named "State";
  command_enum = named "Command";
  event_enum = named "Event";
  effect_handlers = named "EffectHandlers";
  entry_handlers = [];
  steps =
      small_step "Running" none (some (named "Stopped"))
      ∷ small_step "Idle" (some (named "Start")) none
      ∷ [];
  ignore_commands = [];
  ignore_events = [];
  trait_path = some ("Fsm" ∷ []);
}
