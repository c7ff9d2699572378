-- ===== src/Macros/Parse/Declared.antt =====
-- What `impl Parse for Fsm` of edfsm-macros/src/parse.rs collects from the items, in their order.
use Prim.Native.String.{String}
use text.Mathlib.Text.{◌==◌ as text_eq}
use edfsm.Prelude.{
  ◌≡◌, ◌≢◌, sym, ap, ◌∙◌, Bool, true, false, Option, List, [], ◌∷◌, ◌++◌, append-nil, append_assoc,
  if◌then◌else◌, arith,
}
use edfsm.Macros.Syntax.{
  Ty, Failure, Outcome, ok, err, ◌>>=◌, >>=-eq-ok, ok-injective, Step, CommandStep, EventStep,
  command_as_step, event_as_step, FsmItem, Entry, IgnoreCommand, IgnoreEvent,
}
use edfsm.Macros.Parse.{
  Syn, parse2, parse_entry, parse_command_step, parse_event_step, parse_ignore_command,
  parse_ignore_event,
}
use edfsm.Macros.Parse.Item.{
  Item, Parsed, nothing_parsed, parse_type_item, parse_macro_item, parse_item, parse_items, finish,
  parse_fsm, add_entry, add_step, add_ignore_command, add_ignore_event,
}

abbrev pub steps_of {ℓ} : {A : Type ℓ} → (A → Step) → Outcome A → List Step
steps_of f (ok a) = f a ∷ []
steps_of f (err x) = []

parse_type_item-steps :
    (n : String) (ty : Ty) (p q : Parsed) → parse_type_item n ty p ≡ ok q → q.steps ≡ p.steps
unfolding parse_type_item
parse_type_item-steps n ty p q h = ground arith

pub finish-steps :
    (t : Option (List String)) (p : Parsed) (fsm : FsmItem)
    → finish t p ≡ ok fsm
    → fsm.steps ≡ p.steps
unfolding finish
finish-steps t p fsm h = ground arith

steps-ok : {p q : Parsed} → ok p ≡ ok q → q.steps ≡ p.steps
steps-ok h = ap (λ (r : Parsed). r.steps) (sym (ok-injective h))

steps-ok_nil : {p q : Parsed} → ok p ≡ ok q → q.steps ≡ p.steps ++ []
steps-ok_nil {p} h = steps-ok h ∙ sym (append-nil p.steps)

abbrev parsed_item :
    Parsed
    → Bool
    → Bool
    → Bool
    → Bool
    → Bool
    → Outcome Entry
    → Outcome CommandStep
    → Outcome EventStep
    → Outcome IgnoreCommand
    → Outcome IgnoreEvent
    → Outcome Parsed
    → Outcome Parsed
parsed_item p a b c d f entry command event ignored_command ignored_event unknown =
    if a
    then (do x ← entry; add_entry p x)
    else if b
    then (do x ← command; add_step p (command_as_step x))
    else if c
    then (do x ← event; add_step p (event_as_step x))
    else if d
    then (do x ← ignored_command; add_ignore_command p x)
    else if f
    then (do x ← ignored_event; add_ignore_event p x)
    else unknown

branches :
    (p q : Parsed)
    → (a b c d f : Bool) → (entry : Outcome Entry) → (command : Outcome CommandStep)
    → (event : Outcome EventStep) → (ignored_command : Outcome IgnoreCommand)
    → (ignored_event : Outcome IgnoreEvent) → (unknown : Outcome Parsed)
    → ((r : Parsed) → unknown ≢ ok r)
    → parsed_item p a b c d f entry command event ignored_command ignored_event unknown ≡ ok q
    → q.steps
      ≡ p.steps
        ++ (if a
            then []
            else if b
            then steps_of command_as_step command
            else if c
            then steps_of event_as_step event
            else [])
branches p q true b c d f (ok x) m e i j u v h = steps-ok_nil h
branches p q true b c d f (err x) m e i j u v h = cc
branches p q false true c d f n (ok x) e i j u v h = steps-ok h
branches p q false true c d f n (err x) e i j u v h = cc
branches p q false false true d f n m (ok x) i j u v h = steps-ok h
branches p q false false true d f n m (err x) i j u v h = cc
branches p q false false false true f n m e (ok x) j u v h = steps-ok_nil h
branches p q false false false true f n m e (err x) j u v h = cc
branches p q false false false false true n m e i (ok x) u v h = steps-ok_nil h
branches p q false false false false true n m e i (err x) u v h = cc
branches p q false false false false false n m e i j u v h = absurd (v q h)

module _ {ℓ} {Stream : Type ℓ} (syn : Syn Stream) where
  -- The steps of an item: one of a `command!` or `event!`, else none.
  abbrev pub declared_step : Item Stream → List Step
  declared_step (Item.type_item n ty) = []
  declared_step (Item.macro_item n tokens) =
      if text_eq n "state"
      then []
      else if text_eq n "command"
      then steps_of command_as_step (parse2 syn (parse_command_step syn) tokens)
      else if text_eq n "event"
      then steps_of event_as_step (parse2 syn (parse_event_step syn) tokens)
      else []
  declared_step Item.other_item = []

  abbrev pub declared_steps : List (Item Stream) → List Step
  declared_steps [] = []
  declared_steps (item ∷ items) = declared_step item ++ declared_steps items

  parse_macro_item-steps :
      (n : String) (tokens : Stream) (p q : Parsed)
      → parse_macro_item syn n tokens p ≡ ok q
      → q.steps ≡ p.steps ++ declared_step (Item.macro_item n tokens)
  unfolding parse_macro_item
  parse_macro_item-steps n tokens p q =
      branches p q (text_eq n "state") (text_eq n "command") (text_eq n "event")
        (text_eq n "ignore_command") (text_eq n "ignore_event")
        (parse2 syn (parse_entry syn) tokens) (parse2 syn (parse_command_step syn) tokens)
        (parse2 syn (parse_event_step syn) tokens) (parse2 syn (parse_ignore_command syn) tokens)
        (parse2 syn (parse_ignore_event syn) tokens) (err (Failure.unknown_macro n)) (λ q h. cc)

  parse_item-steps :
      (item : Item Stream) (p q : Parsed)
      → parse_item syn item p ≡ ok q
      → q.steps ≡ p.steps ++ declared_step item
  unfolding parse_item
  parse_item-steps (Item.type_item n ty) p q h =
      parse_type_item-steps n ty p q h ∙ sym (append-nil p.steps)
  parse_item-steps (Item.macro_item n tokens) p q h = parse_macro_item-steps n tokens p q h
  parse_item-steps Item.other_item p q h = cc

  parse_items-steps :
      (items : List (Item Stream)) (p q : Parsed)
      → parse_items syn items p ≡ ok q
      → q.steps ≡ p.steps ++ declared_steps items
  unfolding parse_items
  parse_items-steps [] p q h = steps-ok_nil h
  parse_items-steps (item ∷ items) p q h =
      let (r, r_ok, k) = >>=-eq-ok (parse_item syn item p) _ h in
      parse_items-steps items r q k
      ∙ ap (λ l. l ++ declared_steps items) (parse_item-steps item p r r_ok)
      ∙ append_assoc p.steps (declared_step item) (declared_steps items)

  -- Where an `impl` block is accepted, the steps of the machine are those of its `command!` and
  -- `event!` items, both kinds together, in the order in which they are declared.
  pub parse_fsm-steps :
      (trait_path : Option (List String)) (items : List (Item Stream)) (fsm : FsmItem)
      → parse_fsm syn trait_path items ≡ ok fsm
      → fsm.steps ≡ declared_steps items
  unfolding parse_fsm
  parse_fsm-steps trait_path items fsm h =
      let (p, p_ok, k) = >>=-eq-ok (parse_items syn items nothing_parsed) _ h in
      finish-steps trait_path p fsm k ∙ parse_items-steps items nothing_parsed p p_ok
