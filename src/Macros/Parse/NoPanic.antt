-- ===== src/Macros/Parse/NoPanic.antt =====
-- Panics in edfsm-macros/src/parse.rs, and in the parsers of the library `syn` that it calls.
use Prim.Native.String.{String}
use text.Mathlib.Text.{◌==◌ as text_eq}
use edfsm.Prelude.{
  ℕ, zero, suc, ◌∙◌, ap, Bool, true, false, inl, inr, Option, List, [], ◌∷◌, arith, if◌then◌else◌,
}
use edfsm.Macros.Syntax.{
  Ty, Failure, Outcome, ok, err, ◌>>=◌, Calm, >>=-Calm, ok-Calm, err-injective,
}
use edfsm.Macros.Parse.{
  Punct, Syn, qualifier, parse_entry, cons_type, parse_states, parse_target_states, target_behind,
  event_behind, parse_command_step, peeked_target, peeked_action, parse_event_step,
  parse_ignore_command, parse_ignore_event, parse2,
}
use edfsm.Macros.Parse.Item.{
  Item, Parsed, nothing_parsed, parse_type_item, parse_macro_item, parse_item, parse_items, finish,
  parse_fsm,
}
use edfsm.Macros.Parse.Fuel.{Outcome-cases}

if-Calm {ℓ} :
    {A : Type ℓ} (c : Bool) (a b : Outcome A) → Calm a → Calm b → Calm (if c then a else b)
if-Calm true a b h k = h
if-Calm false a b h k = k

parse_type_item-Calm : (n : String) (t : Ty) (p : Parsed) → Calm (parse_type_item n t p)
unfolding parse_type_item
parse_type_item-Calm n t p = λ h. ground arith

finish-Calm : (t : Option (List String)) (p : Parsed) → Calm (finish t p)
unfolding finish
finish-Calm t p = λ h. ground arith

-- The parsers that the library provides report an error as one.
pub record IsCalm {ℓ} {Stream : Type ℓ} (syn : Syn Stream) : Type ℓ where
  pub types : (s : Stream) → Calm (syn.parse_type s)
  pub idents : (s : Stream) → Calm (syn.parse_ident s)
  pub puncts : (p : Punct) (s : Stream) → Calm (syn.parse_punct p s)

module _ {ℓ} {Stream : Type ℓ} (syn : Syn Stream) (calm : IsCalm syn) where
  qualifier-Calm : (word : String) (input : Stream) → Calm (qualifier syn word input)
  unfolding qualifier
  qualifier-Calm word input = >>=-Calm (syn.parse_ident input) _ (calm.idents input) (λ x _.
      if-Calm (text_eq x.0 word) (ok x.1) (err (Failure.unknown_qualifier x.0)) (ok-Calm x.1)
        (λ h. cc))

  parse_entry-Calm : (input : Stream) → Calm (parse_entry syn input)
  unfolding parse_entry
  parse_entry-Calm input = >>=-Calm (syn.parse_type input) _ (calm.types input) (λ x _.
      >>=-Calm (syn.parse_punct Punct.div x.1) _ (calm.puncts Punct.div x.1)
        (λ y _. >>=-Calm (qualifier syn "entry" y) _ (qualifier-Calm "entry" y) (λ z _. ok-Calm _)))

  cons_type-Calm : (t : Ty) (x : Outcome (List Ty × Stream)) → Calm x → Calm (cons_type syn t x)
  cons_type-Calm t (ok (ts, input)) h = λ k. cc
  cons_type-Calm t (err x) h = λ k. h (cc k)

  parse_states-Calm : (fuel : ℕ) (input : Stream) → Calm (parse_states syn fuel input)
  unfolding parse_states
  parse_states-Calm zero input = λ h. cc
  parse_states-Calm (suc fuel) input = elim (Outcome-cases (syn.parse_type input)) [
    | inr (x, e) ↦ λ h. calm.types input (e ∙ ap err (err-injective (rw (parse_states, e)) h))
    | inl ((t, rest), e) ↦ elim (Outcome-cases (syn.parse_punct Punct.or rest)) [
      | inr (x, e₂) ↦ λ h. cc (rw (parse_states, e, e₂) at h)
      | inl (q, e₂) ↦
          rw (parse_states, e, e₂)
            (cons_type-Calm t (parse_states syn fuel q) (parse_states-Calm fuel q))
    ]
  ]

  parse_target_states-Calm : (input : Stream) → Calm (parse_target_states syn input)
  unfolding parse_target_states
  parse_target_states-Calm input =
      >>=-Calm (parse_states syn (suc (syn.size input)) input) _
        (parse_states-Calm (suc (syn.size input)) input) (λ x _. ok-Calm _)

  target_behind-Calm :
      (before : Stream) (arrow : Outcome Stream) → Calm (target_behind syn before arrow)
  target_behind-Calm before (ok input) =
      >>=-Calm (parse_target_states syn input) _ (parse_target_states-Calm input) (λ x _. ok-Calm _)
  target_behind-Calm before (err x) = λ h. cc

  event_behind-Calm :
      (before : Stream) (arrow : Outcome Stream) → Calm (event_behind syn before arrow)
  event_behind-Calm before (ok input) = >>=-Calm (syn.parse_type input) _ (calm.types input) (λ x _.
      >>=-Calm (target_behind syn x.1 (syn.parse_punct Punct.fat_arrow x.1)) _
        (target_behind-Calm x.1 (syn.parse_punct Punct.fat_arrow x.1)) (λ y _. ok-Calm _))
  event_behind-Calm before (err x) = λ h. cc

  parse_command_step-Calm : (input : Stream) → Calm (parse_command_step syn input)
  unfolding parse_command_step
  parse_command_step-Calm input = >>=-Calm (syn.parse_type input) _ (calm.types input) (λ x _.
      >>=-Calm (syn.parse_punct Punct.fat_arrow x.1) _ (calm.puncts Punct.fat_arrow x.1) (λ y _.
        >>=-Calm (syn.parse_type y) _ (calm.types y) (λ z _.
          >>=-Calm (event_behind syn z.1 (syn.parse_punct Punct.fat_arrow z.1)) _
            (event_behind-Calm z.1 (syn.parse_punct Punct.fat_arrow z.1)) (λ u _. ok-Calm _))))

  peeked_target-Calm : (input : Stream) → Calm (peeked_target syn input)
  unfolding peeked_target
  peeked_target-Calm input =
      if-Calm (syn.peek Punct.fat_arrow input) _ _
        (>>=-Calm (syn.parse_punct Punct.fat_arrow input) _ (calm.puncts Punct.fat_arrow input)
          (λ x _.
            >>=-Calm (parse_target_states syn x) _ (parse_target_states-Calm x) (λ y _. ok-Calm _)))
        (ok-Calm _)

  peeked_action-Calm : (input : Stream) → Calm (peeked_action syn input)
  unfolding peeked_action
  peeked_action-Calm input =
      if-Calm (syn.peek Punct.div input) _ _
        (>>=-Calm (syn.parse_punct Punct.div input) _ (calm.puncts Punct.div input) (λ x _.
          >>=-Calm (qualifier syn "action" x) _ (qualifier-Calm "action" x) (λ y _. ok-Calm _)))
        (ok-Calm _)

  parse_event_step-Calm : (input : Stream) → Calm (parse_event_step syn input)
  unfolding parse_event_step
  parse_event_step-Calm input = >>=-Calm (syn.parse_type input) _ (calm.types input) (λ x _.
      >>=-Calm (syn.parse_punct Punct.fat_arrow x.1) _ (calm.puncts Punct.fat_arrow x.1) (λ y _.
        >>=-Calm (syn.parse_type y) _ (calm.types y) (λ z _.
          >>=-Calm (peeked_target syn z.1) _ (peeked_target-Calm z.1) (λ u _.
            >>=-Calm (peeked_action syn u.1) _ (peeked_action-Calm u.1) (λ v _. ok-Calm _)))))

  parse_ignore_command-Calm : (input : Stream) → Calm (parse_ignore_command syn input)
  unfolding parse_ignore_command
  parse_ignore_command-Calm input = >>=-Calm (syn.parse_type input) _ (calm.types input) (λ x _.
      >>=-Calm (syn.parse_punct Punct.fat_arrow x.1) _ (calm.puncts Punct.fat_arrow x.1)
        (λ y _. >>=-Calm (syn.parse_type y) _ (calm.types y) (λ z _. ok-Calm _)))

  parse_ignore_event-Calm : (input : Stream) → Calm (parse_ignore_event syn input)
  unfolding parse_ignore_event
  parse_ignore_event-Calm input = >>=-Calm (syn.parse_type input) _ (calm.types input) (λ x _.
      >>=-Calm (syn.parse_punct Punct.fat_arrow x.1) _ (calm.puncts Punct.fat_arrow x.1)
        (λ y _. >>=-Calm (syn.parse_type y) _ (calm.types y) (λ z _. ok-Calm _)))

  parse2-Calm :
      {A : Type 0} (parser : Stream → Outcome (A × Stream)) (input : Stream)
      → Calm (parser input)
      → Calm (parse2 syn parser input)
  unfolding parse2
  parse2-Calm parser input h =
      >>=-Calm (parser input) _ h
        (λ x _. if-Calm (syn.is_empty x.1) (ok x.0) (err Failure.syntax) (ok-Calm x.0) (λ k. cc))

  parsed-Calm :
      {A : Type 0} (parser : Stream → Outcome (A × Stream)) (add : A → Parsed) (input : Stream)
      → Calm (parser input)
      → Calm (parse2 syn parser input >>= λ a. ok (add a))
  parsed-Calm parser add input h =
      >>=-Calm (parse2 syn parser input) _ (parse2-Calm parser input h) (λ a _. ok-Calm (add a))

  parse_macro_item-Calm :
      (n : String) (tokens : Stream) (p : Parsed) → Calm (parse_macro_item syn n tokens p)
  unfolding parse_macro_item
  parse_macro_item-Calm n tokens p =
      if-Calm (text_eq n "state") _ _
        (parsed-Calm (parse_entry syn) _ tokens (parse_entry-Calm tokens))
        (if-Calm (text_eq n "command") _ _
          (parsed-Calm (parse_command_step syn) _ tokens (parse_command_step-Calm tokens))
          (if-Calm (text_eq n "event") _ _
            (parsed-Calm (parse_event_step syn) _ tokens (parse_event_step-Calm tokens))
            (if-Calm (text_eq n "ignore_command") _ _
              (parsed-Calm (parse_ignore_command syn) _ tokens (parse_ignore_command-Calm tokens))
              (if-Calm (text_eq n "ignore_event") _ _
                (parsed-Calm (parse_ignore_event syn) _ tokens (parse_ignore_event-Calm tokens))
                (λ h. cc)))))

  parse_item-Calm : (item : Item Stream) (p : Parsed) → Calm (parse_item syn item p)
  unfolding parse_item
  parse_item-Calm (Item.type_item n t) p = parse_type_item-Calm n t p
  parse_item-Calm (Item.macro_item n tokens) p = parse_macro_item-Calm n tokens p
  parse_item-Calm Item.other_item p = λ h. cc

  parse_items-Calm : (items : List (Item Stream)) (p : Parsed) → Calm (parse_items syn items p)
  unfolding parse_items
  parse_items-Calm [] p = ok-Calm p
  parse_items-Calm (item ∷ items) p =
      >>=-Calm (parse_item syn item p) _ (parse_item-Calm item p) (λ q _. parse_items-Calm items q)

  pub parse_fsm-Calm :
      (trait_path : Option (List String)) (items : List (Item Stream))
      → Calm (parse_fsm syn trait_path items)
  unfolding parse_fsm
  parse_fsm-Calm trait_path items =
      >>=-Calm (parse_items syn items nothing_parsed) _ (parse_items-Calm items nothing_parsed)
        (λ p _. finish-Calm trait_path p)
