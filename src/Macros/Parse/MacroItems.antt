-- ===== src/Macros/Parse/MacroItems.antt =====
-- The macros that edfsm-macros/src/parse.rs knows, and what it wants of their tokens.
use Prim.Native.String.{String}
use text.Mathlib.Text.{◌==◌ as text_eq}
use text.Mathlib.TextEquality.{eq_iff}
use edfsm.Prelude.{◌≡◌, refl, sym, ap, ◌∙◌, ◌↔◌, ◌⊎◌, inl, inr, false, Bool-cases, List}
use edfsm.Macros.Syntax.{ok, >>=-eq-ok, ok-injective, Entry, Step, IgnoreCommand, IgnoreEvent}
use edfsm.Macros.Parse.{
  Syn, parse2, parse_entry, parse_command_step, parse_event_step, parse_ignore_command,
  parse_ignore_event,
}
use edfsm.Macros.Parse.Item.{Parsed, parse_macro_item}
use edfsm.Macros.Parse.Types.{Assoc, state_type, command_type, event_type, effect_type, chosen}
use edfsm.Macros.Expand.WellFormed.{Succeeds, chain_ok}

-- The macros.
pub data MacroName : Type 0 where
  state command event ignore_command ignore_event : MacroName

abbrev pub macro_name : MacroName → String
macro_name state = "state"
macro_name command = "command"
macro_name event = "event"
macro_name ignore_command = "ignore_command"
macro_name ignore_event = "ignore_event"

abbrev IsOtherMacro : String → Type 0
IsOtherMacro n =
    (text_eq n "state" ≡ false)
    × (text_eq n "command" ≡ false)
    × (text_eq n "event" ≡ false)
    × (text_eq n "ignore_command" ≡ false)
    × (text_eq n "ignore_event" ≡ false)

known_macro_or_other : (n : String) → ((k : MacroName) × (n ≡ macro_name k)) ⊎ IsOtherMacro n
known_macro_or_other n = elim (Bool-cases (text_eq n "state")) [
  | inl e ↦ inl (state, (eq_iff n "state").0 e)
  | inr a ↦ elim (Bool-cases (text_eq n "command")) [
    | inl e ↦ inl (command, (eq_iff n "command").0 e)
    | inr b ↦ elim (Bool-cases (text_eq n "event")) [
      | inl e ↦ inl (event, (eq_iff n "event").0 e)
      | inr c ↦ elim (Bool-cases (text_eq n "ignore_command")) [
        | inl e ↦ inl (ignore_command, (eq_iff n "ignore_command").0 e)
        | inr d ↦ elim (Bool-cases (text_eq n "ignore_event")) [
          | inl e ↦ inl (ignore_event, (eq_iff n "ignore_event").0 e)
          | inr f ↦ inr (a, b, c, d, f)
        ]
      ]
    ]
  ]
]

-- The lists have no part in the types.
lists-chosen :
    (a : Assoc) (p : Parsed) (entries : List Entry) (steps : List Step)
    (commands : List IgnoreCommand) (events : List IgnoreEvent)
    → chosen a (record p {
      entry_handlers = entries;
      steps = steps;
      ignore_commands = commands;
      ignore_events = events;
    })
      ≡ chosen a p
lists-chosen state_type p entries steps commands events = refl
lists-chosen command_type p entries steps commands events = refl
lists-chosen event_type p entries steps commands events = refl
lists-chosen effect_type p entries steps commands events = refl

module _ {ℓ} {Stream : Type ℓ} (syn : Syn Stream) where
  -- The tokens of a macro are what it wants.
  abbrev pub Reads : MacroName → Stream → Type 0
  Reads state tokens = Succeeds (parse2 syn (parse_entry syn) tokens)
  Reads command tokens = Succeeds (parse2 syn (parse_command_step syn) tokens)
  Reads event tokens = Succeeds (parse2 syn (parse_event_step syn) tokens)
  Reads ignore_command tokens = Succeeds (parse2 syn (parse_ignore_command syn) tokens)
  Reads ignore_event tokens = Succeeds (parse2 syn (parse_ignore_event syn) tokens)

  abbrev pub IsKnown : String → Stream → Type 0
  IsKnown n tokens = (k : MacroName) × (n ≡ macro_name k) × Reads k tokens

  known-Reads :
      (k : MacroName) (tokens : Stream) (p : Parsed)
      → Succeeds (parse_macro_item syn (macro_name k) tokens p) ↔ Reads k tokens
  unfolding parse_macro_item
  known-Reads state tokens p = chain_ok (parse2 syn (parse_entry syn) tokens) _ (λ h. h, λ h. h)
  known-Reads command tokens p =
      chain_ok (parse2 syn (parse_command_step syn) tokens) _ (λ h. h, λ h. h)
  known-Reads event tokens p =
      chain_ok (parse2 syn (parse_event_step syn) tokens) _ (λ h. h, λ h. h)
  known-Reads ignore_command tokens p =
      chain_ok (parse2 syn (parse_ignore_command syn) tokens) _ (λ h. h, λ h. h)
  known-Reads ignore_event tokens p =
      chain_ok (parse2 syn (parse_ignore_event syn) tokens) _ (λ h. h, λ h. h)

  known-chosen :
      (k : MacroName) (a : Assoc) (tokens : Stream) (p q : Parsed)
      → parse_macro_item syn (macro_name k) tokens p ≡ ok q
      → chosen a q ≡ chosen a p
  unfolding parse_macro_item
  known-chosen state a tokens p q h =
      let (_, _, k) = >>=-eq-ok (parse2 syn (parse_entry syn) tokens) _ h in
      ap (chosen a) (sym (ok-injective k))
      ∙ lists-chosen a p _ p.steps p.ignore_commands p.ignore_events
  known-chosen command a tokens p q h =
      let (_, _, k) = >>=-eq-ok (parse2 syn (parse_command_step syn) tokens) _ h in
      ap (chosen a) (sym (ok-injective k))
      ∙ lists-chosen a p p.entry_handlers _ p.ignore_commands p.ignore_events
  known-chosen event a tokens p q h =
      let (_, _, k) = >>=-eq-ok (parse2 syn (parse_event_step syn) tokens) _ h in
      ap (chosen a) (sym (ok-injective k))
      ∙ lists-chosen a p p.entry_handlers _ p.ignore_commands p.ignore_events
  known-chosen ignore_command a tokens p q h =
      let (_, _, k) = >>=-eq-ok (parse2 syn (parse_ignore_command syn) tokens) _ h in
      ap (chosen a) (sym (ok-injective k))
      ∙ lists-chosen a p p.entry_handlers p.steps _ p.ignore_events
  known-chosen ignore_event a tokens p q h =
      let (_, _, k) = >>=-eq-ok (parse2 syn (parse_ignore_event syn) tokens) _ h in
      ap (chosen a) (sym (ok-injective k))
      ∙ lists-chosen a p p.entry_handlers p.steps p.ignore_commands _

  parse_macro_item-err :
      (n : String) (tokens : Stream) (p q : Parsed)
      → IsOtherMacro n
      → parse_macro_item syn n tokens p ≡ ok q
      → ⊥
  unfolding parse_macro_item
  parse_macro_item-err n tokens p q (a, b, c, d, f) h = cc (rw (a, b, c, d, f) at h)

  pub parse_macro_item-Reads :
      (n : String) (tokens : Stream) (p : Parsed)
      → Succeeds (parse_macro_item syn n tokens p) ↔ IsKnown n tokens
  parse_macro_item-Reads n tokens p = (
    λ (q, h). elim (known_macro_or_other n) [
      | inl (k, e) ↦ (k, e, (known-Reads k tokens p).0 (q, rw (← e) h))
      | inr unknown ↦ absurd (parse_macro_item-err n tokens p q unknown h)
    ],
    λ (k, e, r). rw e ((known-Reads k tokens p).1 r),
  )

  pub parse_macro_item-chosen :
      (n : String) (a : Assoc) (tokens : Stream) (p q : Parsed)
      → parse_macro_item syn n tokens p ≡ ok q
      → chosen a q ≡ chosen a p
  parse_macro_item-chosen n a tokens p q h =
      let (k, e, _) = (parse_macro_item-Reads n tokens p).0 (q, h) in
      known-chosen k a tokens p q (rw e at h)
