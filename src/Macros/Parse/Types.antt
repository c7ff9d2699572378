-- ===== src/Macros/Parse/Types.antt =====
-- The associated types that edfsm-macros/src/parse.rs knows, and what their declarations leave.
use Prim.Native.String.{String}
use text.Mathlib.Text.{◌==◌ as text_eq}
use text.Mathlib.TextEquality.{eq_iff}
use edfsm.Prelude.{
  ◌≡◌, refl, sym, ap, subst, ◌∙◌, ◌↔◌, ◌⊎◌, inl, inr, true, false, Bool-cases, Option, none, some,
  List, arith,
}
use edfsm.Macros.Syntax.{Ty, FsmItem, ok, ok-injective}
use edfsm.Macros.Parse.Item.{Parsed, parse_type_item, finish}
use edfsm.Macros.Expand.WellFormed.{Succeeds}

-- The associated types.
pub data Assoc : Type 0 where
  state_type command_type event_type effect_type : Assoc

abbrev pub assoc_name : Assoc → String
assoc_name state_type = "S"
assoc_name command_type = "C"
assoc_name event_type = "E"
assoc_name effect_type = "SE"

abbrev pub chosen : Assoc → Parsed → Option Ty
chosen state_type p = p.state_enum
chosen command_type p = p.command_enum
chosen event_type p = p.event_enum
chosen effect_type p = p.effect_handlers

abbrev pub IsSome {ℓ} : {A : Type ℓ} → Option A → Type 0
IsSome none = ⊥
IsSome (some a) = Unit

abbrev pub IsAssoc : String → Type 0
IsAssoc n = (k : Assoc) × (n ≡ assoc_name k)

-- What a declaration of a type does.
abbrev set_type : Assoc → Ty → Parsed → Parsed
set_type state_type t p = record p { state_enum = some t }
set_type command_type t p = record p { command_enum = some t }
set_type event_type t p = record p { event_enum = some t }
set_type effect_type t p = record p { effect_handlers = some t }

abbrev IsOtherType : String → Type 0
IsOtherType n =
    (text_eq n "S" ≡ false)
    × (text_eq n "C" ≡ false)
    × (text_eq n "E" ≡ false)
    × (text_eq n "SE" ≡ false)

known_type_or_other : (n : String) → IsAssoc n ⊎ IsOtherType n
known_type_or_other n = elim (Bool-cases (text_eq n "S")) [
  | inl e ↦ inl (state_type, (eq_iff n "S").0 e)
  | inr a ↦ elim (Bool-cases (text_eq n "C")) [
    | inl e ↦ inl (command_type, (eq_iff n "C").0 e)
    | inr b ↦ elim (Bool-cases (text_eq n "E")) [
      | inl e ↦ inl (event_type, (eq_iff n "E").0 e)
      | inr c ↦ elim (Bool-cases (text_eq n "SE")) [
        | inl e ↦ inl (effect_type, (eq_iff n "SE").0 e)
        | inr d ↦ inr (a, b, c, d)
      ]
    ]
  ]
]

parse_type_item-set :
    (k : Assoc) (t : Ty) (p : Parsed) → parse_type_item (assoc_name k) t p ≡ ok (set_type k t p)
unfolding parse_type_item
parse_type_item-set state_type t p = refl
parse_type_item-set command_type t p = refl
parse_type_item-set event_type t p = refl
parse_type_item-set effect_type t p = refl

parse_type_item-err :
    (n : String) (t : Ty) (p q : Parsed) → IsOtherType n → parse_type_item n t p ≡ ok q → ⊥
unfolding parse_type_item
parse_type_item-err n t p q (a, b, c, d) h = cc (rw (a, b, c, d) at h)

pub parse_type_item-IsAssoc :
    (n : String) (t : Ty) (p : Parsed) → Succeeds (parse_type_item n t p) ↔ IsAssoc n
parse_type_item-IsAssoc n t p = (
  λ (q, h). elim (known_type_or_other n) [
    | inl a ↦ a
    | inr unknown ↦ absurd (parse_type_item-err n t p q unknown h)
  ],
  λ (k, e). (set_type k t p, rw e (parse_type_item-set k t p)),
)

same_assoc : (j k : Assoc) → text_eq (assoc_name j) (assoc_name k) ≡ true → j ≡ k
same_assoc state_type state_type h = refl
same_assoc command_type command_type h = refl
same_assoc event_type event_type h = refl
same_assoc effect_type effect_type h = refl
same_assoc _ _ h = cc

chosen-set :
    (j k : Assoc) (t : Ty) (p : Parsed) → (j ≡ k) ⊎ (chosen k (set_type j t p) ≡ chosen k p)
chosen-set state_type state_type t p = inl refl
chosen-set command_type command_type t p = inl refl
chosen-set event_type event_type t p = inl refl
chosen-set effect_type effect_type t p = inl refl
chosen-set _ _ t p = inr refl

set-chosen : (k : Assoc) (t : Ty) (p : Parsed) → chosen k (set_type k t p) ≡ some t
set-chosen state_type t p = refl
set-chosen command_type t p = refl
set-chosen event_type t p = refl
set-chosen effect_type t p = refl

is_set : (j k : Assoc) (t : Ty) (p : Parsed) → j ≡ k → IsSome (chosen k (set_type j t p))
is_set j k t p e =
    subst (λ i. IsSome (chosen k (set_type i t p))) (sym e)
      (subst IsSome (sym (set-chosen k t p)) tt)

set_type-chosen :
    (j k : Assoc) (t : Ty) (p : Parsed)
    → IsSome (chosen k (set_type j t p)) ↔ ((assoc_name j ≡ assoc_name k) ⊎ IsSome (chosen k p))
set_type-chosen j k t p = elim (chosen-set j k t p) [
  | inl e ↦ (λ h. inl (ap assoc_name e), λ h. is_set j k t p e)
  | inr e ↦ (
    λ h. inr (subst IsSome e h),
    λ h. elim h [
      | inl same ↦ is_set j k t p (same_assoc j k ((eq_iff (assoc_name j) (assoc_name k)).1 same))
      | inr there ↦ subst IsSome (sym e) there
    ],
  )
]

pub parse_type_item-chosen :
    (k : Assoc) (n : String) (t : Ty) (p q : Parsed)
    → parse_type_item n t p ≡ ok q
    → IsSome (chosen k q) ↔ ((n ≡ assoc_name k) ⊎ IsSome (chosen k p))
parse_type_item-chosen k n t p q h =
    let (j, e) = (parse_type_item-IsAssoc n t p).0 (q, h) in
    let same = ok-injective (sym (parse_type_item-set j t p) ∙ rw e at h) in
    rw (← same, e) (set_type-chosen j k t p)

is_some : (o : Option Ty) → IsSome o → (t : Ty) × (o ≡ some t)
is_some none h = absurd h
is_some (some t) h = (t, refl)

pub finish-chosen :
    (t : Option (List String)) (p : Parsed)
    → Succeeds (finish t p) ↔ ((k : Assoc) → IsSome (chosen k p))
unfolding finish
finish-chosen t p = (
  λ (x, h) k. elim k [
    | state_type ↦ ground (arith, h)
    | command_type ↦ ground (arith, h)
    | event_type ↦ ground (arith, h)
    | effect_type ↦ ground (arith, h)
  ],
  λ h.
      let (a, s) = is_some p.state_enum (h state_type) in
      let (b, c) = is_some p.command_enum (h command_type) in
      let (x, e) = is_some p.event_enum (h event_type) in
      let (y, se) = is_some p.effect_handlers (h effect_type) in
      let fsm : FsmItem = record {
        state_enum = a;
        command_enum = b;
        event_enum = x;
        effect_handlers = y;
        entry_handlers = p.entry_handlers;
        steps = p.steps;
        ignore_commands = p.ignore_commands;
        ignore_events = p.ignore_events;
        trait_path = t;
      } in
      (fsm, rw (s, c, e, se) refl),
)
