-- ===== src/Macros/Expand/WellFormed.antt =====
-- Which descriptions edfsm-macros/src/expand.rs accepts.
use Prim.Native.String.{String}
use edfsm.Prelude.{
  ℕ, ◌≡◌, refl, ◌↔◌, Bool, true, false, Option, none, some, List, [], ◌∷◌, All, arith,
}
use edfsm.Macros.Syntax.{
  Segment, Ty, infer, path, other, Outcome, ok, err, ◌>>=◌, >>=-eq-ok, Entry, TargetStates, Step,
  IgnoreCommand, IgnoreEvent, FsmItem,
}
use edfsm.Macros.Expand.{
  ident_from_type, state_or_any, optional_ident, first_target, target, event_arms, last_segment,
}

-- There is a result.
abbrev pub Succeeds {ℓ} : {A : Type ℓ} → Outcome A → Type ℓ
Succeeds {A} r = (a : A) × (r ≡ ok a)

-- The plain name of a variant: a path of one segment without arguments.
abbrev pub IsPlain : Ty → Type 0
IsPlain (path (segment ∷ [])) = segment.has_arguments ≡ false
IsPlain _ = ⊥

-- A plain name, or `_`.
abbrev pub IsState : Ty → Type 0
IsState infer = Unit
IsState (path l) = IsPlain (path l)
IsState other = ⊥

abbrev pub IsOptional : Option Ty → Type 0
IsOptional none = Unit
IsOptional (some t) = IsPlain t

-- There is a first target state, and it is a plain name.
abbrev pub IsFirst : List Ty → Type 0
IsFirst [] = ⊥
IsFirst (t ∷ rest) = IsPlain t

abbrev pub IsTarget : Option TargetStates → Type 0
IsTarget none = Unit
IsTarget (some ts) = IsFirst ts.states

-- Not a step from `_` to a state without an event.
abbrev pub IsAnchored : Ty → Option Ty → Option TargetStates → Type 0
IsAnchored infer none (some ts) = ⊥
IsAnchored _ _ _ = Unit

pub record IsStep (s : Step) : Type 0 where
  pub from : IsState s.from_state
  pub command : IsOptional s.command
  pub event : IsOptional s.event
  pub to : IsTarget s.to_state
  pub anchored : IsAnchored s.from_state s.event s.to_state

abbrev pub IsEntry : Entry → Type 0
IsEntry e = IsPlain e.state

abbrev pub IsIgnoredCommand : IgnoreCommand → Type 0
IsIgnoredCommand i = IsState i.from_state × IsPlain i.command

abbrev pub IsIgnoredEvent : IgnoreEvent → Type 0
IsIgnoredEvent i = IsState i.from_state × IsPlain i.event

-- The block implements a trait whose path ends in `Fsm`.
abbrev pub IsFsmTrait : Option (List String) → Type 0
IsFsmTrait none = ⊥
IsFsmTrait (some segments) = last_segment segments ≡ some "Fsm"

pub record IsShaped (fsm : FsmItem) : Type 0 where
  pub trait_path : IsFsmTrait fsm.trait_path
  pub entries : All IsEntry fsm.entry_handlers
  pub steps : All IsStep fsm.steps
  pub ignore_commands : All IsIgnoredCommand fsm.ignore_commands
  pub ignore_events : All IsIgnoredEvent fsm.ignore_events

-- Not an event from `_`, to no state, with an action: there is no state that the action is for.
abbrev pub IsLanding : Bool → Ty → Option Ty → Option TargetStates → Type 0
IsLanding true infer (some e) none = ⊥
IsLanding _ _ _ _ = Unit

abbrev pub IsActing : Step → Type 0
IsActing s = IsLanding s.on_change s.from_state s.event s.to_state

pub record WellFormed (fsm : FsmItem) : Type 0 where
  pub shaped : IsShaped fsm
  pub acting : All IsActing fsm.steps

pub iff_trans {ℓ κ μ} : {A : Type ℓ} {B : Type κ} {C : Type μ} → A ↔ B → B ↔ C → A ↔ C
iff_trans f g = (λ a. g.0 (f.0 a), λ c. f.1 (g.1 c))

-- A chain succeeds where its first part does, and the rest behind it.
module _ {ℓ κ μ ν} {A : Type ℓ} {B : Type κ} {P : Type μ} {Q : Type ν} where
  pub chain :
      (m : Outcome A) (f : A → Outcome B)
      → Succeeds m ↔ P
      → ((a : A) → m ≡ ok a → Succeeds (f a) ↔ Q)
      → Succeeds (m >>= f) ↔ (P × Q)
  chain (ok a) f first rest =
      (λ h. (first.0 (a, refl), (rest a refl).0 h), λ h. (rest a refl).1 h.1)
  chain (err x) f first rest = (λ h. cc, λ h. let (_, e) = first.1 h.0 in cc e)

module _ {ℓ κ μ} {A : Type ℓ} {B : Type κ} {P : Type μ} where
  pub chain_ok : (m : Outcome A) (f : A → B) → Succeeds m ↔ P → Succeeds (m >>= λ a. ok (f a)) ↔ P
  chain_ok (ok a) f first = (λ h. first.0 (a, refl), λ h. (f a, refl))
  chain_ok (err x) f first = (λ h. cc, λ h. let (_, e) = first.1 h in cc e)

-- Each part of the expansion succeeds exactly on the types that it asks for.
pub ident_from_type-IsPlain : (t : Ty) → Succeeds (ident_from_type t) ↔ IsPlain t
unfolding ident_from_type
ident_from_type-IsPlain (path (segment ∷ [])) =
    (λ h. ground arith, λ h. (segment.ident, ground arith))
ident_from_type-IsPlain (path []) = (λ h. cc, λ h. absurd h)
ident_from_type-IsPlain (path (a ∷ b ∷ l)) = (λ h. cc, λ h. absurd h)
ident_from_type-IsPlain infer = (λ h. cc, λ h. absurd h)
ident_from_type-IsPlain other = (λ h. cc, λ h. absurd h)

pub state_or_any-IsState : (t : Ty) → Succeeds (state_or_any t) ↔ IsState t
unfolding state_or_any
state_or_any-IsState infer = (λ h. tt, λ h. (none, refl))
state_or_any-IsState (path l) =
    chain_ok (ident_from_type (path l)) some (ident_from_type-IsPlain (path l))
state_or_any-IsState other = (λ h. cc, λ h. absurd h)

pub optional_ident-IsOptional : (t : Option Ty) → Succeeds (optional_ident t) ↔ IsOptional t
unfolding optional_ident
optional_ident-IsOptional none = (λ h. tt, λ h. (none, refl))
optional_ident-IsOptional (some t) = chain_ok (ident_from_type t) some (ident_from_type-IsPlain t)

first_target-IsFirst : (l : List Ty) → Succeeds (first_target l) ↔ IsFirst l
unfolding first_target
first_target-IsFirst [] = (λ h. cc, λ h. absurd h)
first_target-IsFirst (t ∷ rest) = chain_ok (ident_from_type t) _ (ident_from_type-IsPlain t)

pub target-IsTarget : (t : Option TargetStates) → Succeeds (target t) ↔ IsTarget t
unfolding target
target-IsTarget none = (λ h. tt, λ h. ((none, 0), refl))
target-IsTarget (some ts) = first_target-IsFirst ts.states

-- What the results of the parts say of the types.
pub state_or_any-none : (l : List Segment) → state_or_any (path l) ≡ ok none → ⊥
unfolding state_or_any
state_or_any-none l h = let (i, _, k) = >>=-eq-ok (ident_from_type (path l)) _ h in cc k

pub optional_ident-some : (t : Ty) → optional_ident (some t) ≡ ok none → ⊥
unfolding optional_ident
optional_ident-some t h = let (i, _, k) = >>=-eq-ok (ident_from_type t) _ h in cc k

pub first_target-some : (l : List Ty) (n : ℕ) → first_target l ≡ ok (none, n) → ⊥
unfolding first_target
first_target-some [] n h = cc
first_target-some (t ∷ rest) n h = let (i, _, k) = >>=-eq-ok (ident_from_type t) _ h in cc k

always {ℓ} : {A : Type ℓ} {r : Outcome A} → Succeeds r → Succeeds r ↔ Unit {0}
always s = (λ h. tt, λ h. s)

module _ (lower : String → String) where
  arms_from :
      (from : String) (event to : Option String) (n : ℕ) (action : Bool)
      → Succeeds (event_arms lower (some from) event to n action)
  unfolding event_arms
  arms_from from (some event) (some to) n action = (_, refl)
  arms_from from none (some to) n action = (_, refl)
  arms_from from (some event) none n action = (_, refl)
  arms_from from none none n action = (_, refl)

  arms_event :
      (from : Option String) (event : String) (to : Option String) (n : ℕ) (action : Bool)
      → Succeeds (event_arms lower from (some event) to n action)
  unfolding event_arms
  arms_event (some from) event (some to) n action = (_, refl)
  arms_event none event (some to) n action = (_, refl)
  arms_event (some from) event none n action = (_, refl)
  arms_event none event none n action = (_, refl)

  arms_still :
      (from event : Option String) (n : ℕ) (action : Bool)
      → Succeeds (event_arms lower from event none n action)
  unfolding event_arms
  arms_still (some from) (some event) n action = (_, refl)
  arms_still none (some event) n action = (_, refl)
  arms_still from none n action = (_, refl)

  pub event_arms-IsAnchored :
      (t : Ty) (e : Option Ty) (ts : Option TargetStates) (from event to : Option String) (n : ℕ)
      (action : Bool)
      → state_or_any t ≡ ok from
      → optional_ident e ≡ ok event
      → target ts ≡ ok (to, n)
      → Succeeds (event_arms lower from event to n action) ↔ IsAnchored t e ts
  unfolding event_arms target state_or_any optional_ident
  event_arms-IsAnchored infer none none from event none n action f g h =
      always (arms_still from event n action)
  event_arms-IsAnchored infer none none from event (some to) n action f g h = cc
  event_arms-IsAnchored infer none (some ts) from event none n action f g h =
      absurd (first_target-some ts.states n h)
  event_arms-IsAnchored infer none (some ts) none none (some to) n action f g h =
      (λ h. cc, λ h. absurd h)
  event_arms-IsAnchored infer none (some ts) none (some event) (some to) n action f g h = cc
  event_arms-IsAnchored infer none (some ts) (some from) event (some to) n action f g h = cc
  event_arms-IsAnchored infer (some e) ts from none to n action f g h =
      absurd (optional_ident-some e g)
  event_arms-IsAnchored infer (some e) ts from (some event) to n action f g h =
      always (arms_event from event to n action)
  event_arms-IsAnchored (path l) e ts none event to n action f g h = absurd (state_or_any-none l f)
  event_arms-IsAnchored (path l) e ts (some from) event to n action f g h =
      always (arms_from from event to n action)
  event_arms-IsAnchored other e ts from event to n action f g h = cc
