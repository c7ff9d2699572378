-- ===== src/Macros/Syntax.antt =====
-- The data of edfsm-macros/src/parse.rs. Of the library `syn` a type is taken as far as the code
-- looks into it; what stands at `Type::Path` is the list of its segments.
use Prim.Native.String.{String}
use edfsm.Prelude.{◌≡◌, ◌≢◌, refl, Bool, false, Option, List}

-- one segment of a path, and whether it has arguments
pub record Segment : Type 0 where
  pub ident : String
  pub has_arguments : Bool

-- syn::Type, as `Type::Infer`, `Type::Path` and all others
pub data Ty : Type 0 where
  infer : Ty
  path : List Segment → Ty
  other : Ty

-- Where an error, or a panic, stops the expansion.
pub data Failure : Type 0 where
  syntax expected_fsm_trait generic_required no_arguments_expected no_segments_expected : Failure
  variant_expected unexpected_item missing_types panic out_of_fuel : Failure
  unknown_qualifier unknown_type unknown_macro : String → Failure

pub data Outcome {ℓ} (A : Type ℓ) : Type ℓ where
  ok : A → Outcome A
  err : Failure → Outcome A

-- `?`: the first failure ends the chain.
infixl 10 ◌>>=◌
abbrev pub ◌>>=◌ {κ μ} : {X : Type κ} {Y : Type μ} → Outcome X → (X → Outcome Y) → Outcome Y
err failure >>= next = err failure
ok value >>= next = next value

-- A chain that succeeds has succeeded in its first part.
pub >>=-eq-ok {κ μ} :
    {X : Type κ} {Y : Type μ} {y : Y} (first : Outcome X) (next : X → Outcome Y)
    → (first >>= next) ≡ ok y
    → (x : X) × (first ≡ ok x) × (next x ≡ ok y)
>>=-eq-ok (err failure) next done = cc
>>=-eq-ok (ok x) next done = (x, refl, done)

-- No panic: a chain does not panic where its parts do not.
abbrev pub Calm {ℓ} : {A : Type ℓ} → Outcome A → Type ℓ
Calm r = r ≢ err Failure.panic

pub >>=-Calm {κ μ} :
    {X : Type κ} {Y : Type μ} (first : Outcome X) (next : X → Outcome Y)
    → Calm first
    → ((x : X) → first ≡ ok x → Calm (next x))
    → Calm (first >>= next)
>>=-Calm (err failure) next calm rest = λ h. calm (cc h)
>>=-Calm (ok x) next calm rest = rest x refl

pub ok-Calm {ℓ} : {A : Type ℓ} (a : A) → Calm (ok a)
ok-Calm a = λ h. cc

pub err-injective {ℓ} : {A : Type ℓ} {r : Outcome A} {x y : Failure} → r ≡ err x → r ≡ err y → x ≡ y
err-injective h k = cc

pub ok-injective {ℓ} : {A : Type ℓ} {a b : A} → ok a ≡ ok b → a ≡ b
ok-injective h = cc

-- struct Entry
pub record Entry : Type 0 where
  pub state : Ty

-- struct TargetStates
pub record TargetStates : Type 0 where
  pub states : List Ty

-- trait Step, by the values of its methods
pub record Step : Type 0 where
  pub from_state : Ty
  pub command : Option Ty
  pub event : Option Ty
  pub to_state : Option TargetStates
  pub on_change : Bool

-- struct CommandStep
pub record CommandStep : Type 0 where
  pub from_state : Ty
  pub command : Option Ty
  pub event : Option Ty
  pub to_state : Option TargetStates

-- struct EventStep
pub record EventStep : Type 0 where
  pub from_state : Ty
  pub command : Option Ty
  pub event : Option Ty
  pub to_state : Option TargetStates
  pub on_change : Bool

-- impl Step for CommandStep, impl Step for EventStep
unfoldable pub command_as_step : CommandStep → Step
command_as_step s = record {
  from_state = s.from_state;
  command = s.command;
  event = s.event;
  to_state = s.to_state;
  on_change = false;
}

unfoldable pub event_as_step : EventStep → Step
event_as_step s = record {
  from_state = s.from_state;
  command = s.command;
  event = s.event;
  to_state = s.to_state;
  on_change = s.on_change;
}

-- struct IgnoreCommand
pub record IgnoreCommand : Type 0 where
  pub from_state : Ty
  pub command : Ty

-- struct IgnoreEvent
pub record IgnoreEvent : Type 0 where
  pub from_state : Ty
  pub event : Ty

-- struct Fsm; of the `impl` item, the path of the trait that it implements
pub record FsmItem : Type 0 where
  pub state_enum : Ty
  pub command_enum : Ty
  pub event_enum : Ty
  pub effect_handlers : Ty
  pub entry_handlers : List Entry
  pub steps : List Step
  pub ignore_commands : List IgnoreCommand
  pub ignore_events : List IgnoreEvent
  pub trait_path : Option (List String)
