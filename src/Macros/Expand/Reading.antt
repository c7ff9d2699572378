-- ===== src/Macros/Expand/Reading.antt =====
-- The end of `expand` in edfsm-macros/src/expand.rs: the quoted items are read by the library `syn`.
use Prim.Native.String.{String}
use edfsm.Prelude.{◌≡◌, refl, ◌↔◌, ◌⊎◌, Bool, true, false, Bool-cases, inl, inr, List, [], ◌∷◌, All}
use edfsm.Macros.Syntax.{Segment, Ty, path, Failure, ok, err, FsmItem}
use edfsm.Macros.Expand.{
  EntryArm, CommandArm, EventArm, ChangeArm, Expansion, ImplItem, expand_arms, quoted, unwrapped,
  expand,
}
use edfsm.Macros.Expand.Inversion.{expand_arms-eq-ok}
use edfsm.Macros.Expand.WellFormed.{Succeeds, IsActing, WellFormed, chain, chain_ok, iff_trans}
use edfsm.Macros.Expand.Landing.{IsStated, steps_arms-IsActing}
use edfsm.Macros.Expand.Accepted.{expand_arms-IsShaped}

-- A path without arguments, to which a variant can be appended in a pattern.
abbrev pub IsEnum : Ty → Type 0
IsEnum (path (s ∷ l)) = All (λ (t : Segment). t.has_arguments ≡ false) (s ∷ l)
IsEnum _ = ⊥

pub record HasEnums (fsm : FsmItem) : Type 0 where
  pub state : IsEnum fsm.state_enum
  pub command : IsEnum fsm.command_enum
  pub event : IsEnum fsm.event_enum

-- What `syn` reads: each type, and functions over enums, if each pattern in them is one.
pub record Reads (reads : ImplItem → Bool) : Type 0 where
  pub types : (name : String) (t : Ty) → reads (ImplItem.associated_type name t) ≡ true
  pub commands :
      (s c h e : Ty) (arms : List CommandArm)
      → IsEnum s
      → IsEnum c
      → IsEnum e
      → reads (ImplItem.for_command_fn s c h e arms) ≡ true
  pub events :
      (s e : Ty) (arms : List EventArm)
      → IsEnum s
      → IsEnum e
      → reads (ImplItem.on_event_fn s e arms) ≡ true
  pub changes :
      (s e h : Ty) (entries : List EntryArm) (arms : List ChangeArm)
      → IsEnum s
      → IsEnum e
      → (reads (ImplItem.on_change_fn s e h entries arms) ≡ true) ↔ IsStated arms

-- Reading ends well exactly where the arms of `on_change` have their states.
module _ (reads : ImplItem → Bool) where
  read_first :
      (i : ImplItem) (items : List ImplItem)
      → reads i ≡ true
      → unwrapped reads (i ∷ items) ≡ unwrapped reads items
  unfolding unwrapped
  read_first i items h = rw h refl

  read_last : (i : ImplItem) → Succeeds (unwrapped reads (i ∷ [])) ↔ (reads i ≡ true)
  unfolding unwrapped
  read_last i = elim (Bool-cases (reads i)) [
    | inl e ↦ rw e (λ h. refl, λ h. (tt, refl))
    | inr e ↦ rw e (λ h. cc, λ h. cc)
  ]

  pub unwrapped-panics :
      (items : List ImplItem)
      → (unwrapped reads items ≡ ok tt) ⊎ (unwrapped reads items ≡ err Failure.panic)
  unfolding unwrapped
  unwrapped-panics [] = inl refl
  unwrapped-panics (i ∷ items) = elim (Bool-cases (reads i)) [
    | inl e ↦ rw e (unwrapped-panics items)
    | inr e ↦ rw e (inr refl)
  ]

  quoted-IsStated :
      (fsm : FsmItem) (x : Expansion)
      → Reads reads
      → HasEnums fsm
      → Succeeds (unwrapped reads (quoted fsm x)) ↔ IsStated x.arms.changes
  quoted-IsStated fsm x r enums =
      let last : ImplItem =
        ImplItem.on_change_fn fsm.state_enum fsm.event_enum fsm.effect_handlers x.entry_matches
          x.arms.changes in
      rw
        (
          read_first _ _ (r.types "S" fsm.state_enum),
          read_first _ _ (r.types "C" fsm.command_enum),
          read_first _ _ (r.types "E" fsm.event_enum),
          read_first _ _ (r.types "SE" fsm.effect_handlers),
          read_first _ _ (
              r.commands fsm.state_enum fsm.command_enum fsm.effect_handlers fsm.event_enum
                x.arms.commands enums.state enums.command enums.event),
          read_first _ _
              (r.events fsm.state_enum fsm.event_enum x.arms.events enums.state enums.event),
        )
        (iff_trans (read_last last) (
          r.changes fsm.state_enum fsm.event_enum fsm.effect_handlers x.entry_matches x.arms.changes
            enums.state enums.event))

module _ (lower : String → String) where
  -- The quoted items are read exactly where each action has a state that it is for.
  pub quoted-IsActing :
      (reads : ImplItem → Bool) (fsm : FsmItem) (x : Expansion)
      → Reads reads
      → HasEnums fsm
      → expand_arms lower fsm ≡ ok x
      → Succeeds (unwrapped reads (quoted fsm x)) ↔ All IsActing fsm.steps
  quoted-IsActing reads fsm x r enums h =
      let p = expand_arms-eq-ok lower fsm x h in
      iff_trans (quoted-IsStated reads fsm x r enums)
        (rw (← p.result) (steps_arms-IsActing lower fsm.steps p.arms p.arms_ok))

  -- Where the types of the state, the command and the event are paths without arguments, the
  -- expansion succeeds exactly where the description is well formed: the block implements a trait
  -- `Fsm`; each state, command and event is a plain name, a state that is left may also be `_`; each
  -- step that has target states has a first one, a plain name; none goes from `_` to a state without
  -- an event; and no event from `_` to no state has an action. Asked is that the library reads each
  -- type, and functions over such types if each pattern in them is one.
  pub expand-WellFormed :
      (reads : ImplItem → Bool) (fsm : FsmItem)
      → Reads reads
      → HasEnums fsm
      → Succeeds (expand reads lower fsm) ↔ WellFormed fsm
  unfolding expand
  expand-WellFormed reads fsm r enums =
      iff_trans
        (chain (expand_arms lower fsm) _ (expand_arms-IsShaped lower fsm) (λ x h.
          chain_ok (unwrapped reads (quoted fsm x)) _ (quoted-IsActing reads fsm x r enums h)))
        (λ (a, b). record { shaped = a; acting = b }, λ w. (w.shaped, w.acting))
