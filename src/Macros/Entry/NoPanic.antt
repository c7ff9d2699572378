-- ===== src/Macros/Entry/NoPanic.antt =====
-- Panics of the attribute of edfsm-macros/src/lib.rs.
use Prim.Native.String.{String}
use edfsm.Prelude.{◌≡◌, ◌↔◌, refl, sym, subst, ap, ◌∙◌, Bool, true, inl, inr, Option, List, All}
use edfsm.Macros.Syntax.{Failure, panic, Outcome, ok, err, ok-injective, Calm, FsmItem}
use edfsm.Macros.Parse.{Syn}
use edfsm.Macros.Parse.Item.{Item, parse_fsm}
use edfsm.Macros.Parse.Fuel.{Outcome-cases}
use edfsm.Macros.Parse.Targeted.{parse_fsm-IsSafe}
use edfsm.Macros.Parse.NoPanic.{IsCalm, parse_fsm-Calm}
use edfsm.Macros.Expand.{Expansion, ImplItem, expand_arms, quoted, unwrapped, expand}
use edfsm.Macros.Expand.WellFormed.{IsShaped, IsActing}
use edfsm.Macros.Expand.Accepted.{expand_arms-IsShaped}
use edfsm.Macros.Expand.Reading.{Reads, HasEnums, quoted-IsActing, unwrapped-panics}
use edfsm.Macros.Expand.NoPanic.{IsSafe, expand_arms-Calm}
use edfsm.Macros.Entry.{panicked, emitted_error, emitted_expansion, emitted_fsm, impl_fsm}

emitted_error-panicked : (x : Failure) → emitted_error x ≡ panicked → x ≡ panic
emitted_error-panicked panic h = refl
emitted_error-panicked x h = cc

expand-ok :
    (reads : ImplItem → Bool) (lower : String → String) (fsm : FsmItem) (x : Expansion)
    → expand_arms lower fsm ≡ ok x
    → unwrapped reads (quoted fsm x) ≡ ok tt
    → expand reads lower fsm ≡ ok x
unfolding expand
expand-ok reads lower fsm x e u = rw (e, u) refl

expand-panic :
    (reads : ImplItem → Bool) (lower : String → String) (fsm : FsmItem) (x : Expansion)
    → expand_arms lower fsm ≡ ok x
    → unwrapped reads (quoted fsm x) ≡ err panic
    → expand reads lower fsm ≡ err panic
unfolding expand
expand-panic reads lower fsm x e u = rw (e, u) refl

expand-err :
    (reads : ImplItem → Bool) (lower : String → String) (fsm : FsmItem) (f : Failure)
    → expand_arms lower fsm ≡ err f
    → expand reads lower fsm ≡ err f
unfolding expand
expand-err reads lower fsm f e = rw e refl

-- A description that arms can be made of, in which an action has no state that it is for.
abbrev pub IsStray : FsmItem → Type 0
IsStray fsm = IsShaped fsm × (All IsActing fsm.steps → ⊥)

-- The items of a block are parsed to such a description.
abbrev pub HasStray : Outcome FsmItem → Type 0
HasStray r = (fsm : FsmItem) × (r ≡ ok fsm) × IsStray fsm

module _ (reads : ImplItem → Bool) (law : Reads reads) (lower : String → String) where
  expansion-IsStray :
      (fsm : FsmItem)
      → HasEnums fsm
      → All IsSafe fsm.steps
      → (emitted_expansion (expand reads lower fsm) ≡ panicked) ↔ IsStray fsm
  expansion-IsStray fsm enums safe = elim (Outcome-cases (expand_arms lower fsm)) [
    | inr (f, e) ↦ rw (expand-err reads lower fsm f e) (
      λ h. absurd (expand_arms-Calm lower fsm safe (e ∙ ap err (emitted_error-panicked f h))),
      λ (shaped, _). let (x, k) = (expand_arms-IsShaped lower fsm).1 shaped in cc,
    )
    | inl (x, e) ↦
        let acting = quoted-IsActing lower reads fsm x law enums e in
        elim (unwrapped-panics reads (quoted fsm x)) [
          | inl u ↦
              rw (expand-ok reads lower fsm x e u)
                (λ h. cc, λ (_, stray). absurd (stray (acting.0 (tt, u))))
          | inr u ↦ rw (expand-panic reads lower fsm x e u) (
            λ _. ((expand_arms-IsShaped lower fsm).0 (x, e), λ a. let (_, k) = acting.1 a in cc),
            λ _. refl,
          )
        ]
  ]

  emitted_fsm-HasStray :
      (r : Outcome FsmItem)
      → Calm r
      → ((fsm : FsmItem) → r ≡ ok fsm → HasEnums fsm)
      → ((fsm : FsmItem) → r ≡ ok fsm → All IsSafe fsm.steps)
      → (emitted_fsm reads lower r ≡ panicked) ↔ HasStray r
  unfolding emitted_fsm
  emitted_fsm-HasStray (ok fsm) calm enums safe =
      let stray = expansion-IsStray fsm (enums fsm refl) (safe fsm refl) in
      (
        λ h. (fsm, refl, stray.0 h),
        λ (fsm', same, s). stray.1 (subst IsStray (sym (ok-injective same)) s),
      )
  emitted_fsm-HasStray (err f) calm enums safe =
      (λ h. absurd (calm (ap err (emitted_error-panicked f h))), λ (_, same, _). cc)

-- When the macro panics. For parsers of the library that report errors without a panic, a block that
-- gives paths without arguments for the types of the state, the command and the event, and no tokens
-- for the attribute: the macro panics exactly where the items are parsed to a description that arms
-- can be made of, in which an event from `_` to no state has an action. The two other panics, at an
-- empty list of target states and at target states without an event, are never reached. Asked is that
-- the library reads as items each type, and functions over such types if each pattern in them is one.
pub impl_fsm_panics {ℓ} :
    {Stream : Type ℓ} (syn : Syn Stream)
    → IsCalm syn
    → (reads : ImplItem → Bool) → Reads reads
    → (lower : String → String) (input : Stream) (trait_path : Option (List String))
      (items : List (Item Stream))
    → syn.is_empty input ≡ true
    → ((fsm : FsmItem) → parse_fsm syn trait_path items ≡ ok fsm → HasEnums fsm)
    → (impl_fsm syn reads lower input trait_path items ≡ panicked)
      ↔ HasStray (parse_fsm syn trait_path items)
unfolding impl_fsm
impl_fsm_panics syn calm reads law lower input trait_path items empty enums = rw empty (
    emitted_fsm-HasStray reads law lower (parse_fsm syn trait_path items)
      (parse_fsm-Calm syn calm trait_path items) enums (parse_fsm-IsSafe syn trait_path items))
