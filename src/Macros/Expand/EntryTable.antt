-- ===== src/Macros/Expand/EntryTable.antt =====
-- The generated entry handlers of `on_change` against the description, for edfsm-macros/src/expand.rs.
use Prim.Native.String.{String, ◌++◌ as text_append}
use text.Mathlib.Text.{◌==◌ as text_eq}
use edfsm.Prelude.{◌≡◌, refl, sym, ap, ◌∙◌, Option, none, some, List, [], ◌∷◌, arith, if◌then◌else◌}
use edfsm.Fsm.{Change, transitioned, updated}
use edfsm.Macros.Syntax.{ok, Entry, >>=-eq-ok, ok-injective}
use edfsm.Macros.Expand.{EntryArm, ident_from_type, entry_arm, entry_arms}
use edfsm.Macros.Expand.Run.{Code, run_entries, entered, or_none}
use edfsm.Macros.Expand.Table.{name_of, or_else, ident_from_type-eq-ok}

module _ {ℓ} {S C E SE : Type ℓ} (code : Code S C E SE) (lower : String → String) where
  -- An entry handler, if it is one for the state.
  abbrev pub entry_reaction : Option String → S → SE → Option SE
  entry_reaction none s se = none
  entry_reaction (some state) s se =
      if text_eq state (code.state_name s)
      then some (code.on_entry (lower (text_append "on_entry_" state)) s se)
      else none

  abbrev pub first_entry : List Entry → S → SE → Option SE
  first_entry [] s se = none
  first_entry (entry ∷ entries) s se =
      or_else (entry_reaction (name_of entry.state) s se) (first_entry entries s se)

  -- Entry handlers run at a transition alone.
  abbrev pub on_entry : List Entry → Change → S → SE → SE
  on_entry entries transitioned s se = or_none se (first_entry entries s se)
  on_entry entries updated s se = se

  run_entries-cons :
      (entry : Entry) (arm : EntryArm) (arms : List EntryArm) (s : S) (se : SE)
      → entry_arm lower entry ≡ ok arm
      → run_entries code (arm ∷ arms) s se
        ≡ or_none (run_entries code arms s se) (entry_reaction (name_of entry.state) s se)
  unfolding run_entries entry_arm
  run_entries-cons entry arm arms s se h =
      let (state, named, h') = >>=-eq-ok (ident_from_type entry.state) _ h in
      rw (ident_from_type-eq-ok entry.state state named, ← ok-injective h') (ground arith)

  or_none-or_else_swap :
      (d : SE) (a b : Option SE) → or_none d (or_else a b) ≡ or_none (or_none d b) a
  or_none-or_else_swap d none b = refl
  or_none-or_else_swap d (some a) b = refl

  run_entries-entry_arms :
      (entries : List Entry) (arms : List EntryArm) (s : S) (se : SE)
      → entry_arms lower entries ≡ ok arms
      → run_entries code arms s se ≡ or_none se (first_entry entries s se)
  unfolding entry_arms
  run_entries-entry_arms [] arms s se h = rw (← ok-injective h) (unfold run_entries in refl)
  run_entries-entry_arms (entry ∷ entries) arms s se h =
      let (arm, arm_ok, h₁) = >>=-eq-ok (entry_arm lower entry) _ h in
      let (rest, rest_ok, h₂) = >>=-eq-ok (entry_arms lower entries) _ h₁ in
      rw (← ok-injective h₂) (
        run_entries-cons entry arm rest s se arm_ok
        ∙ ap (λ d. or_none d (entry_reaction (name_of entry.state) s se))
            (run_entries-entry_arms entries rest s se rest_ok)
        ∙ sym (
            or_none-or_else_swap se (entry_reaction (name_of entry.state) s se)
              (first_entry entries s se)))

  pub entered-on_entry :
      (entries : List Entry) (arms : List EntryArm) (s : S) (se : SE) (c : Change)
      → entry_arms lower entries ≡ ok arms
      → entered code arms s se c ≡ on_entry entries c s se
  entered-on_entry entries arms s se transitioned h = run_entries-entry_arms entries arms s se h
  entered-on_entry entries arms s se updated h = refl
