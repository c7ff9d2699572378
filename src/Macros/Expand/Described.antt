-- ===== src/Macros/Expand/Described.antt =====
-- The machine that a description stands for, and the one that edfsm-macros/src/expand.rs generates.
use Prim.Native.String.{String}
use edfsm.Prelude.{Bool, ◌≡◌, none, List}
use edfsm.Fsm.{Fsm}
use edfsm.Macros.Syntax.{ok, Entry, Step, FsmItem}
use edfsm.Macros.Expand.{Expansion, ImplItem, expand}
use edfsm.Macros.Expand.Inversion.{expand-expand_arms}
use edfsm.Macros.Expand.Run.{Code, generated, or_none, settle}
use edfsm.Macros.Expand.Table.{first_reaction, generated-for_command}
use edfsm.Macros.Expand.EventTable.{first_response, generated-on_event}
use edfsm.Macros.Expand.ChangeTable.{first_change, generated-on_change}
use edfsm.Macros.Expand.EntryTable.{on_entry}

module _ {ℓ} {S C E SE : Type ℓ} (code : Code S C E SE) (lower : String → String) where
  -- The tables of the entries and the steps: the first that fits is taken, and where none fits
  -- nothing happens.
  abbrev pub described : List Entry → List Step → Fsm S C E SE
  described entries steps = record {
    for_command = λ s c se. or_none (none, se) (first_reaction code lower steps s c se);
    on_event = λ s e. settle (or_none (s, none) (first_response code lower steps s e));
    on_change = λ s e se c.
        let se' = on_entry code lower entries c s se in
        or_none se' (first_change code lower steps s e se');
  }

  -- Where the expansion succeeds, the machine that it generates is the one that the description
  -- stands for. A command is taken by the first declared step whose state, or `_`, and whose
  -- command fit; where none fits no event is emitted and the effector is as before. An event is
  -- taken by the first step whose state, or `_`, and whose event fit, by the number of its target
  -- states; where none fits nothing changes. At a transition the first entry handler for the new
  -- state runs, and at any change then the first step with an action whose event fits and whose
  -- first target state, or, without one, starting state, is the new state.
  pub generated-described :
      (reads : ImplItem → Bool) (fsm : FsmItem) (x : Expansion)
      → expand reads lower fsm ≡ ok x
      → generated code x ≡ described fsm.entry_handlers fsm.steps
  unfolding generated
  generated-described reads fsm x expanded =
      let h = expand-expand_arms reads lower fsm x expanded in
      λ i. record {
        for_command = λ s c se. generated-for_command code lower fsm x s c se h i;
        on_event = λ s e. generated-on_event code lower fsm x s e h i;
        on_change = λ s e se c. generated-on_change code lower fsm x s e se c h i;
      }
