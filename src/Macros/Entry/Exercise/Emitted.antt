-- ===== src/Macros/Entry/Exercise/Emitted.antt =====
-- The macro at the `impl` block of edfsm/tests/exercise_fsm.rs, and the test.
use edfsm.Prelude.{◌≡◌, refl, ◌∙◌, none, some, [], ◌∷◌, map}
use edfsm.Fsm.{Change, transitioned, updated, Fsm}
use edfsm.Macros.Syntax.{ok, FsmItem}
use edfsm.Macros.Parse.Decl.{declared}
use edfsm.Macros.Parse.Block.{written}
use edfsm.Macros.Parse.Item.{finish}
use edfsm.Macros.Parse.Tokens.{named, tokens, printer}
use edfsm.Macros.Expand.{Expansion}
use edfsm.Macros.Expand.Run.{generated}
use edfsm.Macros.Expand.Described.{described}
use edfsm.Macros.Expand.Sample.{same}
use edfsm.Macros.Expand.WellFormed.{WellFormed}
use edfsm.Macros.Expand.Reading.{HasEnums}
use edfsm.Macros.Expand.Readable.{readable, readable-Reads}
use edfsm.Macros.Entry.Written.{impl_fsm-written}
use edfsm.Macros.Entry.{code, impl_fsm}
use edfsm.Macros.Entry.Exercise.{
  AbState, a, b, AbCommand, i0, i1, i2, i3, AbEvent, o0, o1, o2, boxed, exercise_block,
  ab_transition, ab_decide, ab_handler, ab_handlers, ab_for_command, ab_on_event, ab_fsm, exercised,
}

module _ {SE : Type 0} (say_hi : SE → SE) where
  abbrev ab_described : Fsm AbState AbCommand AbEvent SE
  ab_described =
      described (ab_handlers say_hi) same (declared exercise_block).entry_handlers
        (declared exercise_block).steps

  ab_commands :
      (s : AbState) (c : AbCommand) (se : SE)
      → ab_described.for_command s c se ≡ ab_for_command say_hi s c se
  unfolding ab_for_command ab_handler ab_handlers
  ab_commands a i0 se = refl
  ab_commands b i0 se = refl
  ab_commands a i1 se = refl
  ab_commands b i1 se = refl
  ab_commands a i2 se = refl
  ab_commands b i2 se = refl
  ab_commands a i3 se = refl
  ab_commands b i3 se = refl

  ab_events : (s : AbState) (e : AbEvent) → ab_described.on_event s e ≡ ab_on_event s e
  unfolding ab_on_event ab_transition ab_decide ab_handlers
  ab_events a o0 = refl
  ab_events b o0 = refl
  ab_events a o1 = refl
  ab_events b o1 = refl
  ab_events a o2 = refl
  ab_events b o2 = refl

  ab_changes :
      (s : AbState) (e : AbEvent) (se : SE) (c : Change) → ab_described.on_change s e se c ≡ se
  unfolding ab_handlers
  ab_changes a o0 se transitioned = refl
  ab_changes a o0 se updated = refl
  ab_changes a o1 se transitioned = refl
  ab_changes a o1 se updated = refl
  ab_changes a o2 se transitioned = refl
  ab_changes a o2 se updated = refl
  ab_changes b o0 se transitioned = refl
  ab_changes b o0 se updated = refl
  ab_changes b o1 se transitioned = refl
  ab_changes b o1 se updated = refl
  ab_changes b o2 se transitioned = refl
  ab_changes b o2 se updated = refl

abbrev ab_item : FsmItem
ab_item = record {
  state_enum = named "State";
  command_enum = named "Command";
  event_enum = named "Event";
  effect_handlers = boxed;
  entry_handlers = (declared exercise_block).entry_handlers;
  steps = (declared exercise_block).steps;
  ignore_commands = (declared exercise_block).ignore_commands;
  ignore_events = (declared exercise_block).ignore_events;
  trait_path = some ("Fsm" ∷ []);
}

ab_complete : finish (some ("Fsm" ∷ [])) (declared exercise_block) ≡ ok ab_item
unfolding finish
ab_complete = refl

ab_item-WellFormed : WellFormed ab_item
ab_item-WellFormed = record {
  shaped = record {
    trait_path = refl;
    entries = (refl, tt);
    steps = (
      record { from = refl; command = refl; event = refl; to = refl; anchored = tt },
      (
        record { from = refl; command = refl; event = refl; to = refl; anchored = tt },
        (
          record { from = refl; command = refl; event = refl; to = tt; anchored = tt },
          (
            record { from = refl; command = tt; event = refl; to = tt; anchored = tt },
            (
              record { from = refl; command = refl; event = tt; to = tt; anchored = tt },
              (
                record { from = tt; command = refl; event = refl; to = refl; anchored = tt },
                (
                  record { from = tt; command = refl; event = refl; to = tt; anchored = tt },
                  (record { from = tt; command = refl; event = tt; to = tt; anchored = tt }, tt),
                ),
              ),
            ),
          ),
        ),
      ),
    );
    ignore_commands = ((refl, refl), tt);
    ignore_events = ((refl, refl), ((refl, refl), tt));
  };
  acting = (tt, (tt, (tt, (tt, (tt, (tt, (tt, (tt, tt))))))));
}

ab_item-HasEnums : HasEnums ab_item
ab_item-HasEnums = record { state = (refl, tt); command = (refl, tt); event = (refl, tt) }

-- The macro emits code for the block, and the code is the machine above, whatever the effects are.
ab_emits :
    {SE : Type 0} (say_hi : SE → SE)
    → (x : Expansion) × (impl_fsm tokens readable same []
          (some ("Fsm" ∷ []))
          (map (written tokens printer) exercise_block)
        ≡ code x)
      × (generated (ab_handlers say_hi) x ≡ ab_fsm say_hi)
ab_emits say_hi =
    let (accepted, machine) =
      impl_fsm-written tokens printer readable same (ab_handlers say_hi) [] (some ("Fsm" ∷ []))
        exercise_block ab_item refl ab_complete readable-Reads ab_item-HasEnums in
    let (x, emitted) = accepted.1 ab_item-WellFormed in
    (
      x,
      emitted,
      machine x emitted ∙ λ i. record {
        for_command = λ s c se. ab_commands say_hi s c se i;
        on_event = λ s e. ab_events say_hi s e i;
        on_change = λ s e se c. ab_changes say_hi s e se c i;
      },
    )

-- It says hi once.
ab_main :
    {SE : Type 0} (say_hi : SE → SE) (se : SE)
    → exercised (ab_fsm say_hi) se ≡ (some o0 ∷ some o1 ∷ some o2 ∷ none ∷ [], say_hi se)
unfolding exercised ab_for_command ab_on_event
ab_main say_hi se = refl
