-- ===== src/Macros/Expand/Inversion.antt =====
-- What is behind an expansion that succeeds, for edfsm-macros/src/expand.rs.
use Prim.Native.String.{String}
use edfsm.Prelude.{ℕ, Bool, ◌∙◌, ap, ◌≡◌, Option, List, ◌∷◌, ◌++◌}
use edfsm.Macros.Syntax.{ok, >>=-eq-ok, ok-injective, Step, FsmItem}
use edfsm.Macros.Expand.{
  EntryArm, CommandArm, EventArm, ChangeArm, Arms, Expansion, append_arms, state_or_any,
  optional_ident, target, command_arms, event_arms, step_arms, steps_arms, check_trait, entry_arms,
  command_rest, event_rest, expand_arms, quoted, unwrapped, expand, ImplItem,
}

module _ (lower : String → String) where
  pub record StepParts (s : Step) (a : Arms) : Type 0 where
    pub from : Option String
    pub command : Option String
    pub event : Option String
    pub to : Option String
    pub count : ℕ
    pub events : List EventArm
    pub changes : List ChangeArm
    pub from_ok : state_or_any s.from_state ≡ ok from
    pub command_ok : optional_ident s.command ≡ ok command
    pub event_ok : optional_ident s.event ≡ ok event
    pub target_ok : target s.to_state ≡ ok (to, count)
    pub arms_ok : event_arms lower from event to count s.on_change ≡ ok (events, changes)
    pub result :
        record {
          commands = command_arms lower from command event;
          events = events;
          changes = changes;
        }
        ≡ a

  pub step_arms-eq-ok : (s : Step) (a : Arms) → step_arms lower s ≡ ok a → StepParts s a
  unfolding step_arms
  step_arms-eq-ok s a h =
      let (from, from_ok, h₁) = >>=-eq-ok (state_or_any s.from_state) _ h in
      let (command, command_ok, h₂) = >>=-eq-ok (optional_ident s.command) _ h₁ in
      let (event, event_ok, h₃) = >>=-eq-ok (optional_ident s.event) _ h₂ in
      let (pair, target_ok, h₄) = >>=-eq-ok (target s.to_state) _ h₃ in
      let (both, arms_ok, h₅) =
        >>=-eq-ok (event_arms lower from event pair.0 pair.1 s.on_change) _ h₄ in
      record {
        from = from;
        command = command;
        event = event;
        to = pair.0;
        count = pair.1;
        events = both.0;
        changes = both.1;
        from_ok = from_ok;
        command_ok = command_ok;
        event_ok = event_ok;
        target_ok = target_ok;
        arms_ok = arms_ok;
        result = cc h₅;
      }

  pub record StepsParts (s : Step) (steps : List Step) (a : Arms) : Type 0 where
    pub head : Arms
    pub tail : Arms
    pub head_ok : step_arms lower s ≡ ok head
    pub tail_ok : steps_arms lower steps ≡ ok tail
    pub result : append_arms head tail ≡ a

  pub steps_arms-eq-ok :
      (s : Step) (steps : List Step) (a : Arms)
      → steps_arms lower (s ∷ steps) ≡ ok a
      → StepsParts s steps a
  unfolding steps_arms
  steps_arms-eq-ok s steps a h =
      let (head, head_ok, h₁) = >>=-eq-ok (step_arms lower s) _ h in
      let (tail, tail_ok, h₂) = >>=-eq-ok (steps_arms lower steps) _ h₁ in
      record { head = head; tail = tail; head_ok = head_ok; tail_ok = tail_ok; result = cc h₂ }

  pub record ExpandParts (fsm : FsmItem) (x : Expansion) : Type 0 where
    pub entries : List EntryArm
    pub arms : Arms
    pub commands : List CommandArm
    pub events : List EventArm
    pub trait_ok : check_trait fsm.trait_path ≡ ok tt
    pub entries_ok : entry_arms lower fsm.entry_handlers ≡ ok entries
    pub arms_ok : steps_arms lower fsm.steps ≡ ok arms
    pub commands_ok : command_rest fsm.ignore_commands ≡ ok commands
    pub events_ok : event_rest fsm.ignore_events ≡ ok events
    pub result :
        record {
          entry_matches = entries;
          arms = record {
            commands = arms.commands ++ commands;
            events = arms.events ++ events;
            changes = arms.changes;
          };
        }
        ≡ x

  pub expand_arms-eq-ok :
      (fsm : FsmItem) (x : Expansion) → expand_arms lower fsm ≡ ok x → ExpandParts fsm x
  unfolding expand_arms
  expand_arms-eq-ok fsm x h =
      let (_, trait_ok, h₀) = >>=-eq-ok (check_trait fsm.trait_path) _ h in
      let (entries, entries_ok, h₁) = >>=-eq-ok (entry_arms lower fsm.entry_handlers) _ h₀ in
      let (arms, arms_ok, h₂) = >>=-eq-ok (steps_arms lower fsm.steps) _ h₁ in
      let (commands, commands_ok, h₃) = >>=-eq-ok (command_rest fsm.ignore_commands) _ h₂ in
      let (events, events_ok, h₄) = >>=-eq-ok (event_rest fsm.ignore_events) _ h₃ in
      record {
        entries = entries;
        arms = arms;
        commands = commands;
        events = events;
        trait_ok = trait_ok;
        entries_ok = entries_ok;
        arms_ok = arms_ok;
        commands_ok = commands_ok;
        events_ok = events_ok;
        result = cc h₄;
      }

-- Behind the reading of the quoted items.
pub expand-expand_arms :
    (reads : ImplItem → Bool) (lower : String → String) (fsm : FsmItem) (x : Expansion)
    → expand reads lower fsm ≡ ok x
    → expand_arms lower fsm ≡ ok x
unfolding expand
expand-expand_arms reads lower fsm x h =
    let (y, y_ok, h₁) = >>=-eq-ok (expand_arms lower fsm) _ h in
    let (_, _, h₂) = >>=-eq-ok (unwrapped reads (quoted fsm y)) _ h₁ in
    y_ok ∙ ap ok (ok-injective h₂)
