-- ===== src/Macros/Parse/Sample.antt =====
-- An `impl` block as in the documentation of edfsm-macros, in declarations.
use edfsm.Prelude.{true, some, List, [], ◌∷◌}
use edfsm.Macros.Syntax.{infer}
use edfsm.Macros.Parse.Printer.{yields, moves}
use edfsm.Macros.Parse.Decl.{Decl}
use edfsm.Macros.Parse.Tokens.{named}

abbrev pub block : List Decl
block =
    Decl.state_type (named "Old")
    ∷ Decl.state_type (named "State")
    ∷ Decl.command_type (named "Command")
    ∷ Decl.event_type (named "Event")
    ∷ Decl.effect_type (named "EffectHandlers")
    ∷ Decl.entry (named "Running")
    ∷ Decl.command (named "Idle") (named "Start")
        (moves (named "Started") (named "Running") (named "Stuck" ∷ []))
    ∷ Decl.event infer (named "Stopped") (some (named "Idle", [])) true
    ∷ Decl.command infer (named "Stop") (yields (named "Stopped"))
    ∷ Decl.ignore_command (named "Running") (named "Start")
    ∷ Decl.ignore_event (named "Idle") (named "Stopped")
    ∷ []
