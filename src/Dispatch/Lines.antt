-- ===== src/Dispatch/Lines.antt =====
-- src/python_tty/consoles/core.py: the command that a line names is the command that runs.
use python_tty.Prelude.{String, Option, List}
use python_tty.Models.{or_text}
use python_tty.CommandIds.{build_command_id}
use python_tty.Commands.{CommandDef}
use python_tty.Commands.Authorisation.{IsUnambiguous}
use python_tty.Executor.Bindings.{BaseConsole, new_commands}

-- A console whose commands object was made of these definitions.
abbrev pub console_of :
    {Fn : Type 0} → Option String → String → List (CommandDef Fn) → BaseConsole Fn
console_of n lower defs = record {
  console_name = n;
  lower_name = lower;
  commands = new_commands (or_text n lower) defs;
}

module _ {Fn : Type 0} (n : Option String) (lower : String) (defs : List (CommandDef Fn))
    (u : IsUnambiguous (or_text n lower) defs) where
  command_id_of : CommandDef Fn → String
  command_id_of d = build_command_id (or_text n lower) d.func_name
