-- ===== src/Executor/Bindings.antt =====
-- src/python_tty/executor/execution.py: the binding that finds and calls the command of an invocation,
-- with the lookups that `BaseConsole` (consoles/core.py) and `BaseCommands` (commands/core.py) share with
-- it. What a call of a function does is the application's, so a binding answers which function is
-- called with which arguments; the keyword arguments of an invocation are not among them.
use python_tty.Prelude.{
  String, Option, none, some, List, [], ◌∷◌, if◌then◌else◌, or_else, str_eq, append,
}
use python_tty.Prelude.Dict.{get}
use python_tty.Models.{exception, or_text, Invocation, Outcome, returned, raised}
use python_tty.CommandIds.{build_command_id}
use python_tty.Commands.{CommandDef, CommandTables, collect, get_command_def, get_command_def_by_id}
use python_tty.Commands.Declaring.{CommandRegistry, get_commands_cls, init_funcs}
use python_tty.Consoles.{ConsoleClass, ConsoleRegistry}
use python_tty.Consoles.Tree.{iter_consoles}
use python_tty.Executor.Contexts.{ExecutionContext}

-- A console as its commands see it: the attribute `console_name`, the lower-cased name of the class,
-- and the tables of its commands.
pub record BaseConsole (Fn : Type 0) : Type 0 where
  pub console_name : Option String
  pub lower_name : String
  pub commands : CommandTables Fn

pub record ExecutionBinding (Fn Any : Type 0) : Type 0 where
  pub ctx : Option (ExecutionContext Any)
  pub console : Option (BaseConsole Fn)
  pub commands : Option (CommandTables Fn)

-- A call of a command's function.
pub record Call (Fn : Type 0) : Type 0 where
  pub func : Fn
  pub argv : List String

abbrev pub empty_tables : {Fn : Type 0} → CommandTables Fn
empty_tables = record { by_id = []; by_name = [] }

-- The name in a command's identifiers.
abbrev pub name_of : {Fn : Type 0} → BaseConsole Fn → String
name_of c = or_text c.console_name c.lower_name

abbrev pub nonempty_name : {Any : Type 0} → Option (ExecutionContext Any) → Option String
nonempty_name none = none
nonempty_name (some c) = elim c.console_name [
  | none ↦ none
  | some n ↦ if str_eq n "" then none else some n
]

-- _resolve_console_name
abbrev pub resolve_console_name :
    {Any : Type 0} → Option (ExecutionContext Any) → Invocation Any → Option String
resolve_console_name ctx i = elim (nonempty_name ctx) [ some n ↦ some n | none ↦ i.console_id ]

abbrev pub class_in : String → List (String × ConsoleClass × Option String) → Option ConsoleClass
class_in n [] = none
class_in n ((m, c, p) ∷ rest) = if str_eq m n then some c else class_in n rest

-- _resolve_console_cls
unfoldable pub resolve_console_cls : Option String → ConsoleRegistry → Option ConsoleClass
unfolding iter_consoles
resolve_console_cls none s = none
resolve_console_cls (some n) s = class_in n (iter_consoles s)

module _ {Fn : Type 0} where
  -- The tables of a new commands object.
  unfoldable pub new_commands : String → List (CommandDef Fn) → CommandTables Fn
  unfolding collect
  new_commands console defs = collect console defs empty_tables

  -- BaseCommands._build_command_id
  abbrev pub command_id_in : BaseConsole Fn → CommandDef Fn → String
  command_id_in c d = build_command_id (name_of c) d.func_name

  -- get_command_id
  unfoldable pub get_command_id : String → BaseConsole Fn → Option String
  unfolding get build_command_id
  get_command_id n c = elim (get n c.commands.by_name) [
    | none ↦ none
    | some d ↦ some (command_id_in c d)
  ]

  -- The command that an invocation names, as `run` and `ExecutionBinding.execute` look it up.
  abbrev pub named_command :
      CommandTables Fn → Option String → Option String → Option (CommandDef Fn)
  named_command t command_id command_name = elim (get_command_def_by_id command_id t) [
    | some d ↦ some d
    | none ↦ elim command_name [ none ↦ none | some n ↦ get_command_def n t ]
  ]

  abbrev pub call_or_raise :
      {Any : Type 0} → Invocation Any → Option (CommandDef Fn) → Outcome (Call Fn)
  call_or_raise i none =
      raised (exception (append "Command not found: " (or_else i.command_id "None")))
  call_or_raise i (some d) = returned (record { func = d.func; argv = i.argv })

  -- BaseConsole.run
  unfoldable pub run : {Any : Type 0} → BaseConsole Fn → Invocation Any → Outcome (Call Fn)
  unfolding get
  run c i = call_or_raise i (named_command c.commands i.command_id i.command_name)

  module _ (members : String → List (CommandDef Fn)) (default : String) (s : ConsoleRegistry) where
    -- The commands of a stub of the console's class that carries the name.
    abbrev pub stub_commands :
        Option String
        → Option ConsoleClass
        → CommandRegistry Fn
        → CommandRegistry Fn × Outcome (CommandTables Fn)
    stub_commands n none r =
        (r, raised (exception (append "Console not found: " (or_else n "None"))))
    stub_commands n (some c) r =
        let own = or_else (get_commands_cls c.class_name r) default in
        let (r', defs) = init_funcs members own c.class_name r in
        (r', returned (collect (or_text n c.lower_name) defs empty_tables))

    -- _get_commands
    unfoldable pub get_commands :
        {Any : Type 0}
        → ExecutionBinding Fn Any
        → Invocation Any
        → CommandRegistry Fn
        → CommandRegistry Fn × Outcome (CommandTables Fn)
    unfolding resolve_console_cls init_funcs collect get
    get_commands b i r = elim b.commands [
      | some t ↦ (r, returned t)
      | none ↦ elim b.console [
        | some c ↦ (r, returned c.commands)
        | none ↦ let n = resolve_console_name b.ctx i in stub_commands n (resolve_console_cls n s) r
      ]
    ]

    abbrev pub called :
        {Any : Type 0}
        → Invocation Any
        → ExecutionBinding Fn Any
        → CommandRegistry Fn × Outcome (CommandTables Fn)
        → CommandRegistry Fn × ExecutionBinding Fn Any × Outcome (Call Fn)
    called i b (r, raised x) = (r, b, raised x)
    called i b (r, returned t) = (
      r,
      record b { commands = some t },
      call_or_raise i (named_command t i.command_id i.command_name),
    )

    -- ExecutionBinding.execute, with the binding that keeps its commands
    unfoldable pub execute_binding :
        {Any : Type 0}
        → ExecutionBinding Fn Any
        → Invocation Any
        → CommandRegistry Fn
        → CommandRegistry Fn × ExecutionBinding Fn Any × Outcome (Call Fn)
    unfolding get_commands get
    execute_binding b i r = called i b (get_commands b i r)

  -- BaseConsole.execute's binding.
  abbrev pub binding_of :
      {Any : Type 0} → BaseConsole Fn → ExecutionContext Any → ExecutionBinding Fn Any
  binding_of c ctx = record { ctx = some ctx; console = some c; commands = none }
