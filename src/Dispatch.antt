-- ===== src/Dispatch.antt =====
-- src/python_tty/consoles/core.py with commands/core.py: from a line that is entered to the command's
-- function and its arguments. `split` is shlex's, `signature` gives a function's parameters.
pub mod Lines
use python_tty.Prelude.{
  ℕ, ◌≡◌, String, Bool, true, false, Option, none, some, List, [], ◌∷◌, if◌then◌else◌, or_else,
  str_eq, append,
}
use python_tty.Prelude.Dict.{get}
use python_tty.Models.{PyException, exception, or_text, Invocation, Outcome, returned, raised}
use python_tty.CommandIds.{build_command_id}
use python_tty.Commands.{
  ArgSpec, Parameter, CommandDef, CommandTables, from_signature, collect, get_command_def,
  get_command_def_by_id,
}
use python_tty.Commands.Declaring.{CommandRegistry, get_commands_cls, init_funcs}
use python_tty.Consoles.{ConsoleClass, ConsoleRegistry}
use python_tty.Consoles.Tree.{iter_consoles}
use python_tty.Tokens.{tokenize_cmd, split_cmd}
use python_tty.Executor.{World, CommandExecutor}
use python_tty.Executor.Running.{Handlers}
use python_tty.Executor.Contexts.{ExecutionContext, context_from, to_invocation}
use python_tty.Executor.Submission.{submit_threadsafe}
use python_tty.Executor.Waiting.{wait_result_sync}
use python_tty.Executor.Bindings.{
  BaseConsole, ExecutionBinding, Call, name_of, get_command_id, execute_binding, binding_of,
}

-- What becomes of a line; `swallowed` is the ValueError that `execute` catches.
pub data Executed (Fn Any : Type 0) : Type 0 where
  ignored swallowed : Executed Fn Any
  missed : String → Executed Fn Any
  calls : Call Fn → Executed Fn Any
  waits : Executed Fn Any
  done : Option Any → Executed Fn Any
  raises : PyException → Executed Fn Any

module _ {Fn : Type 0} (split : String → Option (List String))
    (signature : Fn → List Parameter) where
  -- ArgSpec.parse
  abbrev pub parse : ArgSpec → String → Option (List String)
  parse a text = tokenize_cmd split text

  -- deserialize_args
  abbrev pub deserialize_args : CommandDef Fn → String → Option (List String)
  deserialize_args d raw_text =
      parse (or_else d.arg_spec (from_signature true (signature d.func))) raw_text

  abbrev pub context_of :
      {Any : Type 0} → BaseConsole Fn → String → String → List String → ExecutionContext Any
  context_of c cmd token params = record (context_from "tty") {
    console_name = some (name_of c);
    command_name = some token;
    command_id = get_command_id token c;
    argv = params;
    raw_cmd = some cmd;
  }

  abbrev pub context_for :
      {Any : Type 0}
      → BaseConsole Fn
      → String
      → String
      → String
      → Option (CommandDef Fn)
      → Option (Option (ExecutionContext Any) × String)
  context_for c cmd token arg_text none = some (none, token)
  context_for c cmd token arg_text (some d) = elim (deserialize_args d arg_text) [
    | none ↦ none
    | some params ↦ some (some (context_of c cmd token params), token)
  ]

  -- _build_context; `none` is a ValueError
  unfoldable pub build_context :
      {Any : Type 0} → BaseConsole Fn → String → Option (Option (ExecutionContext Any) × String)
  unfolding split_cmd tokenize_cmd get_command_id get
  build_context c cmd = elim (split_cmd split cmd) [
    | none ↦ none
    | some (token, arg_text, tokens) ↦
        if str_eq token ""
        then some (none, token)
        else context_for c cmd token arg_text (get_command_def token c.commands)
  ]

  -- What `execute` does with a line that makes no context.
  abbrev pub no_context : {Any : Type 0} → String → String → Executed Fn Any
  no_context cmd token = if str_eq token "" then ignored else missed cmd

  abbrev pub direct : {Any : Type 0} → Outcome (Call Fn) → Executed Fn Any
  direct (returned call) = calls call
  direct (raised x) = swallowed

  -- The part of `execute` for a context where the console's manager has no executor, up to the call.
  unfoldable pub execute_here :
      {Any : Type 0}
      → (String → List (CommandDef Fn))
      → String
      → ConsoleRegistry
      → BaseConsole Fn
      → ExecutionContext Any
      → CommandRegistry Fn
      → CommandRegistry Fn × Executed Fn Any
  unfolding execute_binding to_invocation
  execute_here members default s c ctx r =
      let (r', b, out) =
        execute_binding members default s (binding_of c ctx) (to_invocation ctx) r in
      (r', direct out)

  module _ {Awaitable Any : Type 0} (handlers : Handlers (ExecutionBinding Fn Any) Awaitable Any)
      (is_value_error : PyException → Bool) where
    abbrev pub escaped : PyException → Executed Fn Any
    escaped x = if is_value_error x then swallowed else raises x

    abbrev pub waited : Option (Outcome (Option Any)) → Executed Fn Any
    waited none = waits
    waited (some (returned v)) = done v
    waited (some (raised x)) = escaped x

    abbrev pub wait_for :
        World
        → CommandExecutor (ExecutionBinding Fn Any) Any × Outcome String
        → CommandExecutor (ExecutionBinding Fn Any) Any × Executed Fn Any
    wait_for w (e, raised x) = (e, escaped x)
    wait_for w (e, returned run_id) =
        let (e', out) = wait_result_sync w run_id e in (e', waited out)

    -- The part of `execute` for a context where there is an executor: it submits the invocation, with the
    -- binding's call as the handler, and waits for the result.
    unfoldable pub execute_submitted :
        World
        → String
        → BaseConsole Fn
        → ExecutionContext Any
        → CommandExecutor (ExecutionBinding Fn Any) Any
        → CommandExecutor (ExecutionBinding Fn Any) Any × Executed Fn Any
    unfolding submit_threadsafe wait_result_sync to_invocation
    execute_submitted w uuid c ctx e = wait_for w (
        submit_threadsafe handlers w uuid
          (record { invocation = to_invocation ctx; handler = some (binding_of c ctx) }) e)

    module _ (members : String → List (CommandDef Fn)) (default : String)
        (s : ConsoleRegistry) where
      abbrev pub execute_context :
          World
          → String
          → BaseConsole Fn
          → ExecutionContext Any
          → CommandRegistry Fn
          → Option (CommandExecutor (ExecutionBinding Fn Any) Any)
          → CommandRegistry Fn
            × Option (CommandExecutor (ExecutionBinding Fn Any) Any)
            × Executed Fn Any
      execute_context w uuid c ctx r none =
          let (r', x) = execute_here members default s c ctx r in (r', none, x)
      execute_context w uuid c ctx r (some e) =
          let (e', x) = execute_submitted w uuid c ctx e in (r, some e', x)

      -- execute; the executor is the one of the console's manager, if it has one
      unfoldable pub execute :
          World
          → String
          → BaseConsole Fn
          → String
          → CommandRegistry Fn
          → Option (CommandExecutor (ExecutionBinding Fn Any) Any)
          → CommandRegistry Fn
            × Option (CommandExecutor (ExecutionBinding Fn Any) Any)
            × Executed Fn Any
      unfolding build_context execute_here execute_submitted
      execute w uuid c cmd r executor = elim (build_context {Any = Any} c cmd) [
        | none ↦ (r, executor, swallowed)
        | some (none, token) ↦ (r, executor, no_context cmd token)
        | some (some ctx, token) ↦ execute_context w uuid c ctx r executor
      ]
