-- ===== src/Examples/Lines.antt =====
-- The theorems about lines and their dispatch on small inputs. The splitting stands for shlex's: it
-- gives one token for a line of one word.
use python_tty.Prelude.{
  true, false, ℕ, ◌≡◌, refl, ap, or_else, subst, String, some, Option, List, [], ◌∷◌,
}
use python_tty.Prelude.Dict.{get, put}
use python_tty.Models.{returned}
use python_tty.Executor.{CommandExecutor}
use python_tty.Executor.Running.{Handlers, value}
use python_tty.Examples.Samples.{world}
use python_tty.CommandIds.{build_command_id}
use python_tty.Executor.Contexts.{ExecutionContext, context_from, to_invocation}
use python_tty.Executor.Bindings.{
  Call, BaseConsole, ExecutionBinding, execute_binding, resolve_console_cls,
}
use python_tty.Consoles.Tree.{iter_consoles}
use python_tty.Rpc.{resolve_command_def}
use python_tty.Rpc.Lookup.{console_commands, request_binding, execute_binding-resolve_command_def}
use python_tty.Commands.Authorisation.{IsUnambiguous}
use python_tty.Prelude.Texts.{lstrip, rstrip, is_blank, is_space}
use python_tty.CommandIds.{after_prefix}
use python_tty.Commands.{Parameter, CommandDef, resolved_command}
use python_tty.Commands.Declaring.{CommandRegistry}
use python_tty.Tokens.{split_cmd, tokenize_cmd}
use python_tty.Tokens.Splitting.{IsSplit, split_cmd-IsSplit}
use python_tty.Dispatch.{Executed, execute}
use python_tty.Dispatch.Lines.{console_of}
use python_tty.Examples.Registry.{root_class, registry}
use python_tty.Examples.Sessions.{help, quit, commands-IsUnambiguous}

abbrev pub split_words : String → Option (List String)
split_words s = some (s ∷ [])

abbrev pub no_parameters : ℕ → List Parameter
no_parameters f = []

abbrev pub commands : CommandRegistry ℕ
commands = record { console_command_classes = []; commands_defs = []; console_defs = [] }

split_cmd-IsSplit_example : IsSplit split_words "  quit" ("quit", "", "quit" ∷ [])
unfolding split_cmd tokenize_cmd lstrip rstrip is_blank is_space after_prefix
split_cmd-IsSplit_example = split_cmd-IsSplit split_words "  quit" ("quit", "", "quit" ∷ []) refl

-- Handlers that call nothing and return 4.
abbrev handlers : Handlers (ExecutionBinding ℕ ℕ) ℕ ℕ
handlers = record {
  is_coroutine_function = λ b. false;
  start = λ b c i. 4;
  invoke = λ b c i e. (e, value (some 4));
  in_pool = λ b c i t e. (e, value (some 4));
  await = λ a t e. (e, returned (some a));
  is_future = λ a. false;
}

abbrev root_console : BaseConsole ℕ
root_console = console_of (some "root") "rootconsole" (help ∷ quit ∷ [])

abbrev quit_call : Call ℕ
quit_call = record { func = 2; argv = [] }

abbrev run_quit :
    Option (CommandExecutor (ExecutionBinding ℕ ℕ) ℕ)
    → CommandRegistry ℕ × Option (CommandExecutor (ExecutionBinding ℕ ℕ) ℕ) × Executed ℕ ℕ
run_quit =
    execute split_words no_parameters handlers (λ x. true) (λ c. []) "DefaultCommands" registry
      world "u" root_console " quit " commands

abbrev members : String → List (CommandDef ℕ)
members c = help ∷ quit ∷ []

abbrev quit_context : ExecutionContext ℕ
quit_context = record (context_from "rpc") {
  console_name = some "root";
  command_name = some "quit";
  argv = "now" ∷ [];
}

root_commands-IsUnambiguous :
    (defs : List (CommandDef ℕ))
    → (console_commands members "DefaultCommands" registry "root" commands).1 ≡ some defs
    → IsUnambiguous "root" defs
unfolding console_commands resolve_console_cls iter_consoles get put
root_commands-IsUnambiguous defs h =
    subst (IsUnambiguous "root") (ap (λ o. or_else o []) h) commands-IsUnambiguous

execute_binding-resolve_command_def_example :
    (execute_binding members "DefaultCommands" registry
      (request_binding members "DefaultCommands" registry quit_context)
      (to_invocation quit_context)
      (console_commands members "DefaultCommands" registry "root" commands).0).2
    ≡ returned (record { func = 2; argv = "now" ∷ [] })
unfolding resolve_command_def console_commands resolve_console_cls iter_consoles get put
    build_command_id resolved_command
execute_binding-resolve_command_def_example =
    execute_binding-resolve_command_def members "DefaultCommands" registry quit_context "root" ""
      "quit" root_class quit commands refl refl refl refl refl refl root_commands-IsUnambiguous refl
