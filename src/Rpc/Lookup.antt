-- ===== src/Rpc/Lookup.antt =====
-- src/python_tty/frontends/rpc/core.py with executor/execution.py: the lookup of a request's command in the
-- registries, and the command that the execution binding calls for it later, without a console.
use python_tty.Prelude.{
  ◌≡◌, refl, sym, ap, ◌∙◌, String, false, Option, none, some, List, [], if◌then◌else◌, or_else,
  str_eq, is_some,
}
use python_tty.Models.{returned}
use python_tty.CommandIds.{nonempty}
use python_tty.Commands.{CommandDef, resolved_command, executed_command, collect}
use python_tty.Commands.Declaring.{
  CommandRegistry, get_commands_cls, collect_from_commands_cls, get_command_defs_for_console,
  init_funcs,
}
use python_tty.Commands.Collecting.{defs_or, is_bound_empty, init_funcs-again}
use python_tty.Commands.Authorisation.{IsUnambiguous, executed-resolved}
use python_tty.Consoles.{ConsoleClass, ConsoleRegistry}
use python_tty.Executor.Contexts.{ExecutionContext, to_invocation, derived_id}
use python_tty.Executor.Bindings.{
  ExecutionBinding, resolve_console_cls, get_commands, execute_binding,
}
use python_tty.Rpc.{resolve_command_def}

module _ {Fn : Type 0} (members : String → List (CommandDef Fn)) (default : String)
    (s : ConsoleRegistry) where
  abbrev pub commands_of_class :
      Option ConsoleClass → CommandRegistry Fn → CommandRegistry Fn × Option (List (CommandDef Fn))
  commands_of_class none r = (r, none)
  commands_of_class (some c) r =
      let (r', defs) =
        defs_or members default (get_command_defs_for_console members c.class_name r) in
      (r', some defs)

  -- The definitions among which _resolve_command_def searches, for a console's name.
  unfoldable pub console_commands :
      String → CommandRegistry Fn → CommandRegistry Fn × Option (List (CommandDef Fn))
  unfolding resolve_console_cls collect_from_commands_cls get_command_defs_for_console
  console_commands n r = commands_of_class (resolve_console_cls (some n) s) r

  console_commands-class :
      (n : String) (k : ConsoleClass) (r : CommandRegistry Fn)
      → resolve_console_cls (some n) s ≡ some k
      → (console_commands n r).1 ≡ (commands_of_class (some k) r).1
  unfolding console_commands
  console_commands-class n k r g = ap (λ o. (commands_of_class o r).1) g

  console_commands-registry :
      (n : String) (k : ConsoleClass) (r : CommandRegistry Fn)
      → resolve_console_cls (some n) s ≡ some k
      → (console_commands n r).0 ≡ (commands_of_class (some k) r).0
  unfolding console_commands
  console_commands-registry n k r g = ap (λ o. (commands_of_class o r).0) g

  module _ {Any : Type 0} where
    -- The binding that Invoke makes for a context.
    abbrev pub request_binding : ExecutionContext Any → ExecutionBinding Fn Any
    request_binding x = record { ctx = some x; console = none; commands = none }

    get_commands-found :
        (x : ExecutionContext Any) (n : String) (k : ConsoleClass) (defs : List (CommandDef Fn))
        (r : CommandRegistry Fn)
        → x.console_name ≡ some n
        → str_eq n "" ≡ false
        → resolve_console_cls (some n) s ≡ some k
        → init_funcs members (or_else (get_commands_cls k.class_name r) default) k.class_name r
          ≡ (r, defs)
        → get_commands members default s (request_binding x) (to_invocation x) r
          ≡ (r, returned (collect n defs (record { by_id = []; by_name = [] })))
    unfolding get_commands to_invocation
    get_commands-found x n k defs r e f g h = rw (e, f, g, h, f) refl

    search-registered :
        (x : ExecutionContext Any) (n : String) (k : ConsoleClass) (r : CommandRegistry Fn)
        → x.console_name ≡ some n
        → resolve_console_cls (some n) s ≡ some k
        → (let defs =
              (defs_or members default (get_command_defs_for_console members k.class_name r)).1 in
            resolve_command_def (λ m. (console_commands m r).1) x
            ≡ resolved_command n defs x.command_id x.command_name)
    unfolding resolve_command_def
    search-registered x n k r e g = rw (e, resolve_command_def, console_commands-class n k r g) refl

    execute_binding-named :
        (x : ExecutionContext Any) (n i t : String) (defs : List (CommandDef Fn))
        (d : CommandDef Fn) (r : CommandRegistry Fn)
        → x.console_name ≡ some n
        → x.command_id ≡ nonempty i
        → x.command_name ≡ nonempty t
        → get_commands members default s (request_binding x) (to_invocation x) r
          ≡ (r, returned (collect n defs (record { by_id = []; by_name = [] })))
        → executed_command n defs
            (if is_some (nonempty i) then nonempty i else derived_id (some n) (nonempty t))
            (nonempty t)
          ≡ some d
        → (execute_binding members default s (request_binding x) (to_invocation x) r).2
          ≡ returned (record { func = d.func; argv = x.argv })
    unfolding execute_binding executed_command to_invocation
    execute_binding-named x n i t defs d r e a b g h = rw (g, e, a, b, h) refl

    -- The command that a remote request is authorised for is the command that runs. Given a context
    -- that names a registered console whose commands share no identifier and no name, with no name that
    -- is an identifier of one of them, and unless the console's class is bound to commands of which there
    -- are none: where the front end finds a command
    -- in the registries, the binding that it makes calls that command's function with the context's
    -- arguments, having looked the commands up again in the registry that the search left.
    pub execute_binding-resolve_command_def :
        (x : ExecutionContext Any) (n i t : String) (k : ConsoleClass) (d : CommandDef Fn)
        (r : CommandRegistry Fn)
        → x.console_name ≡ some n
        → x.command_id ≡ nonempty i
        → x.command_name ≡ nonempty t
        → str_eq n "" ≡ false
        → resolve_console_cls (some n) s ≡ some k
        → is_bound_empty
            (get_commands_cls k.class_name r)
            (get_command_defs_for_console members k.class_name r).1
          ≡ false
        → ((defs : List (CommandDef Fn))
            → (console_commands n r).1 ≡ some defs
            → IsUnambiguous n defs)
        → resolve_command_def (λ m. (console_commands m r).1) x ≡ some d
        → (execute_binding members default s
            (request_binding x)
            (to_invocation x)
            (console_commands n r).0).2
          ≡ returned (record { func = d.func; argv = x.argv })
    execute_binding-resolve_command_def x n i t k d r e a b f g h u found =
        let defs =
          (defs_or members default (get_command_defs_for_console members k.class_name r)).1 in
        let r' = (console_commands n r).0 in
        let left : r'
            ≡ (defs_or members default (get_command_defs_for_console members k.class_name r)).0 =
          console_commands-registry n k r g in
        let resolved : resolved_command n defs (nonempty i) (nonempty t) ≡ some d =
          rw⁻¹ (a, b) (sym (search-registered x n k r e g) ∙ found) in
        let again : init_funcs members (or_else (get_commands_cls k.class_name r') default)
              k.class_name r'
            ≡ (r', defs) =
          rw left (init_funcs-again members default k.class_name r h) in
        execute_binding-named x n i t defs d r' e a b (get_commands-found x n k defs r' e f g again)
          (executed-resolved n i t defs d f (u defs (console_commands-class n k r g)) resolved)
