-- ===== src/Testing/Running.antt =====
-- src/python_tty/testing/harness.py: the runs of the two harnesses. `split` and `signature` are those of
-- the dispatch, `commands_of` gives the tables of a class's commands in a console stub of that name.
-- The way through an executor is the executor's.
use python_tty.Prelude.{
  ◌≡◌, String, Bool, true, false, not, ◌&&◌, Option, none, some, List, [], ◌++◌, if◌then◌else◌,
  is_some, arith, ◌||◌,
}
use python_tty.Prelude.Dict.{Dict, get}
use python_tty.Prelude.Texts.{join_spaced}
use python_tty.Models.{PyException, exception, Outcome, returned, raised}
use python_tty.Commands.{Parameter, CommandDef, CommandTables}
use python_tty.Executor.{is_exception}
use python_tty.Executor.Bindings.{Call, named_command, call_or_raise}
use python_tty.Dispatch.{deserialize_args}
use python_tty.Testing.{DiscoveredTestCase}
use python_tty.Testing.Harness.{
  Effect, TestRunResult, Arguments, build_output_records, resolve_command_def, build_invocation,
}

module _ {Fn Any : Type 0} (split : String → Option (List String))
    (signature : Fn → List Parameter) where
  -- _resolve_argv; `none` is a ValueError
  unfoldable pub resolve_argv : CommandDef Fn → Arguments Any → Option (List String)
  resolve_argv d a = elim a.argv [
    | some argv ↦ some argv
    | none ↦ elim a.raw_text [
      | none ↦ some []
      | some text ↦ deserialize_args split signature d text
    ]
  ]

  module _ (commands_of : String → String → CommandTables Fn)
      (validator : Bool → CommandDef Fn → String → Effect Any)
      (invoke : Fn → List String → Dict Any → Effect Any) (uuid source : String) where
    abbrev pub text_of : List String → Option String → String
    text_of argv none = join_spaced argv
    text_of argv (some t) = t

    -- The body of the `try` statement: the validator, and then the command.
    abbrev pub then_invoke : Effect Any → Effect Any → Effect Any
    then_invoke v c = elim v.ends [
      | raised x ↦ v
      | returned u ↦ record {
        runtime_events = v.runtime_events ++ c.runtime_events;
        ui_events = v.ui_events ++ c.ui_events;
        ends = c.ends;
      }
    ]

    abbrev pub is_validated : CommandDef Fn → Arguments Any → Bool
    is_validated d a = a.validate && is_some d.validator

    -- `in_run` is whether the validator runs inside the run's context.
    abbrev pub effect_of :
        Bool → CommandDef Fn → List String → Arguments Any → Effect Any → Effect Any
    effect_of in_run d argv a e =
        if is_validated d a then then_invoke (validator in_run d (text_of argv a.raw_text)) e else e

    abbrev pub value_of : Outcome (Option Any) → Option Any
    value_of (returned v) = v
    value_of (raised x) = none

    abbrev pub error_of : Outcome (Option Any) → Option PyException
    error_of (returned v) = none
    error_of (raised x) = some x

    abbrev pub result_of :
        DiscoveredTestCase Fn Any
        → CommandDef Fn
        → List String
        → Arguments Any
        → Effect Any
        → TestRunResult Any
    result_of c d argv a e = record {
      ok = not (is_some (error_of e.ends));
      command_id = c.command_id;
      return_value = value_of e.ends;
      raised_exception = error_of e.ends;
      outputs = build_output_records e.runtime_events e.ui_events;
      runtime_events = e.runtime_events;
      validator_ran = is_validated d a;
      invocation = build_invocation uuid source c argv a;
    }

    -- The `except` clause: what is no Exception, and what is to be raised, leaves the harness.
    abbrev pub leaves : Arguments Any → Option PyException → Bool
    leaves a none = false
    leaves a (some x) = a.raise_exceptions || not (is_exception x)

    abbrev pub kept :
        Arguments Any → TestRunResult Any → Option PyException → Outcome (TestRunResult Any)
    kept a r none = returned r
    kept a r (some x) = if leaves a (some x) then raised x else returned r

    abbrev pub finished :
        DiscoveredTestCase Fn Any
        → CommandDef Fn
        → List String
        → Arguments Any
        → Effect Any
        → Outcome (TestRunResult Any)
    finished c d argv a e = kept a (result_of c d argv a e) (error_of e.ends)

    abbrev pub value_error : PyException
    value_error = exception "Invalid command arguments"

    -- CommandHarness.run for a case
    unfoldable pub run_command :
        DiscoveredTestCase Fn Any → Arguments Any → Outcome (TestRunResult Any)
    unfolding resolve_command_def resolve_argv build_output_records
    run_command c a = elim (resolve_command_def (commands_of c.commands_cls c.console_name) c) [
      | raised x ↦ raised x
      | returned d ↦ elim (resolve_argv d a) [
        | none ↦ raised value_error
        | some argv ↦ finished c d argv a (effect_of true d argv a (invoke d.func argv a.kwargs))
      ]
    ]

    -- The call that the execution binding makes for the invocation, which leaves keywords out.
    abbrev pub bound_effect : Outcome (Call Fn) → Effect Any
    bound_effect (raised x) = record { runtime_events = []; ui_events = []; ends = raised x }
    bound_effect (returned call) = invoke call.func call.argv []

    -- InvocationHarness.run for a case, without the executor
    unfoldable pub run_invocation :
        DiscoveredTestCase Fn Any → Arguments Any → Outcome (TestRunResult Any)
    unfolding resolve_command_def resolve_argv build_output_records get
    run_invocation c a =
        let t = commands_of c.commands_cls c.console_name in
        elim (resolve_command_def t c) [
          | raised x ↦ raised x
          | returned d ↦ elim (resolve_argv d a) [
            | none ↦ raised value_error
            | some argv ↦
                let i = build_invocation uuid source c argv a in
                finished c d argv a (
                  effect_of false d argv a
                    (bound_effect (call_or_raise i (named_command t i.command_id i.command_name))))
          ]
        ]

    -- Without an executor, a validation and keywords the two harnesses give the same result for a case:
    -- the command that a binding finds for the case's invocation is the one that is called directly.
    pub run_invocation-run_command :
        (c : DiscoveredTestCase Fn Any) (a : Arguments Any)
        → a.kwargs ≡ []
        → a.validate ≡ false
        → run_invocation c a ≡ run_command c a
    unfolding run_invocation run_command resolve_command_def get
    run_invocation-run_command c a h v = ground (arith, h, v)
