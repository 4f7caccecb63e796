-- ===== src/Executor/Contexts.antt =====
-- src/python_tty/executor/execution.py: the execution context of a command and its invocation. How a
-- command is then found and called is the registries' and the application's.
use python_tty.Prelude.{
  ℕ, String, not, ◌&&◌, Option, none, some, List, [], str_eq, if◌then◌else◌, is_some, ℤ,
}
use python_tty.Prelude.Dict.{Dict}
use python_tty.Models.{Invocation, or_text}
use python_tty.CommandIds.{build_command_id}

pub record ExecutionContext (Any : Type 0) : Type 0 where
  pub source : String
  pub origin_source : Option String
  pub principal : Option String
  pub console_name : Option String
  pub command_name : Option String
  pub command_id : Option String
  pub argv : List String
  pub kwargs : Dict Any
  pub raw_cmd : Option String
  pub run_id : Option String
  pub session_id : Option String
  pub timeout_ms : Option ℤ
  pub lock_key : String
  pub audit_policy : Option String
  pub parent_run_id : Option String
  pub depth : ℕ
  pub meta_revision : Option String

-- The context that the class's defaults give for a source.
abbrev pub context_from : {Any : Type 0} → String → ExecutionContext Any
context_from source = record {
  source = source;
  origin_source = none;
  principal = none;
  console_name = none;
  command_name = none;
  command_id = none;
  argv = [];
  kwargs = [];
  raw_cmd = none;
  run_id = none;
  session_id = none;
  timeout_ms = none;
  lock_key = "global";
  audit_policy = none;
  parent_run_id = none;
  depth = 0;
  meta_revision = none;
}

-- `command_id is None and self.console_name and self.command_name`
abbrev pub derived_id : Option String → Option String → Option String
derived_id (some console) (some command) =
    if not (str_eq console "") && not (str_eq command "")
    then some (build_command_id console command)
    else none
derived_id _ _ = none

-- to_invocation
unfoldable pub to_invocation : {Any : Type 0} → ExecutionContext Any → Invocation Any
to_invocation c = record {
  run_id = c.run_id;
  source = c.source;
  origin_source = some (or_text c.origin_source c.source);
  principal = c.principal;
  console_id = c.console_name;
  command_id =
      if is_some c.command_id then c.command_id else derived_id c.console_name c.command_name;
  command_name = c.command_name;
  argv = c.argv;
  kwargs = c.kwargs;
  lock_key = c.lock_key;
  timeout_ms = c.timeout_ms;
  audit_policy = c.audit_policy;
  session_id = c.session_id;
  parent_run_id = c.parent_run_id;
  depth = c.depth;
  callable_meta = none;
  meta_revision = c.meta_revision;
  raw_cmd = c.raw_cmd;
}
