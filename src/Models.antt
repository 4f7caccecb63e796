-- ===== src/Models.antt =====
-- src/python_tty/executor/models.py and src/python_tty/exceptions/console_exception.py: the data
-- that the executor, the job store and the session manager pass around.
-- `Any` is the type of the application's objects (results, keyword values).
use python_tty.Prelude.{
  ℕ, ℤ, String, Bool, true, false, Option, none, some, List, [], str_eq, if◌then◌else◌,
}
use python_tty.Prelude.Dict.{Dict}

pub data RunStatus : Type 0 where
  pending running succeeded failed cancelled timeout : RunStatus

-- What a handler or an await can raise, as far as the executor tells exceptions apart.
-- `exception` is any other subclass of `Exception`, and `base_exception` one of `BaseException`
-- alone, with its message.
pub data PyException : Type 0 where
  console_exit sub_console_exit cancelled_error timeout_error : PyException
  exception base_exception : String → PyException

-- str(exc)
abbrev pub str_of_exception : PyException → String
str_of_exception (exception s) = s
str_of_exception (base_exception s) = s
str_of_exception _ = ""

-- A value of a field that the program passes on: a text of its own, or an application object.
pub data Value (Any : Type 0) : Type 0 where
  text : String → Value Any
  object : Any → Value Any

pub record Invocation (Any : Type 0) : Type 0 where
  pub run_id : Option String
  pub source : String
  pub origin_source : Option String
  pub principal : Option String
  pub console_id : Option String
  pub command_id : Option String
  pub command_name : Option String
  pub argv : List String
  pub kwargs : Dict Any
  pub lock_key : String
  pub timeout_ms : Option ℤ
  pub audit_policy : Option String
  pub session_id : Option String
  pub parent_run_id : Option String
  pub depth : ℕ
  pub callable_meta : Option (Dict (Value Any))
  pub meta_revision : Option String
  pub raw_cmd : Option String

-- The invocation that the class's defaults give.
abbrev pub default_invocation : {Any : Type 0} → Invocation Any
default_invocation = record {
  run_id = none;
  source = "tty";
  origin_source = none;
  principal = none;
  console_id = none;
  command_id = none;
  command_name = none;
  argv = [];
  kwargs = [];
  lock_key = "global";
  timeout_ms = none;
  audit_policy = none;
  session_id = none;
  parent_run_id = none;
  depth = 0;
  callable_meta = none;
  meta_revision = none;
  raw_cmd = none;
}

pub record RunState (Any : Type 0) : Type 0 where
  pub run_id : String
  pub source : Option String
  pub origin_source : Option String
  pub principal : Option String
  pub session_id : Option String
  pub parent_run_id : Option String
  pub depth : ℕ
  pub command_id : Option String
  pub callable_meta : Option (Dict (Value Any))
  pub lock_key : Option String
  pub status : RunStatus
  pub result : Option Any
  pub error : Option PyException
  pub started_at : Option ℕ
  pub finished_at : Option ℕ

-- `status in (RunStatus.PENDING, RunStatus.RUNNING)`
abbrev pub is_active : RunStatus → Bool
is_active RunStatus.pending = true
is_active RunStatus.running = true
is_active _ = false

abbrev pub is_pending : RunStatus → Bool
is_pending RunStatus.pending = true
is_pending _ = false

abbrev pub is_cancelled_status : RunStatus → Bool
is_cancelled_status RunStatus.cancelled = true
is_cancelled_status _ = false

-- Equality of statuses, as in `status not in filter`.
abbrev pub status_eq : RunStatus → RunStatus → Bool
status_eq RunStatus.pending RunStatus.pending = true
status_eq RunStatus.running RunStatus.running = true
status_eq RunStatus.succeeded RunStatus.succeeded = true
status_eq RunStatus.failed RunStatus.failed = true
status_eq RunStatus.cancelled RunStatus.cancelled = true
status_eq RunStatus.timeout RunStatus.timeout = true
status_eq _ _ = false

-- `x or y` of texts, which passes over None and the empty text.
abbrev pub or_text : Option String → String → String
or_text none d = d
or_text (some s) d = if str_eq s "" then d else s

-- A handler returns a value or raises.
pub data Outcome (A : Type 0) : Type 0 where
  returned : A → Outcome A
  raised : PyException → Outcome A
