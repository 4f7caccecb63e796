-- ===== src/Executor.antt =====
-- src/python_tty/executor/executor.py: the command executor's state, its audit hooks and its events.
-- `World` is what the executor reads of asyncio: which loops run, and the loop of the calling
-- thread. Times are in milliseconds, read off the executor's clock.

pub mod Running
pub mod Items
pub mod Finishing
pub mod Outcomes
pub mod Submission
pub mod Waiting
pub mod Skipping
pub mod Numbering
pub mod Contexts
pub mod Races
pub mod Workers
pub mod Bindings
use python_tty.Prelude.{
  ℕ, String, Bool, true, false, not, ◌&&◌, ◌||◌, Option, none, some, List, [], ◌∷◌, ◌++◌,
  if◌then◌else◌, ◌==◌, or_else, is_some,
}
use python_tty.Prelude.Dict.{Dict}
use python_tty.Config.{ExecutorConfig}
use python_tty.Audit.{AuditSink, AuditRecord, event, write_record}
use python_tty.Models.{
  or_text, PyException, console_exit, sub_console_exit, cancelled_error, base_exception, Value,
  text, Invocation,
}
use python_tty.Runtime.Events.{RuntimeEvent, RuntimeEventKind, UiEventLevel}
use python_tty.Runtime.Jobs.{JobStore, get_invocation, set_loop}
use python_tty.Runtime.Jobs
use python_tty.Runtime.Jobs.Publishing.{next_event_seq}
use python_tty.Runtime.Jobs.Publishing

pub record World : Type 0 where
  pub is_running : ℕ → Bool
  pub current : Option ℕ

-- An invocation with its handler; `none` is the executor's `_missing_handler`.
pub record WorkItem (Handler Any : Type 0) : Type 0 where
  pub invocation : Invocation Any
  pub handler : Option Handler

-- `workers` counts the worker tasks, and `scheduled` holds the publications that other threads have
-- handed to the loop by call_soon_threadsafe.
pub record CommandExecutor (Handler Any : Type 0) : Type 0 where
  pub config : ExecutorConfig (AuditSink Any)
  pub store : JobStore Any
  pub loop : Option ℕ
  pub queue : Option (List (WorkItem Handler Any))
  pub workers : ℕ
  pub audit_sink : Option (AuditSink Any)
  pub scheduled : List (Option String × RuntimeEvent Any)
  pub clock : ℕ

-- The exceptions that count as cancellations: the default tuple, or the configured test.
abbrev pub default_exempt : PyException → Bool
default_exempt console_exit = true
default_exempt sub_console_exit = true
default_exempt cancelled_error = true
default_exempt _ = false

abbrev pub is_exempt : {Sink : Type 0} → ExecutorConfig Sink → PyException → Bool
is_exempt c e = or_else c.exempt_exceptions default_exempt e

-- isinstance(exc, Exception)
abbrev pub is_exception : PyException → Bool
is_exception cancelled_error = false
is_exception (base_exception _) = false
is_exception _ = true

module _ {Any : Type 0} where
  abbrev pub record_if : Option (AuditSink Any) → AuditRecord Any → Option (AuditSink Any)
  record_if none r = none
  record_if (some s) r = some (write_record r s)

  abbrev pub with_run_id : String → RuntimeEvent Any → RuntimeEvent Any
  with_run_id run_id ev = if is_some ev.run_id then ev else record ev { run_id = some run_id }

  -- _build_run_event
  abbrev pub build_run_event :
      ℕ → String → UiEventLevel → Option (Dict (Value Any)) → Option String → RuntimeEvent Any
  build_run_event now event_type level payload source = record {
    kind = some RuntimeEventKind.state;
    msg = some (text event_type);
    level = level;
    run_id = none;
    event_type = some event_type;
    payload = payload;
    source = source;
    ts = some now;
    seq = none;
    session_id = none;
    parent_run_id = none;
    depth = none;
    origin_source = none;
    principal = none;
    lock_key = none;
    command_id = none;
    callable_meta = none;
  }

  -- _attach_event_context
  unfoldable pub attach_event_context :
      Option (Invocation Any) → RuntimeEvent Any → RuntimeEvent Any
  attach_event_context none ev = ev
  attach_event_context (some i) ev = record ev {
    session_id = i.session_id;
    parent_run_id = i.parent_run_id;
    depth = some i.depth;
    origin_source = some (or_text i.origin_source i.source);
    principal = i.principal;
    lock_key = some i.lock_key;
    command_id = i.command_id;
    callable_meta = i.callable_meta;
  }

module _ {Handler Any : Type 0} where
  -- __init__, with the sink that `_init_audit_sink` makes
  unfoldable pub init :
      ExecutorConfig (AuditSink Any)
      → Option ℕ
      → Option (AuditSink Any)
      → ℕ
      → CommandExecutor Handler Any
  unfolding Jobs.init
  init config loop sink clock = record {
    config = config;
    store =
        Jobs.init config.retain_last_n config.ttl_seconds config.event_history_max
          config.event_history_ttl;
    loop = loop;
    queue = none;
    workers = 0;
    scheduled = [];
    clock = clock;
    audit_sink =
        if config.audit.enabled
        then (if is_some config.audit.sink then config.audit.sink else sink)
        else none;
  }

  -- `self._loop is not None and self._loop.is_running()`
  abbrev pub loop_running : World → CommandExecutor Handler Any → Bool
  loop_running w e = elim e.loop [ none ↦ false | some l ↦ w.is_running l ]

  -- `running_loop == self._loop`
  abbrev pub on_loop : World → CommandExecutor Handler Any → Bool
  on_loop w e = elim w.current [
    | none ↦ elim e.loop [ none ↦ true | some l ↦ false ]
    | some c ↦ elim e.loop [ none ↦ false | some l ↦ c == l ]
  ]

  -- _audit_invocation, _audit_run_state and the audit of an event
  unfoldable pub audit : AuditRecord Any → CommandExecutor Handler Any → CommandExecutor Handler Any
  audit r e = record e { audit_sink = record_if e.audit_sink r }

  -- `if getattr(event, "seq", None) is None: event.seq = next_event_seq(run_id)`
  unfoldable pub number_event :
      String
      → RuntimeEvent Any
      → CommandExecutor Handler Any
      → CommandExecutor Handler Any × RuntimeEvent Any
  number_event run_id ev e = elim ev.seq [
    | some n ↦ (e, ev)
    | none ↦
        let (s, n) = next_event_seq run_id e.store in
        (record e { store = s }, record ev { seq = some n })
  ]

  -- The store's publication, at once or through the loop's queue of callbacks.
  unfoldable pub publish_on_loop :
      World → String → RuntimeEvent Any → CommandExecutor Handler Any → CommandExecutor Handler Any
  publish_on_loop w run_id ev e =
      if loop_running w e && not (on_loop w e)
      then record e { scheduled = e.scheduled ++ (some run_id, ev) ∷ [] }
      else record e { store = Publishing.publish_event e.clock (some run_id) ev e.store }

  -- publish_event
  unfoldable pub publish_event :
      World → String → RuntimeEvent Any → CommandExecutor Handler Any → CommandExecutor Handler Any
  unfolding number_event publish_on_loop audit
  publish_event w run_id ev e =
      let (e', ev') = number_event run_id (with_run_id run_id ev) e in
      audit (event ev') (publish_on_loop w run_id ev' e')

  -- _emit_run_event
  unfoldable pub emit_run_event :
      World
      → String
      → String
      → UiEventLevel
      → Option (Dict (Value Any))
      → Option String
      → Bool
      → CommandExecutor Handler Any
      → CommandExecutor Handler Any
  emit_run_event w run_id event_type level payload source force e =
      if force || e.config.emit_run_events
      then publish_event w run_id
          (attach_event_context (get_invocation run_id e.store)
            (build_run_event e.clock event_type level payload source))
          e
      else e
