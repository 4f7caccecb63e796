-- ===== src/Executor/Items.antt =====
-- src/python_tty/executor/executor.py, `_execute_work_item` and `_run_inline`: a run from its start to
-- its final state. Both methods are written out in the source; they differ in how the handler is
-- run and in that only the first resolves the run's future.
use python_tty.Prelude.{ℕ, String, Bool, true, false, Option, none, some, [], ◌∷◌, if◌then◌else◌}
use python_tty.Prelude.Heap.{write}
use python_tty.Models.{
  RunStatus, PyException, timeout_error, str_of_exception, text, Invocation, RunState,
  is_cancelled_status, Outcome, returned, raised,
}
use python_tty.Config.{ExecutorConfig}
use python_tty.Audit.{run_state}
use python_tty.Runtime.Events.{UiEventLevel}
use python_tty.Runtime.Context.{RunContext}
use python_tty.Runtime.Jobs.Lifecycle.{resolve_future, get_cancel_flag}
use python_tty.Runtime.Jobs.Cleanup.{cleanup}
use python_tty.Executor.{
  World, WorkItem, CommandExecutor, is_exempt, is_exception, audit, emit_run_event,
}
use python_tty.Executor.Running.{Handlers, run_handler, run_handler_inline}

-- Which clause of the `try` statement an outcome meets.
pub data Verdict (Any : Type 0) : Type 0 where
  success : Option Any → Verdict Any
  timed_out exempted failure uncaught : PyException → Verdict Any

abbrev by_class : {Any Sink : Type 0} → ExecutorConfig Sink → PyException → Verdict Any
by_class c x =
    if is_exempt c x then exempted x else if is_exception x then failure x else uncaught x

unfoldable pub verdict_of :
    {Any Sink : Type 0} → ExecutorConfig Sink → Outcome (Option Any) → Verdict Any
verdict_of c (returned v) = success v
verdict_of c (raised timeout_error) = timed_out timeout_error
verdict_of c (raised x) = by_class c x

-- What the clause writes into the run state.
abbrev pub conclude_state : {Any : Type 0} → Verdict Any → RunState Any → RunState Any
conclude_state (success v) r = record r { result = v; status = RunStatus.succeeded }
conclude_state (timed_out x) r = record r { error = some x; status = RunStatus.timeout }
conclude_state (exempted x) r = record r { error = some x; status = RunStatus.cancelled }
conclude_state (failure x) r = record r { error = some x; status = RunStatus.failed }
conclude_state (uncaught x) r = r

-- An exception that leaves the `finally` block: the cleanup's, or else the uncaught one.
abbrev pub escaping : {Any : Type 0} → Verdict Any → Outcome (Unit {0}) → Outcome (Unit {0})
escaping v (raised x) = raised x
escaping (uncaught x) (returned _) = raised x
escaping _ (returned _) = returned tt

module _ {Handler Any : Type 0} where
  abbrev pub update_state :
      ℕ → (RunState Any → RunState Any) → CommandExecutor Handler Any → CommandExecutor Handler Any
  update_state a f e = record e {
    store = record (e.store) { states = write a (f (e.store.states.cell a)) e.store.states };
  }

  abbrev id_of : ℕ → CommandExecutor Handler Any → String
  id_of a e = (e.store.states.cell a).run_id

  -- The clause's event: type, level, and whether it is emitted also where run events are off.
  unfoldable pub emit_verdict :
      World
      → ℕ
      → Invocation Any
      → Verdict Any
      → CommandExecutor Handler Any
      → CommandExecutor Handler Any
  emit_verdict w a i (success v) e =
      emit_run_event w (id_of a e) "success" UiEventLevel.success none (some i.source) false e
  emit_verdict w a i (timed_out x) e =
      emit_run_event w (id_of a e) "timeout" UiEventLevel.warning none (some i.source) true e
  emit_verdict w a i (exempted x) e =
      emit_run_event w (id_of a e) "cancelled" UiEventLevel.info none (some i.source) false e
  emit_verdict w a i (failure x) e =
      emit_run_event w (id_of a e) "failure" UiEventLevel.error
        (some (("error", text (str_of_exception x)) ∷ [])) (some i.source) true e
  emit_verdict w a i (uncaught x) e = e

  -- _resolve_future, with the clause's result or error
  unfoldable pub resolve_verdict :
      ℕ → Verdict Any → CommandExecutor Handler Any → CommandExecutor Handler Any
  resolve_verdict a (success v) e = record e { store = resolve_future (id_of a e) v none e.store }
  resolve_verdict a (timed_out x) e = record e {
    store = resolve_future (id_of a e) none (some x) e.store;
  }
  resolve_verdict a (exempted x) e = record e {
    store = resolve_future (id_of a e) none (some x) e.store;
  }
  resolve_verdict a (failure x) e = record e {
    store = resolve_future (id_of a e) none (some x) e.store;
  }
  resolve_verdict a (uncaught x) e = e

  -- status, started_at, audit and the "start" event
  unfoldable pub begin_run :
      World → ℕ → Invocation Any → CommandExecutor Handler Any → CommandExecutor Handler Any
  begin_run w a i e =
      let e' =
        update_state a (λ r. record r { status = RunStatus.running; started_at = some e.clock })
          e in
      let e'' = audit (run_state (e'.store.states.cell a)) e' in
      emit_run_event w (id_of a e'') "start" UiEventLevel.info none (some i.source) false e''

  -- The arguments of `use_run_context`.
  unfoldable pub context_for : ℕ → Invocation Any → CommandExecutor Handler Any → RunContext Any
  context_for a i e = record {
    run_id = some (id_of a e);
    source = some i.source;
    emits = true;
    cancel_flag = get_cancel_flag (id_of a e) e.store;
    session_id = i.session_id;
    parent_run_id = i.parent_run_id;
    depth = some i.depth;
    origin_source = i.origin_source;
    principal = i.principal;
    lock_key = some i.lock_key;
    command_id = i.command_id;
    callable_meta = i.callable_meta;
  }

  -- the `finally` block
  unfoldable pub end_run :
      ℕ
      → Verdict Any
      → CommandExecutor Handler Any
      → CommandExecutor Handler Any × Outcome (Unit {0})
  end_run a v e =
      let e' = update_state a (λ r. record r { finished_at = some e.clock }) e in
      let e'' = audit (run_state (e'.store.states.cell a)) e' in
      let (s, out) = cleanup e''.clock e''.store in (record e'' { store = s }, escaping v out)

  -- From the handler's outcome on, with or without the future.
  unfoldable pub conclude :
      World
      → Bool
      → ℕ
      → Invocation Any
      → Verdict Any
      → CommandExecutor Handler Any
      → CommandExecutor Handler Any × Outcome (Unit {0})
  unfolding end_run
  conclude w with_future a i v e =
      let e' = emit_verdict w a i v (update_state a (conclude_state v) e) in
      end_run a v (if with_future then resolve_verdict a v e' else e')

module _ {Handler Awaitable Any : Type 0} (handlers : Handlers Handler Awaitable Any) where
  abbrev pub run_state_at :
      World
      → WorkItem Handler Any
      → ℕ
      → CommandExecutor Handler Any
      → CommandExecutor Handler Any × Outcome (Unit {0})
  run_state_at w item a e =
      let i = item.invocation in
      let e' = begin_run w a i e in
      let (e'', out) = run_handler handlers item.handler (context_for a i e') i e' in
      conclude w true a i (verdict_of e''.config out) e''

  -- _execute_work_item, at the address of the run state if there is one
  unfoldable pub execute_work_item :
      World
      → WorkItem Handler Any
      → Option ℕ
      → CommandExecutor Handler Any
      → CommandExecutor Handler Any × Outcome (Unit {0})
  execute_work_item w item none e = (e, returned tt)
  execute_work_item w item (some a) e =
      if is_cancelled_status (e.store.states.cell a).status
      then (e, returned tt)
      else run_state_at w item a e

  abbrev pub run_inline_at :
      World
      → WorkItem Handler Any
      → ℕ
      → CommandExecutor Handler Any
      → CommandExecutor Handler Any × Outcome (Unit {0})
  run_inline_at w item a e =
      let i = item.invocation in
      let e' = begin_run w a i e in
      let (e'', out) = run_handler_inline handlers w item.handler (context_for a i e') i e' in
      conclude w false a i (verdict_of e''.config out) e''

  -- _run_inline
  unfoldable pub run_inline :
      World
      → WorkItem Handler Any
      → Option ℕ
      → CommandExecutor Handler Any
      → CommandExecutor Handler Any × Outcome (Unit {0})
  run_inline w item none e = (e, returned tt)
  run_inline w item (some a) e =
      if is_cancelled_status (e.store.states.cell a).status
      then (e, returned tt)
      else run_inline_at w item a e
