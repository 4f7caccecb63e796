-- ===== src/Executor/Waiting.antt =====
-- src/python_tty/executor/executor.py: waiting for results, cancelling and streaming events.
use python_tty.Prelude.{ℕ, String, true, ◌&&◌, Option, none, some, if◌then◌else◌, is_some, ℤ}
use python_tty.Models.{cancelled_error, exception, RunState, is_active, Outcome, returned, raised}
use python_tty.Audit.{run_state}
use python_tty.Runtime.Events.{UiEventLevel}
use python_tty.Runtime.Jobs.{
  Future, CancelReply, cancelled, requested, get_run_state, get_future, get_invocation,
}
use python_tty.Runtime.Jobs.Lifecycle.{Await, settled, awaits, result, pop_run, outcome_of_state}
use python_tty.Runtime.Jobs.Lifecycle
use python_tty.Runtime.Jobs.Publishing
use python_tty.Executor.{World, CommandExecutor, audit, emit_run_event, loop_running, on_loop}

-- What an awaited future gives; `none` while it waits.
abbrev pub future_outcome : {Any : Type 0} → Future Any → Option (Outcome (Option Any))
future_outcome Future.waiting = none
future_outcome (Future.resolved v) = some (returned v)
future_outcome (Future.failed x) = some (raised x)
future_outcome Future.dropped = some (raised cancelled_error)

abbrev pub stored_outcome : {Any : Type 0} → RunState Any → Outcome (Option Any)
stored_outcome r =
    if is_active r.status
    then raised (exception "Run is still pending but executor loop is not running")
    else outcome_of_state r

module _ {Handler Any : Type 0} where
  -- the `finally` block of both waits
  unfoldable pub pop_if_configured :
      String → CommandExecutor Handler Any → CommandExecutor Handler Any
  pop_if_configured run_id e =
      if e.config.pop_on_wait then record e { store = (pop_run run_id e.store).0 } else e

  abbrev waited :
      String
      → Option (Outcome (Option Any))
      → CommandExecutor Handler Any
      → CommandExecutor Handler Any × Option (Outcome (Option Any))
  waited run_id none e = (e, none)
  waited run_id (some out) e = (pop_if_configured run_id e, some out)

  -- wait_result, as far as it gets now: `none` is a wait that goes on
  unfoldable pub wait_result :
      String
      → CommandExecutor Handler Any
      → CommandExecutor Handler Any × Option (Outcome (Option Any))
  unfolding pop_if_configured result
  wait_result run_id e = elim (result run_id e.store) [
    | settled out ↦ (pop_if_configured run_id e, some out)
    | awaits f ↦ waited run_id (future_outcome (e.store.futures.cell f)) e
  ]

  -- wait_result_sync from a thread that is not the loop's. Where the loop runs it waits on the
  -- loop; where it does not, it reads the run's state.
  unfoldable pub wait_result_sync :
      World
      → String
      → CommandExecutor Handler Any
      → CommandExecutor Handler Any × Option (Outcome (Option Any))
  unfolding wait_result get_future get_run_state
  wait_result_sync w run_id e =
      if is_some w.current && on_loop w e
      then (
        pop_if_configured run_id e,
        some (raised (exception "wait_result_sync cannot be called from the executor loop thread")),
      )
      else if loop_running w e && is_some (get_future run_id e.store)
      then wait_result run_id e
      else elim (get_run_state run_id e.store) [
        | none ↦ (pop_if_configured run_id e, some (returned none))
        | some a ↦
            if is_active (e.store.states.cell a).status && loop_running w e
            then wait_result run_id e
            else (pop_if_configured run_id e, some (stored_outcome (e.store.states.cell a)))
      ]

  abbrev pub source_of : String → CommandExecutor Handler Any → Option String
  source_of run_id e = elim (get_invocation run_id e.store) [ none ↦ none | some i ↦ some i.source ]

  abbrev pub audit_stored : String → CommandExecutor Handler Any → CommandExecutor Handler Any
  audit_stored run_id e = elim (get_run_state run_id e.store) [
    | none ↦ e
    | some a ↦ audit (run_state (e.store.states.cell a)) e
  ]

  -- The events of `cancel`: both are emitted also where run events are off.
  unfoldable pub after_cancel :
      World → String → CancelReply → CommandExecutor Handler Any → CommandExecutor Handler Any
  after_cancel w run_id cancelled e =
      emit_run_event w run_id "cancelled" UiEventLevel.info none (source_of run_id e) true
        (audit_stored run_id e)
  after_cancel w run_id requested e =
      emit_run_event w run_id "cancel_requested" UiEventLevel.info none (source_of run_id e) true e
  after_cancel w run_id _ e = e

  -- cancel
  unfoldable pub cancel :
      World → String → CommandExecutor Handler Any → CommandExecutor Handler Any × CancelReply
  cancel w run_id e =
      let (s, reply) = Lifecycle.cancel e.clock run_id e.store in
      (after_cancel w run_id reply (record e { store = s }), reply)

  -- stream_events; the subscription is made on the executor's loop
  unfoldable pub stream_events :
      World
      → String
      → Option ℤ
      → ℤ
      → CommandExecutor Handler Any
      → CommandExecutor Handler Any × Outcome ℕ
  stream_events w run_id since_seq maxsize e =
      if loop_running w e
      then (let (s, q) = Publishing.events e.loop run_id since_seq maxsize e.store in
          (record e { store = s }, q))
      else (e, raised (exception "Event loop is not running"))
