-- ===== src/Runtime/Jobs/Lifecycle.antt =====
-- src/python_tty/runtime/jobs.py: results, cancellation and removal of runs.
use python_tty.Prelude.{ℕ, String, Bool, true, false, Option, none, some, if◌then◌else◌}
use python_tty.Prelude.Heap.{write}
use python_tty.Prelude.Dict.{get, pop}
use python_tty.Models.{RunStatus, PyException, cancelled_error, RunState, Outcome, returned, raised}
use python_tty.Runtime.EventBus.{drop_run}
use python_tty.Runtime.Jobs.{
  JobStore, Future, is_done, CancelReply, missing, cancelled, requested, noop, get_future,
  get_run_state,
}

-- What `result` does: it returns, raises, or awaits the future at an address.
pub data Await (A : Type 0) : Type 0 where
  settled : Outcome A → Await A
  awaits : ℕ → Await A

module _ {Any : Type 0} where
  abbrev pub outcome_of_state : RunState Any → Outcome (Option Any)
  outcome_of_state r = elim r.error [ some e ↦ raised e | none ↦ returned r.result ]

  -- result
  unfoldable pub result : String → JobStore Any → Await (Option Any)
  unfolding get_future get_run_state
  result run_id s = elim (get_future run_id s) [
    | some f ↦ awaits f
    | none ↦ elim (get_run_state run_id s) [
      | none ↦ settled (returned none)
      | some a ↦ settled (outcome_of_state (s.states.cell a))
    ]
  ]

  -- set_result or set_exception
  abbrev pub completion : Option Any → Option PyException → Future Any
  completion r none = Future.resolved r
  completion r (some e) = Future.failed e

  abbrev pub settle : ℕ → Future Any → JobStore Any → JobStore Any
  settle f v s =
      if is_done (s.futures.cell f) then s else record s { futures = write f v s.futures }

  -- resolve_future
  unfoldable pub resolve_future :
      String → Option Any → Option PyException → JobStore Any → JobStore Any
  unfolding get_future
  resolve_future run_id r error s = elim (get_future run_id s) [
    | none ↦ s
    | some f ↦ settle f (completion r error) s
  ]

  unfoldable pub is_cancelled : String → JobStore Any → Bool
  is_cancelled run_id s = elim (get run_id s.cancel_flags) [
    | none ↦ false
    | some a ↦ s.flags.cell a
  ]

  -- get_cancel_flag: the event's address
  unfoldable pub get_cancel_flag : String → JobStore Any → Option ℕ
  get_cancel_flag run_id s = get run_id s.cancel_flags

  -- `if flag is not None: flag.set()`
  unfoldable pub set_flag : String → JobStore Any → JobStore Any
  set_flag run_id s = elim (get run_id s.cancel_flags) [
    | none ↦ s
    | some a ↦ record s { flags = write a true s.flags }
  ]

  -- The future of a cancelled run fails with the run's error.
  unfoldable pub fail_future : String → JobStore Any → JobStore Any
  fail_future run_id s = elim (get run_id s.run_futures) [
    | none ↦ s
    | some f ↦ settle f (Future.failed cancelled_error) s
  ]

  abbrev pub cancelled_state : ℕ → RunState Any → RunState Any
  cancelled_state now r = record r {
    status = RunStatus.cancelled;
    finished_at = some now;
    error = some cancelled_error;
  }

  abbrev pub cancel_by_status :
      RunStatus → ℕ → String → ℕ → JobStore Any → JobStore Any × CancelReply
  cancel_by_status RunStatus.pending now run_id a s = (
    fail_future run_id
        (record s { states = write a (cancelled_state now (s.states.cell a)) s.states }),
    cancelled,
  )
  cancel_by_status RunStatus.running now run_id a s = (s, requested)
  cancel_by_status _ now run_id a s = (s, noop)

  -- cancel
  unfoldable pub cancel : ℕ → String → JobStore Any → JobStore Any × CancelReply
  cancel now run_id s = elim (get run_id s.runs) [
    | none ↦ (s, missing)
    | some a ↦ cancel_by_status (s.states.cell a).status now run_id a (set_flag run_id s)
  ]

  -- `if future is not None and not future.done(): future.cancel()`
  unfoldable pub drop_future : Option ℕ → JobStore Any → JobStore Any
  drop_future none s = s
  drop_future (some f) s = settle f Future.dropped s

  abbrev pub forget : String → JobStore Any → JobStore Any
  forget run_id s = record s {
    runs = pop run_id s.runs;
    run_futures = pop run_id s.run_futures;
    event_seq = pop run_id s.event_seq;
    invocations = pop run_id s.invocations;
    cancel_flags = pop run_id s.cancel_flags;
    event_bus = drop_run run_id s.event_bus;
  }

  -- pop_run
  unfoldable pub pop_run : String → JobStore Any → JobStore Any × Option ℕ
  pop_run run_id s = (drop_future (get run_id s.run_futures) (forget run_id s), get run_id s.runs)
