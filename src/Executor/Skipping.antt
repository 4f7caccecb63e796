-- ===== src/Executor/Skipping.antt =====
-- A run that is cancelled before it starts (executor.py, `cancel` and `_execute_work_item`).
use python_tty.Prelude.{ℕ, ◌≡◌, ap, ◌∙◌, String, true, some, arith}
use python_tty.Prelude.Dict.{get}
use python_tty.Models.{RunStatus, is_cancelled_status, returned}
use python_tty.Runtime.Jobs.{CancelReply, cancelled, requested, missing, noop}
use python_tty.Runtime.Jobs.Lifecycle.{cancelled_state}
use python_tty.Runtime.Jobs.Lifecycle
use python_tty.Runtime.Jobs.Invariant.{IsValid}
use python_tty.Runtime.Jobs.Cancellation.{cancel_lem, reply_for, state_after}
use python_tty.Executor.{World, WorkItem, CommandExecutor, audit}
use python_tty.Executor.Running.{Handlers}
use python_tty.Executor.Items.{execute_work_item}
use python_tty.Executor.Waiting.{cancel, after_cancel, audit_stored}
use python_tty.Executor.Finishing.{SameRuns, SameRuns-refl, emit_run_event-SameRuns}

module _ {Handler Any : Type 0} where
  audit_stored-SameRuns :
      (r : String) (e : CommandExecutor Handler Any) → SameRuns e (audit_stored r e)
  unfolding audit
  audit_stored-SameRuns r e = record {
    states = ground arith;
    runs = ground arith;
    run_futures = ground arith;
    futures = ground arith;
    clock = ground arith;
  }

  SameRuns-trans :
      {e f g : CommandExecutor Handler Any} → SameRuns e f → SameRuns f g → SameRuns e g
  SameRuns-trans p q = record {
    states = q.states ∙ p.states;
    runs = q.runs ∙ p.runs;
    run_futures = q.run_futures ∙ p.run_futures;
    futures = q.futures ∙ p.futures;
    clock = q.clock ∙ p.clock;
  }

  after_cancel-SameRuns :
      (w : World) (r : String) (c : CancelReply) (e : CommandExecutor Handler Any)
      → SameRuns e (after_cancel w r c e)
  unfolding after_cancel
  after_cancel-SameRuns w r cancelled e =
      SameRuns-trans (audit_stored-SameRuns r e)
        (emit_run_event-SameRuns w r _ _ _ _ _ (audit_stored r e))
  after_cancel-SameRuns w r requested e = emit_run_event-SameRuns w r _ _ _ _ _ e
  after_cancel-SameRuns w r missing e = SameRuns-refl e
  after_cancel-SameRuns w r noop e = SameRuns-refl e

  -- Cancelling a run of a valid store through the executor replies by the run's status; the run's
  -- state is cancelled at the time of the call if it was pending, and unchanged otherwise.
  pub cancel-state :
      (w : World) (r : String) (a : ℕ) (e : CommandExecutor Handler Any)
      → IsValid e.store
      → get r e.store.runs ≡ some a
      → ((cancel w r e).1 ≡ reply_for (e.store.states.cell a).status)
        × ((cancel w r e).0.store.states.cell a
            ≡ state_after e.clock (e.store.states.cell a).status (e.store.states.cell a))
  unfolding cancel
  cancel-state w r a e v h =
      let (p, _, q) = cancel_lem e.clock a r e.store v h in
      let same =
        after_cancel-SameRuns w r (Lifecycle.cancel e.clock r e.store).1
          (record e { store = (Lifecycle.cancel e.clock r e.store).0 }) in
      (p, ap (λ h. h.cell a) same.states ∙ q)

module _ {Handler Awaitable Any : Type 0} (handlers : Handlers Handler Awaitable Any) where
  -- Once a pending run of a valid store is cancelled, the worker that takes its item returns and
  -- leaves the executor exactly as it was.
  pub execute-cancel :
      (w u : World) (item : WorkItem Handler Any) (r : String) (a : ℕ)
      (e : CommandExecutor Handler Any)
      → IsValid e.store
      → get r e.store.runs ≡ some a
      → (e.store.states.cell a).status ≡ RunStatus.pending
      → execute_work_item handlers u item (some a) (cancel w r e).0
        ≡ ((cancel w r e).0, returned tt)
  unfolding execute_work_item
  execute-cancel w u item r a e v h p =
      let (_, s) = cancel-state w r a e v h in
      let c : is_cancelled_status ((cancel w r e).0.store.states.cell a).status ≡ true =
        ground (arith, s, p) in
      rw c
