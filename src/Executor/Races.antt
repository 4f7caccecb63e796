-- ===== src/Executor/Races.antt =====
-- A cancellation that falls between the registration of a run and its queueing (executor.py,
-- `submit_threadsafe`, which registers in the caller's thread and queues on the loop's).
use python_tty.Prelude.{ℕ, ◌≡◌, String, true, none, some, arith}
use python_tty.Prelude.Dict.{get, get-put_self}
use python_tty.Models.{RunStatus, is_cancelled_status}
use python_tty.Runtime.Jobs.{set_future, get_future}
use python_tty.Runtime.Jobs.Invariant.{IsValid}
use python_tty.Runtime.Jobs.Lifecycle.{result}
use python_tty.Executor.{World, WorkItem, CommandExecutor}
use python_tty.Executor.Running.{Handlers}
use python_tty.Executor.Items.{execute_work_item}
use python_tty.Executor.Waiting.{cancel, wait_result}
use python_tty.Executor.Submission.{enqueue}
use python_tty.Executor.Skipping.{cancel-state}

module _ {Handler Any : Type 0} where
  wait_result-enqueue :
      (r : String) (item : WorkItem Handler Any) (e : CommandExecutor Handler Any)
      → (wait_result r (enqueue r item e)).1 ≡ none
  unfolding wait_result result enqueue set_future get_future
  wait_result-enqueue r item e =
      ground (arith, get-put_self r e.store.futures.next e.store.run_futures)

module _ {Handler Awaitable Any : Type 0} (handlers : Handlers Handler Awaitable Any) where
  -- Where a pending run of a valid store is cancelled before its item is queued, waiting for its
  -- result after the worker has taken the item does not end: the item's new future is still
  -- waiting.
  pub wait_result-cancelled :
      (w u : World) (item : WorkItem Handler Any) (r : String) (a : ℕ)
      (e : CommandExecutor Handler Any)
      → IsValid e.store
      → get r e.store.runs ≡ some a
      → (e.store.states.cell a).status ≡ RunStatus.pending
      → (wait_result r
          (execute_work_item handlers u item (some a) (enqueue r item (cancel w r e).0)).0).1
        ≡ none
  unfolding execute_work_item
  wait_result-cancelled w u item r a e v h p =
      let (_, s) = cancel-state w r a e v h in
      let c : is_cancelled_status ((enqueue r item (cancel w r e).0).store.states.cell a).status
          ≡ true =
        unfold enqueue set_future in ground (arith, s, p) in
      rw c (wait_result-enqueue r item (cancel w r e).0)
