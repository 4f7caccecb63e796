-- ===== src/Examples/Runs.antt =====
-- The theorems about the executor's runs on small inputs.
use python_tty.Prelude.{ℕ, ◌≡◌, refl, true, Option, none, some}
use python_tty.Prelude.Dict.{get, put}
use python_tty.Models.{RunStatus, PyException, exception, timeout_error, returned, raised}
use python_tty.Runtime.Jobs.{is_done, init, create_run, set_future, state_of_invocation}
use python_tty.Runtime.EventBus.{history_of}
use python_tty.Runtime.EventBus
use python_tty.Executor.{World, WorkItem, CommandExecutor, publish_event}
use python_tty.Executor
use python_tty.Executor.Items.{verdict_of, failure, conclude, execute_work_item}
use python_tty.Executor.Waiting.{cancel, wait_result}
use python_tty.Executor.Submission.{enqueue}
use python_tty.Executor.Races.{wait_result-cancelled}
use python_tty.Executor.Outcomes.{EndsAs}
use python_tty.Executor.Finishing.{conclude-final_state, conclude-future_done}
use python_tty.Executor.Skipping.{execute-cancel}
use python_tty.Executor.Numbering.{IsNumbered, publish_event-IsNumbered}
use python_tty.Examples.Samples.{one_run, invocation_of, progress, world, executor_of, synchronous}
use python_tty.Examples.Jobs.{one_run-IsValid}

conclude-final_state_example :
    (status : RunStatus) × (result : Option ℕ) × (error : Option PyException) × EndsAs
      (executor_of one_run).config
      (one_run.states.cell 0)
      (raised timeout_error)
      status
      result
      error
    × ((conclude world true 0
            (invocation_of "a")
            (verdict_of (executor_of one_run).config (raised timeout_error))
            (executor_of one_run)).0.store.states.cell
          0
        ≡ record (one_run.states.cell 0) {
          status = status;
          result = result;
          error = error;
          finished_at = some 7;
        })
unfolding Executor.init
conclude-final_state_example =
    conclude-final_state world true 0 (invocation_of "a") (raised timeout_error)
      (executor_of one_run)

conclude-future_done_example :
    is_done (
      (conclude world true 0
          (invocation_of "a")
          (failure (exception "no"))
          (executor_of one_run)).0.store.futures.cell
        0)
    ≡ true
unfolding set_future create_run init get put state_of_invocation
conclude-future_done_example =
    conclude-future_done world 0 0 (invocation_of "a") (failure (exception "no"))
      (executor_of one_run) refl refl

abbrev item : WorkItem ℕ ℕ
item = record { invocation = invocation_of "a"; handler = some 4 }

execute-cancel_example :
    execute_work_item synchronous world item (some 0) (cancel world "a" (executor_of one_run)).0
    ≡ ((cancel world "a" (executor_of one_run)).0, returned tt)
unfolding set_future create_run init get put state_of_invocation
execute-cancel_example =
    execute-cancel synchronous world world item "a" 0 (executor_of one_run) one_run-IsValid refl
      refl

one_run-IsNumbered : IsNumbered "a" one_run
unfolding set_future create_run init EventBus.init history_of get put
one_run-IsNumbered = record { rising = tt; counted = tt }

publish_event-IsNumbered_example :
    IsNumbered "a" (publish_event world "a" progress (executor_of one_run)).store
unfolding Executor.init
publish_event-IsNumbered_example =
    publish_event-IsNumbered world "a" "a" progress (executor_of one_run) refl refl
      one_run-IsNumbered one_run-IsNumbered

wait_result-cancelled_example :
    (wait_result "a"
      (execute_work_item synchronous world item
        (some 0)
        (enqueue "a" item (cancel world "a" (executor_of one_run)).0)).0).1
    ≡ none
unfolding set_future create_run init get put state_of_invocation
wait_result-cancelled_example =
    wait_result-cancelled synchronous world world item "a" 0 (executor_of one_run) one_run-IsValid
      refl refl
