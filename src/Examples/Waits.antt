-- ===== src/Examples/Waits.antt =====
-- The theorem about waits with a timeout on a small input.
use python_tty.Prelude.{◌≡◌, refl, true, none, some, [], ◌∷◌, pos}
use python_tty.Prelude.Dict.{get, put}
use python_tty.Models.{timeout_error, cancelled_error, raised}
use python_tty.Runtime.Jobs.{init, create_run, set_future, get_future}
use python_tty.Runtime.Jobs.Lifecycle.{resolve_future}
use python_tty.Runtime.Jobs.Publishing.{next_event_seq}
use python_tty.Runtime.Jobs.Histories.{steps, resolves, numbers}
use python_tty.Executor
use python_tty.Executor.Waiting.{wait_result}
use python_tty.Session.Waiting.{result, result-expired}
use python_tty.Examples.Sessions.{manager}

result-expired_example :
    ((result true "a" (some (pos 5)) manager).1 ≡ some (raised timeout_error))
    × ((wait_result "a" (record manager.executor {
      store =
          steps
            (numbers "a" ∷ resolves "a" (some 4) none ∷ [])
            (result true "a" (some (pos 5)) manager).0.executor.store;
    })).1
        ≡ some (raised cancelled_error))
unfolding set_future create_run init get put get_future Executor.init next_event_seq resolve_future
    result
result-expired_example =
    result-expired "a" 4 (numbers "a" ∷ resolves "a" (some 4) none ∷ []) manager 0 refl refl refl
      refl
