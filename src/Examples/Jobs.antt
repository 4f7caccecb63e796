-- ===== src/Examples/Jobs.antt =====
-- The theorems about the job store on small inputs.
use python_tty.Prelude.{ℕ, ◌≡◌, refl, ◌≤◌, ◌∷◌, [], List, length, none, some}
use python_tty.Prelude.Dict.{get, put}
use python_tty.Runtime.Jobs.{init, create_run, set_future, state_of_invocation}
use python_tty.Runtime.Jobs.Cleanup.{cleanup, completed}
use python_tty.Runtime.Jobs.Invariant.{IsValid, init-IsValid}
use python_tty.Runtime.Jobs.Histories.{
  Call, creates, sets_future, resolves, cancels, cleans, steps, steps-IsValid, steps-Preserves,
  Preserves,
}
use python_tty.Runtime.Jobs.Retention.{cleanup-active}
use python_tty.Runtime.Jobs.Surplus.{cleanup-completed-le}
use python_tty.Examples.Samples.{empty_store, one_run, two_finished, invocation_of}

pub one_run-IsValid : IsValid one_run
one_run-IsValid =
    steps-IsValid (creates (invocation_of "a") ∷ sets_future "a" 0 ∷ []) empty_store
      (init-IsValid _ _ _ _)

-- A run that is created, given a future, cancelled and cleaned up.
abbrev calls : List (Call ℕ)
calls =
    creates (invocation_of "a")
    ∷ sets_future "a" 0
    ∷ cancels 3 "a"
    ∷ resolves "a" (some 4) none
    ∷ cleans 9
    ∷ []

steps-IsValid_example : IsValid (steps calls empty_store)
steps-IsValid_example = steps-IsValid calls empty_store (init-IsValid _ _ _ _)

steps-Preserves_example : Preserves one_run (steps calls one_run)
steps-Preserves_example = steps-Preserves calls one_run

cleanup-active_example : get "a" (cleanup 9 one_run).0.runs ≡ some 0
unfolding set_future create_run init get put state_of_invocation
cleanup-active_example = cleanup-active "a" 0 9 one_run one_run-IsValid refl refl

cleanup-completed-le_example :
    length (completed (cleanup 9 two_finished).0 (cleanup 9 two_finished).0.runs) ≤ 1
unfolding init get cleanup
cleanup-completed-le_example = cleanup-completed-le 9 1 two_finished refl refl
