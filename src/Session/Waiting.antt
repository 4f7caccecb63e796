-- ===== src/Session/Waiting.antt =====
-- src/python_tty/session/manager.py: waiting for a run's result, for a submitted command's or
-- callable's, and the calls that are passed on to the executor. `expires` says whether the time that
-- `asyncio.wait_for` is given runs out while the wait goes on; the wait is then cancelled, and with
-- it the future that it awaits. A time that is not positive has run out before the wait begins.
use python_tty.Prelude.{
  ℕ, ◌≡◌, ap, ◌∙◌, String, Bool, true, false, Option, none, some, List, if◌then◌else◌, ℤ, pos,
  negsuc, suc, ◌==◌, arith,
}
use python_tty.Prelude.Dict.{Dict}
use python_tty.Models.{Value, cancelled_error, timeout_error, Outcome, returned, raised}
use python_tty.Runtime.Context.{RunContext}
use python_tty.Runtime.Jobs.{JobStore, Future, is_done, CancelReply, get_run_state, get_future}
use python_tty.Runtime.Jobs.Lifecycle.{settled, awaits, settle}
use python_tty.Runtime.Jobs.Lifecycle
use python_tty.Runtime.Jobs.Histories.{Call, steps, steps-Preserves}
use python_tty.Executor.{World, CommandExecutor}
use python_tty.Executor.Running.{Handlers}
use python_tty.Executor.Waiting.{wait_result, pop_if_configured}
use python_tty.Executor.Waiting
use python_tty.Session.Admission.{Request}
use python_tty.Session.Submission.{SessionManager, submit_command, submit_callable}

settle-dropped :
    {Any : Type 0}
    → (f : ℕ) (s : JobStore Any) (cs : List (Call Any)) → s.futures.cell f ≡ Future.waiting
    → (steps cs (settle f Future.dropped s)).futures.cell f ≡ Future.dropped
settle-dropped f s cs w =
    let d : (settle f Future.dropped s).futures.cell f ≡ Future.dropped = ground (arith, w) in
    (steps-Preserves cs (settle f Future.dropped s)).futures f (ap is_done d) ∙ d

-- A time that has run out before the wait begins: `asyncio.wait_for` then never starts the coroutine.
abbrev pub is_over : ℤ → Bool
is_over (pos n) = n == 0
is_over (negsuc n) = true

module _ {Handler Any : Type 0} where
  -- A wait that is cancelled: the future that it awaits is cancelled, and its `finally` block runs.
  unfoldable pub give_up : String → CommandExecutor Handler Any → CommandExecutor Handler Any
  unfolding Lifecycle.result pop_if_configured
  give_up run_id e = elim (Lifecycle.result run_id e.store) [
    | settled _ ↦ e
    | awaits f ↦ pop_if_configured run_id (record e { store = settle f Future.dropped e.store })
  ]

  abbrev pub within :
      Bool
      → String
      → CommandExecutor Handler Any
      → CommandExecutor Handler Any × Option (Outcome (Option Any))
      → CommandExecutor Handler Any × Option (Outcome (Option Any))
  within expires run_id e (e', some out) = (e', some out)
  within expires run_id e (e', none) =
      if expires then (give_up run_id e, some (raised timeout_error)) else (e', none)

  -- What `result` does with the executor.
  unfoldable pub result_of :
      Bool
      → String
      → Option ℤ
      → CommandExecutor Handler Any
      → CommandExecutor Handler Any × Option (Outcome (Option Any))
  unfolding wait_result give_up
  result_of expires run_id none e = wait_result run_id e
  result_of expires run_id (some ms) e =
      let out = within expires run_id e (wait_result run_id e) in
      if is_over ms then (e, some (raised timeout_error)) else out

  -- result
  unfoldable pub result :
      Bool
      → String
      → Option ℤ
      → SessionManager Handler Any
      → SessionManager Handler Any × Option (Outcome (Option Any))
  unfolding result_of
  result expires run_id timeout_ms m =
      let (e, out) = result_of expires run_id timeout_ms m.executor in
      (record m { executor = e }, out)

  -- get_run
  unfoldable pub get_run : String → SessionManager Handler Any → Option ℕ
  unfolding get_run_state
  get_run run_id m = get_run_state run_id m.executor.store

  -- cancel
  unfoldable pub cancel :
      World → String → SessionManager Handler Any → SessionManager Handler Any × CancelReply
  unfolding Waiting.cancel
  cancel w run_id m =
      let (e, reply) = Waiting.cancel w run_id m.executor in (record m { executor = e }, reply)

  -- `return await self.result(run_id, timeout_ms=timeout_ms)` after a submission
  abbrev pub awaited :
      Bool
      → Option ℤ
      → SessionManager Handler Any × Outcome String
      → SessionManager Handler Any × Option (Outcome (Option Any))
  awaited expires timeout_ms (m, raised x) = (m, some (raised x))
  awaited expires timeout_ms (m, returned run_id) = result expires run_id timeout_ms m

  give_up-store :
      (run_id : String) (e : CommandExecutor Handler Any) (f : ℕ)
      → get_future run_id e.store ≡ some f
      → e.config.pop_on_wait ≡ false
      → (give_up run_id e).store ≡ settle f Future.dropped e.store
  unfolding give_up Lifecycle.result pop_if_configured get_future
  give_up-store run_id e f h p = ground (arith, h, p)

  result_of-expired :
      (run_id : String) (ms : ℕ) (e : CommandExecutor Handler Any) (f : ℕ)
      → get_future run_id e.store ≡ some f
      → e.store.futures.cell f ≡ Future.waiting
      → result_of true run_id (some (pos (suc ms))) e
        ≡ (give_up run_id e, some (raised timeout_error))
  unfolding result_of wait_result Lifecycle.result get_future
  result_of-expired run_id ms e f h w = ground (arith, h, w)

  wait_result-dropped :
      (run_id : String) (e : CommandExecutor Handler Any) (f : ℕ)
      → get_future run_id e.store ≡ some f
      → e.store.futures.cell f ≡ Future.dropped
      → (wait_result run_id e).1 ≡ some (raised cancelled_error)
  unfolding wait_result Lifecycle.result get_future
  wait_result-dropped run_id e f h d = ground (arith, h, d)

  -- A wait with a positive timeout, for a run whose future waits, raises TimeoutError where its time runs out,
  -- and it cancels the future for good: after any calls of the store's methods, as long as the run
  -- still has that future, every wait for its result raises CancelledError, whatever the run's
  -- outcome. Where waits do not remove runs.
  pub result-expired :
      (run_id : String) (ms : ℕ) (cs : List (Call Any)) (m : SessionManager Handler Any) (f : ℕ)
      → get_future run_id m.executor.store ≡ some f
      → m.executor.store.futures.cell f ≡ Future.waiting
      → m.executor.config.pop_on_wait ≡ false
      → get_future run_id (steps cs (result true run_id (some (pos (suc ms))) m).0.executor.store)
        ≡ some f
      → ((result true run_id (some (pos (suc ms))) m).1 ≡ some (raised timeout_error))
        × ((wait_result run_id (record m.executor {
          store = steps cs (result true run_id (some (pos (suc ms))) m).0.executor.store;
        })).1
            ≡ some (raised cancelled_error))
  unfolding result
  result-expired run_id ms cs m f h w p k =
      let r = result_of-expired run_id ms m.executor f h w in
      (
        ap (λ x. x.1) r,
        wait_result-dropped run_id
            (record m.executor {
              store = steps cs (result true run_id (some (pos (suc ms))) m).0.executor.store;
            })
            f k
            (rw (r, give_up-store run_id m.executor f h p)
              (settle-dropped f m.executor.store cs w)),
      )

module _ {Handler Awaitable Any : Type 0} (handlers : Handlers Handler Awaitable Any) where
  -- submit_command_and_wait
  unfoldable pub submit_command_and_wait :
      World
      → ℕ
      → String
      → RunContext Any
      → String
      → String
      → List String
      → Dict Any
      → Request
      → Option Handler
      → Bool
      → SessionManager Handler Any
      → SessionManager Handler Any × Option (Outcome (Option Any))
  unfolding submit_command
  submit_command_and_wait w now uuid c session_id command_id argv kwargs q h expires m =
      awaited expires q.timeout_ms (
        submit_command handlers w now uuid c session_id command_id argv kwargs
          (record q { await_result = true }) h m)

  -- submit_callable_and_wait
  unfoldable pub submit_callable_and_wait :
      World
      → ℕ
      → String
      → RunContext Any
      → String
      → Dict (Value Any)
      → Request
      → Option Handler
      → Bool
      → SessionManager Handler Any
      → SessionManager Handler Any × Option (Outcome (Option Any))
  unfolding submit_callable
  submit_callable_and_wait w now uuid c session_id callable_meta q h expires m =
      awaited expires q.timeout_ms (
        submit_callable handlers w now uuid c session_id callable_meta
          (record q { await_result = true }) h m)
