-- ===== src/Examples/Samples.antt =====
-- Sample events, stores and executors; application values are numbers.
use python_tty.Prelude.{ℕ, String, true, false, none, some, [], ◌∷◌, pos}
use python_tty.Models.{RunStatus, Invocation, default_invocation, RunState, returned}
use python_tty.Config.{default_executor_config}
use python_tty.Runtime.Events.{RuntimeEvent, UiEventLevel}
use python_tty.Runtime.EventBus.{RunEventBus}
use python_tty.Runtime.EventBus
use python_tty.Runtime.Jobs.{JobStore, Future, create_run, set_future, no_state}
use python_tty.Runtime.Jobs
use python_tty.Executor.{World, CommandExecutor, build_run_event}
use python_tty.Executor
use python_tty.Executor.Running.{Handlers, value}

-- A "progress" event without a number.
abbrev pub progress : RuntimeEvent ℕ
progress = build_run_event 5 "progress" UiEventLevel.info none (some "tty")

abbrev pub progress_at : ℕ → RuntimeEvent ℕ
progress_at n = record progress { seq = some n }

abbrev pub bus_of : ℕ → RunEventBus ℕ
bus_of n = EventBus.init (some (pos n)) none

abbrev pub invocation_of : String → Invocation ℕ
invocation_of r = record default_invocation { run_id = some r }

abbrev pub empty_store : JobStore ℕ
empty_store = Jobs.init (some (pos 1)) none (some (pos 10)) none

-- One pending run at address 0, with its future at address 0.
abbrev pub one_run : JobStore ℕ
one_run = set_future "a" 0 (create_run (invocation_of "a") empty_store).0

abbrev pub finished_at : ℕ → RunState ℕ
finished_at t = record no_state { status = RunStatus.succeeded; finished_at = some t }

-- Two finished runs where one may be retained.
abbrev pub two_finished : JobStore ℕ
two_finished = record empty_store {
  runs = ("a", 0) ∷ ("b", 1) ∷ [];
  states = record { next = 2; cell = λ n. finished_at n };
}

abbrev pub synchronous : Handlers ℕ ℕ ℕ
synchronous = record {
  is_coroutine_function = λ h. false;
  start = λ h c i. h;
  invoke = λ h c i e. (e, value (some h));
  in_pool = λ h c i t e. (e, value (some h));
  await = λ a t e. (e, returned (some a));
  is_future = λ a. false;
}

-- Loop 1 runs, in the calling thread.
abbrev pub world : World
world = record { is_running = λ l. true; current = some 1 }

abbrev pub executor : CommandExecutor ℕ ℕ
executor = Executor.init default_executor_config (some 1) none 7

-- The executor with the pending run.
abbrev pub executor_of : JobStore ℕ → CommandExecutor ℕ ℕ
executor_of s = record executor { store = s }
