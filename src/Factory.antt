-- ===== src/Factory.antt =====
-- src/python_tty/console_factory.py: the factory that starts and stops the executor, its thread and
-- the servers. Threads and loops are known by their numbers; that a thread begins, and that its loop
-- ends once it was stopped, are steps that the system takes when it likes. The consoles themselves are
-- the manager's (Shell); `tty_runs` counts the calls of `manager.run`, and a server is known by
-- whether it was started and not stopped.
pub mod Modes
pub mod Sinks
pub mod Wiring
pub mod Moves
use python_tty.Prelude.{
  ℕ, suc, String, Bool, true, false, not, ◌&&◌, ◌||◌, Option, none, some, List, [], ◌∷◌,
  if◌then◌else◌, is_some, or_else, str_eq, ◌==◌, append,
}
use python_tty.Prelude.Heap.{Heap, alloc, write}
use python_tty.Models.{exception, Outcome, returned, raised}
use python_tty.Config.{RpcConfig}
use python_tty.Web.{WebConfig}
use python_tty.Executor.{World, CommandExecutor}
use python_tty.Executor.Submission.{start, shutdown}

pub record ConsoleFactoryConfig : Type 0 where
  pub run_mode : String
  pub start_executor : Bool
  pub executor_in_thread : Bool
  pub shutdown_executor : Bool

abbrev pub default_factory_config : ConsoleFactoryConfig
default_factory_config = record {
  run_mode = "tty";
  start_executor = true;
  executor_in_thread = true;
  shutdown_executor = true;
}

-- A thread that was started has not begun, serves its loop, or has ended.
pub data Phase : Type 0 where
  ready serving ended : Phase

pub record Thread : Type 0 where
  pub loop : ℕ
  pub phase : Phase

-- `sink_tasks` are the loops on which a task of the sink lives, and `stops` those that were told
-- to stop, the last one first.
pub record ConsoleFactory (Handler Any : Type 0) : Type 0 where
  pub config : ConsoleFactoryConfig
  pub executor : CommandExecutor Handler Any
  pub executor_loop : Option ℕ
  pub executor_thread : Option ℕ
  pub threads : Heap Thread
  pub next_loop : ℕ
  pub has_router : Bool
  pub tty_sink : Option ℕ
  pub sink_tasks : List ℕ
  pub stops : List ℕ
  pub rpc : RpcConfig
  pub rpc_server : Bool
  pub web : WebConfig
  pub web_server : Option Bool
  pub sessions_closed : Bool
  pub tty_runs : ℕ

abbrev pub is_alive : Phase → Bool
is_alive ended = false
is_alive _ = true

abbrev pub is_serving : Phase → Bool
is_serving serving = true
is_serving _ = false

-- `loop or self._executor_loop or self.executor._loop`
abbrev pub first_loop : Option ℕ → Option ℕ → Option ℕ → Option ℕ
first_loop (some l) b c = some l
first_loop none (some l) c = some l
first_loop none none c = c

abbrev pub loop_runs : Option ℕ → World → Bool
loop_runs none w = false
loop_runs (some l) w = w.is_running l

abbrev pub exiting : Option Bool → Option Bool
exiting none = none
exiting (some b) = some true

-- The loops of a list that are not this one.
abbrev pub less : ℕ → List ℕ → List ℕ
less l [] = []
less l (k ∷ ks) = let rest = less l ks in if k == l then rest else k ∷ rest

-- A loop that was told to stop.
abbrev pub is_stopped : ℕ → List ℕ → Bool
is_stopped l [] = false
is_stopped l (k ∷ ks) = k == l || is_stopped l ks

module _ {Handler Any : Type 0} where
  -- `self._executor_thread is not None and self._executor_thread.is_alive()`
  abbrev pub has_live_thread : Option ℕ → ConsoleFactory Handler Any → Bool
  has_live_thread none f = false
  has_live_thread (some t) f = is_alive (f.threads.cell t).phase

  -- _attach_tty_sink
  unfoldable pub attach_tty_sink : ℕ → ConsoleFactory Handler Any → ConsoleFactory Handler Any
  attach_tty_sink l f =
      if is_some f.tty_sink
      then f
      else if f.has_router
      then record f { tty_sink = some l; sink_tasks = l ∷ f.sink_tasks }
      else f

  abbrev pub attach_any : Option ℕ → ConsoleFactory Handler Any → ConsoleFactory Handler Any
  attach_any none f = f
  attach_any (some l) f = attach_tty_sink l f

  abbrev pub after_start :
      Option ℕ
      → ConsoleFactory Handler Any
      → CommandExecutor Handler Any × Outcome (Unit {0})
      → ConsoleFactory Handler Any × Outcome (Unit {0})
  after_start l f (e, raised x) = (record f { executor = e }, raised x)
  after_start l f (e, returned _) =
      (attach_any (first_loop l f.executor_loop e.loop) (record f { executor = e }), returned tt)

  -- start_executor
  unfoldable pub start_executor :
      World
      → Option ℕ
      → ConsoleFactory Handler Any
      → ConsoleFactory Handler Any × Outcome (Unit {0})
  unfolding start attach_tty_sink
  start_executor w l f = after_start l f (start w l f.executor)

  -- _start_executor_thread: the new thread is started, and begins later
  unfoldable pub start_executor_thread : ConsoleFactory Handler Any → ConsoleFactory Handler Any
  start_executor_thread f = if has_live_thread f.executor_thread f then f else record f {
    executor_loop = some f.next_loop;
    executor_thread = some f.threads.next;
    threads = alloc (record { loop = f.next_loop; phase = ready }) f.threads;
    next_loop = suc f.next_loop;
  }

  -- _start_executor_if_needed
  unfoldable pub start_executor_if_needed :
      World → ConsoleFactory Handler Any → ConsoleFactory Handler Any × Outcome (Unit {0})
  unfolding start_executor_thread start_executor
  start_executor_if_needed w f =
      if not f.config.start_executor
      then (f, returned tt)
      else if has_live_thread f.executor_thread f
      then (f, returned tt)
      else if f.config.executor_in_thread
      then (start_executor_thread f, returned tt)
      else start_executor w none f

  abbrev pub set_phase : ℕ → Phase → ConsoleFactory Handler Any → ConsoleFactory Handler Any
  set_phase t p f = record f {
    threads = write t (record (f.threads.cell t) { phase = p }) f.threads;
  }

  abbrev pub begin_from :
      Phase → World → ℕ → ConsoleFactory Handler Any → ConsoleFactory Handler Any
  begin_from ready w t f =
      (start_executor w (some (f.threads.cell t).loop) (set_phase t serving f)).0
  begin_from serving w t f = f
  begin_from ended w t f = f

  -- The start of `_run_loop` in its thread.
  unfoldable pub thread_begins : World → ℕ → ConsoleFactory Handler Any → ConsoleFactory Handler Any
  unfolding start_executor
  thread_begins w t f = begin_from (f.threads.cell t).phase w t f

  -- The tasks of a loop that has ended are cancelled; the workers' are the executor's.
  abbrev pub cancel_tasks : ℕ → ConsoleFactory Handler Any → ConsoleFactory Handler Any
  cancel_tasks l f = record f { sink_tasks = less l f.sink_tasks }

  -- The end of `_run_loop`, once its loop was stopped.
  unfoldable pub thread_ends : ℕ → ConsoleFactory Handler Any → ConsoleFactory Handler Any
  thread_ends t f =
      if is_serving (f.threads.cell t).phase && is_stopped (f.threads.cell t).loop f.stops
      then set_phase t ended (cancel_tasks (f.threads.cell t).loop f)
      else f

  -- `loop.call_soon_threadsafe(loop.stop)`, where the loop runs
  abbrev pub stop_running :
      World → Option ℕ → ConsoleFactory Handler Any → ConsoleFactory Handler Any
  stop_running w none f = f
  stop_running w (some l) f = if w.is_running l then record f { stops = l ∷ f.stops } else f

  -- shutdown_executor; the executor's own shutdown is the same on its loop and here
  unfoldable pub shutdown_executor : World → ConsoleFactory Handler Any → ConsoleFactory Handler Any
  unfolding shutdown
  shutdown_executor w f =
      stop_running w f.executor_loop (record f { executor = shutdown f.executor })

  -- shutdown; a server of remote calls is stopped here only where no loop runs in this thread
  unfoldable pub shutdown_all : World → ConsoleFactory Handler Any → ConsoleFactory Handler Any
  unfolding shutdown_executor
  shutdown_all w f =
      let f1 = record f { sessions_closed = true } in
      let f2 = if f.config.shutdown_executor then shutdown_executor w f1 else f1 in
      record f2 {
        rpc_server = if is_some w.current then f2.rpc_server else false;
        web_server = exiting f2.web_server;
      }
