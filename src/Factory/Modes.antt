-- ===== src/Factory/Modes.antt =====
-- src/python_tty/console_factory.py: the modes in which the factory runs, and the servers.
use python_tty.Prelude.{
  ℕ, suc, true, false, not, ◌&&◌, some, if◌then◌else◌, is_some, str_eq, append,
}
use python_tty.Models.{exception, Outcome, returned, raised}
use python_tty.Executor.{World}
use python_tty.Factory.{
  ConsoleFactory, start_executor, start_executor_if_needed, stop_running, is_stopped, cancel_tasks,
}

module _ {Handler Any : Type 0} where
  -- _start_rpc_server, with the check that `start_rpc_server` of frontends/rpc/server.py makes
  unfoldable pub start_rpc_server :
      ConsoleFactory Handler Any → ConsoleFactory Handler Any × Outcome (Unit {0})
  start_rpc_server f =
      if not f.rpc.enabled
      then (f, returned tt)
      else if f.rpc.require_audit && not (is_some f.executor.audit_sink)
      then (f, raised (exception "RPC requires audit_sink; executor.audit_sink is None"))
      else (record f { rpc_server = true }, returned tt)

  -- _start_web_server
  abbrev pub start_web_server : ConsoleFactory Handler Any → ConsoleFactory Handler Any
  start_web_server f = if f.web.enabled then record f { web_server = some false } else f

  abbrev pub then_web :
      ConsoleFactory Handler Any × Outcome (Unit {0})
      → ConsoleFactory Handler Any × Outcome (Unit {0})
  then_web (f, raised x) = (f, raised x)
  then_web (f, returned _) =
      (let f' = start_web_server f in record f' { tty_runs = suc f'.tty_runs }, returned tt)

  abbrev pub then_serves :
      ConsoleFactory Handler Any × Outcome (Unit {0})
      → ConsoleFactory Handler Any × Outcome (Unit {0})
  then_serves (f, raised x) = (f, raised x)
  then_serves (f, returned _) = then_web (start_rpc_server f)

  -- start_concurrent up to `run_forever`, with the thread of the consoles
  unfoldable pub start_concurrent :
      World → ConsoleFactory Handler Any → ConsoleFactory Handler Any × Outcome (Unit {0})
  unfolding start_executor start_rpc_server
  start_concurrent w f =
      let l = f.next_loop in
      let f' = record f { executor_loop = some l; next_loop = suc l } in
      then_serves
        (if f.config.start_executor then start_executor w (some l) f' else (f', returned tt))

  -- The `finally` of `_run_tty`, when the consoles have ended.
  abbrev pub tty_ends : World → ℕ → ConsoleFactory Handler Any → ConsoleFactory Handler Any
  tty_ends w l f = stop_running w (some l) f

  -- start_concurrent after `run_forever`, whose loop was told to stop
  unfoldable pub concurrent_ends : ℕ → ConsoleFactory Handler Any → ConsoleFactory Handler Any
  concurrent_ends l f =
      if is_stopped l f.stops then record (cancel_tasks l f) { rpc_server = false } else f

  abbrev pub then_runs :
      ConsoleFactory Handler Any × Outcome (Unit {0})
      → ConsoleFactory Handler Any × Outcome (Unit {0})
  then_runs (f, raised x) = (f, raised x)
  then_runs (f, returned _) = (record f { tty_runs = suc f.tty_runs }, returned tt)

  -- start
  unfoldable pub start_factory :
      World → ConsoleFactory Handler Any → ConsoleFactory Handler Any × Outcome (Unit {0})
  unfolding start_executor_if_needed start_concurrent
  start_factory w f =
      if str_eq f.config.run_mode "tty"
      then then_runs (start_executor_if_needed w f)
      else if str_eq f.config.run_mode "concurrent"
      then start_concurrent w f
      else (f, raised (exception (append "Unsupported run_mode: " f.config.run_mode)))
