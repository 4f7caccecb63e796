-- ===== src/Executor/Running.antt =====
-- src/python_tty/executor/executor.py: how one work item runs. What handlers and awaitables do is
-- the application's and asyncio's, so it enters by `Handlers`; an exception that no clause of the
-- executor catches is passed on.
use python_tty.Prelude.{
  ℕ, ◌-◌, Bool, true, false, ◌&&◌, Option, none, some, if◌then◌else◌, ltb, leb, is_some, ℤ, pos,
  negsuc,
}
use python_tty.Models.{PyException, timeout_error, exception, Invocation, Outcome, returned, raised}
use python_tty.Runtime.Context.{RunContext}
use python_tty.Executor.{World, CommandExecutor, loop_running}

-- What a plain call of a handler gives: a value, something to await, or an exception.
pub data CallResult (Awaitable Any : Type 0) : Type 0 where
  value : Option Any → CallResult Awaitable Any
  awaitable : Awaitable → CallResult Awaitable Any
  raises : PyException → CallResult Awaitable Any

-- The application's handlers and asyncio's ways to run them. `await` takes the time limit of
-- `asyncio.wait_for`, or `none` for a plain await; `in_pool` is `run_in_executor` under such a
-- limit, which may raise the timeout itself; `start` calls a coroutine function.
pub record Handlers (Handler Awaitable Any : Type 0) : Type 0 where
  pub is_coroutine_function : Handler → Bool
  pub start : Handler → RunContext Any → Invocation Any → Awaitable
  pub invoke :
      Handler
      → RunContext Any
      → Invocation Any
      → CommandExecutor Handler Any
      → CommandExecutor Handler Any × CallResult Awaitable Any
  pub in_pool :
      Handler
      → RunContext Any
      → Invocation Any
      → Option ℕ
      → CommandExecutor Handler Any
      → CommandExecutor Handler Any × CallResult Awaitable Any
  pub await :
      Awaitable
      → Option ℕ
      → CommandExecutor Handler Any
      → CommandExecutor Handler Any × Outcome (Option Any)
  pub is_future : Awaitable → Bool

-- _timeout_seconds, in milliseconds
unfoldable pub timeout_of : Option ℤ → Option ℕ
timeout_of none = none
timeout_of (some (pos n)) = some n
timeout_of (some (negsuc n)) = some 0

module _ {Handler Awaitable Any : Type 0} (handlers : Handlers Handler Awaitable Any) where
  open handlers use {is_coroutine_function, start, invoke, in_pool, await, is_future}

  -- The rest of `_run_handler` after a call in the pool that began at `began`.
  abbrev pub settle_pool :
      Option ℕ
      → ℕ
      → CommandExecutor Handler Any × CallResult Awaitable Any
      → CommandExecutor Handler Any × Outcome (Option Any)
  settle_pool timeout began (e, value v) = (e, returned v)
  settle_pool timeout began (e, raises x) = (e, raised x)
  settle_pool none began (e, awaitable a) = await a none e
  settle_pool (some t) began (e, awaitable a) =
      if leb t (e.clock - began)
      then (e, raised timeout_error)
      else await a (some (t - (e.clock - began))) e

  -- The rest of `_run_handler` after a direct call.
  abbrev pub settle_call :
      Option ℕ
      → ℕ
      → CommandExecutor Handler Any × CallResult Awaitable Any
      → CommandExecutor Handler Any × Outcome (Option Any)
  settle_call timeout began (e, awaitable a) = await a timeout e
  settle_call timeout began (e, raises x) = (e, raised x)
  settle_call none began (e, value v) = (e, returned v)
  settle_call (some t) began (e, value v) =
      if ltb t (e.clock - began) then (e, raised timeout_error) else (e, returned v)

  abbrev missing_handler : PyException
  missing_handler = exception "No handler provided for invocation execution"

  -- _run_handler
  unfoldable pub run_handler :
      Option Handler
      → RunContext Any
      → Invocation Any
      → CommandExecutor Handler Any
      → CommandExecutor Handler Any × Outcome (Option Any)
  unfolding timeout_of
  run_handler none ctx i e = (e, raised missing_handler)
  run_handler (some h) ctx i e =
      let t = timeout_of i.timeout_ms in
      if is_coroutine_function h
      then await (start h ctx i) t e
      else if e.config.sync_in_threadpool
      then settle_pool t e.clock (in_pool h ctx i t e)
      else settle_call t e.clock (invoke h ctx i e)

  -- _run_awaitable_inline, for an awaitable that is or is not a Future or Task
  abbrev pub run_awaitable_inline :
      World
      → Bool
      → Awaitable
      → Option ℕ
      → CommandExecutor Handler Any
      → CommandExecutor Handler Any × Outcome (Option Any)
  run_awaitable_inline w future a timeout e =
      if future
      then (e, raised (exception "Inline awaitable must be a coroutine, not a Future/Task"))
      else if is_some w.current && (if loop_running w e then false else true)
      then (e, raised (exception "Cannot run awaitable inline while an event loop is running"))
      else await a timeout e

  -- The rest of `_run_handler_inline` after the call. With a timeout the awaitable is wrapped in a
  -- coroutine.
  abbrev pub settle_inline :
      World
      → Option ℕ
      → ℕ
      → CommandExecutor Handler Any × CallResult Awaitable Any
      → CommandExecutor Handler Any × Outcome (Option Any)
  settle_inline w none began (e, awaitable a) = run_awaitable_inline w (is_future a) a none e
  settle_inline w (some t) began (e, awaitable a) = run_awaitable_inline w false a (some t) e
  settle_inline w timeout began (e, raises x) = (e, raised x)
  settle_inline w none began (e, value v) = (e, returned v)
  settle_inline w (some t) began (e, value v) =
      if ltb t (e.clock - began) then (e, raised timeout_error) else (e, returned v)

  -- _run_handler_inline
  unfoldable pub run_handler_inline :
      World
      → Option Handler
      → RunContext Any
      → Invocation Any
      → CommandExecutor Handler Any
      → CommandExecutor Handler Any × Outcome (Option Any)
  unfolding timeout_of
  run_handler_inline w none ctx i e = (e, raised missing_handler)
  run_handler_inline w (some h) ctx i e =
      settle_inline w (timeout_of i.timeout_ms) e.clock (invoke h ctx i e)
