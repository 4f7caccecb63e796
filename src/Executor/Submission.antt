-- ===== src/Executor/Submission.antt =====
-- src/python_tty/executor/executor.py: starting, submitting, waiting, cancelling and shutting down.
-- `uuid` is the identifier that `uuid.uuid4()` gives. A call that hands a coroutine to the loop's
-- thread and waits for it is modelled as run there.
use python_tty.Prelude.{
  ℕ, String, not, ◌&&◌, Option, none, some, [], ◌∷◌, ◌++◌, if◌then◌else◌, is_some, ◌==◌, or_else,
}
use python_tty.Prelude.Heap.{alloc}
use python_tty.Models.{exception, Invocation, Outcome, returned, raised}
use python_tty.Audit.{AuditSink, invocation, run_state, close}
use python_tty.Runtime.Jobs.{Future, create_run, set_future, set_loop, get_run_state}
use python_tty.Executor.{World, WorkItem, CommandExecutor, audit, loop_running, on_loop}
use python_tty.Executor.Running.{Handlers}
use python_tty.Executor.Items.{execute_work_item, run_inline}

-- `if invocation.run_id is None: invocation.run_id = str(uuid.uuid4())`
abbrev pub identified : {Any : Type 0} → String → Invocation Any → Invocation Any
identified uuid i = if is_some i.run_id then i else record i { run_id = some uuid }

abbrev close_sink : {Any : Type 0} → Option (AuditSink Any) → Option (AuditSink Any)
close_sink none = none
close_sink (some s) = some (close s)

module _ {Handler Any : Type 0} where
  abbrev with_loop : Option ℕ → CommandExecutor Handler Any → CommandExecutor Handler Any
  with_loop none e = e
  with_loop (some l) e = record e { loop = some l }

  -- The part of `start` after the loop is known.
  abbrev pub start_workers : CommandExecutor Handler Any → CommandExecutor Handler Any
  start_workers e = record e {
    store = set_loop e.loop e.store;
    queue = some (or_else e.queue []);
    workers = if e.workers == 0 then e.config.workers else e.workers;
  }

  abbrev start_here :
      World → CommandExecutor Handler Any → CommandExecutor Handler Any × Outcome (Unit {0})
  start_here w e = elim e.loop [
    | some l ↦ (start_workers e, returned tt)
    | none ↦ elim w.current [
      | none ↦ (e, raised (exception "Executor start requires a running event loop"))
      | some c ↦ (start_workers (record e { loop = some c }), returned tt)
    ]
  ]

  -- start
  unfoldable pub start :
      World
      → Option ℕ
      → CommandExecutor Handler Any
      → CommandExecutor Handler Any × Outcome (Unit {0})
  unfolding set_loop
  start w l e = start_here w (with_loop l e)

  -- create_run, with the audit of the invocation and of the new state
  unfoldable pub register :
      Invocation Any → CommandExecutor Handler Any → CommandExecutor Handler Any
  unfolding create_run audit
  register i e =
      let a = e.store.states.next in
      let e' = audit (invocation i) (record e { store = (create_run i e.store).0 }) in
      audit (run_state (e'.store.states.cell a)) e'

  -- set_future with a new future, and put_nowait
  unfoldable pub enqueue :
      String → WorkItem Handler Any → CommandExecutor Handler Any → CommandExecutor Handler Any
  unfolding set_future
  enqueue run_id item e =
      let s = e.store in
      record e {
        store =
            set_future run_id s.futures.next
              (record s { futures = alloc Future.waiting s.futures });
        queue = some (or_else e.queue [] ++ item ∷ []);
      }

  -- `self.start()` and then the future and the queue
  unfoldable pub start_and_enqueue :
      World
      → String
      → WorkItem Handler Any
      → CommandExecutor Handler Any
      → CommandExecutor Handler Any × Outcome String
  unfolding start enqueue
  start_and_enqueue w run_id item e =
      let (e', out) = start w none e in
      elim out [
        | raised x ↦ (e', raised x)
        | returned _ ↦ (enqueue run_id item e', returned run_id)
      ]

  -- `self._loop = asyncio.get_running_loop()` where no loop is set and one runs here
  abbrev pub adopt_loop : World → CommandExecutor Handler Any → CommandExecutor Handler Any
  adopt_loop w e = if is_some e.loop then e else record e { loop = w.current }

  -- The result of `submit` once the run was made inline.
  abbrev pub submitted :
      String
      → CommandExecutor Handler Any × Outcome (Unit {0})
      → CommandExecutor Handler Any × Outcome String
  submitted run_id (e, raised x) = (e, raised x)
  submitted run_id (e, returned _) = (e, returned run_id)

  -- shutdown, and shutdown_threadsafe, which does the same on the loop or here
  unfoldable pub shutdown : CommandExecutor Handler Any → CommandExecutor Handler Any
  shutdown e = record e { workers = 0; audit_sink = close_sink e.audit_sink }

  -- The start of a round of `_worker_loop`: the next item, with the address of its run state.
  unfoldable pub next_item :
      CommandExecutor Handler Any
      → Option (WorkItem Handler Any × Option ℕ × CommandExecutor Handler Any)
  next_item e = elim e.queue [
    | none ↦ none
    | some [] ↦ none
    | some (item ∷ q) ↦ some (
      item,
      elim item.invocation.run_id [ none ↦ none | some r ↦ get_run_state r e.store ],
      record e { queue = some q },
    )
  ]

module _ {Handler Awaitable Any : Type 0} (handlers : Handlers Handler Awaitable Any) where
  -- submit, for an invocation that has its identifier
  unfoldable pub submit_identified :
      World
      → String
      → WorkItem Handler Any
      → CommandExecutor Handler Any
      → CommandExecutor Handler Any × Outcome String
  unfolding register start_and_enqueue
  submit_identified w run_id item e =
      let e' = adopt_loop w (register item.invocation e) in
      if loop_running w e'
      then start_and_enqueue w run_id item e'
      else submitted run_id (run_inline handlers w item (get_run_state run_id e'.store) e')

  -- submit
  unfoldable pub submit :
      World
      → String
      → WorkItem Handler Any
      → CommandExecutor Handler Any
      → CommandExecutor Handler Any × Outcome String
  submit w uuid item e =
      let i = identified uuid item.invocation in
      submit_identified w (or_else i.run_id uuid) (record item { invocation = i }) e

  -- submit_threadsafe: from another thread the run is registered here and queued on the loop
  unfoldable pub submit_threadsafe :
      World
      → String
      → WorkItem Handler Any
      → CommandExecutor Handler Any
      → CommandExecutor Handler Any × Outcome String
  unfolding submit
  submit_threadsafe w uuid item e =
      let i = identified uuid item.invocation in
      let item' = record item { invocation = i } in
      if loop_running w e && not (on_loop w e)
      then start_and_enqueue w (or_else i.run_id uuid) item' (register i e)
      else submit_identified w (or_else i.run_id uuid) item' e

  -- A round of `_worker_loop`, with the lock of the item's key held throughout.
  unfoldable pub worker_round :
      World → CommandExecutor Handler Any → CommandExecutor Handler Any × Outcome (Unit {0})
  worker_round w e = elim (next_item e) [
    | none ↦ (e, returned tt)
    | some (item, a, e') ↦ execute_work_item handlers w item a e'
  ]
