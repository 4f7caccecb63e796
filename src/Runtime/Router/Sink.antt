-- ===== src/Runtime/Router/Sink.antt =====
-- src/python_tty/runtime/sinks.py: the task that hands every event of the job store to the router.
-- It is resumed by the event loop, and takes one event of its queue each time that there is one.
use python_tty.Prelude.{ℕ, Bool, Option, none, some, List, [], ◌∷◌, if◌then◌else◌, String, is_some}
use python_tty.Prelude.Heap.{write}
use python_tty.Models.{Value, Outcome, returned, raised}
use python_tty.Runtime.Events.{RuntimeEvent}
use python_tty.Runtime.Jobs.{JobStore}
use python_tty.Runtime.Jobs.Publishing.{subscribe_all, unsubscribe_all}
use python_tty.Runtime.Router.{OutputRouter, runtime, emit}

-- `task` is the queue of the running task; the router may be None.
pub record TtyEventSink (Any : Type 0) : Type 0 where
  pub store : JobStore Any
  pub router : Option (OutputRouter Any)
  pub task : Option ℕ

module _ {Any : Type 0} where
  abbrev begun : TtyEventSink Any → JobStore Any × Outcome ℕ → TtyEventSink Any
  begun k (s, returned a) = record k { store = s; task = some a }
  begun k (s, raised e) = record k { store = s }

  -- start, with the subscription that `_run` begins with, on the loop of the store
  unfoldable pub start : Option ℕ → TtyEventSink Any → TtyEventSink Any
  unfolding subscribe_all
  start loop k = if is_some k.task then k else begun k (subscribe_all loop k.store)

  abbrev ended : Option ℕ → TtyEventSink Any → TtyEventSink Any
  ended none k = k
  ended (some a) k = record k { store = unsubscribe_all a k.store; task = none }

  -- stop, with the `finally` of `_run`
  unfoldable pub stop : TtyEventSink Any → TtyEventSink Any
  stop k = ended k.task k

  module _ (str : Option (Value Any) → String) (is_running takes_calls : ℕ → Bool) where
    abbrev hand_over : RuntimeEvent Any → Option (OutputRouter Any) → Option (OutputRouter Any)
    hand_over e none = none
    hand_over e (some r) = some (emit str is_running takes_calls (runtime e) r)

    abbrev taken : ℕ → List (RuntimeEvent Any) → TtyEventSink Any → TtyEventSink Any
    taken a [] k = k
    taken a (e ∷ es) k =
        let q = record (k.store.event_bus.queues.cell a) { items = es } in
        let bus = record (k.store.event_bus) { queues = write a q k.store.event_bus.queues } in
        record k { store = record (k.store) { event_bus = bus }; router = hand_over e k.router }

    abbrev run_from : Option ℕ → TtyEventSink Any → TtyEventSink Any
    run_from none k = k
    run_from (some a) k = taken a (k.store.event_bus.queues.cell a).items k

    -- One pass of the loop of `_run`.
    unfoldable pub run : TtyEventSink Any → TtyEventSink Any
    unfolding emit
    run k = run_from k.task k
