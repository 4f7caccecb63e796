-- ===== src/Streams.antt =====
-- The loop that reads a subscription to a run's events: `stream_events` of
-- src/python_tty/session/manager.py, `_watch` of session/callbacks.py and the loop of `StreamEvents`
-- in frontends/rpc/core.py. A reader is resumed by the event loop, and reads one event of its queue,
-- if there is one, each time that it is.
pub mod Cutting
pub mod Reading
pub mod Callbacks
use python_tty.Prelude.{
  ℕ, String, Bool, true, false, ◌&&◌, Option, none, some, List, [], ◌∷◌, ◌++◌, if◌then◌else◌, ℤ,
  pos,
}
use python_tty.Prelude.Heap.{Heap, write}
use python_tty.Runtime.Events.{RuntimeEvent, is_terminal_event}
use python_tty.Runtime.EventBus.{RunEventBus, Queue, subscribe, unsubscribe}

-- `seen` are the events that the reader yields or hands to its callbacks.
pub record Reader (Any : Type 0) : Type 0 where
  pub run_id : String
  pub queue : ℕ
  pub break_on_terminal : Bool
  pub is_open : Bool
  pub seen : List (RuntimeEvent Any)

module _ {Any : Type 0} where
  -- The reader of a new queue.
  abbrev pub new_reader : String → Bool → ℕ → Reader Any
  new_reader run_id break queue = record {
    run_id = run_id;
    queue = queue;
    break_on_terminal = break;
    is_open = true;
    seen = [];
  }

  -- Whether the reader's loop breaks after the event.
  unfoldable pub stops : Bool → RuntimeEvent Any → Bool
  unfolding is_terminal_event
  stops break e = break && is_terminal_event e

  -- The `finally` of the loop, however it is left.
  unfoldable pub finish : Reader Any × RunEventBus Any → Reader Any × RunEventBus Any
  unfolding unsubscribe
  finish (r, b) = (record r { is_open = false }, unsubscribe r.run_id r.queue b)

  -- The event is yielded or handed on, and the loop goes on or is left.
  abbrev pub hand_on :
      RuntimeEvent Any → Reader Any × RunEventBus Any → Reader Any × RunEventBus Any
  hand_on e (r, b) =
      let r' = record r { seen = r.seen ++ e ∷ [] } in
      if stops r.break_on_terminal e then finish (r', b) else (r', b)

  -- `queue.get()` of a queue with these items; with none, the reader waits.
  abbrev pub take_from :
      List (RuntimeEvent Any) → Reader Any × RunEventBus Any → Reader Any × RunEventBus Any
  take_from [] (r, b) = (r, b)
  take_from (e ∷ es) (r, b) =
      let q = record (b.queues.cell r.queue) { items = es } in
      hand_on e (r, record b { queues = write r.queue q b.queues })

  -- One pass of the loop.
  unfoldable pub read_event : Reader Any × RunEventBus Any → Reader Any × RunEventBus Any
  read_event (r, b) = if r.is_open then take_from (b.queues.cell r.queue).items (r, b) else (r, b)
