-- ===== src/Audit.antt =====
-- src/python_tty/audit/sink.py: the audit sink. Records are kept as values; their JSON text is not
-- modelled, so a stream is the list of the records written to it. In asynchronous mode a worker
-- takes records off a queue into a batch and writes the batch.
pub mod Durability
use python_tty.Prelude.{
  Bool, true, false, not, ◌&&◌, ◌||◌, Option, none, some, List, [], ◌∷◌, ◌++◌, if◌then◌else◌,
}
use python_tty.Models.{Invocation, RunState, PyException, exception, Outcome, returned, raised}
use python_tty.Runtime.Events.{RuntimeEvent}

-- A record's type and its materialized data, which is a copy.
pub data AuditRecord (Any : Type 0) : Type 0 where
  invocation : Invocation Any → AuditRecord Any
  run_state : RunState Any → AuditRecord Any
  event : RuntimeEvent Any → AuditRecord Any

-- `is_open` says that the stream is not None, `written` is what it has received. A worker runs
-- where there is a queue, and `batch` is its list of pending records.
pub record AuditSink (Any : Type 0) : Type 0 where
  pub is_open : Bool
  pub written : List (AuditRecord Any)
  pub buffer : Option (List (AuditRecord Any))
  pub queue : Option (List (AuditRecord Any))
  pub batch : List (AuditRecord Any)

module _ {Any : Type 0} where
  abbrev new_sink : Bool → Bool → Bool → AuditSink Any
  new_sink is_open keep_in_memory async_mode = record {
    is_open = is_open;
    written = [];
    buffer = if keep_in_memory then some [] else none;
    queue = if async_mode && is_open then some [] else none;
    batch = [];
  }

  -- __init__, by whether a path and a stream are given
  unfoldable pub init : Bool → Bool → Bool → Bool → Outcome (AuditSink Any)
  init file_path stream keep_in_memory async_mode =
      if file_path && stream
      then raised (exception "Only one of file_path or stream can be set")
      else returned (new_sink (file_path || stream) keep_in_memory async_mode)

  -- self._buffer.append(record)
  abbrev pub append_buffer :
      Option (List (AuditRecord Any)) → AuditRecord Any → Option (List (AuditRecord Any))
  append_buffer none r = none
  append_buffer (some rs) r = some (rs ++ r ∷ [])

  -- _write_batch, and _write_record for a batch of one
  unfoldable pub write_batch : List (AuditRecord Any) → AuditSink Any → AuditSink Any
  write_batch rs s = if s.is_open then record s { written = s.written ++ rs } else s

  abbrev enqueue : Option (List (AuditRecord Any)) → AuditRecord Any → AuditSink Any → AuditSink Any
  enqueue none r s = write_batch (r ∷ []) s
  enqueue (some q) r s = record s { queue = some (q ++ r ∷ []) }

  -- _write, which record_invocation, record_run_state and record_event call
  unfoldable pub write_record : AuditRecord Any → AuditSink Any → AuditSink Any
  unfolding write_batch
  write_record r s =
      let t = record s { buffer = append_buffer s.buffer r } in
      if s.is_open then enqueue s.queue r t else t

  -- The worker's `get` and `get_nowait`.
  unfoldable pub worker_take : AuditSink Any → AuditSink Any
  worker_take s = elim s.queue [
    | none ↦ s
    | some [] ↦ s
    | some (r ∷ q) ↦ record s { queue = some q; batch = s.batch ++ r ∷ [] }
  ]

  -- The worker's `_write_batch(pending)` and `pending.clear()`.
  unfoldable pub worker_flush : AuditSink Any → AuditSink Any
  unfolding write_batch
  worker_flush s = record (write_batch s.batch s) { batch = [] }

  -- Joining the worker: it ends with an empty queue, every record taken and flushed.
  unfoldable pub join_worker : AuditSink Any → AuditSink Any
  unfolding worker_flush
  join_worker s = elim s.queue [
    | none ↦ s
    | some q ↦ worker_flush (record s { queue = some []; batch = s.batch ++ q })
  ]

  -- close
  unfoldable pub close : AuditSink Any → AuditSink Any
  unfolding join_worker
  close s = record (join_worker s) { is_open = false }
