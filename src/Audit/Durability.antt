-- ===== src/Audit/Durability.antt =====
-- No audit record is lost or reordered (audit/sink.py).
use mathlib.Core.List.{append-nil, append_assoc}
use python_tty.Prelude.{
  true, ◌≡◌, ◌∙◌, sym, some, List, [], ◌∷◌, ◌++◌, arith, or_else, is_some, ◌⊎◌, inl, inr,
  Option-cases,
}
use python_tty.Audit.{AuditRecord, AuditSink, write_record, worker_take, worker_flush, close}

-- What a running sink does: the program writes, and the worker takes and flushes at any time.
pub data Action (Any : Type 0) : Type 0 where
  writes : AuditRecord Any → Action Any
  takes flushes : Action Any

module _ {Any : Type 0} where
  abbrev pub act : Action Any → AuditSink Any → AuditSink Any
  act (writes r) s = write_record r s
  act takes s = worker_take s
  act flushes s = worker_flush s

  abbrev pub run : List (Action Any) → AuditSink Any → AuditSink Any
  run [] s = s
  run (a ∷ as') s = run as' (act a s)

  -- The records that the program writes, in order.
  abbrev pub records : List (Action Any) → List (AuditRecord Any)
  records [] = []
  records (writes r ∷ as') = r ∷ records as'
  records (takes ∷ as') = records as'
  records (flushes ∷ as') = records as'

  -- Written, in the worker's batch, or in the queue. Without a queue there is no worker.
  abbrev pub contents : AuditSink Any → List (AuditRecord Any)
  contents s = s.written ++ (s.batch ++ or_else s.queue [])

  -- A sink that has not been closed; with no queue the batch is empty.
  pub record IsRunning (s : AuditSink Any) : Type 0 where
    pub opened : s.is_open ≡ true
    pub idle : (is_some s.queue ≡ true) ⊎ (s.batch ≡ [])

  write-contents :
      (r : AuditRecord Any) (s : AuditSink Any)
      → IsRunning s
      → IsRunning (write_record r s) × (contents (write_record r s) ≡ contents s ++ r ∷ [])
  unfolding write_record
  write-contents r s v = elim (Option-cases s.queue) [
    | inl e ↦
        let b : s.batch ≡ [] = ground (arith, v.idle) in
        (
          record { opened = ground (arith, v.opened); idle = inr (ground arith) },
          ground (arith, v.opened, e, b, append-nil s.written, append-nil (s.written ++ r ∷ [])),
        )
    | inr (q, e) ↦ (
      record { opened = ground (arith, v.opened); idle = inl (ground (arith, v.opened)) },
      ground (
        arith,
        v.opened,
        e,
        append_assoc s.written (s.batch ++ q) (r ∷ []),
        append_assoc s.batch q (r ∷ []),
      ),
    )
  ]

  take-contents :
      (s : AuditSink Any)
      → IsRunning s
      → IsRunning (worker_take s) × (contents (worker_take s) ≡ contents s)
  unfolding worker_take
  take-contents s v = elim (Option-cases s.queue) [
    | inl e ↦ rw (e, worker_take) (v, ground (arith, e))
    | inr (q, e) ↦ taken q e
  ]
    where
      taken :
          (q : List (AuditRecord Any))
          → s.queue ≡ some q
          → IsRunning (worker_take s) × (contents (worker_take s) ≡ contents s)
      taken [] e = (
        record { opened = ground (arith, v.opened); idle = ground (arith, v.idle) },
        ground arith,
      )
      taken (r ∷ q) e = (
        record { opened = ground (arith, v.opened); idle = ground (arith, v.idle) },
        ground (arith, append_assoc s.batch (r ∷ []) q),
      )

  flush-contents :
      (s : AuditSink Any)
      → IsRunning s
      → IsRunning (worker_flush s) × (contents (worker_flush s) ≡ contents s)
  unfolding worker_flush
  flush-contents s v = (
    record { opened = ground (arith, v.opened); idle = inr (ground arith) },
    ground (arith, v.opened, append_assoc s.written s.batch (or_else s.queue [])),
  )

  run-contents :
      (as' : List (Action Any)) (s : AuditSink Any)
      → IsRunning s
      → IsRunning (run as' s) × (contents (run as' s) ≡ contents s ++ records as')
  run-contents [] s v = (v, sym (append-nil (contents s)))
  run-contents (writes r ∷ as') s v =
      let (w, e) = write-contents r s v in
      let (x, f) = run-contents as' (write_record r s) w in
      (x, rw (f, e) (append_assoc (contents s) (r ∷ []) (records as')))
  run-contents (takes ∷ as') s v =
      let (w, e) = take-contents s v in
      let (x, f) = run-contents as' (worker_take s) w in (x, rw (f, e))
  run-contents (flushes ∷ as') s v =
      let (w, e) = flush-contents s v in
      let (x, f) = run-contents as' (worker_flush s) w in (x, rw (f, e))

  close-written : (s : AuditSink Any) → IsRunning s → (close s).written ≡ contents s
  unfolding close
  close-written s v = elim (Option-cases s.queue) [
    | inl e ↦
        let b : s.batch ≡ [] = ground (arith, v.idle) in ground (arith, e, b, append-nil s.written)
    | inr (q, e) ↦ ground (arith, v.opened, e)
  ]

  -- For a running sink, however the worker's takes and flushes interleave with the writes, after
  -- `close` the stream holds what the sink held before and then every record written, once each and
  -- in order.
  pub close-run :
      (as' : List (Action Any)) (s : AuditSink Any)
      → IsRunning s
      → (close (run as' s)).written ≡ contents s ++ records as'
  close-run as' s v = let (w, e) = run-contents as' s v in close-written (run as' s) w ∙ e
