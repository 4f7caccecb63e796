-- ===== src/Runtime/EventBus/Streaming.antt =====
-- The promise of `subscribe` (event_bus.py): replay of the history, then every later event once.
use python_tty.Prelude.{
  ℕ, ◌<◌, ◌≡◌, refl, String, true, some, List, [], ◌∷◌, ◌++◌, ltb, ◌==◌, if◌then◌else◌, or_else,
  pos, arith, str_eq, count, filter, All, Bool-cases, inl, inr,
}
use mathlib.Core.List.{append-nil, append_assoc}
use python_tty.Prelude.Dict.{get, put, get-put}
use python_tty.Runtime.Events.{RuntimeEvent, seq_of}
use python_tty.Runtime.EventBus.{
  RunEventBus, Queue, put_nowait, publish_to, subscribers_of, history_of, replay, subscribe,
}
use python_tty.Runtime.EventBus.Delivery.{Holds, offer_all-Holds, publish-subscribers}

count-fresh : (n : ℕ) (xs : List ℕ) → All (λ a. a < n) xs → count (λ x. x == n) xs ≡ 0
count-fresh n [] a = refl
count-fresh n (x ∷ xs) a = ground (arith, count-fresh n xs a.1)

count-snoc : (n : ℕ) (xs : List ℕ) → All (λ a. a < n) xs → count (λ x. x == n) (xs ++ n ∷ []) ≡ 1
count-snoc n [] a = ground arith
count-snoc n (x ∷ xs) a = ground (arith, count-snoc n xs a.1)

module _ {Any : Type 0} where
  -- Every subscribed address has been allocated.
  abbrev pub IsAllocated : RunEventBus Any → Type 0
  IsAllocated b = (j : String) → All (λ a. a < b.queues.next) (subscribers_of j b)

  -- The queue at `a` is subscribed to one run, once, and holds `xs`.
  pub record Follows (a : ℕ) (run_id : String) (xs : List (RuntimeEvent Any)) (b : RunEventBus Any)
      : Type 0 where
    pub once :
        (j : String) → count (λ x. x == a) (subscribers_of j b) ≡ (if str_eq run_id j then 1 else 0)
    pub holds : Holds a xs b.queues

  replay-unbounded :
      (since : ℕ) (h : List (RuntimeEvent Any)) (q : Queue Any)
      → q.maxsize ≡ pos 0
      → replay since h q
        ≡ (record q { items = q.items ++ filter (λ e. ltb since (seq_of e)) h }, true)
  unfolding replay put_nowait
  replay-unbounded since [] q m = rw append-nil
  replay-unbounded since (e ∷ h) q m = ground (
    arith,
    replay-unbounded since h q m,
    replay-unbounded since h (record q { items = q.items ++ e ∷ [] }) m,
    append_assoc q.items (e ∷ []) (filter (λ e. ltb since (seq_of e)) h),
  )

  -- A new subscriber without a size limit has the events of the history past `since`, in order.
  pub subscribe-Follows :
      (run_id : String) (since : ℕ) (b : RunEventBus Any)
      → IsAllocated b
      → Follows b.queues.next run_id
          (filter (λ e. ltb since (seq_of e)) (history_of run_id b))
          (subscribe run_id (some (pos since)) (pos 0) b).0
  unfolding subscribe subscribers_of
  subscribe-Follows run_id since b fresh = record {
    once = λ j. once (fresh run_id) j (fresh j);
    holds =
        rw
          (replay-unbounded since (history_of run_id b) (record { maxsize = pos 0; items = [] })
            refl)
          (record { unbounded = ground arith; items = ground arith });
  }
    where
      once :
          All (λ a. a < b.queues.next) (subscribers_of run_id b)
          → (j : String) → All (λ a. a < b.queues.next) (subscribers_of j b)
          → count
              (λ x. x == b.queues.next)
              (or_else
                (get j (put run_id (subscribers_of run_id b ++ b.queues.next ∷ []) b.subscribers))
                [])
            ≡ (if str_eq run_id j then 1 else 0)
      once f j g =
          rw (get-put run_id j (subscribers_of run_id b ++ b.queues.next ∷ []) b.subscribers)
            (elim (Bool-cases (str_eq run_id j)) [
              | inl m ↦ rw m (count-snoc b.queues.next (subscribers_of run_id b) f)
              | inr m ↦ rw m (count-fresh b.queues.next (subscribers_of j b) g)
            ])

  -- A subscription without a size limit is given its queue.
  pub subscribe-some :
      (run_id : String) (since : ℕ) (b : RunEventBus Any)
      → (subscribe run_id (some (pos since)) (pos 0) b).1 ≡ some b.queues.next
  unfolding subscribe
  subscribe-some run_id since b =
      rw
        (replay-unbounded since (history_of run_id b) (record { maxsize = pos 0; items = [] }) refl)
        refl

  pub publish-Follows :
      (a : ℕ) (run_id : String) (xs : List (RuntimeEvent Any)) (now : ℕ) (j : String)
      (e : RuntimeEvent Any) (b : RunEventBus Any)
      → Follows a run_id xs b
      → Follows a run_id (if str_eq run_id j then xs ++ e ∷ [] else xs) (publish_to now j e b)
  unfolding subscribers_of
  publish-Follows a run_id xs now j e b f =
      let (p, q) = publish-subscribers now j e b in
      let got = rw (f.once j) at (offer_all-Holds e (subscribers_of j b) a xs b.queues f.holds) in
      record {
        once = rw p (f.once);
        holds = rw q (elim (Bool-cases (str_eq run_id j)) [
          | inl m ↦ rw m (let got' = rw m at got in got')
          | inr m ↦ rw m (let got' = rw (m, append-nil) at got in got')
        ]);
      }

  -- Publications to any runs, in the order in which the bus gets them, each with its clock reading.
  abbrev pub publish_all : List (ℕ × String × RuntimeEvent Any) → RunEventBus Any → RunEventBus Any
  publish_all [] b = b
  publish_all ((now, j, e) ∷ ps) b = publish_all ps (publish_to now j e b)

  -- The events of one run among them.
  abbrev pub of_run : String → List (ℕ × String × RuntimeEvent Any) → List (RuntimeEvent Any)
  of_run run_id [] = []
  of_run run_id ((now, j, e) ∷ ps) =
      if str_eq run_id j then e ∷ of_run run_id ps else of_run run_id ps

  publish_all-Follows :
      (a : ℕ) (run_id : String) (xs : List (RuntimeEvent Any))
      (ps : List (ℕ × String × RuntimeEvent Any)) (b : RunEventBus Any)
      → Follows a run_id xs b
      → Follows a run_id (xs ++ of_run run_id ps) (publish_all ps b)
  publish_all-Follows a run_id xs [] b f = rw append-nil f
  publish_all-Follows a run_id xs ((now, j, e) ∷ ps) b f =
      let ih =
        publish_all-Follows a run_id (if str_eq run_id j then xs ++ e ∷ [] else xs) ps
          (publish_to now j e b) (publish-Follows a run_id xs now j e b f) in
      elim (Bool-cases (str_eq run_id j)) [
        | inl m ↦ rw m (let ih' = rw (m, append_assoc) at ih in ih')
        | inr m ↦ rw m (let ih' = rw m at ih in ih')
      ]

  -- Where every subscribed queue has been allocated, a new subscriber without a size limit that
  -- starts at `since` receives, in order and once each, the kept events of its run past `since` and
  -- then every event published to the run afterwards, however publications to other runs
  -- interleave.
  pub subscribe-publish_all :
      (run_id : String) (since : ℕ) (ps : List (ℕ × String × RuntimeEvent Any))
      (b : RunEventBus Any)
      → IsAllocated b
      → ((publish_all ps (subscribe run_id (some (pos since)) (pos 0) b).0).queues.cell
          b.queues.next).items
        ≡ filter (λ e. ltb since (seq_of e)) (history_of run_id b) ++ of_run run_id ps
  subscribe-publish_all run_id since ps b fresh =
      (publish_all-Follows b.queues.next run_id _ ps _
        (subscribe-Follows run_id since b fresh)).holds.items
