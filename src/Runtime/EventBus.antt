-- ===== src/Runtime/EventBus.antt =====
-- src/python_tty/runtime/event_bus.py: per-run event histories and their subscribers' queues.
-- An `asyncio.Queue` is a shared object: the bus holds its address, its reader takes from the cell.
-- The clock reading of `time.time()` is the argument `now`.
pub mod Pruning
pub mod Delivery
pub mod Streaming
pub mod Logs
use python_tty.Prelude.{
  ℕ, zero, suc, ◌+◌, ◌-◌, String, Bool, true, false, ◌&&◌, Option, none, some, List, [], ◌∷◌, ◌++◌,
  length, drop, ltb, leb, ◌==◌, if◌then◌else◌, remove_first, or_else, ℤ, pos, negsuc,
}
use python_tty.Prelude.Int.{bound}
use python_tty.Prelude.Heap.{Heap, write, alloc}
use python_tty.Prelude.Dict.{Dict, get, put, pop}
use python_tty.Runtime.Events.{RuntimeEvent, seq_of}

pub record Queue (Any : Type 0) : Type 0 where
  pub maxsize : ℤ
  pub items : List (RuntimeEvent Any)

pub record RunEventBus (Any : Type 0) : Type 0 where
  pub subscribers : Dict (List ℕ)
  pub history : Dict (List (RuntimeEvent Any))
  pub max_events : Option ℤ
  pub ttl_seconds : Option ℕ
  pub queues : Heap (Queue Any)

-- The empty queue of a cell that nobody has allocated.
abbrev pub no_queue : {Any : Type 0} → Queue Any
no_queue = record { maxsize = pos 0; items = [] }

unfoldable pub init : {Any : Type 0} → Option ℤ → Option ℕ → RunEventBus Any
init max_events ttl_seconds = record {
  subscribers = [];
  history = [];
  max_events = max_events;
  ttl_seconds = ttl_seconds;
  queues = record { next = 0; cell = λ _. no_queue };
}

module _ {Any : Type 0} where
  -- asyncio's full(): only a positive maxsize bounds a queue
  abbrev pub is_full : Queue Any → Bool
  is_full q = elim q.maxsize [ pos n ↦ ltb 0 n && leb n (length q.items) | negsuc n ↦ false ]

  -- put_nowait; `none` is QueueFull
  unfoldable pub put_nowait : Queue Any → RuntimeEvent Any → Option (Queue Any)
  put_nowait q e = if is_full q then none else some (record q { items = q.items ++ e ∷ [] })

  -- try: queue.put_nowait(event) except QueueFull: continue
  unfoldable pub offer : RuntimeEvent Any → ℕ → Heap (Queue Any) → Heap (Queue Any)
  unfolding put_nowait
  offer e a h = elim (put_nowait (h.cell a) e) [ none ↦ h | some q ↦ write a q h ]

  unfoldable pub offer_all : RuntimeEvent Any → List ℕ → Heap (Queue Any) → Heap (Queue Any)
  offer_all e [] h = h
  offer_all e (a ∷ as') h = offer_all e as' (offer e a h)

  -- the `while history` loop: a leading event goes if it has a time stamp before the cutoff
  unfoldable pub drop_expired : ℕ → ℕ → List (RuntimeEvent Any) → List (RuntimeEvent Any)
  drop_expired now ttl [] = []
  drop_expired now ttl (e ∷ es) = elim e.ts [
    | none ↦ e ∷ es
    | some ts ↦ if leb now (ts + ttl) then e ∷ es else drop_expired now ttl es
  ]

  -- `del history[:-n]`. Python reads `-0` as 0, so at 0 the slice is empty.
  unfoldable pub del_before_last : ℕ → List (RuntimeEvent Any) → List (RuntimeEvent Any)
  del_before_last n h = if n == 0 then h else drop (length h - n) h

  abbrev by_age : ℕ → Option ℕ → List (RuntimeEvent Any) → List (RuntimeEvent Any)
  by_age now none h = h
  by_age now (some ttl) h = drop_expired now ttl h

  abbrev by_count : Option ℤ → List (RuntimeEvent Any) → List (RuntimeEvent Any)
  by_count (some (pos n)) h = if ltb n (length h) then del_before_last n h else h
  by_count _ h = h

  unfoldable pub pruned : ℕ → RunEventBus Any → List (RuntimeEvent Any) → List (RuntimeEvent Any)
  pruned now b h = by_count b.max_events (by_age now b.ttl_seconds h)

  -- _prune_history
  unfoldable pub prune_history : ℕ → String → RunEventBus Any → RunEventBus Any
  prune_history now run_id b = elim (get run_id b.history) [
    | none ↦ b
    | some [] ↦ b
    | some (e ∷ es) ↦ record b { history = put run_id (pruned now b (e ∷ es)) b.history }
  ]

  -- self._history.get(run_id, [])
  unfoldable pub history_of : String → RunEventBus Any → List (RuntimeEvent Any)
  history_of run_id b = or_else (get run_id b.history) []

  -- self._subscribers.get(run_id, [])
  unfoldable pub subscribers_of : String → RunEventBus Any → List ℕ
  subscribers_of run_id b = or_else (get run_id b.subscribers) []

  -- self._history.setdefault(run_id, []).append(event)
  unfoldable pub append_history : String → RuntimeEvent Any → RunEventBus Any → RunEventBus Any
  unfolding history_of
  append_history run_id e b = record b {
    history = put run_id (history_of run_id b ++ e ∷ []) b.history;
  }

  unfoldable pub publish_to : ℕ → String → RuntimeEvent Any → RunEventBus Any → RunEventBus Any
  publish_to now run_id e b =
      let b' = prune_history now run_id (append_history run_id e b) in
      record b' { queues = offer_all e (subscribers_of run_id b') b'.queues }

  -- publish
  unfoldable pub publish : ℕ → Option String → RuntimeEvent Any → RunEventBus Any → RunEventBus Any
  publish now none e b = b
  publish now (some run_id) e b = publish_to now run_id e b

  -- The replay loop of `subscribe`: `false` is an escaping QueueFull, which keeps what is queued.
  unfoldable pub replay : ℕ → List (RuntimeEvent Any) → Queue Any → Queue Any × Bool
  replay since [] q = (q, true)
  replay since (e ∷ es) q =
      if ltb since (seq_of e)
      then elim (put_nowait q e) [ none ↦ (q, false) | some q' ↦ replay since es q' ]
      else replay since es q

  abbrev replay_from : Option ℕ → List (RuntimeEvent Any) → Queue Any → Queue Any × Bool
  replay_from none h q = (q, true)
  replay_from (some since) h q = replay since h q

  -- subscribe: the address of the new queue, or `none` where the replay raises QueueFull
  unfoldable pub subscribe : String → Option ℤ → ℤ → RunEventBus Any → RunEventBus Any × Option ℕ
  unfolding subscribers_of history_of
  subscribe run_id since_seq maxsize b =
      let (q, done) =
        replay_from (bound since_seq) (history_of run_id b)
          (record { maxsize = maxsize; items = [] }) in
      (
        record b {
          subscribers = put run_id (subscribers_of run_id b ++ b.queues.next ∷ []) b.subscribers;
          queues = alloc q b.queues;
        },
        if done then some b.queues.next else none,
      )

  -- unsubscribe
  unfoldable pub unsubscribe : String → ℕ → RunEventBus Any → RunEventBus Any
  unfolding remove_first
  unsubscribe run_id a b = elim (get run_id b.subscribers) [
    | none ↦ b
    | some [] ↦ b
    | some (x ∷ xs) ↦ elim (remove_first (λ q. q == a) (x ∷ xs)) [
      | none ↦ b
      | some [] ↦ record b { subscribers = pop run_id b.subscribers }
      | some (y ∷ ys) ↦ record b { subscribers = put run_id (y ∷ ys) b.subscribers }
    ]
  ]

  -- drop
  unfoldable pub drop_run : String → RunEventBus Any → RunEventBus Any
  drop_run run_id b = record b {
    subscribers = pop run_id b.subscribers;
    history = pop run_id b.history;
  }
