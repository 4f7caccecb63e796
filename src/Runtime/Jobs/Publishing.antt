-- ===== src/Runtime/Jobs/Publishing.antt =====
-- src/python_tty/runtime/jobs.py: event numbers, publication and subscriptions.
use python_tty.Prelude.{
  ℕ, suc, String, Option, none, some, [], ◌∷◌, ◌++◌, if◌then◌else◌, ◌==◌, or_else, remove_first, ℤ,
  pos,
}
use python_tty.Prelude.Heap.{alloc}
use python_tty.Prelude.Dict.{get, put}
use python_tty.Models.{exception, Outcome, returned, raised}
use python_tty.Runtime.Events.{RuntimeEvent}
use python_tty.Runtime.EventBus.{offer_all, publish, subscribe, unsubscribe}
use python_tty.Runtime.Jobs.{JobStore}

-- The address of a new queue, or the QueueFull that the replay raised.
abbrev queue_or_full : Option ℕ → Outcome ℕ
queue_or_full none = raised (exception "QueueFull")
queue_or_full (some a) = returned a

module _ {Any : Type 0} where
  -- next_event_seq
  unfoldable pub next_event_seq : String → JobStore Any → JobStore Any × ℕ
  next_event_seq run_id s =
      let n = suc (or_else (get run_id s.event_seq) 0) in
      (record s { event_seq = put run_id n s.event_seq }, n)

  abbrev pub offer_global : RuntimeEvent Any → JobStore Any → JobStore Any
  offer_global e s = record s {
    event_bus = record (s.event_bus) {
      queues = offer_all e s.global_subscribers s.event_bus.queues;
    };
  }

  -- publish_event
  unfoldable pub publish_event : ℕ → Option String → RuntimeEvent Any → JobStore Any → JobStore Any
  publish_event now run_id e s =
      offer_global e (record s { event_bus = publish now run_id e s.event_bus })

  -- The tests of `events` and `subscribe_all` on the running loop, with their two errors.
  unfoldable pub check_loop : String → String → Option ℕ → JobStore Any → Outcome (Unit {0})
  check_loop elsewhere nowhere none s = raised (exception nowhere)
  check_loop elsewhere nowhere (some c) s = elim s.loop [
    | none ↦ returned tt
    | some l ↦ if c == l then returned tt else raised (exception elsewhere)
  ]

  -- events
  unfoldable pub events : Option ℕ → String → Option ℤ → ℤ → JobStore Any → JobStore Any × Outcome ℕ
  unfolding check_loop
  events current run_id since_seq maxsize s =
      elim (check_loop "events must be called from the executor loop"
        "events requires a running event loop" current s) [
          | raised e ↦ (s, raised e)
          | returned _ ↦
              let (b, q) = subscribe run_id since_seq maxsize s.event_bus in
              (record s { event_bus = b }, queue_or_full q)
        ]

  unfoldable pub unsubscribe_events : String → ℕ → JobStore Any → JobStore Any
  unsubscribe_events run_id q s = record s { event_bus = unsubscribe run_id q s.event_bus }

  -- subscribe_all
  unfoldable pub subscribe_all : Option ℕ → JobStore Any → JobStore Any × Outcome ℕ
  unfolding check_loop
  subscribe_all current s =
      elim (check_loop "subscribe_all must be called from the executor loop"
        "subscribe_all requires a running event loop" current s) [
          | raised e ↦ (s, raised e)
          | returned _ ↦
              let a = s.event_bus.queues.next in
              (
                record s {
                  global_subscribers = s.global_subscribers ++ a ∷ [];
                  event_bus = record (s.event_bus) {
                    queues = alloc (record { maxsize = pos 0; items = [] }) s.event_bus.queues;
                  };
                },
                returned a,
              )
        ]

  -- unsubscribe_all
  unfoldable pub unsubscribe_all : ℕ → JobStore Any → JobStore Any
  unsubscribe_all q s = elim (remove_first (λ a. a == q) s.global_subscribers) [
    | none ↦ s
    | some as' ↦ record s { global_subscribers = as' }
  ]
