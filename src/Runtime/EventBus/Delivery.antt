-- ===== src/Runtime/EventBus/Delivery.antt =====
-- What a subscriber's queue receives (event_bus.py, `publish` and `subscribe`).
use python_tty.Prelude.{
  ℕ, zero, suc, ◌≡◌, String, List, [], ◌∷◌, ◌++◌, ◌==◌, if◌then◌else◌, pos, arith, count,
  Bool-cases, inl, inr,
}
use mathlib.Core.List.{append-nil, append_assoc}
use python_tty.Prelude.Heap.{Heap}
use python_tty.Runtime.Events.{RuntimeEvent}
use python_tty.Runtime.EventBus.{
  RunEventBus, Queue, offer, offer_all, prune_history, append_history, publish_to, subscribers_of,
}

module _ {Any : Type 0} where
  -- Copies of one event.
  abbrev pub copies : ℕ → RuntimeEvent Any → List (RuntimeEvent Any)
  copies zero e = []
  copies (suc n) e = e ∷ copies n e

  -- An unbounded queue at `a`, with its items.
  pub record Holds (a : ℕ) (xs : List (RuntimeEvent Any)) (h : Heap (Queue Any)) : Type 0 where
    pub unbounded : (h.cell a).maxsize ≡ pos 0
    pub items : (h.cell a).items ≡ xs

  offer-Holds :
      (e : RuntimeEvent Any) (x a : ℕ) (xs : List (RuntimeEvent Any)) (h : Heap (Queue Any))
      → Holds a xs h
      → Holds a (if x == a then xs ++ e ∷ [] else xs) (offer e x h)
  unfolding offer
  offer-Holds e x a xs h v = ground arith

  pub offer_all-Holds :
      (e : RuntimeEvent Any) (as' : List ℕ) (a : ℕ) (xs : List (RuntimeEvent Any))
      (h : Heap (Queue Any))
      → Holds a xs h
      → Holds a (xs ++ copies (count (λ x. x == a) as') e) (offer_all e as' h)
  unfolding offer_all
  offer_all-Holds e [] a xs h v = rw append-nil v
  offer_all-Holds e (x ∷ as') a xs h v =
      let ih =
        offer_all-Holds e as' a (if x == a then xs ++ e ∷ [] else xs) (offer e x h)
          (offer-Holds e x a xs h v) in
      elim (Bool-cases (x == a)) [
        | inl p ↦ rw p (let ih' = rw (p, append_assoc) at ih in ih')
        | inr p ↦ rw p (let ih' = rw p at ih in ih')
      ]

  -- `prune_history` and the append leave the subscribers and the queues alone.
  prune-subscribers :
      (now : ℕ) (run_id : String) (b : RunEventBus Any)
      → ((prune_history now run_id b).subscribers ≡ b.subscribers)
        × ((prune_history now run_id b).queues ≡ b.queues)
  unfolding prune_history
  prune-subscribers now run_id b = ground arith

  pub publish-subscribers :
      (now : ℕ) (run_id : String) (e : RuntimeEvent Any) (b : RunEventBus Any)
      → ((publish_to now run_id e b).subscribers ≡ b.subscribers)
        × ((publish_to now run_id e b).queues ≡ offer_all e (subscribers_of run_id b) b.queues)
  unfolding publish_to subscribers_of append_history
  publish-subscribers now run_id e b =
      let (p, q) = prune-subscribers now run_id (append_history run_id e b) in
      (p, ground (arith, p, q))
