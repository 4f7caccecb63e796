-- ===== src/Executor/Numbering.antt =====
-- The order of a run's events (executor.py, `publish_event`, with jobs.py and event_bus.py).
use python_tty.Prelude.{
  ℕ, zero, suc, ◌≤◌, ◌<◌, ◌≡◌, refl, String, false, not, ◌&&◌, none, some, List, [], ◌∷◌, ◌++◌,
  if◌then◌else◌, arith, Bool-cases, inl, inr, str_eq, drop, All, All-append, All-drop, or_else,
}
use python_tty.Prelude.Dict.{get, get-put}
use python_tty.Runtime.Events.{RuntimeEvent, seq_of}
use python_tty.Runtime.EventBus.{RunEventBus, history_of, publish, pruned}
use python_tty.Runtime.EventBus.Pruning.{publish-history, pruned_induction}
use python_tty.Runtime.Jobs.{JobStore}
use python_tty.Runtime.Jobs.Publishing.{next_event_seq}
use python_tty.Runtime.Jobs.Publishing
use python_tty.Executor.{
  World, CommandExecutor, loop_running, on_loop, publish_event, publish_on_loop, number_event,
  audit, with_run_id,
}

module _ {Any : Type 0} where
  -- Event numbers rise along a history.
  abbrev pub IsRising : List (RuntimeEvent Any) → Type 0
  IsRising [] = Unit {0}
  IsRising (e ∷ es) = All (λ x. seq_of e < seq_of x) es × IsRising es

  IsRising-drop : (k : ℕ) (h : List (RuntimeEvent Any)) → IsRising h → IsRising (drop k h)
  IsRising-drop zero h r = r
  IsRising-drop (suc k) [] r = tt
  IsRising-drop (suc k) (e ∷ h) r = IsRising-drop k h r.1

  All-le-suc :
      (n : ℕ) (h : List (RuntimeEvent Any))
      → All (λ x. seq_of x ≤ n) h
      → All (λ x. seq_of x ≤ suc n) h
  All-le-suc n [] a = tt
  All-le-suc n (e ∷ h) a = (omega arith, All-le-suc n h a.1)

  IsRising-snoc :
      (n : ℕ) (h : List (RuntimeEvent Any)) (ev : RuntimeEvent Any)
      → All (λ x. seq_of x ≤ n) h
      → IsRising h
      → seq_of ev ≡ suc n
      → IsRising (h ++ ev ∷ [])
  IsRising-snoc n [] ev a r e = (tt, tt)
  IsRising-snoc n (x ∷ h) ev a r e = (
    All-append (λ y. seq_of x < seq_of y) h (ev ∷ []) r.0 (omega arith, tt),
    IsRising-snoc n h ev a.1 r.1 e,
  )

  -- The kept history of a run rises and its numbers are at most the run's counter.
  pub record IsNumbered (r : String) (s : JobStore Any) : Type 0 where
    pub rising : IsRising (history_of r s.event_bus)
    pub counted : All (λ x. seq_of x ≤ or_else (get r s.event_seq) 0) (history_of r s.event_bus)

  -- Numbering an event and publishing it to the store.
  abbrev pub number_and_publish : ℕ → String → RuntimeEvent Any → JobStore Any → JobStore Any
  number_and_publish now r ev s =
      Publishing.publish_event now (some r) (record ev { seq = some (next_event_seq r s).1 })
        (next_event_seq r s).0

  number_and_publish-history :
      (now : ℕ) (r j : String) (ev : RuntimeEvent Any) (s : JobStore Any)
      → history_of j (number_and_publish now r ev s).event_bus ≡ (
          if str_eq r j
          then pruned now s.event_bus (
              history_of r s.event_bus
              ++ record ev { seq = some (suc (or_else (get r s.event_seq) 0)) } ∷ [])
          else history_of j s.event_bus)
  unfolding Publishing.publish_event publish next_event_seq history_of
  number_and_publish-history now r j ev s = publish-history now r j _ s.event_bus

  number_and_publish-seq :
      (now : ℕ) (r j : String) (ev : RuntimeEvent Any) (s : JobStore Any)
      → get j (number_and_publish now r ev s).event_seq
        ≡ (if str_eq r j then some (suc (or_else (get r s.event_seq) 0)) else get j s.event_seq)
  unfolding Publishing.publish_event next_event_seq
  number_and_publish-seq now r j ev s = get-put r j _ s.event_seq

  -- A rising list whose numbers are at most `n`.
  abbrev Fits : ℕ → List (RuntimeEvent Any) → Type 0
  Fits n h = IsRising h × All (λ x. seq_of x ≤ n) h

  extended-Fits :
      (now n : ℕ) (ev : RuntimeEvent Any) (b : RunEventBus Any) (h : List (RuntimeEvent Any))
      → Fits n h
      → Fits (suc n) (pruned now b (h ++ record ev { seq = some (suc n) } ∷ []))
  extended-Fits now n ev b h f =
      pruned_induction (Fits (suc n))
        (λ k l g. (IsRising-drop k l g.0, All-drop (λ x. seq_of x ≤ suc n) k l g.1)) now b _
        (
          IsRising-snoc n h (record ev { seq = some (suc n) }) f.1 f.0 refl,
          All-append (λ x. seq_of x ≤ suc n) h _ (All-le-suc n h f.1) (omega arith, tt),
        )

  -- Numbering and publishing an event of one run keeps the kept history of every run rising, below
  -- its counter.
  pub number_and_publish-IsNumbered :
      (now : ℕ) (r j : String) (ev : RuntimeEvent Any) (s : JobStore Any)
      → IsNumbered r s
      → IsNumbered j s
      → IsNumbered j (number_and_publish now r ev s)
  number_and_publish-IsNumbered now r j ev s v u = elim (Bool-cases (str_eq r j)) [
    | inl m ↦
        let n = or_else (get r s.event_seq) 0 in
        let f =
          extended-Fits now n ev s.event_bus (history_of r s.event_bus) (v.rising, v.counted) in
        record {
          rising = rw (number_and_publish-history, m) f.0;
          counted = rw (number_and_publish-history, number_and_publish-seq, m) f.1;
        }
    | inr m ↦ record {
      rising = rw (number_and_publish-history, m) u.rising;
      counted = rw (number_and_publish-history, number_and_publish-seq, m) u.counted;
    }
  ]

  with_run_id-seq :
      (r : String) (ev : RuntimeEvent Any) → ev.seq ≡ none → (with_run_id r ev).seq ≡ none
  with_run_id-seq r ev n = ground arith

module _ {Handler Any : Type 0} where
  publish_on_loop-store :
      (w : World) (r : String) (ev : RuntimeEvent Any) (e : CommandExecutor Handler Any)
      → (loop_running w e && not (on_loop w e)) ≡ false
      → (publish_on_loop w r ev e).store ≡ Publishing.publish_event e.clock (some r) ev e.store
  unfolding publish_on_loop
  publish_on_loop-store w r ev e h = rw h refl

  number_event-none :
      (r : String) (ev : RuntimeEvent Any) (e : CommandExecutor Handler Any)
      → ev.seq ≡ none
      → number_event r ev e ≡ (
        record e { store = (next_event_seq r e.store).0 },
        record ev { seq = some (next_event_seq r e.store).1 },
      )
  unfolding number_event
  number_event-none r ev e n = rw n refl

  publish_event-store :
      (w : World) (r : String) (ev : RuntimeEvent Any) (e : CommandExecutor Handler Any)
      → ev.seq ≡ none
      → (loop_running w e && not (on_loop w e)) ≡ false
      → (publish_event w r ev e).store ≡ number_and_publish e.clock r (with_run_id r ev) e.store
  unfolding publish_event audit
  publish_event-store w r ev e n h =
      rw (number_event-none r (with_run_id r ev) e (with_run_id-seq r ev n))
        (publish_on_loop-store w r _ (record e { store = (next_event_seq r e.store).0 }) h)

  -- Publishing an event without a number, on the loop's thread or where no loop runs, keeps the
  -- kept history of every run rising in its numbers, none of them past the run's counter.
  pub publish_event-IsNumbered :
      (w : World) (r j : String) (ev : RuntimeEvent Any) (e : CommandExecutor Handler Any)
      → ev.seq ≡ none
      → (loop_running w e && not (on_loop w e)) ≡ false
      → IsNumbered r e.store
      → IsNumbered j e.store
      → IsNumbered j (publish_event w r ev e).store
  publish_event-IsNumbered w r j ev e n h v u =
      rw (publish_event-store w r ev e n h)
        (number_and_publish-IsNumbered e.clock r j (with_run_id r ev) e.store v u)
