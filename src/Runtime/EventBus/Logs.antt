-- ===== src/Runtime/EventBus/Logs.antt =====
-- The event bus (event_bus.py) as a log: what its methods do to the whole record of a run's events.
use mathlib.Core.List.{append_assoc}
use python_tty.Prelude.{
  ℕ, zero, suc, ◌≡◌, refl, sym, ap, ◌∙◌, String, Option, none, some, List, [], ◌∷◌, ◌++◌, drop,
  if◌then◌else◌, str_eq, ℤ, arith, inl, inr, Bool-cases,
}
use python_tty.Prelude.Dict.{get, get-pop}
use python_tty.Runtime.Events.{RuntimeEvent}
use python_tty.Runtime.EventBus.{
  RunEventBus, init, pruned, history_of, publish_to, publish, prune_history, append_history,
  subscribe, unsubscribe, drop_run,
}
use python_tty.Runtime.EventBus.Pruning.{publish-history, pruned_induction}

-- The calls of the bus's methods.
pub data BusCall (Any : Type 0) : Type 0 where
  publishes : ℕ → Option String → RuntimeEvent Any → BusCall Any
  subscribes : String → Option ℤ → ℤ → BusCall Any
  unsubscribes : String → ℕ → BusCall Any
  drops : String → BusCall Any

-- The specification: a log of each run, which publishing extends and dropping clears.
abbrev pub Log : Type 0 → Type 0
Log Any = String → List (RuntimeEvent Any)

module _ {Any : Type 0} where
  abbrev pub call : BusCall Any → RunEventBus Any → RunEventBus Any
  call (publishes now run_id e) b = publish now run_id e b
  call (subscribes run_id since maxsize) b = (subscribe run_id since maxsize b).0
  call (unsubscribes run_id a) b = unsubscribe run_id a b
  call (drops run_id) b = drop_run run_id b

  abbrev pub calls : List (BusCall Any) → RunEventBus Any → RunEventBus Any
  calls [] b = b
  calls (c ∷ cs) b = calls cs (call c b)

  abbrev pub set_log : String → List (RuntimeEvent Any) → Log Any → Log Any
  set_log run_id es log = λ j. if str_eq run_id j then es else log j

  abbrev pub log_call : BusCall Any → Log Any → Log Any
  log_call (publishes now none e) log = log
  log_call (publishes now (some run_id) e) log = set_log run_id (log run_id ++ e ∷ []) log
  log_call (subscribes run_id since maxsize) log = log
  log_call (unsubscribes run_id a) log = log
  log_call (drops run_id) log = set_log run_id [] log

  abbrev pub log_calls : List (BusCall Any) → Log Any → Log Any
  log_calls [] log = log
  log_calls (c ∷ cs) log = log_calls cs (log_call c log)

  -- One list is the end of the other.
  abbrev pub IsEnd : List (RuntimeEvent Any) → List (RuntimeEvent Any) → Type 0
  IsEnd xs ys = (front : List (RuntimeEvent Any)) × (ys ≡ front ++ xs)

  drop-IsEnd : (k : ℕ) (xs ys : List (RuntimeEvent Any)) → IsEnd xs ys → IsEnd (drop k xs) ys
  drop-IsEnd zero xs ys s = s
  drop-IsEnd (suc k) [] ys s = s
  drop-IsEnd (suc k) (x ∷ xs) ys (front, e) =
      drop-IsEnd k xs ys (front ++ x ∷ [], e ∙ sym (append_assoc front (x ∷ []) xs))

  snoc-IsEnd :
      (xs ys : List (RuntimeEvent Any)) (e : RuntimeEvent Any)
      → IsEnd xs ys
      → IsEnd (xs ++ e ∷ []) (ys ++ e ∷ [])
  snoc-IsEnd xs ys e (front, h) = (front, ap (λ l. l ++ e ∷ []) h ∙ append_assoc front xs (e ∷ []))

  -- Each history is the end of the run's log, and all of it where the bus has no limits.
  pub record Refines (log : Log Any) (b : RunEventBus Any) : Type 0 where
    pub ends : (j : String) → IsEnd (history_of j b) (log j)
    pub whole : (j : String) → b.max_events ≡ none → b.ttl_seconds ≡ none → history_of j b ≡ log j

  -- What the other methods leave alone: the histories and the limits.
  pub record KeepsHistory (b b' : RunEventBus Any) : Type 0 where
    pub histories : b'.history ≡ b.history
    pub counts : b'.max_events ≡ b.max_events
    pub ages : b'.ttl_seconds ≡ b.ttl_seconds

  unsubscribe-KeepsHistory :
      (run_id : String) (a : ℕ) (b : RunEventBus Any) → KeepsHistory b (unsubscribe run_id a b)
  unfolding unsubscribe
  unsubscribe-KeepsHistory run_id a b = record {
    histories = ground arith;
    counts = ground arith;
    ages = ground arith;
  }

  publish_to-limits :
      (now : ℕ) (run_id : String) (e : RuntimeEvent Any) (b : RunEventBus Any)
      → ((publish_to now run_id e b).max_events ≡ b.max_events)
        × ((publish_to now run_id e b).ttl_seconds ≡ b.ttl_seconds)
  unfolding publish_to prune_history append_history
  publish_to-limits now run_id e b = ground arith

  kept-Refines :
      (log : Log Any) (b b' : RunEventBus Any) → KeepsHistory b b' → Refines log b → Refines log b'
  unfolding history_of
  kept-Refines log b b' k r = record {
    ends = λ j. rw (k.histories) (r.ends j);
    whole = λ j m t. rw (k.histories) (r.whole j (sym k.counts ∙ m) (sym k.ages ∙ t));
  }

  pruned-whole :
      (now : ℕ) (b : RunEventBus Any) (h : List (RuntimeEvent Any))
      → b.max_events ≡ none
      → b.ttl_seconds ≡ none
      → pruned now b h ≡ h
  unfolding pruned
  pruned-whole now b h m t = rw (m, t) refl

  published-Refines :
      (now : ℕ) (run_id : String) (e : RuntimeEvent Any) (log : Log Any) (b : RunEventBus Any)
      → Refines log b
      → Refines (set_log run_id (log run_id ++ e ∷ []) log) (publish_to now run_id e b)
  published-Refines now run_id e log b r = record {
    ends = λ j. elim (Bool-cases (str_eq run_id j)) [
      | inl h ↦
          rw (publish-history now run_id j e b, h)
            (pruned_induction (λ es. IsEnd es (log run_id ++ e ∷ []))
              (λ k es s. drop-IsEnd k es (log run_id ++ e ∷ []) s) now b
              (history_of run_id b ++ e ∷ [])
              (snoc-IsEnd (history_of run_id b) (log run_id) e (r.ends run_id)))
      | inr h ↦ rw (publish-history now run_id j e b, h) (r.ends j)
    ];
    whole = λ j m t.
        let (same, aged) = publish_to-limits now run_id e b in
        let m' = sym same ∙ m in
        let t' = sym aged ∙ t in
        elim (Bool-cases (str_eq run_id j)) [
          | inl h ↦
              rw (publish-history now run_id j e b, h)
                (pruned-whole now b (history_of run_id b ++ e ∷ []) m' t'
                  ∙ ap (λ es. es ++ e ∷ []) (r.whole run_id m' t'))
          | inr h ↦ rw (publish-history now run_id j e b, h) (r.whole j m' t')
        ];
  }

  dropped-Refines :
      (run_id : String) (log : Log Any) (b : RunEventBus Any)
      → Refines log b
      → Refines (set_log run_id [] log) (drop_run run_id b)
  unfolding drop_run history_of
  dropped-Refines run_id log b r = record {
    ends = λ j. elim (Bool-cases (str_eq run_id j)) [
      | inl h ↦ rw (get-pop run_id j b.history, h) ([], refl)
      | inr h ↦ rw (get-pop run_id j b.history, h) (r.ends j)
    ];
    whole = λ j m t. elim (Bool-cases (str_eq run_id j)) [
      | inl h ↦ rw (get-pop run_id j b.history, h) refl
      | inr h ↦ rw (get-pop run_id j b.history, h) (r.whole j m t)
    ];
  }

  call-Refines :
      (c : BusCall Any) (log : Log Any) (b : RunEventBus Any)
      → Refines log b
      → Refines (log_call c log) (call c b)
  unfolding publish subscribe
  call-Refines (publishes now none e) log b r = r
  call-Refines (publishes now (some run_id) e) log b r = published-Refines now run_id e log b r
  call-Refines (subscribes run_id since maxsize) log b r =
      kept-Refines log b (subscribe run_id since maxsize b).0
        (record { histories = refl; counts = refl; ages = refl }) r
  call-Refines (unsubscribes run_id a) log b r =
      kept-Refines log b (unsubscribe run_id a b) (unsubscribe-KeepsHistory run_id a b) r
  call-Refines (drops run_id) log b r = dropped-Refines run_id log b r

  calls-Refines :
      (cs : List (BusCall Any)) (log : Log Any) (b : RunEventBus Any)
      → Refines log b
      → Refines (log_calls cs log) (calls cs b)
  calls-Refines [] log b r = r
  calls-Refines (c ∷ cs) log b r =
      calls-Refines cs (log_call c log) (call c b) (call-Refines c log b r)

  -- Whatever calls a new bus gets, it refines the log: each run's history is the end of the run's log,
  -- so nothing is reordered, altered, repeated or lost but at the front, and it is the whole log
  -- where the bus has neither a bound on the events nor a time to live.
  pub init-Refines :
      (max_events : Option ℤ) (ttl_seconds : Option ℕ) (cs : List (BusCall Any))
      → Refines (log_calls cs (λ j. [])) (calls cs (init max_events ttl_seconds))
  unfolding init history_of get
  init-Refines max_events ttl_seconds cs =
      calls-Refines cs (λ j. []) (init max_events ttl_seconds)
        (record { ends = λ j. ([], refl); whole = λ j m t. refl })
