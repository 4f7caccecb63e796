-- ===== src/Runtime/EventBus/Pruning.antt =====
-- What `publish` keeps of a run's history (event_bus.py, `publish` and `_prune_history`).
use python_tty.Prelude.{
  ℕ, suc, ◌+◌, ◌-◌, ◌≤◌, ◌≡◌, refl, sym, subst, String, Option, none, some, List, [], ◌∷◌, ◌++◌,
  length, drop, ltb, leb, ◌==◌, if◌then◌else◌, ℤ, pos, negsuc, arith, str_eq, eq_refl, length-drop,
  inl, inr, ◌≢◌, Bool-cases,
}
use python_tty.Prelude.Dict.{get, get-put}
use python_tty.Runtime.Events.{RuntimeEvent}
use python_tty.Runtime.EventBus.{
  RunEventBus, pruned, prune_history, history_of, append_history, publish_to, drop_expired,
  del_before_last, by_count, by_age,
}

module _ {Any : Type 0} where
  append_history-history :
      (run_id j : String) (e : RuntimeEvent Any) (b : RunEventBus Any)
      → get j (append_history run_id e b).history
        ≡ (if str_eq run_id j then some (history_of run_id b ++ e ∷ []) else get j b.history)
  unfolding append_history
  append_history-history run_id j e b = get-put run_id j _ b.history

  append-ne-nil : (h : List (RuntimeEvent Any)) (e : RuntimeEvent Any) → (h ++ e ∷ []) ≢ []
  append-ne-nil [] e p = cc
  append-ne-nil (x ∷ h) e p = cc

  prune_history-history :
      (now : ℕ) (run_id j : String) (b : RunEventBus Any) (h : List (RuntimeEvent Any))
      → get run_id b.history ≡ some h
      → h ≢ []
      → get j (prune_history now run_id b).history
        ≡ (if str_eq run_id j then some (pruned now b h) else get j b.history)
  unfolding prune_history
  prune_history-history now run_id j b [] p q = absurd (q refl)
  prune_history-history now run_id j b (x ∷ h) p q =
      rw (p, prune_history) (get-put run_id j _ b.history)

  -- Publishing touches the history of its own run alone, which becomes the pruned extension.
  pub publish-history :
      (now : ℕ) (run_id j : String) (e : RuntimeEvent Any) (b : RunEventBus Any)
      → history_of j (publish_to now run_id e b)
        ≡ (if str_eq run_id j then pruned now b (history_of run_id b ++ e ∷ []) else history_of j b)
  unfolding publish_to history_of
  publish-history now run_id j e b =
      rw
        (
          prune_history-history now run_id j (append_history run_id e b)
              (history_of run_id b ++ e ∷ []) (simp (append_history-history, eq_refl))
              (append-ne-nil (history_of run_id b) e),
          append_history-history run_id j e b,
        )
        (unfold append_history pruned in ground arith)

  length-del_before_last :
      (n : ℕ) (h : List (RuntimeEvent Any)) → length (del_before_last (suc n) h) ≤ suc n
  unfolding del_before_last
  length-del_before_last n h = ground (arith, length-drop (length h - suc n) h)

  length-by_count :
      (n : ℕ) (h : List (RuntimeEvent Any)) → length (by_count (some (pos (suc n))) h) ≤ suc n
  length-by_count n h = ground (arith, length-del_before_last n h)

  -- With a positive `max_events` no published run's history grows beyond it, whatever the history
  -- held before, the clock or the time to live.
  publish-history-le :
      (now n : ℕ) (run_id : String) (e : RuntimeEvent Any) (b : RunEventBus Any)
      → b.max_events ≡ some (pos (suc n))
      → length (history_of run_id (publish_to now run_id e b)) ≤ suc n
  publish-history-le now n run_id e b m =
      rw (publish-history now run_id run_id e b, eq_refl run_id)
        (unfold pruned in rw m (length-by_count n _))

  drop_expired-drop :
      (now ttl : ℕ) (h : List (RuntimeEvent Any)) → (k : ℕ) × (drop_expired now ttl h ≡ drop k h)
  unfolding drop_expired
  drop_expired-drop now ttl [] = (0, refl)
  drop_expired-drop now ttl (e ∷ es) = go e.ts (drop_expired-drop now ttl es)
    where
      go :
          (ts : Option ℕ)
          → (k : ℕ) × (drop_expired now ttl es ≡ drop k es)
          → (k : ℕ) × ((elim ts as (λ _. List (RuntimeEvent Any)) [
            | none ↦ e ∷ es
            | some t ↦ if leb now (t + ttl) then e ∷ es else drop_expired now ttl es
          ])
              ≡ drop k (e ∷ es))
      go none ih = (0, refl)
      go (some t) (k, ih) = elim (Bool-cases (leb now (t + ttl))) [
        | inl p ↦ (0, rw p)
        | inr p ↦ (suc k, rw p ih)
      ]

  del_before_last-drop :
      (n : ℕ) (h : List (RuntimeEvent Any)) → (k : ℕ) × (by_count (some (pos n)) h ≡ drop k h)
  unfolding del_before_last
  del_before_last-drop n h = elim (Bool-cases (ltb n (length h))) [
    | inl p ↦ elim (Bool-cases (n == 0)) [
      | inl z ↦ (0, rw (p, z))
      | inr z ↦ (length h - n, rw (p, z))
    ]
    | inr p ↦ (0, rw p)
  ]

  by_count-drop : (m : Option ℤ) (h : List (RuntimeEvent Any)) → (k : ℕ) × (by_count m h ≡ drop k h)
  by_count-drop none h = (0, refl)
  by_count-drop (some (negsuc n)) h = (0, refl)
  by_count-drop (some (pos n)) h = del_before_last-drop n h

  by_age-drop :
      (now : ℕ) (ttl : Option ℕ) (h : List (RuntimeEvent Any))
      → (k : ℕ) × (by_age now ttl h ≡ drop k h)
  by_age-drop now none h = (0, refl)
  by_age-drop now (some ttl) h = drop_expired-drop now ttl h

  -- What pruning leaves has every property that a list keeps when leading events are dropped.
  pub pruned_induction {ℓ} :
      (P : List (RuntimeEvent Any) → Type ℓ)
      → ((k : ℕ) (h : List (RuntimeEvent Any)) → P h → P (drop k h))
      → (now : ℕ) (b : RunEventBus Any) (h : List (RuntimeEvent Any)) → P h
      → P (pruned now b h)
  unfolding pruned
  pruned_induction P keep now b h p =
      let (k, e) = by_age-drop now b.ttl_seconds h in
      let aged = by_age now b.ttl_seconds h in
      let (m, f) = by_count-drop b.max_events aged in
      subst P (sym f) (keep m aged (subst P (sym e) (keep k h p)))

  pruned-latest :
      (now n : ℕ) (b : RunEventBus Any) (h : List (RuntimeEvent Any))
      → b.max_events ≡ some (pos (suc n))
      → b.ttl_seconds ≡ none
      → pruned now b h ≡ drop (length h - suc n) h
  unfolding pruned del_before_last
  pruned-latest now n b h m t = elim (Bool-cases (ltb (suc n) (length h))) [
    | inl p ↦ ground arith
    | inr p ↦ let z : length h - suc n ≡ 0 = ground arith in rw z (ground arith)
  ]

  -- With no time to live and a positive `max_events`, the history is exactly the latest events, the
  -- one just published included.
  publish-history-latest :
      (now n : ℕ) (run_id : String) (e : RuntimeEvent Any) (b : RunEventBus Any)
      → b.max_events ≡ some (pos (suc n))
      → b.ttl_seconds ≡ none
      → history_of run_id (publish_to now run_id e b)
        ≡ drop (length (history_of run_id b ++ e ∷ []) - suc n) (history_of run_id b ++ e ∷ [])
  publish-history-latest now n run_id e b m t =
      rw (publish-history now run_id run_id e b, eq_refl run_id)
        (pruned-latest now n b (history_of run_id b ++ e ∷ []) m t)

  -- With `max_events` at 0 and no time to live publishing drops nothing from the history.
  publish-history-zero :
      (now : ℕ) (run_id : String) (e : RuntimeEvent Any) (b : RunEventBus Any)
      → b.max_events ≡ some (pos 0)
      → b.ttl_seconds ≡ none
      → history_of run_id (publish_to now run_id e b) ≡ history_of run_id b ++ e ∷ []
  publish-history-zero now run_id e b m t =
      rw (publish-history now run_id run_id e b, eq_refl run_id)
        (unfold pruned del_before_last in ground arith)
