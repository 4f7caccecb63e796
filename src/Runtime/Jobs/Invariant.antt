-- ===== src/Runtime/Jobs/Invariant.antt =====
-- What holds of the job store after any sequence of its methods (jobs.py).
use python_tty.Prelude.{
  ℤ, ℕ, ◌<◌, ◌≡◌, refl, ◌∙◌, String, Option, none, some, List, [], ◌∷◌, arith, eq_iff, Bool-cases,
  Option-cases, inl, inr,
}
use python_tty.Prelude.Dict.{get, contains, IsDict, put-IsDict, pop-IsDict, get-put, get-pop}
use python_tty.Models.{PyException, Invocation}
use python_tty.Runtime.Events.{RuntimeEvent}
use python_tty.Runtime.Jobs.{
  set_loop, JobStore, init, create_run, set_future, state_of_invocation, is_done,
}
use python_tty.Runtime.Jobs.Lifecycle.{
  resolve_future, cancel, pop_run, set_flag, fail_future, drop_future, forget, settle,
}
use python_tty.Runtime.Jobs.Publishing.{
  next_event_seq, publish_event, events, subscribe_all, unsubscribe_all, unsubscribe_events,
}
use python_tty.Runtime.Jobs.Cleanup.{cleanup, pop_all}

-- The dictionaries of a store agree and the table of runs has each key once: a run has a state, an invocation and a flag or none of them,
-- and the state and the invocation at a key carry that key as their `run_id`.
pub record IsValid {Any : Type 0} (s : JobStore Any) : Type 0 where
  pub invoked : (k : String) → contains k s.invocations ≡ contains k s.runs
  pub flagged : (k : String) → contains k s.cancel_flags ≡ contains k s.runs
  pub allocated : (k : String) (a : ℕ) → get k s.runs ≡ some a → a < s.states.next
  pub distinct : IsDict s.runs
  pub named : (k : String) (a : ℕ) → get k s.runs ≡ some a → (s.states.cell a).run_id ≡ k

module _ {Any : Type 0} where
  pub init-IsValid : (n e : Option _) (t u : Option ℕ) → IsValid (init {Any = Any} n t e u)
  unfolding init get
  init-IsValid n e t u = record {
    invoked = λ k. refl;
    flagged = λ k. refl;
    allocated = λ k a h. cc;
    distinct = tt;
    named = λ k a h. cc;
  }

  pub create_run-IsValid :
      (i : Invocation Any) (s : JobStore Any) → IsValid s → IsValid (create_run i s).0
  unfolding create_run
  create_run-IsValid i s v = elim (Option-cases i.run_id) [
    | inl p ↦ rw p v
    | inr (r, p) ↦ rw p (record {
      invoked = λ k. simp get-put (ground (arith, v.invoked k));
      flagged = λ k. simp get-put (ground (arith, v.flagged k));
      allocated = λ k a h. let h' = rw get-put at h in ground (arith, h', v.allocated k a);
      distinct = put-IsDict r _ s.runs v.distinct;
      named = λ k a h.
          let h' = rw get-put at h in
          unfold state_of_invocation in
          ground (arith, h', v.allocated k a, v.named k a, eq_iff r k);
    })
  ]

  -- The methods that leave the dictionaries alone, and the identity of every run state.
  pub record Keeps (s t : JobStore Any) : Type 0 where
    pub runs : t.runs ≡ s.runs
    pub invocations : t.invocations ≡ s.invocations
    pub cancel_flags : t.cancel_flags ≡ s.cancel_flags
    pub next : t.states.next ≡ s.states.next
    pub ids : (a : ℕ) → (t.states.cell a).run_id ≡ (s.states.cell a).run_id

  pub Keeps-IsValid : {s t : JobStore Any} → Keeps s t → IsValid s → IsValid t
  Keeps-IsValid {s} {t} k v = record {
    invoked = λ j. rw (k.invocations, k.runs) (v.invoked j);
    flagged = λ j. rw (k.cancel_flags, k.runs) (v.flagged j);
    allocated = λ j a h. rw k.next (v.allocated j a (let h' = rw k.runs at h in h'));
    distinct = rw k.runs v.distinct;
    named = λ j a h. k.ids a ∙ v.named j a (let h' = rw k.runs at h in h');
  }

  settle-Keeps : (f : ℕ) (x : _) (s : JobStore Any) → Keeps s (settle f x s)
  settle-Keeps f x s = elim (Bool-cases (is_done (s.futures.cell f))) [
    | inl p ↦ rw p (record {
      runs = refl;
      invocations = refl;
      cancel_flags = refl;
      next = refl;
      ids = λ a. refl;
    })
    | inr p ↦ rw p (record {
      runs = refl;
      invocations = refl;
      cancel_flags = refl;
      next = refl;
      ids = λ a. refl;
    })
  ]

  pub resolve_future-Keeps :
      (r : String) (x : Option Any) (e : Option PyException) (s : JobStore Any)
      → Keeps s (resolve_future r x e s)
  unfolding resolve_future
  resolve_future-Keeps r x e s = elim (Option-cases (get r s.run_futures)) [
    | inl p ↦
        rw (p, resolve_future)
          (record {
            runs = refl;
            invocations = refl;
            cancel_flags = refl;
            next = refl;
            ids = λ a. refl;
          })
    | inr (f, p) ↦ rw (p, resolve_future) (settle-Keeps f _ s)
  ]

  pub cancel-Keeps : (now : ℕ) (r : String) (s : JobStore Any) → Keeps s (cancel now r s).0
  unfolding cancel set_flag fail_future
  cancel-Keeps now r s = record {
    runs = ground arith;
    invocations = ground arith;
    cancel_flags = ground arith;
    next = ground arith;
    ids = λ a. ground arith;
  }

  pub set_future-Keeps : (r : String) (f : ℕ) (s : JobStore Any) → Keeps s (set_future r f s)
  unfolding set_future
  set_future-Keeps r f s = record {
    runs = refl;
    invocations = refl;
    cancel_flags = refl;
    next = refl;
    ids = λ a. refl;
  }

  pub next_event_seq-Keeps : (r : String) (s : JobStore Any) → Keeps s (next_event_seq r s).0
  unfolding next_event_seq
  next_event_seq-Keeps r s = record {
    runs = refl;
    invocations = refl;
    cancel_flags = refl;
    next = refl;
    ids = λ a. refl;
  }

  pub set_loop-Keeps : (l : Option ℕ) (s : JobStore Any) → Keeps s (set_loop l s)
  unfolding set_loop
  set_loop-Keeps l s = record {
    runs = refl;
    invocations = refl;
    cancel_flags = refl;
    next = refl;
    ids = λ a. refl;
  }

  pub unsubscribe_events-Keeps :
      (r : String) (q : ℕ) (s : JobStore Any) → Keeps s (unsubscribe_events r q s)
  unfolding unsubscribe_events
  unsubscribe_events-Keeps r q s = record {
    runs = refl;
    invocations = refl;
    cancel_flags = refl;
    next = refl;
    ids = λ a. refl;
  }

  pub events-Keeps :
      (c : Option ℕ) (r : String) (since : Option ℤ) (maxsize : ℤ) (s : JobStore Any)
      → Keeps s (events c r since maxsize s).0
  unfolding events
  events-Keeps c r since maxsize s = record {
    runs = ground arith;
    invocations = ground arith;
    cancel_flags = ground arith;
    next = ground arith;
    ids = λ a. ground arith;
  }

  pub subscribe_all-Keeps : (c : Option ℕ) (s : JobStore Any) → Keeps s (subscribe_all c s).0
  unfolding subscribe_all
  subscribe_all-Keeps c s = record {
    runs = ground arith;
    invocations = ground arith;
    cancel_flags = ground arith;
    next = ground arith;
    ids = λ a. ground arith;
  }

  pub unsubscribe_all-Keeps : (q : ℕ) (s : JobStore Any) → Keeps s (unsubscribe_all q s)
  unfolding unsubscribe_all
  unsubscribe_all-Keeps q s = record {
    runs = ground arith;
    invocations = ground arith;
    cancel_flags = ground arith;
    next = ground arith;
    ids = λ a. ground arith;
  }

  pub publish_event-Keeps :
      (now : ℕ) (r : Option String) (e : RuntimeEvent Any) (s : JobStore Any)
      → Keeps s (publish_event now r e s)
  unfolding publish_event
  publish_event-Keeps now r e s = record {
    runs = refl;
    invocations = refl;
    cancel_flags = refl;
    next = refl;
    ids = λ a. refl;
  }

  pub drop_future-Keeps : (f : Option ℕ) (s : JobStore Any) → Keeps s (drop_future f s)
  unfolding drop_future
  drop_future-Keeps none s = record {
    runs = refl;
    invocations = refl;
    cancel_flags = refl;
    next = refl;
    ids = λ a. refl;
  }
  drop_future-Keeps (some f) s = settle-Keeps f _ s

  forget-IsValid : (r : String) (s : JobStore Any) → IsValid s → IsValid (forget r s)
  forget-IsValid r s v = record {
    invoked = λ k. simp get-pop (ground (arith, v.invoked k));
    flagged = λ k. simp get-pop (ground (arith, v.flagged k));
    allocated = λ k a h. let h' = rw get-pop at h in ground (arith, h', v.allocated k a);
    distinct = pop-IsDict r s.runs v.distinct;
    named = λ k a h. let h' = rw get-pop at h in ground (arith, h', v.named k a);
  }

  pub pop_run-IsValid : (r : String) (s : JobStore Any) → IsValid s → IsValid (pop_run r s).0
  unfolding pop_run
  pop_run-IsValid r s v = Keeps-IsValid (drop_future-Keeps _ (forget r s)) (forget-IsValid r s v)

  pop_all-IsValid : (ids : List String) (s : JobStore Any) → IsValid s → IsValid (pop_all ids s)
  unfolding pop_all
  pop_all-IsValid [] s v = v
  pop_all-IsValid (i ∷ ids) s v = pop_all-IsValid ids (pop_run i s).0 (pop_run-IsValid i s v)

  pub cleanup-IsValid : (now : ℕ) (s : JobStore Any) → IsValid s → IsValid (cleanup now s).0
  unfolding cleanup
  cleanup-IsValid now s v = grind (arith, λ (ids : List String). pop_all-IsValid ids s v)
