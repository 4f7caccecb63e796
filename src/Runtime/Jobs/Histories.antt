-- ===== src/Runtime/Jobs/Histories.antt =====
-- Sequences of calls of the job store's methods (jobs.py), and what no sequence changes.
use python_tty.Prelude.{
  ℤ, ℕ, ◌<◌, ◌≡◌, refl, ap, ◌∙◌, String, true, false, Option, none, some, List, [], ◌∷◌, arith,
  Option-cases, inl, inr,
}
use python_tty.Prelude.Dict.{get}
use python_tty.Models.{PyException, Invocation, RunState, is_pending}
use python_tty.Runtime.Events.{RuntimeEvent}
use python_tty.Runtime.Jobs.{set_loop, JobStore, Future, create_run, set_future, is_done}
use python_tty.Runtime.Jobs.Lifecycle.{
  resolve_future, cancel, pop_run, drop_future, settle, set_flag, fail_future, forget,
}
use python_tty.Runtime.Jobs.Publishing.{
  next_event_seq, publish_event, events, subscribe_all, unsubscribe_all, unsubscribe_events,
}
use python_tty.Runtime.Jobs.Cleanup.{cleanup, pop_all}
use python_tty.Runtime.Jobs.Invariant.{
  IsValid, create_run-IsValid, set_future-Keeps, resolve_future-Keeps, next_event_seq-Keeps,
  publish_event-Keeps, cancel-Keeps, pop_run-IsValid, cleanup-IsValid, Keeps-IsValid,
  set_loop-Keeps, events-Keeps, unsubscribe_events-Keeps, subscribe_all-Keeps,
  unsubscribe_all-Keeps,
}

-- The methods that change a store; reading it changes nothing.
pub data Call (Any : Type 0) : Type 0 where
  creates : Invocation Any → Call Any
  sets_future : String → ℕ → Call Any
  resolves : String → Option Any → Option PyException → Call Any
  numbers : String → Call Any
  publishes : ℕ → Option String → RuntimeEvent Any → Call Any
  cancels : ℕ → String → Call Any
  pops : String → Call Any
  cleans : ℕ → Call Any
  sets_loop : Option ℕ → Call Any
  subscribes : Option ℕ → String → Option ℤ → ℤ → Call Any
  unsubscribes : String → ℕ → Call Any
  subscribes_all : Option ℕ → Call Any
  unsubscribes_all : ℕ → Call Any

module _ {Any : Type 0} where
  abbrev pub step : Call Any → JobStore Any → JobStore Any
  step (creates i) s = (create_run i s).0
  step (sets_future r f) s = set_future r f s
  step (resolves r x e) s = resolve_future r x e s
  step (numbers r) s = (next_event_seq r s).0
  step (publishes now r e) s = publish_event now r e s
  step (cancels now r) s = (cancel now r s).0
  step (pops r) s = (pop_run r s).0
  step (cleans now) s = (cleanup now s).0
  step (sets_loop l) s = set_loop l s
  step (subscribes c r since maxsize) s = (events c r since maxsize s).0
  step (unsubscribes r q) s = unsubscribe_events r q s
  step (subscribes_all c) s = (subscribe_all c s).0
  step (unsubscribes_all q) s = unsubscribe_all q s

  abbrev pub steps : List (Call Any) → JobStore Any → JobStore Any
  steps [] s = s
  steps (c ∷ cs) s = steps cs (step c s)

  step-IsValid : (c : Call Any) (s : JobStore Any) → IsValid s → IsValid (step c s)
  step-IsValid (creates i) s v = create_run-IsValid i s v
  step-IsValid (sets_future r f) s v = Keeps-IsValid (set_future-Keeps r f s) v
  step-IsValid (resolves r x e) s v = Keeps-IsValid (resolve_future-Keeps r x e s) v
  step-IsValid (numbers r) s v = Keeps-IsValid (next_event_seq-Keeps r s) v
  step-IsValid (publishes now r e) s v = Keeps-IsValid (publish_event-Keeps now r e s) v
  step-IsValid (cancels now r) s v = Keeps-IsValid (cancel-Keeps now r s) v
  step-IsValid (pops r) s v = pop_run-IsValid r s v
  step-IsValid (cleans now) s v = cleanup-IsValid now s v
  step-IsValid (sets_loop l) s v = Keeps-IsValid (set_loop-Keeps l s) v
  step-IsValid (subscribes c r since maxsize) s v =
      Keeps-IsValid (events-Keeps c r since maxsize s) v
  step-IsValid (unsubscribes r q) s v = Keeps-IsValid (unsubscribe_events-Keeps r q s) v
  step-IsValid (subscribes_all c) s v = Keeps-IsValid (subscribe_all-Keeps c s) v
  step-IsValid (unsubscribes_all q) s v = Keeps-IsValid (unsubscribe_all-Keeps q s) v

  -- A valid store stays valid under every sequence of calls of its changing methods.
  pub steps-IsValid : (cs : List (Call Any)) (s : JobStore Any) → IsValid s → IsValid (steps cs s)
  steps-IsValid [] s v = v
  steps-IsValid (c ∷ cs) s v = steps-IsValid cs (step c s) (step-IsValid c s v)

  -- A store in which a done future, and a run state that is not pending, stand as in another.
  pub record Preserves (s t : JobStore Any) : Type 0 where
    pub futures : (f : ℕ) → is_done (s.futures.cell f) ≡ true → t.futures.cell f ≡ s.futures.cell f
    pub states :
        (a : ℕ)
        → a < s.states.next
        → is_pending (s.states.cell a).status ≡ false
        → t.states.cell a ≡ s.states.cell a
    pub grows : (a : ℕ) → a < s.states.next → a < t.states.next

  Preserves-refl : (s : JobStore Any) → Preserves s s
  Preserves-refl s = record { futures = λ f h. refl; states = λ a h p. refl; grows = λ a h. h }

  Preserves-trans : {s t u : JobStore Any} → Preserves s t → Preserves t u → Preserves s u
  Preserves-trans {s} {t} {u} p q = record {
    futures = λ f h. let e = p.futures f h in q.futures f (ap is_done e ∙ h) ∙ e;
    states = λ a h k.
        let e = p.states a h k in
        q.states a (p.grows a h) (ap (λ (r : RunState Any). is_pending r.status) e ∙ k) ∙ e;
    grows = λ a h. q.grows a (p.grows a h);
  }

  settle-Preserves : (f : ℕ) (x : Future Any) (s : JobStore Any) → Preserves s (settle f x s)
  settle-Preserves f x s = record {
    futures = λ g h. ground arith;
    states = λ a h k. ground arith;
    grows = λ a h. ground arith;
  }

  cancel-Preserves : (now : ℕ) (r : String) (s : JobStore Any) → Preserves s (cancel now r s).0
  unfolding cancel set_flag fail_future
  cancel-Preserves now r s = record {
    futures = λ f h. ground arith;
    states = λ a h k. ground arith;
    grows = λ a h. ground arith;
  }

  drop_future-Preserves : (f : Option ℕ) (s : JobStore Any) → Preserves s (drop_future f s)
  unfolding drop_future
  drop_future-Preserves none s = Preserves-refl s
  drop_future-Preserves (some f) s = settle-Preserves f Future.dropped s

  pop_run-Preserves : (r : String) (s : JobStore Any) → Preserves s (pop_run r s).0
  unfolding pop_run
  pop_run-Preserves r s =
      let p = drop_future-Preserves (get r s.run_futures) (forget r s) in
      record { futures = p.futures; states = p.states; grows = p.grows }

  pop_all-Preserves : (ids : List String) (s : JobStore Any) → Preserves s (pop_all ids s)
  unfolding pop_all
  pop_all-Preserves [] s = Preserves-refl s
  pop_all-Preserves (i ∷ ids) s =
      Preserves-trans (pop_run-Preserves i s) (pop_all-Preserves ids (pop_run i s).0)

  pub cleanup-Preserves : (now : ℕ) (s : JobStore Any) → Preserves s (cleanup now s).0
  unfolding cleanup
  cleanup-Preserves now s =
      grind (arith, λ (ids : List String). pop_all-Preserves ids s, Preserves-refl s)

  resolve_future-Preserves :
      (r : String) (x : Option Any) (e : Option PyException) (s : JobStore Any)
      → Preserves s (resolve_future r x e s)
  unfolding resolve_future
  resolve_future-Preserves r x e s = elim (Option-cases (get r s.run_futures)) [
    | inl p ↦ rw (p, resolve_future) (Preserves-refl s)
    | inr (f, p) ↦ rw (p, resolve_future) (settle-Preserves f _ s)
  ]

  create_run-Preserves : (i : Invocation Any) (s : JobStore Any) → Preserves s (create_run i s).0
  unfolding create_run
  create_run-Preserves i s = record {
    futures = λ f h. ground arith;
    states = λ a h k. ground arith;
    grows = λ a h. ground arith;
  }

  events-Preserves :
      (c : Option ℕ) (r : String) (since : Option ℤ) (maxsize : ℤ) (s : JobStore Any)
      → Preserves s (events c r since maxsize s).0
  unfolding events
  events-Preserves c r since maxsize s = record {
    futures = λ f h. ground arith;
    states = λ a h p. ground arith;
    grows = λ a h. ground arith;
  }

  subscribe_all-Preserves : (c : Option ℕ) (s : JobStore Any) → Preserves s (subscribe_all c s).0
  unfolding subscribe_all
  subscribe_all-Preserves c s = record {
    futures = λ f h. ground arith;
    states = λ a h p. ground arith;
    grows = λ a h. ground arith;
  }

  unsubscribe_all-Preserves : (q : ℕ) (s : JobStore Any) → Preserves s (unsubscribe_all q s)
  unfolding unsubscribe_all
  unsubscribe_all-Preserves q s = record {
    futures = λ f h. ground arith;
    states = λ a h p. ground arith;
    grows = λ a h. ground arith;
  }

  step-Preserves : (c : Call Any) (s : JobStore Any) → Preserves s (step c s)
  unfolding set_future next_event_seq publish_event set_loop unsubscribe_events
  step-Preserves (creates i) s = create_run-Preserves i s
  step-Preserves (sets_future r f) s = record {
    futures = λ f h. refl;
    states = λ a h p. refl;
    grows = λ a h. h;
  }
  step-Preserves (resolves r x e) s = resolve_future-Preserves r x e s
  step-Preserves (numbers r) s = record {
    futures = λ f h. refl;
    states = λ a h p. refl;
    grows = λ a h. h;
  }
  step-Preserves (publishes now r e) s = record {
    futures = λ f h. refl;
    states = λ a h p. refl;
    grows = λ a h. h;
  }
  step-Preserves (cancels now r) s = cancel-Preserves now r s
  step-Preserves (pops r) s = pop_run-Preserves r s
  step-Preserves (cleans now) s = cleanup-Preserves now s
  step-Preserves (sets_loop l) s = record {
    futures = λ f h. refl;
    states = λ a h p. refl;
    grows = λ a h. h;
  }
  step-Preserves (subscribes c r since maxsize) s = events-Preserves c r since maxsize s
  step-Preserves (unsubscribes r q) s = record {
    futures = λ f h. refl;
    states = λ a h p. refl;
    grows = λ a h. h;
  }
  step-Preserves (subscribes_all c) s = subscribe_all-Preserves c s
  step-Preserves (unsubscribes_all q) s = unsubscribe_all-Preserves q s

  -- No sequence of calls of the store's methods, subscriptions included, changes a future that is
  -- done, nor the state of a run that has left `pending`.
  pub steps-Preserves : (cs : List (Call Any)) (s : JobStore Any) → Preserves s (steps cs s)
  steps-Preserves [] s = Preserves-refl s
  steps-Preserves (c ∷ cs) s = Preserves-trans (step-Preserves c s) (steps-Preserves cs (step c s))
