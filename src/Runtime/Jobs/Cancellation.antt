-- ===== src/Runtime/Jobs/Cancellation.antt =====
-- The effects of `cancel` and `pop_run` (jobs.py).
use python_tty.Prelude.{
  ℕ, ◌≡◌, String, true, Option, none, some, [], if◌then◌else◌, arith, str_eq, Option-cases, inl,
  inr,
}
use python_tty.Prelude.Dict.{get, get-pop}
use python_tty.Models.{RunStatus, RunState}
use python_tty.Runtime.EventBus.{history_of, subscribers_of, drop_run}
use python_tty.Runtime.Jobs.{
  JobStore, is_done, CancelReply, cancelled, requested, noop, get_future, get_run_state,
  get_invocation,
}
use python_tty.Runtime.Jobs.Lifecycle.{
  cancel, cancelled_state, set_flag, fail_future, is_cancelled, pop_run, drop_future, forget,
}
use python_tty.Runtime.Jobs.Invariant.{IsValid}

-- The reply for a status.
abbrev pub reply_for : RunStatus → CancelReply
reply_for RunStatus.pending = cancelled
reply_for RunStatus.running = requested
reply_for _ = noop

module _ {Any : Type 0} where
  -- The state of a stored run after `cancel`, by the status that it had.
  abbrev pub state_after : ℕ → RunStatus → RunState Any → RunState Any
  state_after now RunStatus.pending r = cancelled_state now r
  state_after now _ r = r

  flag_present :
      (r : String) (a : ℕ) (s : JobStore Any)
      → IsValid s
      → get r s.runs ≡ some a
      → (k : ℕ) × (get r s.cancel_flags ≡ some k)
  flag_present r a s v h = elim (Option-cases (get r s.cancel_flags)) [
    | inl e ↦ absurd (ground (arith, v.flagged r))
    | inr (k, e) ↦ (k, e)
  ]

  -- In a valid store, cancelling a stored run replies by its status and sets its flag; a pending
  -- run becomes cancelled, with its time and error, and a run of any other status keeps its state.
  pub cancel_lem :
      (now a : ℕ) (r : String) (s : JobStore Any)
      → IsValid s
      → get r s.runs ≡ some a
      → ((cancel now r s).1 ≡ reply_for (s.states.cell a).status)
        × (is_cancelled r (cancel now r s).0 ≡ true)
        × ((cancel now r s).0.states.cell a
            ≡ state_after now (s.states.cell a).status (s.states.cell a))
  unfolding cancel set_flag fail_future is_cancelled
  cancel_lem now a r s v h =
      let (k, e) = flag_present r a s v h in (ground arith, ground arith, ground arith)

  -- Cancelling a pending run that has a future leaves the future done.
  cancel-future :
      (now a f : ℕ) (r : String) (s : JobStore Any)
      → get r s.runs ≡ some a
      → (s.states.cell a).status ≡ RunStatus.pending
      → get r s.run_futures ≡ some f
      → is_done ((cancel now r s).0.futures.cell f) ≡ true
  unfolding cancel set_flag fail_future
  cancel-future now a f r s h p e = ground arith

  -- Settling the future touches the heap of futures alone.
  drop_future-tables :
      (f : Option ℕ) (s : JobStore Any)
      → ((drop_future f s).runs ≡ s.runs)
        × ((drop_future f s).invocations ≡ s.invocations)
        × ((drop_future f s).run_futures ≡ s.run_futures)
        × ((drop_future f s).event_seq ≡ s.event_seq)
        × ((drop_future f s).cancel_flags ≡ s.cancel_flags)
        × ((drop_future f s).event_bus ≡ s.event_bus)
  unfolding drop_future
  drop_future-tables f s =
      (ground arith, ground arith, ground arith, ground arith, ground arith, ground arith)

  -- Removing a run forgets it in every table and in the event bus, and keeps what the tables and
  -- the bus hold of every other run.
  pop_run_lem :
      (r j : String) (s : JobStore Any)
      → let t = (pop_run r s).0 in
        (get_run_state j t ≡ (if str_eq r j then none else get_run_state j s))
        × (get_invocation j t ≡ (if str_eq r j then none else get_invocation j s))
        × (get_future j t ≡ (if str_eq r j then none else get_future j s))
        × (get j t.event_seq ≡ (if str_eq r j then none else get j s.event_seq))
        × (get j t.cancel_flags ≡ (if str_eq r j then none else get j s.cancel_flags))
        × (history_of j t.event_bus ≡ (if str_eq r j then [] else history_of j s.event_bus))
        × (subscribers_of j t.event_bus ≡ (if str_eq r j then [] else subscribers_of j s.event_bus))
  unfolding pop_run get_run_state get_invocation get_future history_of subscribers_of drop_run
  pop_run_lem r j s =
      let (a, b, c, d, e, f) = drop_future-tables (get r s.run_futures) (forget r s) in
      (
        rw a (get-pop r j s.runs),
        rw b (get-pop r j s.invocations),
        rw c (get-pop r j s.run_futures),
        rw d (get-pop r j s.event_seq),
        rw e (get-pop r j s.cancel_flags),
        rw f (rw (get-pop r j s.event_bus.history) (ground arith)),
        rw f (rw (get-pop r j s.event_bus.subscribers) (ground arith)),
      )

  -- Removing a run that has a future leaves the future done.
  pop_run-future :
      (r : String) (f : ℕ) (s : JobStore Any)
      → get r s.run_futures ≡ some f
      → is_done ((pop_run r s).0.futures.cell f) ≡ true
  unfolding pop_run drop_future
  pop_run-future r f s e = ground arith
