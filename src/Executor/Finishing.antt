-- ===== src/Executor/Finishing.antt =====
-- How a run ends (executor.py, `_execute_work_item` and `_run_inline`).
use python_tty.Prelude.{
  ℕ, ◌≡◌, refl, ap, ◌∙◌, String, Bool, true, false, Option, none, some, if◌then◌else◌, arith,
  Bool-cases, inl, inr, ◌||◌,
}
use python_tty.Prelude.Dict.{get}
use python_tty.Models.{PyException, Invocation, RunState, RunStatus, Outcome}
use python_tty.Runtime.Events.{RuntimeEvent}
use python_tty.Runtime.Jobs.{JobStore, is_done, get_future}
use python_tty.Runtime.Jobs.Lifecycle.{resolve_future}
use python_tty.Runtime.Jobs.Publishing.{next_event_seq}
use python_tty.Runtime.Jobs.Publishing
use python_tty.Runtime.Jobs.Histories.{cleanup-Preserves}
use python_tty.Runtime.Jobs.Surplus.{cleanup-states}
use python_tty.Executor.{World, CommandExecutor, audit, publish_event, emit_run_event}
use python_tty.Executor.Outcomes.{EndsAs, verdict_of-Writes}
use python_tty.Executor.Items.{
  verdict_of, Verdict, success, timed_out, exempted, failure, uncaught, conclude_state,
  update_state, emit_verdict, resolve_verdict, end_run, conclude,
}

resolve_future-states :
    {Any : Type 0} (r : String) (x : Option Any) (err : Option PyException) (s : JobStore Any)
    → (resolve_future r x err s).states ≡ s.states
unfolding resolve_future
resolve_future-states r x err s = ground arith

-- A run state with its end.
abbrev pub stamped : {Any : Type 0} → ℕ → RunState Any → RunState Any
stamped now r = record r { finished_at = some now }

-- A clause of the `try` statement caught the outcome.
abbrev pub is_caught : {Any : Type 0} → Verdict Any → Bool
is_caught (uncaught x) = false
is_caught _ = true

resolve_future-done :
    {Any : Type 0} (r : String) (f : ℕ) (x : Option Any) (err : Option PyException)
    (s : JobStore Any)
    → get r s.run_futures ≡ some f
    → is_done ((resolve_future r x err s).futures.cell f) ≡ true
unfolding resolve_future get_future
resolve_future-done r f x none s h = ground arith
resolve_future-done r f x (some y) s h = ground arith

conclude_state-run_id :
    {Any : Type 0} (v : Verdict Any) (r : RunState Any) → (conclude_state v r).run_id ≡ r.run_id
conclude_state-run_id v r = ground arith

module _ {Handler Any : Type 0} where
  -- Publication changes neither the runs, nor their states and futures, nor the configuration.
  pub record SameRuns (e f : CommandExecutor Handler Any) : Type 0 where
    pub states : f.store.states ≡ e.store.states
    pub runs : f.store.runs ≡ e.store.runs
    pub run_futures : f.store.run_futures ≡ e.store.run_futures
    pub futures : f.store.futures ≡ e.store.futures
    pub clock : f.clock ≡ e.clock

  pub SameRuns-refl : (e : CommandExecutor Handler Any) → SameRuns e e
  SameRuns-refl e = record {
    states = refl;
    runs = refl;
    run_futures = refl;
    futures = refl;
    clock = refl;
  }

  publish_event-SameRuns :
      (w : World) (r : String) (ev : RuntimeEvent Any) (e : CommandExecutor Handler Any)
      → SameRuns e (publish_event w r ev e)
  unfolding publish_event next_event_seq Publishing.publish_event
  publish_event-SameRuns w r ev e = record {
    states = ground arith;
    runs = ground arith;
    run_futures = ground arith;
    futures = ground arith;
    clock = ground arith;
  }

  pub emit_run_event-SameRuns :
      (w : World) (r t : String) (l : _) (p : _) (s : _) (force : Bool)
      (e : CommandExecutor Handler Any)
      → SameRuns e (emit_run_event w r t l p s force e)
  unfolding emit_run_event
  emit_run_event-SameRuns w r t l p s force e =
      elim (Bool-cases (force || e.config.emit_run_events)) [
        | inl h ↦ rw (h, emit_run_event) (publish_event-SameRuns w r _ e)
        | inr h ↦ rw (h, emit_run_event) (SameRuns-refl e)
      ]

  emit_verdict-SameRuns :
      (w : World) (a : ℕ) (i : Invocation Any) (v : Verdict Any) (e : CommandExecutor Handler Any)
      → SameRuns e (emit_verdict w a i v e)
  unfolding emit_verdict
  emit_verdict-SameRuns w a i (success v) e = emit_run_event-SameRuns w _ _ _ _ _ _ e
  emit_verdict-SameRuns w a i (timed_out v) e = emit_run_event-SameRuns w _ _ _ _ _ _ e
  emit_verdict-SameRuns w a i (exempted v) e = emit_run_event-SameRuns w _ _ _ _ _ _ e
  emit_verdict-SameRuns w a i (failure v) e = emit_run_event-SameRuns w _ _ _ _ _ _ e
  emit_verdict-SameRuns w a i (uncaught v) e = SameRuns-refl e

  resolve_verdict-states :
      (a : ℕ) (v : Verdict Any) (e : CommandExecutor Handler Any)
      → ((resolve_verdict a v e).store.states ≡ e.store.states)
        × ((resolve_verdict a v e).clock ≡ e.clock)
  unfolding resolve_verdict
  resolve_verdict-states a (success v) e = (resolve_future-states _ _ _ e.store, refl)
  resolve_verdict-states a (timed_out v) e = (resolve_future-states _ _ _ e.store, refl)
  resolve_verdict-states a (exempted v) e = (resolve_future-states _ _ _ e.store, refl)
  resolve_verdict-states a (failure v) e = (resolve_future-states _ _ _ e.store, refl)
  resolve_verdict-states a (uncaught v) e = (refl, refl)

  resolved_states :
      (b : Bool) (a : ℕ) (v : Verdict Any) (e : CommandExecutor Handler Any)
      → ((if b then resolve_verdict a v e else e).store.states ≡ e.store.states)
        × ((if b then resolve_verdict a v e else e).clock ≡ e.clock)
  resolved_states true a v e = resolve_verdict-states a v e
  resolved_states false a v e = (refl, refl)

  end_run-state :
      (a : ℕ) (v : Verdict Any) (e : CommandExecutor Handler Any)
      → (end_run a v e).0.store.states.cell a ≡ stamped e.clock (e.store.states.cell a)
  unfolding end_run audit
  end_run-state a v e = ap (λ h. h.cell a) (cleanup-states e.clock _) ∙ ground arith

  conclude-stamped :
      (w : World) (with_future : Bool) (a : ℕ) (i : Invocation Any) (v : Verdict Any)
      (e : CommandExecutor Handler Any)
      → (conclude w with_future a i v e).0.store.states.cell a
        ≡ stamped e.clock (conclude_state v (e.store.states.cell a))
  unfolding conclude
  conclude-stamped w b a i v e =
      let e1 = update_state a (conclude_state v) e in
      let e2 = emit_verdict w a i v e1 in
      let same = emit_verdict-SameRuns w a i v e1 in
      let (p, q) = resolved_states b a v e2 in
      let e3 = if b then resolve_verdict a v e2 else e2 in
      let k : e3.clock ≡ e.clock = q ∙ same.clock in
      let c : e3.store.states.cell a ≡ conclude_state v (e.store.states.cell a) =
        ap (λ h. h.cell a) (p ∙ same.states) ∙ ground arith in
      end_run-state a v e3 ∙ ap (λ n. stamped n (e3.store.states.cell a)) k ∙ ap (stamped e.clock) c

  -- However the handler ends, the run's state afterwards is the one before with the end's time and
  -- with a status, a result and an error that the outcome determines: `succeeded` with the value
  -- returned; `timeout`, `cancelled` or `failed` with the exception, for a timeout, an exempt exception
  -- and another Exception; and for an exception outside Exception, what it had before. This holds in
  -- a worker and inline, and whether or not the store still has the run.
  pub conclude-final_state :
      (w : World) (with_future : Bool) (a : ℕ) (i : Invocation Any) (out : Outcome (Option Any))
      (e : CommandExecutor Handler Any)
      → (let old = e.store.states.cell a in
          (status : RunStatus) × (result : Option Any) × (error : Option PyException) × EndsAs
            e.config old out status result error
          × ((conclude w with_future a i (verdict_of e.config out) e).0.store.states.cell a
              ≡ record old {
                status = status;
                result = result;
                error = error;
                finished_at = some e.clock;
              }))
  conclude-final_state w b a i out e =
      let old = e.store.states.cell a in
      let r = conclude_state (verdict_of e.config out) old in
      let (ends, same) = verdict_of-Writes e.config out old in
      (
        r.status,
        r.result,
        r.error,
        ends,
        conclude-stamped w b a i (verdict_of e.config out) e ∙ ap (stamped e.clock) same,
      )

  resolve_verdict-done :
      (a f : ℕ) (v : Verdict Any) (e : CommandExecutor Handler Any)
      → is_caught v ≡ true
      → get (e.store.states.cell a).run_id e.store.run_futures ≡ some f
      → is_done ((resolve_verdict a v e).store.futures.cell f) ≡ true
  unfolding resolve_verdict
  resolve_verdict-done a f (success v) e c h = resolve_future-done _ f _ _ e.store h
  resolve_verdict-done a f (timed_out v) e c h = resolve_future-done _ f _ _ e.store h
  resolve_verdict-done a f (exempted v) e c h = resolve_future-done _ f _ _ e.store h
  resolve_verdict-done a f (failure v) e c h = resolve_future-done _ f _ _ e.store h
  resolve_verdict-done a f (uncaught v) e c h = cc

  end_run-done :
      (a f : ℕ) (v : Verdict Any) (e : CommandExecutor Handler Any)
      → is_done (e.store.futures.cell f) ≡ true
      → is_done ((end_run a v e).0.store.futures.cell f) ≡ true
  unfolding end_run audit
  end_run-done a f v e h = ap is_done ((cleanup-Preserves e.clock _).futures f h) ∙ h

  -- A worker that catches a handler's outcome, whatever it is, leaves the run's future done where
  -- the run has one.
  pub conclude-future_done :
      (w : World) (a f : ℕ) (i : Invocation Any) (v : Verdict Any) (e : CommandExecutor Handler Any)
      → is_caught v ≡ true
      → get (e.store.states.cell a).run_id e.store.run_futures ≡ some f
      → is_done ((conclude w true a i v e).0.store.futures.cell f) ≡ true
  unfolding conclude
  conclude-future_done w a f i v e c h =
      let e1 = update_state a (conclude_state v) e in
      let e2 = emit_verdict w a i v e1 in
      let same = emit_verdict-SameRuns w a i v e1 in
      let named : (e2.store.states.cell a).run_id ≡ (e.store.states.cell a).run_id =
        ap (λ s. (s.cell a).run_id) same.states
        ∙ ground (arith, conclude_state-run_id v (e.store.states.cell a)) in
      end_run-done a f v (resolve_verdict a v e2)
        (resolve_verdict-done a f v e2 c (rw (named, same.run_futures) h))
