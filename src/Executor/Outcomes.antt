-- ===== src/Executor/Outcomes.antt =====
-- src/python_tty/executor/executor.py, `_execute_work_item`: what the clause that meets the outcome of a
-- handler writes into the run.
use python_tty.Prelude.{
  ◌≡◌, refl, Bool, true, false, Option, some, if◌then◌else◌, Bool-cases, inl, inr,
}
use python_tty.Audit.{AuditSink}
use python_tty.Config.{ExecutorConfig}
use python_tty.Models.{
  PyException, timeout_error, console_exit, sub_console_exit, cancelled_error, exception,
  base_exception, RunState, RunStatus, Outcome, returned, raised,
}
use python_tty.Executor.{is_exempt, is_exception}
use python_tty.Executor.Items.{verdict_of, exempted, failure, uncaught, conclude_state}

abbrev pub is_timeout : PyException → Bool
is_timeout timeout_error = true
is_timeout _ = false

-- The status, the result and the error of a run that was in the state `old`, once its handler ended.
pub data EndsAs {Any : Type 0} (c : ExecutorConfig (AuditSink Any)) (old : RunState Any)
    : Outcome (Option Any) → RunStatus → Option Any → Option PyException → Type 0 where
  returns : (v : Option Any) → EndsAs c old (returned v) RunStatus.succeeded v old.error
  times_out : EndsAs c old (raised timeout_error) RunStatus.timeout old.result (some timeout_error)
  is_let_through :
      (x : PyException)
      → is_timeout x ≡ false
      → is_exempt c x ≡ true
      → EndsAs c old (raised x) RunStatus.cancelled old.result (some x)
  fails :
      (x : PyException)
      → is_timeout x ≡ false
      → is_exempt c x ≡ false
      → is_exception x ≡ true
      → EndsAs c old (raised x) RunStatus.failed old.result (some x)
  escapes :
      (x : PyException)
      → is_timeout x ≡ false
      → is_exempt c x ≡ false
      → is_exception x ≡ false
      → EndsAs c old (raised x) old.status old.result old.error

-- What a verdict's clause writes into a state is as the outcome determines, and it writes nothing else.
abbrev pub Writes :
    {Any : Type 0}
    → ExecutorConfig (AuditSink Any)
    → Outcome (Option Any)
    → RunState Any
    → RunState Any
    → Type 0
Writes c out old r =
    EndsAs c old out r.status r.result r.error
    × (r ≡ record old { status = r.status; result = r.result; error = r.error })

by_class-Writes :
    {Any : Type 0} (c : ExecutorConfig (AuditSink Any)) (x : PyException) (old : RunState Any)
    → is_timeout x ≡ false
    → Writes c (raised x) old (
        conclude_state
          (if is_exempt c x then exempted x else if is_exception x then failure x else uncaught x)
          old)
by_class-Writes c x old t = elim (Bool-cases (is_exempt c x)) [
  | inl e ↦ rw e (is_let_through x t e, refl)
  | inr e ↦ elim (Bool-cases (is_exception x)) [
    | inl f ↦ rw (e, f) (fails x t e f, refl)
    | inr f ↦ rw (e, f) (escapes x t e f, refl)
  ]
]

pub verdict_of-Writes :
    {Any : Type 0} (c : ExecutorConfig (AuditSink Any)) (out : Outcome (Option Any))
    (old : RunState Any)
    → Writes c out old (conclude_state (verdict_of c out) old)
unfolding verdict_of
verdict_of-Writes c (returned v) old = (returns v, refl)
verdict_of-Writes c (raised timeout_error) old = (times_out, refl)
verdict_of-Writes c (raised console_exit) old = by_class-Writes c console_exit old refl
verdict_of-Writes c (raised sub_console_exit) old = by_class-Writes c sub_console_exit old refl
verdict_of-Writes c (raised cancelled_error) old = by_class-Writes c cancelled_error old refl
verdict_of-Writes c (raised (exception s)) old = by_class-Writes c (exception s) old refl
verdict_of-Writes c (raised (base_exception s)) old = by_class-Writes c (base_exception s) old refl
