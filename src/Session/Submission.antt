-- ===== src/Session/Submission.antt =====
-- src/python_tty/session/manager.py: opening and closing sessions, and the submissions. `uuid` is the
-- identifier that `uuid.uuid4()` gives. A handler that runs inline does not call the session manager.
use python_tty.Prelude.{ℕ, String, Option, none, some, List, [], if◌then◌else◌, append}
use python_tty.Prelude.Dict.{Dict}
use python_tty.Models.{Value, Invocation, exception, PyException, Outcome, returned, raised}
use python_tty.Runtime.Context.{RunContext}
use python_tty.Executor.{World, CommandExecutor}
use python_tty.Executor.Running.{Handlers}
use python_tty.Executor.Submission.{submit_threadsafe}
use python_tty.Session.Admission.{
  Request, Admission, require_session, admit, command_invocation, callable_invocation,
}
use python_tty.Session.{
  SessionState, SessionStore, SessionPolicy, SessionStatus, session_status_eq, create, close, touch,
  add_run, update,
}
use python_tty.Session.Trimming.{is_live, trim_ids}

pub record SessionManager (Handler Any : Type 0) : Type 0 where
  pub executor : CommandExecutor Handler Any
  pub store : SessionStore Any
  pub default_policy : SessionPolicy

-- The value of a status.
abbrev pub status_value : SessionStatus → String
status_value SessionStatus.opened = "OPEN"
status_value SessionStatus.closed = "CLOSED"
status_value SessionStatus.expired = "EXPIRED"

-- The error of _ensure_session_open
abbrev pub not_open : String → SessionStatus → PyException
not_open session_id status = exception (
    append "Session is not open: "
      (append session_id (append " (" (append (status_value status) ")"))))

module _ {Handler Any : Type 0} where
  -- _trim_runs
  unfoldable pub trim_runs : String → SessionManager Handler Any → SessionManager Handler Any
  unfolding trim_ids update
  trim_runs session_id m = record m {
    store =
        update session_id
          (λ state. record state {
            run_ids = trim_ids (is_live m.executor.store) m.store.retain_last_n state.run_ids;
          })
          m.store;
  }

  -- add_run and _trim_runs once the executor has the run
  unfoldable pub book :
      String
      → SessionManager Handler Any
      → CommandExecutor Handler Any × Outcome String
      → SessionManager Handler Any × Outcome String
  unfolding trim_runs add_run
  book session_id m (e, raised x) = (record m { executor = e }, raised x)
  book session_id m (e, returned run_id) = (
    trim_runs session_id (record m { executor = e; store = add_run session_id run_id m.store }),
    returned run_id,
  )

  -- open_session
  unfoldable pub open_session :
      ℕ
      → String
      → String
      → Option SessionPolicy
      → Dict (Value Any)
      → SessionManager Handler Any
      → SessionManager Handler Any × Outcome String
  unfolding create
  open_session now uuid principal policy tags m =
      let (s, out) =
        create
          (record {
            session_id = uuid;
            principal = principal;
            created_at = now;
            last_activity_at = now;
            status = SessionStatus.opened;
            policy = elim policy [ none ↦ m.default_policy | some p ↦ p ];
            tags = tags;
            run_ids = [];
          })
          m.store in
      (record m { store = s }, elim out [ raised x ↦ raised x | returned _ ↦ returned uuid ])

  -- close_session
  unfoldable pub close_session :
      ℕ → String → SessionManager Handler Any → SessionManager Handler Any × Outcome (Unit {0})
  unfolding require_session close
  close_session now session_id m = elim (require_session session_id m.store) [
    | raised x ↦ (m, raised x)
    | returned state ↦
        if session_status_eq state.status SessionStatus.closed
        then (m, returned tt)
        else (record m { store = close now session_id SessionStatus.closed m.store }, returned tt)
  ]

module _ {Handler Awaitable Any : Type 0} (handlers : Handlers Handler Awaitable Any) where
  -- submit_command and submit_callable, by how the invocation is built from the admission.
  unfoldable pub submit_work :
      World
      → ℕ
      → String
      → RunContext Any
      → String
      → Request
      → (SessionState Any → Admission → Invocation Any)
      → Option Handler
      → SessionManager Handler Any
      → SessionManager Handler Any × Outcome String
  unfolding require_session touch admit book
  submit_work w now uuid c session_id q build h m = elim (require_session session_id m.store) [
    | raised x ↦ (m, raised x)
    | returned state ↦
        if session_status_eq state.status SessionStatus.opened
        then (let m' = record m { store = touch now session_id m.store } in
            elim (admit c state q m'.executor) [
              | raised x ↦ (m', raised x)
              | returned a ↦ book session_id m' (
                  submit_threadsafe handlers w uuid
                    (record { invocation = build state a; handler = h }) m'.executor)
            ])
        else (m, raised (not_open session_id state.status))
  ]

  -- submit_command; the handler calls the execution binding
  unfoldable pub submit_command :
      World
      → ℕ
      → String
      → RunContext Any
      → String
      → String
      → List String
      → Dict Any
      → Request
      → Option Handler
      → SessionManager Handler Any
      → SessionManager Handler Any × Outcome String
  submit_command w now uuid c session_id command_id argv kwargs q h m =
      submit_work w now uuid c session_id q
        (λ state a. command_invocation session_id state command_id argv kwargs a) h m

  -- submit_callable, with the metadata that _build_callable_meta makes
  unfoldable pub submit_callable :
      World
      → ℕ
      → String
      → RunContext Any
      → String
      → Dict (Value Any)
      → Request
      → Option Handler
      → SessionManager Handler Any
      → SessionManager Handler Any × Outcome String
  submit_callable w now uuid c session_id callable_meta q h m =
      submit_work w now uuid c session_id q
        (λ state a. callable_invocation session_id state callable_meta a) h m
