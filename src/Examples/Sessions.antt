-- ===== src/Examples/Sessions.antt =====
-- The theorems about sessions, commands and remote calls on small inputs.
use python_tty.Prelude.{
  ℕ, ◌≡◌, refl, String, true, false, ◌&&◌, ◌||◌, none, some, [], ◌∷◌, pos, ◌⊎◌, leb, length, filter,
  all, count, arith, eq_iff, str_eq,
}
use python_tty.Prelude.Dict.{get, put}
use python_tty.Models.{returned}
use python_tty.Config.{default_rpc_config}
use python_tty.Runtime.Context.{empty_context}
use python_tty.Executor.{CommandExecutor}
use python_tty.Executor
use python_tty.Executor.Submission.{submit_threadsafe, submit_identified}
use python_tty.Runtime.Jobs.{init, create_run, set_future, state_of_invocation}
use python_tty.CommandIds.{build_command_id, parse_command_id, parse-build_command_id}
use python_tty.Session.{
  touch, SessionState, SessionStore, SessionStatus, default_policy, gc, session_status_eq,
}
use python_tty.Session.Expiry.{gc-sessions}
use python_tty.Session.Trimming.{is_live}
use python_tty.Session.Admission.{Request, Admission, callable_invocation, exceeds_limit}
use python_tty.Session.Submission.{SessionManager, submit_work, book}
use python_tty.Session.Limits.{IsAdmitted, submit_work-IsAdmitted, exceeds_limit-count}
use python_tty.Session.Booking.{book-live}
use python_tty.Commands.{CommandDef}
use python_tty.Commands.Authorisation.{IsUnambiguous}
use python_tty.Rpc.{InvokeRequest, invoke}
use python_tty.Rpc.Guards.{IsAuthorised, invoke-IsAuthorised}
use python_tty.Examples.Samples.{one_run, executor_of, synchronous, world}

abbrev session : SessionState ℕ
session = record {
  session_id = "s";
  principal = "p";
  created_at = 0;
  last_activity_at = 0;
  status = SessionStatus.opened;
  policy = record default_policy { idle_ttl_seconds = some 10 };
  tags = [];
  run_ids = "a" ∷ "b" ∷ [];
}

abbrev sessions : SessionStore ℕ
sessions = record { retain_last_n = some (pos 1); sessions = ("s", session) ∷ [] }

gc-sessions_example :
    get "s" (gc 20 sessions).0.sessions ≡ some (record session { status = SessionStatus.expired })
unfolding get
gc-sessions_example = gc-sessions 20 "s" sessions (refl, refl, tt)

abbrev pub manager : SessionManager ℕ ℕ
manager = record {
  executor = executor_of one_run;
  store = sessions;
  default_policy = default_policy;
}

book-live_example :
    (u : SessionState ℕ) × (get "s"
        (book "s" manager (executor_of one_run, returned "c")).0.store.sessions
      ≡ some u)
    × (filter (is_live one_run) u.run_ids ≡ filter (is_live one_run) ("a" ∷ "b" ∷ "c" ∷ []))
    × ((leb (length u.run_ids) 1 || all (is_live one_run) u.run_ids) ≡ true)
unfolding get
book-live_example = book-live "s" "c" 1 manager (executor_of one_run) session refl refl

exceeds_limit-count_example :
    exceeds_limit one_run session ≡ leb 8 (count (is_live one_run) session.run_ids)
exceeds_limit-count_example = exceeds_limit-count one_run 7 session refl

parse-build_command_id_example :
    parse_command_id (build_command_id "root" "help:me") ≡ (some "root", some "help:me")
parse-build_command_id_example = parse-build_command_id "root" "help:me" refl refl refl

abbrev pub help : CommandDef ℕ
help = record {
  func_name = "help";
  func = 1;
  func_description = "Display help information";
  alias = [];
  completer = none;
  validator = none;
  arg_spec = none;
  exposure = ("rpc", true) ∷ [];
}

abbrev pub quit : CommandDef ℕ
quit = record help { func_name = "quit"; func = 2; alias = []; exposure = ("rpc", false) ∷ [] }

exclusive : (a b n : String) → str_eq a b ≡ false → (str_eq a n && str_eq b n) ≡ false
exclusive a b n h = ground (arith, h, eq_iff a n, eq_iff b n, eq_iff a b)

pub commands-IsUnambiguous : IsUnambiguous "root" (help ∷ quit ∷ [])
unfolding build_command_id
commands-IsUnambiguous = record {
  ids = λ i. ground (arith, exclusive "cmd:root:help" "cmd:root:quit" i refl);
  names = λ n. ground (arith, exclusive "help" "quit" n refl);
  apart = λ n d h. ground (
    arith,
    h,
    exclusive "help" "cmd:root:help" n refl,
    exclusive "help" "cmd:root:quit" n refl,
    exclusive "quit" "cmd:root:help" n refl,
    exclusive "quit" "cmd:root:quit" n refl,
  );
}

abbrev request : InvokeRequest ℕ
request = record {
  console_name = "root";
  command_id = "";
  command_name = "help";
  argv = [];
  kwargs = [];
  raw_cmd = "";
  timeout_ms = pos 0;
  lock_key = "";
  session_id = "";
  meta_revision = "";
  principal = "";
}

invoke-IsAuthorised_example :
    ((invoke
        (λ c. some (help ∷ quit ∷ []))
        synchronous
        (λ c. 4)
        world
        "r"
        default_rpc_config
        []
        request
        (executor_of one_run)).0
      ≡ executor_of one_run)
    ⊎ IsAuthorised
        (λ c. some (help ∷ quit ∷ []))
        synchronous
        (λ c. 4)
        world
        "r"
        default_rpc_config
        []
        request
        (executor_of one_run)
invoke-IsAuthorised_example =
    invoke-IsAuthorised (λ c. some (help ∷ quit ∷ [])) synchronous (λ c. 4) world "r"
      default_rpc_config [] request (executor_of one_run)

abbrev plain : Request
plain = record { timeout_ms = none; lock_key = none; await_result = false }

submit_work-IsAdmitted_example :
    (state : SessionState ℕ) × (a : Admission) × (get "s" sessions.sessions ≡ some state)
    × (session_status_eq state.status SessionStatus.opened ≡ true)
    × IsAdmitted empty_context state plain (executor_of one_run) a
    × (submit_work synchronous world 5 "c" empty_context "s" plain
          (λ t b. callable_invocation "s" t [] b)
          (some 4)
          manager
        ≡ book "s"
            (record manager { store = touch 5 "s" sessions })
            (submit_threadsafe synchronous world "c"
              (record { invocation = callable_invocation "s" state [] a; handler = some 4 })
              (executor_of one_run)))
unfolding submit_work get set_future create_run put init state_of_invocation submit_threadsafe
    Executor.init submit_identified callable_invocation
submit_work-IsAdmitted_example =
    submit_work-IsAdmitted synchronous world 5 "c" "s" "c" empty_context plain
      (λ t a. callable_invocation "s" t [] a) (some 4) manager refl
