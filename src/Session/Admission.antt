-- ===== src/Session/Admission.antt =====
-- src/python_tty/session/manager.py: the checks on a submission and the invocation that it makes.
-- `context` holds the context variables of the caller. The message of the concurrency limit is given
-- without the number.
use python_tty.Prelude.{
  ℕ, suc, String, Bool, true, false, ◌&&◌, ◌||◌, Option, none, some, List, [], ◌∷◌, if◌then◌else◌,
  leb, ltb, is_some, not, str_eq, ℤ, pos, negsuc, append,
}
use python_tty.Prelude.Dict.{Dict, get}
use python_tty.Models.{
  Value, Invocation, default_invocation, or_text, exception, Outcome, returned, raised,
}
use python_tty.Runtime.Context.{RunContext}
use python_tty.Runtime.Jobs.{JobStore}
use python_tty.Executor.{CommandExecutor}
use python_tty.Executor.Contexts.{context_from, to_invocation}
use python_tty.CommandIds.{parse_command_id}
use python_tty.Session.{SessionState, SessionStore, LockKeyMode, get_session}
use python_tty.Session.Trimming.{is_live}

-- What a submission asks for besides its command or callable.
pub record Request : Type 0 where
  pub timeout_ms : Option ℤ
  pub lock_key : Option String
  pub await_result : Bool

-- What the checks of a submission determine.
pub record Admission : Type 0 where
  pub source : String
  pub origin_source : String
  pub parent_run_id : Option String
  pub lock_key : String
  pub timeout_ms : Option ℤ
  pub depth : ℕ

-- The key for a mode.
abbrev pub by_mode : LockKeyMode → String → String
by_mode LockKeyMode.by_session session_id = append "session:" session_id
by_mode LockKeyMode.by_global session_id = "global"
by_mode LockKeyMode.by_none session_id = ""

module _ {Any : Type 0} where
  -- _require_session
  unfoldable pub require_session : String → SessionStore Any → Outcome (SessionState Any)
  unfolding get_session
  require_session session_id s = elim (get_session session_id s) [
    | none ↦ raised (exception (append "Session not found: " session_id))
    | some state ↦ returned state
  ]

  -- The second part of _resolve_parent_invocation
  abbrev pub parent_invocation : RunContext Any → JobStore Any → Option (Invocation Any)
  parent_invocation c s = elim c.run_id [ none ↦ none | some r ↦ get r s.invocations ]

  -- _resolve_origin_source
  abbrev pub resolve_origin_source : RunContext Any → Option (Invocation Any) → String
  resolve_origin_source c none = or_text c.source "internal"
  resolve_origin_source c (some p) = or_text p.origin_source p.source

  -- _resolve_source
  abbrev pub resolve_source : RunContext Any → String → String
  resolve_source c origin_source = or_text c.source (or_text (some origin_source) "internal")

  -- _resolve_depth
  abbrev pub resolve_depth : Option (Invocation Any) → ℕ
  resolve_depth none = 0
  resolve_depth (some p) = suc p.depth

  -- _resolve_timeout
  abbrev pub resolve_timeout : Option ℤ → SessionState Any → Option ℤ
  resolve_timeout none state = state.policy.default_timeout_ms
  resolve_timeout (some t) state = some t

  -- _resolve_lock_key
  unfoldable pub resolve_lock_key : Option String → SessionState Any → Option String → String
  resolve_lock_key (some k) state run_id = k
  resolve_lock_key none state (some r) = append "child:" r
  resolve_lock_key none state none = by_mode state.policy.default_lock_key_mode state.session_id

  -- The condition under which _detect_nested_deadlock raises
  unfoldable pub would_deadlock : Option (Invocation Any) → String → Bool → Bool
  would_deadlock none lock_key await_result = false
  would_deadlock (some p) lock_key await_result =
      await_result
      && (not (str_eq p.lock_key "" || str_eq lock_key "") && str_eq lock_key p.lock_key)

  -- The loop of _assert_concurrency_limit, from `active` on: whether it raises
  unfoldable pub reaches_limit : JobStore Any → ℕ → ℕ → List String → Bool
  unfolding is_live
  reaches_limit s limit active [] = false
  reaches_limit s limit active (r ∷ rs) =
      let known = is_some (get r s.runs) in
      let active' = if is_live s r then suc active else active in
      let rest = reaches_limit s limit active' rs in
      if known && leb limit active' then true else rest

  -- The condition under which _assert_concurrency_limit raises
  unfoldable pub exceeds_limit : JobStore Any → SessionState Any → Bool
  unfolding reaches_limit
  exceeds_limit s state = elim state.policy.max_concurrent_runs [
    | none ↦ false
    | some (pos n) ↦ if leb n 0 then false else reaches_limit s n 0 state.run_ids
    | some (negsuc n) ↦ false
  ]

-- The condition under which _ensure_workers_for_nested_await raises
abbrev pub too_few_workers : Option String → Bool → ℕ → Bool
too_few_workers run_id await_result workers = is_some run_id && (await_result && ltb workers 2)

-- Raises where the condition holds.
abbrev pub unless : Bool → String → Outcome Admission → Outcome Admission
unless raises message rest = if raises then raised (exception message) else rest

module _ {Handler Any : Type 0} where
  -- The checks that both submissions make on an open session, and what they resolve.
  unfoldable pub admit :
      RunContext Any → SessionState Any → Request → CommandExecutor Handler Any → Outcome Admission
  unfolding exceeds_limit would_deadlock resolve_lock_key
  admit c state q e =
      let p = parent_invocation c e.store in
      let origin = resolve_origin_source c p in
      let key = resolve_lock_key q.lock_key state c.run_id in
      unless (str_eq origin "rpc") "Session submit is not allowed in rpc-origin context" (
        unless (too_few_workers c.run_id q.await_result e.config.workers)
          "Nested submit with await_result requires executor workers >= 2; update ExecutorConfig.workers."
          (unless (exceeds_limit e.store state) "Session concurrency limit exceeded" (
            unless (would_deadlock p key q.await_result)
              "Nested submit with same lock_key may deadlock; use lock_key='child:<outer_run_id>' or leave lock_key unset to auto-derive."
              (returned (record {
                source = resolve_source c origin;
                origin_source = origin;
                parent_run_id = c.run_id;
                lock_key = key;
                timeout_ms = resolve_timeout q.timeout_ms state;
                depth = resolve_depth p;
              })))))

module _ {Any : Type 0} where
  -- submit_command's invocation
  unfoldable pub command_invocation :
      String → SessionState Any → String → List String → Dict Any → Admission → Invocation Any
  unfolding to_invocation parse_command_id
  command_invocation session_id state command_id argv kwargs a =
      let (console_name, command_name) = parse_command_id command_id in
      to_invocation (record (context_from a.source) {
        principal = some state.principal;
        console_name = console_name;
        command_id = some command_id;
        command_name = command_name;
        argv = argv;
        kwargs = kwargs;
        timeout_ms = a.timeout_ms;
        lock_key = a.lock_key;
        session_id = some session_id;
        parent_run_id = a.parent_run_id;
        origin_source = some a.origin_source;
        depth = a.depth;
        audit_policy = if str_eq a.origin_source "rpc" then some "force" else none;
      })

  -- submit_callable's invocation
  unfoldable pub callable_invocation :
      String → SessionState Any → Dict (Value Any) → Admission → Invocation Any
  callable_invocation session_id state callable_meta a = record default_invocation {
    source = a.source;
    principal = some state.principal;
    command_id = some "__callable__";
    timeout_ms = a.timeout_ms;
    lock_key = a.lock_key;
    session_id = some session_id;
    parent_run_id = a.parent_run_id;
    origin_source = some a.origin_source;
    depth = a.depth;
    callable_meta = some callable_meta;
  }
