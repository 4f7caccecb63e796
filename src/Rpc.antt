-- ===== src/Rpc.antt =====
-- src/python_tty/frontends/rpc/core.py: who calls, what a request names, and whether it may run. The
-- console registry's lookup is the parameter `commands_of`, which gives a console's commands with
-- the default ones filled in, and `execute` is the handler for a command. The messages of protobuf
-- and the streaming loop of grpc are not modelled.
pub mod Guards
pub mod Streaming
pub mod Server
pub mod Lookup
use python_tty.Prelude.{
  ℕ, String, Bool, true, false, not, ◌&&◌, ◌||◌, Option, none, some, List, [], ◌∷◌, if◌then◌else◌,
  is_some, str_eq, ℤ, pos, zero, or_else,
}
use python_tty.Prelude.Dict.{Dict, get}
use python_tty.Models.{Invocation, PyException, Outcome, returned, raised}
use python_tty.Config.{RpcConfig, MtlsServerConfig}
use python_tty.CommandIds.{nonempty, parse_command_id}
use python_tty.Commands.{CommandDef, has_name, resolved_command}
use python_tty.Executor.{World, WorkItem, CommandExecutor}
use python_tty.Executor.Running.{Handlers}
use python_tty.Executor.Contexts.{ExecutionContext, context_from, to_invocation}
use python_tty.Executor.Submission.{submit_threadsafe}

-- The fields of an InvokeRequest; an unset text is empty, an unset number 0.
pub record InvokeRequest (Any : Type 0) : Type 0 where
  pub console_name : String
  pub command_id : String
  pub command_name : String
  pub argv : List String
  pub kwargs : Dict Any
  pub raw_cmd : String
  pub timeout_ms : ℤ
  pub lock_key : String
  pub session_id : String
  pub meta_revision : String
  pub principal : String

-- What Invoke answers: a reply with the run's identifier, or one of the three aborts.
pub data InvokeReply : Type 0 where
  invoked : String → InvokeReply
  failed_precondition not_found permission_denied : InvokeReply
  failed : PyException → InvokeReply

-- `x or None` of a number.
abbrev pub nonzero : ℤ → Option ℤ
nonzero (pos zero) = none
nonzero n = some n

-- `config.admin_principals` or `config.allowed_principals` with an element.
abbrev pub listed : Option (List String) → String → Bool
listed none p = false
listed (some ps) p = has_name p ps

abbrev pub is_empty_or_none : Option (List String) → Bool
is_empty_or_none none = true
is_empty_or_none (some []) = true
is_empty_or_none (some (p ∷ ps)) = false

-- _is_admin
unfoldable pub is_admin : String → RpcConfig → Bool
is_admin p c = if is_empty_or_none c.admin_principals then false else listed c.admin_principals p

-- _principal_allowed
unfoldable pub principal_allowed : Option String → RpcConfig → Bool
principal_allowed p c =
    if is_empty_or_none c.allowed_principals
    then true
    else elim p [ none ↦ false | some q ↦ listed c.allowed_principals q ]

abbrev pub is_admin_principal : Option String → RpcConfig → Bool
is_admin_principal none c = false
is_admin_principal (some p) c = is_admin p c

-- _is_rpc_allowed
unfoldable pub is_rpc_allowed : {Fn : Type 0} → CommandDef Fn → Option String → RpcConfig → Bool
unfolding is_admin principal_allowed
is_rpc_allowed d p c =
    if not (is_admin_principal p c || principal_allowed p c)
    then false
    else if c.require_rpc_exposed || c.default_deny
    then or_else (get "rpc" d.exposure) false
    else true

-- The first of the configured keys that the authenticated peer has a value for.
unfoldable pub principal_from_auth : List String → Dict (List String) → Option String
principal_from_auth [] auth = none
principal_from_auth (k ∷ ks) auth =
    let rest = principal_from_auth ks auth in
    elim (get k auth) [ none ↦ rest | some [] ↦ rest | some (v ∷ vs) ↦ some v ]

-- _resolve_principal; `auth` is the decoded context of the peer's certificate, empty without one
unfoldable pub resolve_principal : String → Dict (List String) → RpcConfig → Option String
unfolding principal_from_auth
resolve_principal claimed auth c =
    if c.mtls.enabled
    then principal_from_auth c.mtls.principal_keys auth
    else if c.trust_client_principal && not (str_eq claimed "")
    then some claimed
    else principal_from_auth c.mtls.principal_keys auth

module _ {Any : Type 0} where
  -- _normalize_console_command
  unfoldable pub normalize_console_command : ExecutionContext Any → ExecutionContext Any
  unfolding parse_command_id
  normalize_console_command c = elim c.command_id [
    | none ↦ c
    | some i ↦
        let (console, command) = parse_command_id i in
        record c {
          console_name = if is_some c.console_name then c.console_name else console;
          command_name = if is_some c.command_name then c.command_name else command;
        }
  ]

  -- The context that Invoke makes of a request.
  unfoldable pub request_context : Option String → InvokeRequest Any → ExecutionContext Any
  unfolding normalize_console_command
  request_context principal q = normalize_console_command (record (context_from "rpc") {
    principal = principal;
    console_name = nonempty q.console_name;
    command_id = nonempty q.command_id;
    command_name = nonempty q.command_name;
    argv = q.argv;
    kwargs = q.kwargs;
    raw_cmd = nonempty q.raw_cmd;
    timeout_ms = nonzero q.timeout_ms;
    lock_key = if str_eq q.lock_key "" then "global" else q.lock_key;
    session_id = nonempty q.session_id;
    meta_revision = nonempty q.meta_revision;
    audit_policy = some "force";
  })

abbrev pub reply_of : Outcome String → InvokeReply
reply_of (raised x) = failed x
reply_of (returned r) = invoked r

module _ {Fn Any : Type 0} (commands_of : String → Option (List (CommandDef Fn))) where
  -- _resolve_command_def
  unfoldable pub resolve_command_def : ExecutionContext Any → Option (CommandDef Fn)
  resolve_command_def c = elim c.console_name [
    | none ↦ none
    | some console ↦ elim (commands_of console) [
      | none ↦ none
      | some defs ↦ resolved_command console defs c.command_id c.command_name
    ]
  ]

  -- Invoke
  unfoldable pub invoke :
      {Handler Awaitable : Type 0}
      → Handlers Handler Awaitable Any
      → (ExecutionContext Any → Handler)
      → World
      → String
      → RpcConfig
      → Dict (List String)
      → InvokeRequest Any
      → CommandExecutor Handler Any
      → CommandExecutor Handler Any × InvokeReply
  invoke handlers execute w uuid config auth q e =
      let principal = resolve_principal q.principal auth config in
      let c = request_context principal q in
      if config.require_audit && not (is_some e.audit_sink)
      then (e, failed_precondition)
      else elim (resolve_command_def c) [
        | none ↦ (e, not_found)
        | some d ↦
            if is_rpc_allowed d principal config
            then (let (e', out) =
                  submit_threadsafe handlers w uuid
                    (record { invocation = to_invocation c; handler = some (execute c) }) e in
                (e', reply_of out))
            else (e, permission_denied)
      ]
