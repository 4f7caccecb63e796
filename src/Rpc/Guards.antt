-- ===== src/Rpc/Guards.antt =====
-- What Invoke lets through (frontends/rpc/core.py).
use python_tty.Prelude.{
  ◌≡◌, String, true, not, ◌&&◌, ◌||◌, Option, some, List, is_some, arith, Bool-cases, Option-cases,
  inl, inr, ◌⊎◌,
}
use python_tty.Prelude.Dict.{Dict, get}
use python_tty.Config.{RpcConfig}
use python_tty.Commands.{CommandDef}
use python_tty.Executor.{World, CommandExecutor}
use python_tty.Executor.Running.{Handlers}
use python_tty.Executor.Contexts.{ExecutionContext}
use python_tty.Rpc.{
  InvokeRequest, is_admin_principal, principal_allowed, is_rpc_allowed, resolve_principal,
  request_context, resolve_command_def, invoke,
}

module _ {Fn : Type 0} where
  allowed_command :
      (d : CommandDef Fn) (p : Option String) (config : RpcConfig)
      → is_rpc_allowed d p config ≡ true
      → ((is_admin_principal p config || principal_allowed p config) ≡ true)
        × ((config.require_rpc_exposed || config.default_deny) ≡ true
            → get "rpc" d.exposure ≡ some true)
  unfolding is_rpc_allowed
  allowed_command d p config h = (ground (arith, h), λ x. ground (arith, h, x))

module _ {Fn Any : Type 0} {Handler Awaitable : Type 0}
    (commands_of : String → Option (List (CommandDef Fn)))
    (handlers : Handlers Handler Awaitable Any) (execute : ExecutionContext Any → Handler)
    (w : World) (uuid : String) where
  -- What a call that reached the executor has passed.
  pub record IsAuthorised (config : RpcConfig) (auth : Dict (List String)) (q : InvokeRequest Any)
      (e : CommandExecutor Handler Any) : Type 0 where
    pub audited : config.require_audit ≡ true → is_some e.audit_sink ≡ true
    pub command : CommandDef Fn
    pub found :
        resolve_command_def commands_of
          (request_context (resolve_principal q.principal auth config) q)
        ≡ some command
    pub permitted :
        (is_admin_principal (resolve_principal q.principal auth config) config
          || principal_allowed (resolve_principal q.principal auth config) config)
        ≡ true
    pub exposed :
        (config.require_rpc_exposed || config.default_deny) ≡ true
        → get "rpc" command.exposure ≡ some true

  -- Invoke leaves the executor as it was unless the call passes every guard: an audit sink where one
  -- is required, a command that the request resolves to, a caller who is an administrator or
  -- allowed, and the command's exposure to remote calls where that is required.
  pub invoke-IsAuthorised :
      (config : RpcConfig) (auth : Dict (List String)) (q : InvokeRequest Any)
      (e : CommandExecutor Handler Any)
      → ((invoke commands_of handlers execute w uuid config auth q e).0 ≡ e)
        ⊎ IsAuthorised config auth q e
  unfolding invoke
  invoke-IsAuthorised config auth q e =
      let p = resolve_principal q.principal auth config in
      let o = resolve_command_def commands_of (request_context p q) in
      elim (Bool-cases (config.require_audit && not (is_some e.audit_sink))) [
        | inl a ↦ inl (ground (arith, a))
        | inr a ↦ elim (Option-cases o) [
          | inl f ↦ inl (ground (arith, a, f))
          | inr (d, f) ↦ elim (Bool-cases (is_rpc_allowed d p config)) [
            | inr g ↦ inl (ground (arith, a, f, g))
            | inl g ↦
                let (permitted, exposed) = allowed_command d p config g in
                inr (record {
                  audited = λ r. ground (arith, a, r);
                  command = d;
                  found = f;
                  permitted = permitted;
                  exposed = exposed;
                })
          ]
        ]
      ]
