-- ===== src/Rpc/Server.antt =====
-- src/python_tty/frontends/rpc/server.py: the options and the credentials of the server. `read` is what a
-- file holds, `none` where it cannot be opened; the server itself is grpc's.
use python_tty.Prelude.{
  ℕ, String, Bool, true, false, not, ◌&&◌, Option, none, some, List, [], ◌∷◌, ◌++◌, if◌then◌else◌,
  str_eq,
}
use python_tty.Models.{exception, Outcome, returned, raised}
use python_tty.Config.{RpcConfig, MtlsServerConfig}

abbrev pub number_of : Bool → ℕ
number_of true = 1
number_of false = 0

abbrev pub stream_option : Option ℕ → List (String × ℕ)
stream_option none = []
stream_option (some n) = ("grpc.max_concurrent_streams", n) ∷ []

-- _build_server_options
unfoldable pub build_server_options : RpcConfig → List (String × ℕ)
build_server_options c =
    (("grpc.keepalive_time_ms", c.keepalive_time_ms)
      ∷ ("grpc.keepalive_timeout_ms", c.keepalive_timeout_ms)
      ∷ ("grpc.keepalive_permit_without_calls", number_of c.keepalive_permit_without_calls)
      ∷ ("grpc.max_receive_message_length", c.max_message_bytes)
      ∷ ("grpc.max_send_message_length", c.max_message_bytes)
      ∷ [])
    ++ stream_option c.max_streams_per_client

-- What `grpc.ssl_server_credentials` is given.
pub record Credentials (Bytes : Type 0) : Type 0 where
  pub server_key : Bytes
  pub server_cert : Bytes
  pub root_certs : Option Bytes
  pub require_client_auth : Bool

-- The name of a file, where one is configured.
abbrev pub configured : Option String → Option String
configured none = none
configured (some f) = if str_eq f "" then none else some f

module _ {Bytes : Type 0} (read : String → Option Bytes) where
  abbrev pub opened : String → Outcome Bytes
  opened f = elim (read f) [ none ↦ raised (exception "FileNotFoundError") | some b ↦ returned b ]

  abbrev pub with_root : Bool → Bytes → Bytes → Option String → Outcome (Option (Credentials Bytes))
  with_root auth cert key none = returned (
      some (record {
        server_key = key;
        server_cert = cert;
        root_certs = none;
        require_client_auth = auth;
      }))
  with_root auth cert key (some f) = elim (opened f) [
    | raised x ↦ raised x
    | returned b ↦ returned (
        some (record {
          server_key = key;
          server_cert = cert;
          root_certs = some b;
          require_client_auth = auth;
        }))
  ]

  abbrev pub with_files :
      MtlsServerConfig → Option String → Option String → Outcome (Option (Credentials Bytes))
  with_files c (some cert_file) (some key_file) = elim (opened cert_file) [
    | raised x ↦ raised x
    | returned cert ↦ elim (opened key_file) [
      | raised x ↦ raised x
      | returned key ↦ with_root c.require_client_cert cert key (configured c.client_ca_file)
    ]
  ]
  with_files c _ _ = raised (exception "mTLS enabled but server cert/key not configured")

  -- _load_mtls_credentials
  unfoldable pub load_mtls_credentials : MtlsServerConfig → Outcome (Option (Credentials Bytes))
  load_mtls_credentials c =
      if c.enabled
      then with_files c (configured c.server_cert_file) (configured c.server_key_file)
      else returned none

  -- How a server is bound: with credentials or without.
  pub data Port : Type 0 where
    insecure : String → ℕ → Port
    secure : Credentials Bytes → String → ℕ → Port

  abbrev pub port_of : RpcConfig → Option (Credentials Bytes) → Port
  port_of c none = insecure c.bind_host c.port
  port_of c (some k) = secure k c.bind_host c.port

  -- start_rpc_server, up to the server's port
  unfoldable pub start_rpc_server : RpcConfig → Bool → Outcome Port
  unfolding load_mtls_credentials
  start_rpc_server c has_audit_sink =
      if c.require_audit && not has_audit_sink
      then raised (exception "RPC requires audit_sink; executor.audit_sink is None")
      else elim (load_mtls_credentials c.mtls) [
        | raised x ↦ raised x
        | returned k ↦ returned (port_of c k)
      ]
