-- ===== src/Config.antt =====
-- src/python_tty/config/config.py: the configuration classes, with their defaults.
-- Intervals in seconds are counted in milliseconds.
use python_tty.Prelude.{
  ℕ, ◌*◌, String, Bool, true, false, Option, none, some, List, [], ◌∷◌, ℤ, pos,
}
use python_tty.Models.{PyException}

-- `Sink` is the type of a custom audit sink, and `stream` says whether a stream object is given.
pub record AuditConfig (Sink : Type 0) : Type 0 where
  pub enabled : Bool
  pub file_path : Option String
  pub stream : Bool
  pub async_mode : Bool
  pub flush_interval : ℕ
  pub keep_in_memory : Bool
  pub sink : Option Sink

abbrev pub default_audit_config : {Sink : Type 0} → AuditConfig Sink
default_audit_config = record {
  enabled = false;
  file_path = none;
  stream = false;
  async_mode = false;
  flush_interval = 1000;
  keep_in_memory = false;
  sink = none;
}

-- `exempt_exceptions` is the `isinstance` test that the tuple of classes stands for.
pub record ExecutorConfig (Sink : Type 0) : Type 0 where
  pub workers : ℕ
  pub retain_last_n : Option ℤ
  pub ttl_seconds : Option ℕ
  pub pop_on_wait : Bool
  pub exempt_exceptions : Option (PyException → Bool)
  pub emit_run_events : Bool
  pub event_history_max : Option ℤ
  pub event_history_ttl : Option ℕ
  pub sync_in_threadpool : Bool
  pub threadpool_workers : Option ℕ
  pub audit : AuditConfig Sink

abbrev pub default_executor_config : {Sink : Type 0} → ExecutorConfig Sink
default_executor_config = record {
  workers = 4;
  retain_last_n = none;
  ttl_seconds = none;
  pop_on_wait = false;
  exempt_exceptions = none;
  emit_run_events = true;
  event_history_max = some (pos 1000);
  event_history_ttl = some 3600000;
  sync_in_threadpool = true;
  threadpool_workers = some 4;
  audit = default_audit_config;
}

pub record MtlsServerConfig : Type 0 where
  pub enabled : Bool
  pub server_cert_file : Option String
  pub server_key_file : Option String
  pub client_ca_file : Option String
  pub require_client_cert : Bool
  pub principal_keys : List String

abbrev pub default_mtls_config : MtlsServerConfig
default_mtls_config = record {
  enabled = false;
  server_cert_file = none;
  server_key_file = none;
  client_ca_file = none;
  require_client_cert = true;
  principal_keys = "x509_common_name" ∷ "x509_subject" ∷ [];
}

pub record RpcConfig : Type 0 where
  pub enabled : Bool
  pub bind_host : String
  pub port : ℕ
  pub max_message_bytes : ℕ
  pub keepalive_time_ms : ℕ
  pub keepalive_timeout_ms : ℕ
  pub keepalive_permit_without_calls : Bool
  pub max_concurrent_rpcs : Option ℕ
  pub max_streams_per_client : Option ℕ
  pub stream_backpressure_queue_size : ℤ
  pub default_deny : Bool
  pub require_rpc_exposed : Bool
  pub allowed_principals : Option (List String)
  pub admin_principals : Option (List String)
  pub require_audit : Bool
  pub trust_client_principal : Bool
  pub mtls : MtlsServerConfig

abbrev pub default_rpc_config : RpcConfig
default_rpc_config = record {
  enabled = false;
  bind_host = "127.0.0.1";
  port = 50051;
  max_message_bytes = 4 * 1024 * 1024;
  keepalive_time_ms = 30000;
  keepalive_timeout_ms = 10000;
  keepalive_permit_without_calls = true;
  max_concurrent_rpcs = none;
  max_streams_per_client = none;
  stream_backpressure_queue_size = pos 1000;
  default_deny = true;
  require_rpc_exposed = true;
  allowed_principals = none;
  admin_principals = none;
  require_audit = true;
  trust_client_principal = false;
  mtls = default_mtls_config;
}
