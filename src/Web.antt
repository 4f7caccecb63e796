-- ===== src/Web.antt =====
-- src/python_tty/frontends/web/core.py with WebConfig of config/config.py: what `/meta` answers, and the
-- websockets of `/meta/snapshot`. fastapi's routing, headers other than the two that the code sets, and
-- the exported metadata are not modelled; `revision` is the metadata's.
pub mod Connections
use python_tty.Prelude.{
  ℕ, suc, ◌-◌, String, Bool, true, false, Option, none, some, List, [], ◌∷◌, ◌++◌, if◌then◌else◌,
  leb, str_eq, ◌==◌, remove_first, ℤ, pos, negsuc,
}
use python_tty.Prelude.Int.{bound}

pub record WebConfig : Type 0 where
  pub enabled : Bool
  pub bind_host : String
  pub port : ℕ
  pub root_path : String
  pub cors_allow_origins : List String
  pub cors_allow_credentials : Bool
  pub cors_allow_methods : List String
  pub cors_allow_headers : List String
  pub meta_enabled : Bool
  pub meta_cache_control_max_age : ℤ
  pub ws_snapshot_enabled : Bool
  pub ws_snapshot_include_jobs : Bool
  pub ws_max_connections : ℕ
  pub ws_heartbeat_interval : ℤ
  pub ws_send_queue_size : ℕ

-- The answer of `/meta`: 304, or the metadata with the ETag and the max-age that are set.
pub data MetaReply : Type 0 where
  not_modified : MetaReply
  full : Option String → Option ℕ → MetaReply

abbrev pub is_match : Option String → String → Bool
is_match none revision = false
is_match (some tag) revision = str_eq tag revision

-- get_meta, for the metadata's revision and the request's `if-none-match`
unfoldable pub get_meta : WebConfig → Option String → Option String → MetaReply
get_meta c none tag = full none (bound (some c.meta_cache_control_max_age))
get_meta c (some revision) tag =
    let max_age = bound (some c.meta_cache_control_max_age) in
    if str_eq revision ""
    then full none max_age
    else if is_match tag revision
    then not_modified
    else full (some revision) max_age

-- `connected` are the websockets between the counter's two changes, `refused` those closed at once.
pub record WebApp : Type 0 where
  pub config : WebConfig
  pub ws_connections : ℕ
  pub connected : List ℕ
  pub refused : List ℕ

-- create_app
abbrev pub create_app : WebConfig → WebApp
create_app c = record { config = c; ws_connections = 0; connected = []; refused = [] }

-- The first lines of `meta_snapshot`, of a new websocket.
unfoldable pub open_socket : ℕ → WebApp → WebApp
open_socket ws a =
    if leb a.config.ws_max_connections a.ws_connections
    then record a { refused = ws ∷ a.refused }
    else record a { ws_connections = suc a.ws_connections; connected = ws ∷ a.connected }

abbrev pub left_by : Option (List ℕ) → WebApp → WebApp
left_by none a = a
left_by (some cs) a = record a { ws_connections = a.ws_connections - 1; connected = cs }

-- The `finally` of `meta_snapshot`, of a websocket that was let in: after the snapshot without a
-- heartbeat, or when the peer leaves.
unfoldable pub leave_socket : ℕ → WebApp → WebApp
unfolding remove_first
leave_socket ws a = left_by (remove_first (λ w. w == ws) a.connected) a
