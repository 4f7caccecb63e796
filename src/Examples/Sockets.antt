-- ===== src/Examples/Sockets.antt =====
-- The theorem about websockets on three of them and a bound of one.
use python_tty.Prelude.{true, false, List, [], ◌∷◌, pos}
use python_tty.Web.{WebConfig, create_app}
use python_tty.Web.Connections.{
  SocketEvent, opens, leaves, socket_events, IsBounded, socket_events-IsBounded,
}

abbrev pub config : WebConfig
config = record {
  enabled = true;
  bind_host = "127.0.0.1";
  port = 8000;
  root_path = "";
  cors_allow_origins = [];
  cors_allow_credentials = true;
  cors_allow_methods = "*" ∷ [];
  cors_allow_headers = "*" ∷ [];
  meta_enabled = true;
  meta_cache_control_max_age = pos 30;
  ws_snapshot_enabled = true;
  ws_snapshot_include_jobs = false;
  ws_max_connections = 1;
  ws_heartbeat_interval = pos 0;
  ws_send_queue_size = 100;
}

-- The second websocket is refused, and the third comes once the first has left.
abbrev visits : List SocketEvent
visits = opens 1 ∷ opens 2 ∷ leaves 2 ∷ leaves 1 ∷ opens 3 ∷ []

socket_events-IsBounded_example : IsBounded config (socket_events visits (create_app config))
socket_events-IsBounded_example = socket_events-IsBounded config visits
