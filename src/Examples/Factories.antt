-- ===== src/Examples/Factories.antt =====
-- The theorem about the console factory on a small input.
use python_tty.Prelude.{ℕ, true, false, none, []}
use python_tty.Config.{default_rpc_config}
use python_tty.Examples.Sockets.{config}
use python_tty.Factory.{ConsoleFactory, ended, default_factory_config}
use python_tty.Examples.Samples.{one_run, executor_of}

abbrev new_factory : ConsoleFactory ℕ ℕ
new_factory = record {
  config = default_factory_config;
  executor = executor_of one_run;
  executor_loop = none;
  executor_thread = none;
  threads = record { next = 0; cell = λ t. record { loop = 0; phase = ended } };
  next_loop = 1;
  has_router = true;
  tty_sink = none;
  sink_tasks = [];
  stops = [];
  rpc = default_rpc_config;
  rpc_server = false;
  web = config;
  web_server = none;
  sessions_closed = false;
  tty_runs = 0;
}
