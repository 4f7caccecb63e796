-- ===== src/Testing/Harness.antt =====
-- src/python_tty/testing/harness.py, results.py and capture.py: the case that a harness runs, what it is
-- given and what it answers. An `Effect` is what the application's validator or function does: the
-- events that it emits, and how it ends.
use python_tty.Prelude.{ℕ, ℤ, String, Bool, Option, none, some, List, [], ◌∷◌, ◌++◌, append, map}
use python_tty.Prelude.Dict.{Dict, get}
use python_tty.Models.{
  Value, PyException, exception, or_text, Invocation, default_invocation, Outcome, returned, raised,
}
use python_tty.Runtime.Events.{RuntimeEvent, RuntimeEventKind, level_value}
use python_tty.Runtime.Router.{UiEvent, Level, level, code, no_level}
use python_tty.Commands.{CommandDef, CommandTables, get_command_def, get_command_def_by_id}
use python_tty.Commands.Declaring.{CommandRegistry}
use python_tty.Consoles.{ConsoleRegistry}
use python_tty.Testing.{DiscoveredTestCase, DiscoveredTestSuite, get_case}
use python_tty.Testing.Discovery.{Inspection, Target, no_targets, target_and, discover_tests}

pub data Channel : Type 0 where
  runtime_channel ui_channel : Channel

-- `level` is the number of a level, or None.
pub record OutputRecord (Any : Type 0) : Type 0 where
  pub channel : Channel
  pub kind : Option RuntimeEventKind
  pub message : Option (Value Any)
  pub level : Option ℤ
  pub source : Option String
  pub event_type : Option String
  pub run_id : Option String
  pub seq : Option ℕ

-- `getattr(level, "value", level)`
abbrev pub number_of_level : Level → Option ℤ
number_of_level (level l) = some (level_value l)
number_of_level (code n) = some n
number_of_level no_level = none

-- _event_to_record, of an event of a run
abbrev pub runtime_record : {Any : Type 0} → RuntimeEvent Any → OutputRecord Any
runtime_record e = record {
  channel = runtime_channel;
  kind = e.kind;
  message = e.msg;
  level = some (level_value e.level);
  source = e.source;
  event_type = e.event_type;
  run_id = e.run_id;
  seq = e.seq;
}

-- _event_to_record, of an event on the router
abbrev pub ui_record : {Any : Type 0} → UiEvent Any → OutputRecord Any
ui_record e = record {
  channel = ui_channel;
  kind = none;
  message = e.msg;
  level = number_of_level e.level;
  source = e.source;
  event_type = e.event_type;
  run_id = e.run_id;
  seq = e.seq;
}

-- build_output_records
unfoldable pub build_output_records :
    {Any : Type 0} → List (RuntimeEvent Any) → List (UiEvent Any) → List (OutputRecord Any)
build_output_records runtime_events ui_events =
    map runtime_record runtime_events ++ map ui_record ui_events

-- What a validator or a command does: the run's events, the events on the router, and how it ends.
pub record Effect (Any : Type 0) : Type 0 where
  pub runtime_events : List (RuntimeEvent Any)
  pub ui_events : List (UiEvent Any)
  pub ends : Outcome (Option Any)

pub record TestRunResult (Any : Type 0) : Type 0 where
  pub ok : Bool
  pub command_id : String
  pub return_value : Option Any
  pub raised_exception : Option PyException
  pub outputs : List (OutputRecord Any)
  pub runtime_events : List (RuntimeEvent Any)
  pub validator_ran : Bool
  pub invocation : Invocation Any

-- What a harness is asked to run: a case, an identifier of its suite, or a target.
pub data Subject (Fn Any : Type 0) : Type 0 where
  given_case : DiscoveredTestCase Fn Any → Subject Fn Any
  given_id : String → Subject Fn Any
  given_target : Target Fn → Subject Fn Any

pub record Arguments (Any : Type 0) : Type 0 where
  pub argv : Option (List String)
  pub kwargs : Dict Any
  pub raw_text : Option String
  pub validate : Bool
  pub run_id : Option String
  pub raise_exceptions : Bool

abbrev pub ids_of : Option String → List String
ids_of none = []
ids_of (some i) = i ∷ []

module _ {Fn Any : Type 0} where
  abbrev pub found :
      String → String → Option (DiscoveredTestCase Fn Any) → Outcome (DiscoveredTestCase Fn Any)
  found message i none = raised (exception (append message i))
  found message i (some c) = returned c

  abbrev pub only_case : List (DiscoveredTestCase Fn Any) → Outcome (DiscoveredTestCase Fn Any)
  only_case (c ∷ []) = returned c
  only_case _ =
      raised
        (exception "Target resolves to multiple cases; pass command_id or a DiscoveredTestCase")

  abbrev pub in_suite :
      Option (DiscoveredTestSuite Fn Any) → Option String → Option (DiscoveredTestCase Fn Any)
  in_suite (some s) (some i) = get_case i s
  in_suite _ _ = none

  abbrev pub chosen :
      Option String → DiscoveredTestSuite Fn Any → Outcome (DiscoveredTestCase Fn Any)
  chosen (some i) s = found "Command id not discovered: " i (get_case i s)
  chosen none s = only_case s.cases

  abbrev pub chosen_of :
      Option String
      → CommandRegistry Fn × Outcome (DiscoveredTestSuite Fn Any)
      → CommandRegistry Fn × Outcome (DiscoveredTestCase Fn Any)
  chosen_of i (r, raised x) = (r, raised x)
  chosen_of i (r, returned s) = (r, chosen i s)

  module _ (python : Inspection Fn Any) (s : ConsoleRegistry) where
    -- _resolve_case
    unfoldable pub resolve_case :
        Subject Fn Any
        → Option String
        → Option (DiscoveredTestSuite Fn Any)
        → CommandRegistry Fn
        → CommandRegistry Fn × Outcome (DiscoveredTestCase Fn Any)
    unfolding discover_tests get_case
    resolve_case (given_case c) i suite r = (r, returned c)
    resolve_case (given_id t) i none r =
        (r, raised (exception "Command id target requires a discovery suite"))
    resolve_case (given_id t) i (some u) r =
        (r, found "Command id not found in suite: " t (get_case t u))
    resolve_case (given_target t) i suite r = elim (in_suite suite i) [
      | some c ↦ (r, returned c)
      | none ↦ chosen_of i (discover_tests python (target_and t no_targets) (ids_of i) s r)
    ]

-- _resolve_command_def
unfoldable pub resolve_command_def :
    {Fn Any : Type 0} → CommandTables Fn → DiscoveredTestCase Fn Any → Outcome (CommandDef Fn)
unfolding get
resolve_command_def t c = elim (get_command_def_by_id (some c.command_id) t) [
  | some d ↦ returned d
  | none ↦ elim (get_command_def c.command_name t) [
    | some d ↦ returned d
    | none ↦ raised (exception (append "Command definition not found for " c.command_id))
  ]
]

-- _build_invocation; `uuid` is the identifier that `uuid.uuid4()` gives
abbrev pub build_invocation :
    {Fn Any : Type 0}
    → String
    → String
    → DiscoveredTestCase Fn Any
    → List String
    → Arguments Any
    → Invocation Any
build_invocation uuid source c argv a = record default_invocation {
  run_id = some (or_text a.run_id uuid);
  source = source;
  console_id = some c.console_name;
  command_id = some c.command_id;
  command_name = some c.command_name;
  argv = argv;
  kwargs = a.kwargs;
  raw_cmd = a.raw_text;
}
