-- ===== src/Runtime/Events.antt =====
-- src/python_tty/runtime/events.py: the levels, kinds and events that runs emit, with the context
-- attributes that the executor and the router attach to an event.
use python_tty.Prelude.{
  ℕ, zero, suc, String, Bool, false, Option, none, some, ◌||◌, or_else, str_eq, ℤ, pos, negsuc,
}
use python_tty.Prelude.Dict.{Dict}
use python_tty.Models.{Value}

-- TEXT, INFO, WARNING, ERROR, SUCCESS, FAILURE, DEBUG
pub data UiEventLevel : Type 0 where
  text info warning error success failure debug : UiEventLevel

-- The enum's value.
abbrev pub level_value : UiEventLevel → ℤ
level_value UiEventLevel.text = negsuc 0
level_value UiEventLevel.info = pos 0
level_value UiEventLevel.warning = pos 1
level_value UiEventLevel.error = pos 2
level_value UiEventLevel.success = pos 3
level_value UiEventLevel.failure = pos 4
level_value UiEventLevel.debug = pos 5

-- UIEventLevel.map_level; None when no branch is taken
unfoldable pub map_level : ℤ → Option UiEventLevel
map_level (negsuc n) = none
map_level (pos zero) = some UiEventLevel.info
map_level (pos (suc zero)) = some UiEventLevel.warning
map_level (pos (suc (suc zero))) = some UiEventLevel.error
map_level (pos (suc (suc (suc zero)))) = some UiEventLevel.success
map_level (pos (suc (suc (suc (suc zero))))) = some UiEventLevel.failure
map_level (pos (suc (suc (suc (suc (suc zero)))))) = some UiEventLevel.debug
map_level (pos (suc (suc (suc (suc (suc (suc n))))))) = none

pub data RuntimeEventKind : Type 0 where
  state stdout log : RuntimeEventKind

pub record RuntimeEvent (Any : Type 0) : Type 0 where
  pub kind : Option RuntimeEventKind
  pub msg : Option (Value Any)
  pub level : UiEventLevel
  pub run_id : Option String
  pub event_type : Option String
  pub payload : Option (Dict (Value Any))
  pub source : Option String
  pub ts : Option ℕ
  pub seq : Option ℕ
  pub session_id : Option String
  pub parent_run_id : Option String
  pub depth : Option ℕ
  pub origin_source : Option String
  pub principal : Option String
  pub lock_key : Option String
  pub command_id : Option String
  pub callable_meta : Option (Dict (Value Any))

-- `event_type in {"success", "failure", "cancelled", "timeout"}`
abbrev pub is_terminal_type : String → Bool
is_terminal_type t =
    str_eq t "success" || (str_eq t "failure" || (str_eq t "cancelled" || str_eq t "timeout"))

-- _is_terminal_event, which three modules define alike
unfoldable pub is_terminal_event : {Any : Type 0} → RuntimeEvent Any → Bool
is_terminal_event e = elim e.kind [
  | some RuntimeEventKind.state ↦ elim e.event_type [ none ↦ false | some t ↦ is_terminal_type t ]
  | _ ↦ false
]

-- `getattr(event, "seq", 0) or 0`
abbrev pub seq_of : {Any : Type 0} → RuntimeEvent Any → ℕ
seq_of e = or_else e.seq 0
