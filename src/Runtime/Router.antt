-- ===== src/Runtime/Router.antt =====
-- src/python_tty/runtime/router.py and provider.py: how a printed text reaches the terminal. A session,
-- an application and an output are known by their numbers; `is_running` and `takes_calls` say of an
-- application what the code asks of it, and `str` is what Python makes of a message. `P` is the
-- terminal library's text with a style, and `printed` records the calls of `print_formatted_text`.
pub mod Routing
pub mod Sink
use python_tty.Prelude.{
  ℕ, String, Bool, true, false, ◌&&◌, Option, none, some, List, [], ◌∷◌, ◌++◌, if◌then◌else◌,
  is_some, ◌==◌, append, ℤ, pos, negsuc, or_else, str_eq,
}
use python_tty.Models.{Value, or_text}
use python_tty.Prelude.Dict.{Dict}
use python_tty.Runtime.Context.{RunContext}
use python_tty.Runtime.Events.{RuntimeEvent, RuntimeEventKind, UiEventLevel, map_level}

-- A level as a caller gives it: a level, a number or None.
pub data Level : Type 0 where
  level : UiEventLevel → Level
  code : ℤ → Level
  no_level : Level

abbrev pub level_or_text : Option UiEventLevel → UiEventLevel
level_or_text none = UiEventLevel.text
level_or_text (some l) = l

-- _normalize_level
unfoldable pub normalize_level : Level → UiEventLevel
unfolding map_level
normalize_level (level l) = l
normalize_level no_level = UiEventLevel.text
normalize_level (code (negsuc n)) =
    if n == 0 then UiEventLevel.text else level_or_text (map_level (negsuc n))
normalize_level (code (pos n)) = level_or_text (map_level (pos n))

-- MSG_LEVEL_SYMBOL and MSG_LEVEL_SYMBOL_STYLE, of a level that has them
abbrev pub symbol_of : UiEventLevel → String
symbol_of UiEventLevel.text = ""
symbol_of UiEventLevel.info = "[*] "
symbol_of UiEventLevel.warning = "[!] "
symbol_of UiEventLevel.error = "[x] "
symbol_of UiEventLevel.success = "[+] "
symbol_of UiEventLevel.failure = "[-] "
symbol_of UiEventLevel.debug = "[@] "

abbrev pub style_of : UiEventLevel → String
style_of UiEventLevel.text = ""
style_of UiEventLevel.info = "fg:green"
style_of UiEventLevel.warning = "fg:yellow"
style_of UiEventLevel.error = "fg:red"
style_of UiEventLevel.success = "fg:blue"
style_of UiEventLevel.failure = "fg:white"
style_of UiEventLevel.debug = "fg:pink"

pub record UiEvent (Any : Type 0) : Type 0 where
  pub msg : Option (Value Any)
  pub level : Level
  pub run_id : Option String
  pub event_type : Option String
  pub payload : Option (Dict (Value Any))
  pub source : Option String
  pub ts : Option ℕ
  pub seq : Option ℕ

-- What is handed to a router.
pub data Emitted (Any : Type 0) : Type 0 where
  ui : UiEvent Any → Emitted Any
  runtime : RuntimeEvent Any → Emitted Any

-- What is printed: a message as it is, or a symbol and a text with the symbol's style.
pub data Formatted (Any : Type 0) : Type 0 where
  plain : Option (Value Any) → Formatted Any
  styled : String → String → String → Formatted Any

-- A call of `print_formatted_text`, with its output, through the application or not.
pub record Print (Any : Type 0) : Type 0 where
  pub formatted : Formatted Any
  pub output : Option ℕ
  pub in_terminal : Option ℕ

pub record PromptSession : Type 0 where
  pub app : Option ℕ
  pub output : Option ℕ

pub record OutputRouter (Any : Type 0) : Type 0 where
  pub app : Option ℕ
  pub output : Option ℕ
  pub printed : List (Print Any)

abbrev pub kind_of : UiEventLevel → RuntimeEventKind
kind_of UiEventLevel.text = RuntimeEventKind.stdout
kind_of l = RuntimeEventKind.log

-- Where `proxy_print` sends an event: to the run's emitter or to the router.
pub data Sent (Any : Type 0) : Type 0 where
  to_emitter : RuntimeEvent Any → Sent Any
  to_router : UiEvent Any → Sent Any

-- `x or y` of texts that may be None.
abbrev pub or_else_text : Option String → Option String → Option String
or_else_text none y = y
or_else_text (some x) y = if str_eq x "" then y else some x

abbrev pub same_app : Option ℕ → Option ℕ → Bool
same_app none none = true
same_app none (some b) = false
same_app (some a) none = false
same_app (some a) (some b) = a == b

module _ {Any : Type 0} where
  -- to_ui_event
  unfoldable pub to_ui_event : RuntimeEvent Any → UiEvent Any
  to_ui_event e = record {
    msg = e.msg;
    level = level e.level;
    run_id = e.run_id;
    event_type = e.event_type;
    payload = e.payload;
    source = e.source;
    ts = e.ts;
    seq = e.seq;
  }

  -- bind_session
  unfoldable pub bind_session : Option PromptSession → OutputRouter Any → OutputRouter Any
  bind_session none r = r
  bind_session (some s) r = record r { app = s.app; output = s.output }

  -- clear_session
  unfoldable pub clear_session : Option PromptSession → OutputRouter Any → OutputRouter Any
  clear_session none r = record r { app = none; output = none }
  clear_session (some s) r =
      if same_app s.app r.app then record r { app = none; output = none } else r

  module _ (str : Option (Value Any) → String) where
    abbrev pub format_at : UiEventLevel → Option (Value Any) → Formatted Any
    format_at UiEventLevel.text msg = plain msg
    format_at l msg = styled (symbol_of l) (str msg) (style_of l)

    -- _format_event
    unfoldable pub format_event : UiEvent Any → Formatted Any
    unfolding normalize_level
    format_event e = format_at (normalize_level e.level) e.msg

    module _ (is_running takes_calls : ℕ → Bool) where
      abbrev pub through : Option ℕ → Option ℕ
      through none = none
      through (some a) = if is_running a && takes_calls a then some a else none

      abbrev pub render : UiEvent Any → OutputRouter Any → OutputRouter Any
      render e r = record r {
        printed =
            r.printed
            ++ record { formatted = format_event e; output = r.output; in_terminal = through r.app }
              ∷ [];
      }

      -- emit: an event of no known kind is dropped
      unfoldable pub emit : Emitted Any → OutputRouter Any → OutputRouter Any
      unfolding format_event to_ui_event
      emit (ui e) r = render e r
      emit (runtime e) r = if is_some e.kind then render (to_ui_event e) r else r

  -- _attach_runtime_context
  unfoldable pub attach_runtime_context : RunContext Any → RuntimeEvent Any → RuntimeEvent Any
  attach_runtime_context c e = record e {
    session_id = c.session_id;
    parent_run_id = c.parent_run_id;
    depth = c.depth;
    origin_source = or_else_text c.origin_source e.source;
    principal = c.principal;
    lock_key = c.lock_key;
    command_id = c.command_id;
    callable_meta = c.callable_meta;
  }

  -- The event that `proxy_print` makes in a run.
  abbrev pub printed_event :
      ℕ → Option (Value Any) → UiEventLevel → Option String → String → RuntimeEvent Any
  printed_event now msg l run_id source = record {
    kind = some (kind_of l);
    msg = msg;
    level = l;
    run_id = run_id;
    event_type = none;
    payload = none;
    source = some source;
    ts = some now;
    seq = none;
    session_id = none;
    parent_run_id = none;
    depth = none;
    origin_source = none;
    principal = none;
    lock_key = none;
    command_id = none;
    callable_meta = none;
  }

  -- proxy_print, at the time `now` and with the identifier that the caller gives
  unfoldable pub proxy_print :
      ℕ → RunContext Any → Option (Value Any) → Level → String → Option String → Sent Any
  unfolding normalize_level attach_runtime_context
  proxy_print now c msg text_type source run_id =
      let l = normalize_level text_type in
      if is_some c.run_id && c.emits
      then to_emitter
          (attach_runtime_context c (printed_event now msg l c.run_id (or_text c.source source)))
      else to_router (record {
        msg = msg;
        level = level l;
        run_id = run_id;
        event_type = none;
        payload = none;
        source = some source;
        ts = some now;
        seq = none;
      })

-- provider.py, RouterProvider: the default router and the current one of the context
pub record RouterProvider (Router : Type 0) : Type 0 where
  pub default_router : Option Router
  pub current_router : Option Router

module _ {Router : Type 0} where
  -- set_default_router
  abbrev pub set_default_router : Option Router → RouterProvider Router → RouterProvider Router
  set_default_router r p = record p { default_router = r }

  -- set_current_router, with the token of the variable
  abbrev pub set_current_router :
      Option Router → RouterProvider Router → RouterProvider Router × Option Router
  set_current_router r p = (record p { current_router = r }, p.current_router)

  -- reset_current_router
  abbrev pub reset_current_router : Option Router → RouterProvider Router → RouterProvider Router
  reset_current_router token p = record p { current_router = token }

  -- get_router
  unfoldable pub get_router : RouterProvider Router → Option Router
  get_router p = if is_some p.current_router then p.current_router else p.default_router

  -- use_router, around what a block does
  unfoldable pub use_router :
      Option Router
      → (RouterProvider Router → RouterProvider Router)
      → RouterProvider Router
      → RouterProvider Router
  use_router r block p =
      let (p', token) = set_current_router r p in reset_current_router token (block p')
