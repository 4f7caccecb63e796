-- ===== src/Shell.antt =====
-- src/python_tty/consoles/manager.py and consoles/core.py: the stack of consoles with what the
-- consoles share: `BaseConsole.forward_console`, the service's listeners and the output router's
-- session. An object is known by its number, a console's session by the console's. The stack has
-- its top, the last element of the source's list, first. Keyword arguments and what an application's
-- console class does beyond `super().__init__` are left out.
pub mod Stacking
pub mod Loop
pub mod Turns
pub mod Notices
use python_tty.Prelude.{
  ℕ, suc, String, Bool, true, false, ◌&&◌, Option, none, some, List, [], ◌∷◌, ◌++◌, if◌then◌else◌,
  remove_first, ◌==◌,
}
use python_tty.Prelude.Dict.{Dict, get, put, contains}

-- What may be raised under the loop; `other` is any exception that no clause of it catches.
pub data Signal : Type 0 where
  sub_console_exit console_exit keyboard_interrupt value_error key_error console_init : Signal
  other : String → Signal

-- The base class of a registered console class.
pub data ConsoleKind : Type 0 where
  main_console sub_console base_console : ConsoleKind

-- A console; `listens` is whether its service is a UIEventSpeaker.
pub record Console : Type 0 where
  pub uid : ℕ
  pub parent : Option ℕ
  pub console_name : String
  pub listens : Bool

pub record ConsoleManager : Type 0 where
  pub registry : Dict ConsoleKind
  pub root_name : Option String
  pub stack : List Console
  pub speaks : Bool
  pub listeners : List ℕ
  pub forward_console : Option ℕ
  pub has_router : Bool
  pub bound_session : Option ℕ
  pub has_shutdown : Bool
  pub shutdown_called : Bool
  pub shutdowns : ℕ
  pub next_uid : ℕ

-- register
unfoldable pub register : String → ConsoleKind → ConsoleManager → ConsoleManager
unfolding put
register n k m = record m { registry = put n k m.registry }

-- is_registered
abbrev pub is_registered : String → ConsoleManager → Bool
is_registered n m = contains n m.registry

-- set_root_name
abbrev pub set_root_name : String → ConsoleManager → ConsoleManager
set_root_name n m = record m { root_name = some n }

abbrev pub top_uid : List Console → Option ℕ
top_uid [] = none
top_uid (c ∷ cs) = some c.uid

-- current
abbrev pub current : ConsoleManager → Option ℕ
current m = top_uid m.stack

-- _bind_output_router, with what `bind_session` and `clear_session` do to the router
unfoldable pub bind_output_router : ConsoleManager → ConsoleManager
bind_output_router m = if m.has_router then record m { bound_session = current m } else m

-- The first two steps of `clean`, with what `clear_session` does to the router.
unfoldable pub closed : ConsoleManager → ConsoleManager
closed m =
    if m.has_router
    then record m { shutdown_called = true; bound_session = none }
    else record m { shutdown_called = true }

-- clean
unfoldable pub clean : ConsoleManager → ConsoleManager
unfolding closed
clean m =
    if m.shutdown_called
    then m
    else if m.has_shutdown
    then record (closed m) { shutdowns = suc (closed m).shutdowns }
    else closed m

-- Whether MainConsole's or SubConsole's constructor accepts the parent.
abbrev pub accepts : ConsoleKind → Option ℕ → Bool
accepts main_console none = true
accepts main_console (some p) = false
accepts sub_console none = false
accepts sub_console (some p) = true
accepts base_console p = true

-- UIEventSpeaker.add_event_listener
abbrev pub add_event_listener : ℕ → List ℕ → List ℕ
add_event_listener n ls = ls ++ n ∷ []

-- UIEventSpeaker.remove_event_listener: None is the ValueError of `list.remove`.
abbrev pub remove_event_listener : ℕ → List ℕ → Option (List ℕ)
remove_event_listener n ls = remove_first (λ k. k == n) ls

abbrev pub with_listener : Bool → ℕ → List ℕ → List ℕ
with_listener true n ls = add_event_listener n ls
with_listener false n ls = ls

-- BaseConsole.__init__, for a console of this manager.
abbrev pub new_console : String → ConsoleManager → Console
new_console n m = record {
  uid = m.next_uid;
  parent = current m;
  console_name = n;
  listens = m.speaks;
}

-- The console is made, by its constructor, and put on the stack.
abbrev pub added : String → ConsoleManager → ConsoleManager
added n m = record m {
  next_uid = suc m.next_uid;
  forward_console = some m.next_uid;
  listeners = with_listener m.speaks m.next_uid m.listeners;
  stack = new_console n m ∷ m.stack;
}

abbrev pub push_kind : Option ConsoleKind → String → ConsoleManager → ConsoleManager × Option Signal
push_kind none n m = (m, some key_error)
push_kind (some k) n m =
    if accepts k (current m) then (bind_output_router (added n m), none) else (m, some console_init)

-- push; None where nothing is raised
unfoldable pub push : String → ConsoleManager → ConsoleManager × Option Signal
push n m = push_kind (get n m.registry) n m

abbrev pub is_uid : Option ℕ → ℕ → Bool
is_uid none n = false
is_uid (some k) n = k == n

-- The second statement of `clean_console`.
abbrev pub unforwarded : Console → ConsoleManager → ConsoleManager
unforwarded c m =
    if is_uid m.forward_console c.uid then record m { forward_console = c.parent } else m

abbrev pub unlistened : Console → ConsoleManager → Option (List ℕ) → ConsoleManager × Option Signal
unlistened c m none = (m, some value_error)
unlistened c m (some ls) = (unforwarded c (record m { listeners = ls }), none)

-- clean_console: a console that is no longer a listener makes `list.remove` raise.
unfoldable pub clean_console : Console → ConsoleManager → ConsoleManager × Option Signal
clean_console c m =
    if c.listens
    then unlistened c m (remove_event_listener c.uid m.listeners)
    else (unforwarded c m, none)

abbrev pub popped : ConsoleManager × Option Signal → ConsoleManager × Option Signal
popped (m, some s) = (m, some s)
popped (m, none) = (bind_output_router m, none)

abbrev pub pop_from : List Console → ConsoleManager → ConsoleManager × Option Signal
pop_from [] m = (m, none)
pop_from (c ∷ cs) m = popped (clean_console c (record m { stack = cs }))

-- pop
unfoldable pub pop : ConsoleManager → ConsoleManager × Option Signal
pop m = pop_from m.stack m
