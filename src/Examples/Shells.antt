-- ===== src/Examples/Shells.antt =====
-- The theorems about the stack of consoles on a small run.
use python_tty.Prelude.{◌≡◌, refl, true, false, none, some, List, [], ◌∷◌, arith}
use python_tty.Shell.{ConsoleManager, main_console, sub_console, sub_console_exit, value_error}
use python_tty.Shell.Stacking.{IsStacked}
use python_tty.Shell.Turns.{Turn, command, push_console}
use python_tty.Shell.Notices.{notify_event_listeners, shown_by, notify_event_listeners-top}

-- A root console at the prompt, and a sub console that can be pushed.
abbrev manager : ConsoleManager
manager = record {
  registry = ("root", main_console) ∷ ("module", sub_console) ∷ [];
  root_name = some "root";
  stack = record { uid = 0; parent = none; console_name = "root"; listens = true } ∷ [];
  speaks = true;
  listeners = 0 ∷ [];
  forward_console = some 0;
  has_router = true;
  bound_session = some 0;
  has_shutdown = true;
  shutdown_called = false;
  shutdowns = 0;
  next_uid = 1;
}

manager-IsStacked : IsStacked manager
manager-IsStacked = record {
  chain = (refl, tt, tt);
  made = (omega arith, tt);
  forwards = refl;
  heard = refl;
  bound = λ s r. refl;
}

-- A sub console is opened, a command fails with a ValueError, and both consoles are left.
abbrev turns : List Turn
turns =
    command (push_console "module" ∷ []) none
    ∷ command [] (some value_error)
    ∷ command [] (some sub_console_exit)
    ∷ command [] (some sub_console_exit)
    ∷ []

notify_event_listeners-top_example : notify_event_listeners manager ≡ shown_by manager.stack
notify_event_listeners-top_example = notify_event_listeners-top manager manager-IsStacked
