-- ===== src/Shell/Loop/Ending.antt =====
-- src/python_tty/consoles/manager.py: when `_loop` ends.
use python_tty.Prelude.{ℕ, suc, ◌+◌, ◌≡◌, Bool, true, false, Option, none, some, List, [], ◌∷◌, all}
use python_tty.Shell.{
  Signal, sub_console_exit, console_exit, keyboard_interrupt, value_error, ConsoleManager,
}
use python_tty.Shell.Stacking.{IsStacked}
use python_tty.Shell.Turns.{
  Action, push_console, pop_console, Turn, prompt_raises, command, LoopEnd, ended,
}

-- What the loop has a clause for, and `execute`'s own.
abbrev pub is_caught : Option Signal → Bool
is_caught none = true
is_caught (some sub_console_exit) = true
is_caught (some console_exit) = true
is_caught (some keyboard_interrupt) = true
is_caught (some value_error) = true
is_caught (some s) = false

abbrev pub exit_count : Option Signal → ℕ
exit_count (some sub_console_exit) = 1
exit_count s = 0

abbrev pub ends_of : Turn → Option Signal
ends_of (prompt_raises s) = some s
ends_of (command actions ends) = ends

abbrev pub push_count : List Action → ℕ
push_count [] = 0
push_count (push_console n ∷ rest) = suc (push_count rest)
push_count (pop_console ∷ rest) = push_count rest

abbrev pub turn_pushes : Turn → ℕ
turn_pushes (prompt_raises s) = 0
turn_pushes (command actions ends) = push_count actions

-- How many consoles the turns push at most, and how many of them leave a sub console.
abbrev pub pushes : List Turn → ℕ
pushes [] = 0
pushes (t ∷ ts) = turn_pushes t + pushes ts

abbrev pub exits : List Turn → ℕ
exits [] = 0
exits (t ∷ ts) = exit_count (ends_of t) + exits ts

abbrev pub all_caught : List Turn → Bool
all_caught ts = all (λ t. is_caught (ends_of t)) ts

-- The loop has ended, with no console left and the shutdown done.
abbrev pub IsOver : ConsoleManager × LoopEnd → Type 0
IsOver r = (r.1 ≡ ended) × (r.0.stack ≡ []) × (r.0.shutdown_called ≡ true) × IsStacked r.0
