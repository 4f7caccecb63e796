-- ===== src/Shell/Turns.antt =====
-- src/python_tty/consoles/manager.py: `_loop`, `run` and `run_with`. The user and the commands are the
-- turns of the loop: what the prompt raises, or what a command does to the stack and how it ends.
use python_tty.Prelude.{String, Option, none, some, List, [], ◌∷◌, if◌then◌else◌, is_some}
use python_tty.Shell.{
  Signal, sub_console_exit, console_exit, keyboard_interrupt, value_error, console_init, Console,
  ConsoleManager, bind_output_router, clean, push, pop,
}

-- A call that a command makes of the manager.
pub data Action : Type 0 where
  push_console : String → Action
  pop_console : Action

pub data Turn : Type 0 where
  prompt_raises : Signal → Turn
  command : List Action → Option Signal → Turn

-- What the calls leave; the command sees what they raise, and may pass it on.
unfoldable pub perform : List Action → ConsoleManager → ConsoleManager
unfolding push pop
perform [] m = m
perform (push_console n ∷ rest) m = perform rest (push n m).0
perform (pop_console ∷ rest) m = perform rest (pop m).0

-- `except ValueError: return` in `BaseConsole.execute`
abbrev pub passed_on : Option Signal → Option Signal
passed_on none = none
passed_on (some value_error) = none
passed_on (some s) = some s

-- The prompt and the command of one pass of the loop, `execute` included.
unfoldable pub take_turn : Turn → ConsoleManager → ConsoleManager × Option Signal
unfolding perform
take_turn (prompt_raises s) m = (m, some s)
take_turn (command actions ends) m = (perform actions m, passed_on ends)

-- How the loop stands: it waits at the prompt, it has ended, or an exception has left it.
pub data LoopEnd : Type 0 where
  waiting ended : LoopEnd
  escaped : Signal → LoopEnd

abbrev pub then_pops :
    (ConsoleManager → ConsoleManager × Option Signal)
    → ConsoleManager × Option Signal
    → ConsoleManager × Option Signal
then_pops k (m, some s) = (m, some s)
then_pops k (m, none) = k m

-- `while self._stack: self.pop()`, for a stack that is as long as the list.
unfoldable pub pop_each : List Console → ConsoleManager → ConsoleManager × Option Signal
pop_each [] m = (m, none)
pop_each (c ∷ cs) m = then_pops (pop_each cs) (pop m)

-- The `finally` of the loop, for an exception of a handler or none.
abbrev pub leave : ConsoleManager × Option Signal → ConsoleManager × LoopEnd
leave (m, none) = (clean m, ended)
leave (m, some s) = (clean m, escaped s)

-- The rest of the loop, unless the pop raises.
abbrev pub resume :
    (ConsoleManager → ConsoleManager × LoopEnd)
    → ConsoleManager × Option Signal
    → ConsoleManager × LoopEnd
resume k (m, none) = k m
resume k (m, some s) = (clean m, escaped s)

-- The clauses of the loop; `k` is the rest of it.
abbrev pub after_turn :
    (ConsoleManager → ConsoleManager × LoopEnd)
    → ConsoleManager × Option Signal
    → ConsoleManager × LoopEnd
after_turn k (m, none) = k m
after_turn k (m, some sub_console_exit) = resume k (pop m)
after_turn k (m, some console_exit) = leave (pop_each m.stack m)
after_turn k (m, some keyboard_interrupt) = leave (pop_each m.stack m)
after_turn k (m, some value_error) = leave (pop_each m.stack m)
after_turn k (m, some s) = (clean m, escaped s)

abbrev pub while_stacked :
    List Console
    → (ConsoleManager → ConsoleManager × LoopEnd)
    → ConsoleManager
    → ConsoleManager × LoopEnd
while_stacked [] k m = (clean m, ended)
while_stacked (c ∷ cs) k m = k (bind_output_router m)

-- _loop, for the turns that come
unfoldable pub loop : List Turn → ConsoleManager → ConsoleManager × LoopEnd
loop [] m = while_stacked m.stack (λ m'. (m', waiting)) m
loop (t ∷ ts) m = while_stacked m.stack (λ m'. after_turn (loop ts) (take_turn t m')) m

abbrev pub root_or_default : Option String → ConsoleManager → Option String
root_or_default (some n) m = some n
root_or_default none m = m.root_name

abbrev pub loop_unless : List Turn → ConsoleManager × Option Signal → ConsoleManager × LoopEnd
loop_unless ts (m, none) = loop ts m
loop_unless ts (m, some s) = (m, escaped s)

abbrev pub run_root : Option String → List Turn → ConsoleManager → ConsoleManager × LoopEnd
run_root none ts m = (m, escaped console_init)
run_root (some n) ts m = loop_unless ts (push n m)

-- run
unfoldable pub run : Option String → List Turn → ConsoleManager → ConsoleManager × LoopEnd
unfolding push loop
run name ts m = run_root (root_or_default name m) ts m

-- run_with, of a console that has a name
unfoldable pub run_with : Console → List Turn → ConsoleManager → ConsoleManager × LoopEnd
unfolding loop
run_with c ts m =
    if is_some c.parent
    then (m, escaped console_init)
    else loop ts (bind_output_router (record m { stack = c ∷ m.stack }))
