-- ===== src/Shell/Notices.antt =====
-- src/python_tty/runtime/events.py, `UIEventSpeaker`, and `BaseConsole.handler_event` of
-- consoles/core.py: which consoles print an event of the service.
use python_tty.Prelude.{
  ℕ, ◌<◌, ◌≡◌, refl, Bool, true, false, Option, none, some, List, [], ◌∷◌, filter, filter-append,
  All, arith,
}
use python_tty.Shell.{Console, ConsoleManager, with_listener, is_uid, top_uid}
use python_tty.Shell.Stacking.{IsStacked, IsChain, listening, listening-All}

-- The test of `handler_event`: whether a listening console prints.
abbrev pub handler_event : Option ℕ → ℕ → Bool
handler_event forward n = is_uid forward n

-- notify_event_listeners: the consoles that print, in the order in which they are told
unfoldable pub notify_event_listeners : ConsoleManager → List ℕ
notify_event_listeners m = filter (handler_event m.forward_console) m.listeners

-- The console that should print, where one listens at the top of the stack.
abbrev pub shown_by : List Console → List ℕ
shown_by [] = []
shown_by (c ∷ cs) = with_listener c.listens c.uid []

filter-below : (n : ℕ) (ls : List ℕ) → All (λ l. l < n) ls → filter (is_uid (some n)) ls ≡ []
filter-below n [] a = refl
filter-below n (l ∷ ls) a = ground (arith, filter-below n ls a.1, a.0)

shown-with_listener :
    (b : Bool) (n : ℕ) (ls : List ℕ)
    → All (λ l. l < n) ls
    → filter (is_uid (some n)) (with_listener b n ls) ≡ with_listener b n []
shown-with_listener true n ls a =
    ground (arith, filter-append (is_uid (some n)) ls (n ∷ []), filter-below n ls a)
shown-with_listener false n ls a = filter-below n ls a

filter-none : (ls : List ℕ) → filter (is_uid none) ls ≡ []
filter-none [] = refl
filter-none (l ∷ ls) = filter-none ls

shown-listening :
    (cs : List Console) → IsChain cs → filter (is_uid (top_uid cs)) (listening cs) ≡ shown_by cs
shown-listening [] ch = refl
shown-listening (c ∷ cs) ch =
    shown-with_listener c.listens c.uid (listening cs) (listening-All c.uid cs ch.1)

-- An event of the service is printed by the console at the top of the stack, once, if that listens,
-- and by no other, where the stack is in order.
pub notify_event_listeners-top :
    (m : ConsoleManager) → IsStacked m → notify_event_listeners m ≡ shown_by m.stack
unfolding notify_event_listeners
notify_event_listeners-top m s = rw (s.forwards, s.heard) (shown-listening m.stack s.chain)
