-- ===== src/Factory/Moves.antt =====
-- src/python_tty/console_factory.py: whatever is called, in whatever order, there is at most one task of the
-- sink and one thread of the executor.
use python_tty.Prelude.{ℕ, Option, List, [], ◌∷◌}
use python_tty.Executor.{World}
use python_tty.Factory.{
  ConsoleFactory, start_executor, thread_begins, thread_ends, shutdown_executor, shutdown_all,
}
use python_tty.Factory.Modes.{tty_ends, concurrent_ends, start_factory}

-- What may be called on a factory, or happen to it.
pub data Move : Type 0 where
  starts shuts shuts_executor : World → Move
  starts_executor : World → Option ℕ → Move
  begins tty_finishes : World → ℕ → Move
  finishes loop_finishes : ℕ → Move

module _ {Handler Any : Type 0} where
  abbrev pub move : Move → ConsoleFactory Handler Any → ConsoleFactory Handler Any
  move (starts w) f = (start_factory w f).0
  move (shuts w) f = shutdown_all w f
  move (shuts_executor w) f = shutdown_executor w f
  move (tty_finishes w l) f = tty_ends w l f
  move (starts_executor w l) f = (start_executor w l f).0
  move (begins w t) f = thread_begins w t f
  move (finishes t) f = thread_ends t f
  move (loop_finishes l) f = concurrent_ends l f

  abbrev pub moves : List Move → ConsoleFactory Handler Any → ConsoleFactory Handler Any
  moves [] f = f
  moves (m ∷ ms) f = moves ms (move m f)
