-- ===== src/Session/Booking.antt =====
-- What a session remembers after a submission (session/manager.py, `add_run` and `_trim_runs`).
use python_tty.Prelude.{
  ℕ, ◌≡◌, refl, String, true, ◌||◌, some, [], ◌∷◌, ◌++◌, leb, length, filter, all, pos, arith,
  eq_refl,
}
use python_tty.Prelude.Dict.{get}
use python_tty.Models.{returned}
use python_tty.Executor.{CommandExecutor}
use python_tty.Session.{SessionState, add_run}
use python_tty.Session.Trimming.{is_live, trim_ids, filter-trim_ids, length-trim_ids}
use python_tty.Session.Submission.{SessionManager, book, trim_runs}
use python_tty.Session.Expiry.{get-update}

module _ {Handler Any : Type 0} where
  book-session :
      (session_id r : String) (m : SessionManager Handler Any) (e : CommandExecutor Handler Any)
      (t : SessionState Any)
      → get session_id m.store.sessions ≡ some t
      → get session_id (book session_id m (e, returned r)).0.store.sessions
        ≡ some (record t {
          run_ids = trim_ids (is_live e.store) m.store.retain_last_n (t.run_ids ++ r ∷ []);
        })
  unfolding book trim_runs add_run
  book-session session_id r m e t h =
      rw (get-update, get-update, eq_refl session_id, h) (ground (arith, h))

  -- With a retention limit, a session of the store lists after a submission, in order, every
  -- pending or running run that it listed before, and the new run if it is one; and it keeps at
  -- most the limit of identifiers unless all that it keeps are pending or running.
  pub book-live :
      (session_id r : String) (n : ℕ) (m : SessionManager Handler Any)
      (e : CommandExecutor Handler Any) (t : SessionState Any)
      → get session_id m.store.sessions ≡ some t
      → m.store.retain_last_n ≡ some (pos n)
      → (u : SessionState Any) × (get session_id
            (book session_id m (e, returned r)).0.store.sessions
          ≡ some u)
        × (filter (is_live e.store) u.run_ids ≡ filter (is_live e.store) (t.run_ids ++ r ∷ []))
        × ((leb (length u.run_ids) n || all (is_live e.store) u.run_ids) ≡ true)
  book-live session_id r n m e t h k =
      let ids = t.run_ids ++ r ∷ [] in
      (
        record t { run_ids = trim_ids (is_live e.store) (some (pos n)) ids },
        rw (book-session session_id r m e t h, k) refl,
        filter-trim_ids (is_live e.store) n ids,
        (length-trim_ids (is_live e.store) n ids).0,
      )
