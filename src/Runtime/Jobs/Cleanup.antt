-- ===== src/Runtime/Jobs/Cleanup.antt =====
-- src/python_tty/runtime/jobs.py, `cleanup`: the age limit and the retention limit on finished runs.
use python_tty.Prelude.{
  ℕ, ◌+◌, String, Bool, true, false, not, ◌&&◌, ◌||◌, Option, none, some, List, [], ◌∷◌, drop, ltb,
  leb, ◌==◌, if◌then◌else◌, is_some, str_eq, all,
}
use Prim.Native.Nat.{Ordering}
use Prim.Native.String.{compare}
use python_tty.Prelude.Int.{bound}
use python_tty.Prelude.Dict.{Dict}
use python_tty.Models.{exception, is_active, Outcome, returned, raised}
use python_tty.Runtime.Jobs.{JobStore}
use python_tty.Runtime.Jobs.Lifecycle.{pop_run}

-- A pair (finished_at, run_id).
abbrev pub Finished : Type 0
Finished = Option ℕ × String

abbrev str_less : String → String → Bool
str_less a b = elim (compare a b) [ Ordering.lt ↦ true | _ ↦ false ]

-- Python's order on the pairs, where the times compare.
unfoldable pub less : Finished → Finished → Bool
less (some t, i) (some u, j) = ltb t u || (t == u && str_less i j)
less (none, i) (none, j) = str_less i j
less _ _ = false

-- Insertion into a list in falling order. The pairs differ, so every sort gives the same list.
unfoldable pub insert_desc : Finished → List Finished → List Finished
insert_desc x [] = x ∷ []
insert_desc x (y ∷ ys) = if less x y then y ∷ insert_desc x ys else x ∷ y ∷ ys

unfoldable pub sort_desc : List Finished → List Finished
unfolding insert_desc
sort_desc [] = []
sort_desc (x ∷ xs) = insert_desc x (sort_desc xs)

-- A sort meets a pair of times that do not compare exactly if some are None and some are not.
abbrev pub comparable : List Finished → Bool
comparable l = all (λ x. is_some x.0) l || all (λ x. not (is_some x.0)) l

-- completed.sort(reverse=True), with its TypeError
unfoldable pub sort_completed : List Finished → Outcome (List Finished)
unfolding sort_desc
sort_completed l = if comparable l then returned (sort_desc l) else raised (exception "TypeError")

-- remove_ids.add
unfoldable pub add_id : String → List String → List String
add_id i [] = i ∷ []
add_id i (j ∷ js) = if str_eq j i then j ∷ js else j ∷ add_id i js

unfoldable pub expired_ids : ℕ → ℕ → List Finished → List String → List String
expired_ids now ttl [] ids = ids
expired_ids now ttl ((none, i) ∷ l) ids = expired_ids now ttl l ids
expired_ids now ttl ((some t, i) ∷ l) ids =
    expired_ids now ttl l (if leb (t + ttl) now then add_id i ids else ids)

unfoldable pub add_all : List Finished → List String → List String
unfolding add_id
add_all [] ids = ids
add_all ((_, i) ∷ l) ids = add_all l (add_id i ids)

abbrev pub aged_out : ℕ → Option ℕ → List Finished → List String
aged_out now none l = []
aged_out now (some ttl) l = expired_ids now ttl l []

abbrev pub surplus : Option ℕ → List Finished → List String → Outcome (List String)
surplus none l ids = returned ids
surplus (some n) l ids = elim (sort_completed l) [
  | raised e ↦ raised e
  | returned sorted ↦ returned (add_all (drop n sorted) ids)
]

module _ {Any : Type 0} where
  -- The runs that are neither pending nor running.
  unfoldable pub completed : JobStore Any → Dict ℕ → List Finished
  completed s [] = []
  completed s ((i, a) ∷ rest) =
      if is_active (s.states.cell a).status
      then completed s rest
      else ((s.states.cell a).finished_at, i) ∷ completed s rest

  -- remove_ids
  unfoldable pub remove_ids : ℕ → JobStore Any → Outcome (List String)
  unfolding completed expired_ids add_all sort_completed
  remove_ids now s =
      let l = completed s s.runs in surplus (bound s.retain_last_n) l (aged_out now s.ttl_seconds l)

  unfoldable pub pop_all : List String → JobStore Any → JobStore Any
  pop_all [] s = s
  pop_all (i ∷ ids) s = pop_all ids (pop_run i s).0

  abbrev pub remove_or_raise :
      Outcome (List String) → JobStore Any → JobStore Any × Outcome (Unit {0})
  remove_or_raise (raised e) s = (s, raised e)
  remove_or_raise (returned ids) s = (pop_all ids s, returned tt)

  -- cleanup
  unfoldable pub cleanup : ℕ → JobStore Any → JobStore Any × Outcome (Unit {0})
  unfolding remove_ids pop_all
  cleanup now s =
      if is_some s.retain_last_n || is_some s.ttl_seconds
      then remove_or_raise (remove_ids now s) s
      else (s, returned tt)
