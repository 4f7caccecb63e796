-- ===== src/Session/Trimming.antt =====
-- How a session forgets finished runs: `_trim_runs` of src/python_tty/session/manager.py.
use mathlib.Core.List.{append_assoc}
use python_tty.Prelude.{
  ℕ, suc, ◌+◌, ◌-◌, ◌≤◌, ◌≡◌, refl, String, Bool, true, false, ◌||◌, Option, none, some, List, [],
  ◌∷◌, ◌++◌, if◌then◌else◌, leb, or_else, remove_first, length, filter, all, str_eq, eq_iff,
  eq_refl, arith, Bool-cases, inl, inr, ℤ, pos, negsuc,
}
use python_tty.Models.{is_active}
use python_tty.Runtime.Jobs.{JobStore, get_run_state}

-- Whether the run is in the job store, pending or running.
unfoldable pub is_live : {Any : Type 0} → JobStore Any → String → Bool
unfolding get_run_state
is_live s run_id = elim (get_run_state run_id s) [
  | none ↦ false
  | some a ↦ is_active (s.states.cell a).status
]

module _ (live : String → Bool) where
  -- The first loop of `_trim_runs`; `left` is `len(state.run_ids) - len(trimmed)`.
  unfoldable pub trimmed : ℕ → ℕ → List String → List String
  trimmed retain left [] = []
  trimmed retain left (r ∷ rs) =
      let left' = if live r then left else left - 1 in
      let rest = trimmed retain left' rs in
      let rest' = if leb left' retain then [] else rest in if live r then rest' else r ∷ rest'

-- The second loop: `state.run_ids.remove(run_id)` for each, passing over a ValueError.
unfoldable pub remove_each : List String → List String → List String
unfolding remove_first
remove_each [] ids = ids
remove_each (r ∷ rs) ids = remove_each rs (or_else (remove_first (λ x. str_eq x r) ids) ids)

-- _trim_runs, on the identifiers of the session
unfoldable pub trim_ids : (String → Bool) → Option ℤ → List String → List String
unfolding trimmed remove_each
trim_ids live none ids = ids
trim_ids live (some (negsuc n)) ids = ids
trim_ids live (some (pos n)) ids =
    if leb (length ids) n then ids else remove_each (trimmed live n (length ids) ids) ids

module _ (live : String → Bool) where
  -- What is left of the identifiers once the two loops have run.
  abbrev kept : ℕ → ℕ → List String → List String
  kept retain left [] = []
  kept retain left (r ∷ rs) =
      let left' = if live r then left else left - 1 in
      let rest = kept retain left' rs in
      let rest' = if leb left' retain then rs else rest in if live r then r ∷ rest' else rest'

  remove_first-append :
      (pre : List String) (r : String) (rs : List String)
      → all live pre ≡ true
      → live r ≡ false
      → remove_first (λ x. str_eq x r) (pre ++ r ∷ rs) ≡ some (pre ++ rs)
  unfolding remove_first
  remove_first-append [] r rs a h = ground (arith, eq_refl r)
  remove_first-append (x ∷ pre) r rs a h = ground (arith, remove_first-append pre r rs, eq_iff x r)

  all-snoc :
      (pre : List String) (r : String)
      → all live pre ≡ true
      → live r ≡ true
      → all live (pre ++ r ∷ []) ≡ true
  all-snoc [] r a h = ground (arith, h)
  all-snoc (x ∷ pre) r a h = ground (arith, all-snoc pre r)

  remove_each-trimmed :
      (n l : ℕ) (pre rs : List String)
      → all live pre ≡ true
      → remove_each (trimmed live n l rs) (pre ++ rs) ≡ pre ++ kept n l rs
  unfolding trimmed remove_each
  remove_each-trimmed n l pre [] a = refl
  remove_each-trimmed n l pre (r ∷ rs) a = elim (Bool-cases (live r)) [
    | inl h ↦ ground (
      arith,
      h,
      remove_each-trimmed n l (pre ++ r ∷ []) rs (all-snoc pre r a h),
      append_assoc pre (r ∷ []) rs,
      append_assoc pre (r ∷ []) (kept n l rs),
    )
    | inr h ↦
        ground (arith, h, remove_first-append pre r rs a h, remove_each-trimmed n (l - 1) pre rs a)
  ]

  trim_ids-kept :
      (n : ℕ) (ids : List String)
      → trim_ids live (some (pos n)) ids
        ≡ (if leb (length ids) n then ids else kept n (length ids) ids)
  unfolding trim_ids
  trim_ids-kept n ids = ground (arith, remove_each-trimmed n (length ids) [] ids refl)

  filter-kept : (n l : ℕ) (ids : List String) → filter live (kept n l ids) ≡ filter live ids
  filter-kept n l [] = refl
  filter-kept n l (r ∷ rs) = ground (arith, filter-kept n l rs, filter-kept n (l - 1) rs)

  -- Trimming never forgets a run that is pending or running: those stay, all of them in their order.
  pub filter-trim_ids :
      (n : ℕ) (ids : List String) → filter live (trim_ids live (some (pos n)) ids) ≡ filter live ids
  filter-trim_ids n ids = rw (trim_ids-kept n ids) (ground (arith, filter-kept n (length ids) ids))

  kept-length :
      (n k l : ℕ) (ids : List String)
      → l ≡ k + length ids
      → suc n ≤ l
      → ((leb (k + length (kept n l ids)) n || all live (kept n l ids)) ≡ true)
        × (n ≤ k + length (kept n l ids))
  kept-length n k l [] e g = (ground arith, omega arith)
  kept-length n k l (r ∷ rs) e g =
      ground (arith, kept-length n (suc k) l rs, kept-length n k (l - 1) rs)

  -- After trimming to `n`, at most `n` identifiers are left or else all that are left are live, and
  -- no more are dropped than that takes: where there were `n` at least, `n` are still there.
  pub length-trim_ids :
      (n : ℕ) (ids : List String)
      → let t = trim_ids live (some (pos n)) ids in
        ((leb (length t) n || all live t) ≡ true) × (n ≤ length ids → n ≤ length t)
  length-trim_ids n ids = elim (Bool-cases (leb (length ids) n)) [
    | inl h ↦ rw (trim_ids-kept n ids, h) (ground (arith, h), λ g. g)
    | inr h ↦
        let (a, b) = kept-length n 0 (length ids) ids (omega arith) (ground (arith, h)) in
        rw (trim_ids-kept n ids, h) (ground (arith, a), λ g. omega (arith, b))
  ]
