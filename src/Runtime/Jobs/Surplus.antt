-- ===== src/Runtime/Jobs/Surplus.antt =====
-- How many finished runs `cleanup` leaves (jobs.py).
use python_tty.Prelude.{
  ℕ, zero, suc, ◌+◌, ◌≤◌, ◌≡◌, refl, sym, ap, ◌∙◌, String, Bool, true, false, not, ◌&&◌, ◌||◌, some,
  List, [], ◌∷◌, arith, str_eq, eq_iff, eq_refl, Bool-cases, inl, inr, drop, count, filter, length,
  length-filter, pos, All,
}
use mathlib.Core.Path.{fun_ext}
use python_tty.Prelude.Dict.{Dict, pop}
use python_tty.Models.{Outcome, returned, raised}
use python_tty.Runtime.Jobs.{JobStore}
use python_tty.Runtime.Jobs.Lifecycle.{pop_run, drop_future}
use python_tty.Runtime.Jobs.Cleanup.{
  Finished, insert_desc, sort_desc, sort_completed, add_all, completed, aged_out, comparable,
  surplus, remove_ids, remove_or_raise, pop_all, cleanup,
}
use python_tty.Runtime.Jobs.Retention.{has_id, has_run, has_id-add_all, pop_run-runs}

count-insert :
    (p : Finished → Bool) (x : Finished) (l : List Finished)
    → count p (insert_desc x l) ≡ count p (x ∷ l)
unfolding insert_desc
count-insert p x [] = refl
count-insert p x (y ∷ l) = ground (arith, count-insert p x l)

count-sort : (p : Finished → Bool) (l : List Finished) → count p (sort_desc l) ≡ count p l
unfolding sort_desc
count-sort p [] = refl
count-sort p (x ∷ l) = ground (arith, count-insert p x (sort_desc l), count-sort p l)

count-drop-le {ℓ} :
    {A : Type ℓ} (p : A → Bool) (n : ℕ) (l : List A) → count p l ≤ n + count p (drop n l)
count-drop-le p zero l = omega arith
count-drop-le p (suc n) [] = omega arith
count-drop-le p (suc n) (x ∷ l) = ground (arith, count-drop-le p n l)

has_run_self :
    (l m : List Finished)
    → All (λ x. has_run x.1 m ≡ true) l
    → (y : Finished) → All (λ x. has_run x.1 (y ∷ m) ≡ true) l
has_run_self [] m a y = tt
has_run_self (x ∷ l) m a y = (ground (arith, a.0), has_run_self l m a.1 y)

has_run-All : (l : List Finished) → All (λ x. has_run x.1 l ≡ true) l
has_run-All [] = tt
has_run-All (x ∷ l) = (ground (arith, eq_refl x.1), has_run_self l l (has_run-All l) x)

-- Every pair of `m` is among the identifiers that `add_all` collects from `m`.
count-added :
    (l m : List Finished) (ids : List String)
    → All (λ x. has_run x.1 m ≡ true) l
    → count (λ x. not (has_id x.1 (add_all m ids))) l ≡ 0
count-added [] m ids a = refl
count-added (x ∷ l) m ids a = ground (arith, a.0, has_id-add_all x.1 m ids, count-added l m ids a.1)

filter-filter {ℓ} :
    {A : Type ℓ} (p q : A → Bool) (l : List A) → filter p (filter q l) ≡ filter (λ x. q x && p x) l
filter-filter p q [] = refl
filter-filter p q (x ∷ l) = ground (arith, filter-filter p q l)

filter-true {ℓ} : {A : Type ℓ} (l : List A) → filter (λ _. true) l ≡ l
filter-true [] = refl
filter-true (x ∷ l) = ap (◌∷◌ x) (filter-true l)

not_or : (a b : Bool) → not (a || b) ≡ (not a && not b)
not_or true b = refl
not_or false b = refl

str_eq_sym : (a b : String) → str_eq a b ≡ str_eq b a
str_eq_sym a b = ground (arith, eq_iff a b, eq_iff b a)

surplus-bound :
    (n : ℕ) (l : List Finished) (ids out : List String)
    → surplus (some n) l ids ≡ returned out
    → count (λ x. not (has_id x.1 out)) l ≤ n
unfolding sort_completed
surplus-bound n l ids out e = elim (Bool-cases (comparable l)) [
  | inl c ↦
      let d : out ≡ add_all (drop n (sort_desc l)) ids = ground arith in
      let m = drop n (sort_desc l) in
      rw d (
        omega (
          arith,
          count-sort (λ x. not (has_id x.1 (add_all m ids))) l,
          count-drop-le (λ x. not (has_id x.1 (add_all m ids))) n (sort_desc l),
          count-added m m ids (has_run-All m),
        ))
  | inr c ↦ absurd (ground arith)
]

module _ {Any : Type 0} where
  pop_run-states : (i : String) (s : JobStore Any) → (pop_run i s).0.states ≡ s.states
  unfolding pop_run drop_future
  pop_run-states i s = ground arith

  completed-states :
      (s t : JobStore Any) (d : Dict ℕ) → t.states ≡ s.states → completed t d ≡ completed s d
  unfolding completed
  completed-states s t [] e = refl
  completed-states s t ((i, a) ∷ d) e = ground (arith, completed-states s t d e)

  completed-pop :
      (s : JobStore Any) (i : String) (d : Dict ℕ)
      → completed s (pop i d) ≡ filter (λ x. not (str_eq i x.1)) (completed s d)
  unfolding completed pop
  completed-pop s i [] = refl
  completed-pop s i ((j, a) ∷ d) = ground (arith, completed-pop s i d, str_eq_sym i j)

  completed-pop_all :
      (ids : List String) (s : JobStore Any)
      → completed (pop_all ids s) (pop_all ids s).runs
        ≡ filter (λ x. not (has_id x.1 ids)) (completed s s.runs)
  unfolding pop_all
  completed-pop_all [] s = sym (filter-true (completed s s.runs))
  completed-pop_all (i ∷ ids) s =
      let t = (pop_run i s).0 in
      let l = completed s s.runs in
      let keep = completed-states s t (pop i s.runs) (pop_run-states i s) in
      completed-pop_all ids t
      ∙ ap (λ d. filter (λ x. not (has_id x.1 ids)) (completed t d)) (pop_run-runs i s)
      ∙ ap (filter (λ x. not (has_id x.1 ids))) (keep ∙ completed-pop s i s.runs)
      ∙ filter-filter (λ x. not (has_id x.1 ids)) (λ x. not (str_eq i x.1)) l
      ∙ ap (λ (p : Finished → Bool). filter p l)
          (fun_ext (λ x. sym (not_or (str_eq i x.1) (has_id x.1 ids))))

  remove_or_raise-returned :
      (o : Outcome (List String)) (s : JobStore Any)
      → (remove_or_raise o s).1 ≡ returned tt
      → (ids : List String) × (o ≡ returned ids) × ((remove_or_raise o s).0 ≡ pop_all ids s)
  remove_or_raise-returned (raised e) s h = cc
  remove_or_raise-returned (returned ids) s h = (ids, refl, refl)

  cleanup-limited :
      (now n : ℕ) (s : JobStore Any)
      → s.retain_last_n ≡ some (pos n)
      → cleanup now s ≡ remove_or_raise (remove_ids now s) s
  unfolding cleanup
  cleanup-limited now n s r = ground arith

  remove_ids-limited :
      (now n : ℕ) (s : JobStore Any)
      → s.retain_last_n ≡ some (pos n)
      → remove_ids now s
        ≡ surplus (some n) (completed s s.runs) (aged_out now s.ttl_seconds (completed s s.runs))
  unfolding remove_ids
  remove_ids-limited now n s r = ground arith

  -- With a retention limit, a `cleanup` that does not raise leaves at most that many finished runs.
  pub cleanup-completed-le :
      (now n : ℕ) (s : JobStore Any)
      → s.retain_last_n ≡ some (pos n)
      → (cleanup now s).1 ≡ returned tt
      → length (completed (cleanup now s).0 (cleanup now s).0.runs) ≤ n
  cleanup-completed-le now n s r e =
      let c = cleanup-limited now n s r in
      let (ids, got, e') =
        remove_or_raise-returned (remove_ids now s) s (ap (λ x. x.1) (sym c) ∙ e) in
      let gone : (cleanup now s).0 ≡ pop_all ids s = ap (λ x. x.0) c ∙ e' in
      rw gone (
        rw (completed-pop_all ids s, length-filter)
          (surplus-bound n (completed s s.runs) _ ids (sym (remove_ids-limited now n s r) ∙ got)))

  pop_all-states : (ids : List String) (s : JobStore Any) → (pop_all ids s).states ≡ s.states
  unfolding pop_all
  pop_all-states [] s = refl
  pop_all-states (i ∷ ids) s = pop_all-states ids (pop_run i s).0 ∙ pop_run-states i s

  -- Removal drops runs from the table and leaves the run states as they are.
  pub cleanup-states : (now : ℕ) (s : JobStore Any) → (cleanup now s).0.states ≡ s.states
  unfolding cleanup
  cleanup-states now s = grind (arith, λ (ids : List String). pop_all-states ids s)
