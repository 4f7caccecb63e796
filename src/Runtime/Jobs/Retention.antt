-- ===== src/Runtime/Jobs/Retention.antt =====
-- What `cleanup` removes and what it keeps (jobs.py).
use python_tty.Prelude.{
  ℕ, zero, suc, ◌≡◌, refl, ◌∙◌, String, Bool, true, false, ◌||◌, Option, none, some, List, [], ◌∷◌,
  if◌then◌else◌, arith, str_eq, eq_iff, Bool-cases, inl, inr, drop,
}
use python_tty.Prelude.Dict.{Dict, get, pop, contains, IsDict, get-pop}
use python_tty.Models.{is_active, returned}
use python_tty.Runtime.Jobs.{JobStore}
use python_tty.Runtime.Jobs.Lifecycle.{pop_run, forget}
use python_tty.Runtime.Jobs.Invariant.{IsValid, drop_future-Keeps}
use python_tty.Runtime.Jobs.Cleanup.{
  Finished, insert_desc, sort_desc, sort_completed, add_id, expired_ids, add_all, completed,
  aged_out, surplus, remove_ids, pop_all, cleanup,
}

-- Membership tests on the identifiers.
abbrev pub has_id : String → List String → Bool
has_id j [] = false
has_id j (i ∷ ids) = str_eq i j || has_id j ids

abbrev pub has_run : String → List Finished → Bool
has_run j [] = false
has_run j ((t, i) ∷ l) = str_eq i j || has_run j l

has_id-add_id :
    (j i : String) (ids : List String) → has_id j (add_id i ids) ≡ (str_eq i j || has_id j ids)
unfolding add_id
has_id-add_id j i [] = refl
has_id-add_id j i (k ∷ ids) =
    ground (arith, has_id-add_id j i ids, eq_iff k i, eq_iff k j, eq_iff i j)

pub has_id-add_all :
    (j : String) (l : List Finished) (ids : List String)
    → has_id j (add_all l ids) ≡ (has_run j l || has_id j ids)
unfolding add_all
has_id-add_all j [] ids = refl
has_id-add_all j ((t, i) ∷ l) ids =
    ground (arith, has_id-add_all j l (add_id i ids), has_id-add_id j i ids)

has_run-insert :
    (j : String) (x : Finished) (l : List Finished)
    → has_run j (insert_desc x l) ≡ (str_eq x.1 j || has_run j l)
unfolding insert_desc
has_run-insert j (t, i) [] = refl
has_run-insert j (t, i) ((u, k) ∷ l) = ground (arith, has_run-insert j (t, i) l)

has_run-sort : (j : String) (l : List Finished) → has_run j (sort_desc l) ≡ has_run j l
unfolding sort_desc
has_run-sort j [] = refl
has_run-sort j ((t, i) ∷ l) =
    ground (arith, has_run-insert j (t, i) (sort_desc l), has_run-sort j l)

-- What is left out of a list is not in what remains.
has_run-drop :
    (j : String) (n : ℕ) (l : List Finished) → has_run j l ≡ false → has_run j (drop n l) ≡ false
has_run-drop j zero l h = h
has_run-drop j (suc n) [] h = h
has_run-drop j (suc n) ((t, i) ∷ l) h = has_run-drop j n l (ground arith)

has_id-expired :
    (j : String) (now ttl : ℕ) (l : List Finished) (ids : List String)
    → has_run j l ≡ false
    → has_id j (expired_ids now ttl l ids) ≡ has_id j ids
unfolding expired_ids
has_id-expired j now ttl [] ids h = refl
has_id-expired j now ttl ((none, i) ∷ l) ids h = has_id-expired j now ttl l ids (ground arith)
has_id-expired j now ttl ((some t, i) ∷ l) ids h =
    has_id-expired j now ttl l _ (ground arith) ∙ ground (arith, has_id-add_id j i ids)

-- An identifier that is in no finished pair is not removed.
surplus-absent :
    (j : String) (n : Option ℕ) (l : List Finished) (ids out : List String)
    → surplus n l ids ≡ returned out
    → has_run j l ≡ false
    → has_id j ids ≡ false
    → has_id j out ≡ false
unfolding sort_completed
surplus-absent j none l ids out e h k = ground arith
surplus-absent j (some n) l ids out e h k = ground (
  arith,
  e,
  has_id-add_all j (drop n (sort_desc l)) ids,
  has_run-drop j n (sort_desc l),
  has_run-sort j l,
)

aged_out-absent :
    (j : String) (now : ℕ) (ttl : Option ℕ) (l : List Finished)
    → has_run j l ≡ false
    → has_id j (aged_out now ttl l) ≡ false
aged_out-absent j now none l h = refl
aged_out-absent j now (some ttl) l h = has_id-expired j now ttl l [] h

module _ {Any : Type 0} where
  absent-completed :
      (j : String) (s : JobStore Any) (d : Dict ℕ)
      → contains j d ≡ false
      → has_run j (completed s d) ≡ false
  unfolding completed get
  absent-completed j s [] h = refl
  absent-completed j s ((i, b) ∷ d) h = ground (arith, absent-completed j s d)

  has_run-completed :
      (j : String) (a : ℕ) (s : JobStore Any) (d : Dict ℕ)
      → IsDict d
      → get j d ≡ some a
      → is_active (s.states.cell a).status ≡ true
      → has_run j (completed s d) ≡ false
  unfolding completed get
  has_run-completed j a s [] u h act = refl
  has_run-completed j a s ((i, b) ∷ d) u h act = elim (Bool-cases (str_eq i j)) [
    | inl m ↦ ground (arith, absent-completed j s d, eq_iff i j)
    | inr m ↦ ground (arith, has_run-completed j a s d u.1)
  ]

  pub pop_run-runs : (i : String) (s : JobStore Any) → (pop_run i s).0.runs ≡ pop i s.runs
  unfolding pop_run
  pop_run-runs i s = (drop_future-Keeps (get i s.run_futures) (forget i s)).runs

  get-pop_all :
      (j : String) (ids : List String) (s : JobStore Any)
      → get j (pop_all ids s).runs ≡ (if has_id j ids then none else get j s.runs)
  unfolding pop_all
  get-pop_all j [] s = refl
  get-pop_all j (i ∷ ids) s =
      ground (arith, get-pop_all j ids (pop_run i s).0, pop_run-runs i s, get-pop i j s.runs)

  remove_ids-active :
      (j : String) (a now : ℕ) (s : JobStore Any) (ids : List String)
      → IsDict s.runs
      → get j s.runs ≡ some a
      → is_active (s.states.cell a).status ≡ true
      → remove_ids now s ≡ returned ids
      → has_id j ids ≡ false
  unfolding remove_ids
  remove_ids-active j a now s ids u h act e =
      let absent = has_run-completed j a s s.runs u h act in
      surplus-absent j _ (completed s s.runs) _ ids e absent
        (aged_out-absent j now s.ttl_seconds (completed s s.runs) absent)

  -- In a valid store `cleanup` never removes a run that is pending or running, whatever its limits
  -- and also where its sort raises.
  pub cleanup-active :
      (j : String) (a now : ℕ) (s : JobStore Any)
      → IsValid s
      → get j s.runs ≡ some a
      → is_active (s.states.cell a).status ≡ true
      → get j (cleanup now s).0.runs ≡ some a
  unfolding cleanup
  cleanup-active j a now s v h act = grind (
    arith,
    λ (ids : List String). remove_ids-active j a now s ids v.distinct h act,
    λ (ids : List String). get-pop_all j ids s,
  )
