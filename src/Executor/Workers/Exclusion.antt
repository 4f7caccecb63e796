-- ===== src/Executor/Workers/Exclusion.antt =====
-- src/python_tty/executor/executor.py: two runs with one lock key never overlap.
use python_tty.Prelude.{
  ℕ, ◌≡◌, ◌⊎◌, ◌++◌, refl, ap, ◌∙◌, sym, subst, if-cases, str_eq, false, ◌==◌, String, Option, none,
  some, List, [], ◌∷◌, eq_iff, arith, inl, inr, ==_iff, Option-cases,
}
use python_tty.Executor.Workers.{
  Item, Worker, idle, waiting, running, Workers, key_of, with_item, set_worker, set_holder, acquire,
  finish, release, Step, puts, takes, acquires, finishes, Reachable, started, stepped,
}

-- The key under which a worker runs.
abbrev pub runs_under : Worker → Option String
runs_under idle = none
runs_under (waiting i k) = none
runs_under (running i o) = o

-- A worker holds the lock of the key that it runs under, and who holds a lock runs under it.
pub record IsExclusive (s : Workers) : Type 0 where
  pub held : (w : ℕ) (k : String) → runs_under (s.worker w) ≡ some k → s.holder k ≡ some w
  pub runs : (w : ℕ) (k : String) → s.holder k ≡ some w → runs_under (s.worker w) ≡ some k

with_item-none : (i : Item) (o : Option String) → runs_under (with_item i o) ≡ none
with_item-none i none = refl
with_item-none i (some l) = refl

-- A worker that holds no lock stays without one as it goes on.
set_worker-IsExclusive :
    (w : ℕ) (y : Worker) (s : Workers)
    → runs_under (s.worker w) ≡ none
    → runs_under y ≡ none
    → IsExclusive s
    → IsExclusive (set_worker w y s)
set_worker-IsExclusive w y s e f x = record {
  held = λ v k h. ground (arith, x.held v k, h, f);
  runs = λ v k h. ground (arith, x.runs v k, x.runs w k, e, h, ==_iff v w);
}

acquire-IsExclusive :
    (w : ℕ) (i : Item) (k : String) (s : Workers)
    → s.worker w ≡ waiting i k
    → s.holder k ≡ none
    → IsExclusive s
    → IsExclusive (acquire w i k s)
acquire-IsExclusive w i k s e f x = record {
  held = λ v l h. ground (arith, h, e, f, eq_iff k l, x.held v l, x.runs v l);
  runs = λ v l h. ground (arith, h, e, f, eq_iff k l, x.held v l, x.runs v l);
}

release-IsExclusive :
    (w : ℕ) (i : Item) (k : String) (s : Workers)
    → s.worker w ≡ running i (some k)
    → IsExclusive s
    → IsExclusive (set_worker w idle (set_holder k none s))
release-IsExclusive w i k s e x = record {
  held = λ v l h. ground (arith, h, e, eq_iff k l, x.held v l, x.held w k, ==_iff v w);
  runs = λ v l h. ground (arith, h, e, eq_iff k l, x.runs v l, x.runs w l, ==_iff v w);
}

-- The items that are done are nothing to the locks.
done-IsExclusive :
    (done : List Item) (s : Workers) → IsExclusive s → IsExclusive (record s { done = done })
done-IsExclusive done s x = record { held = x.held; runs = x.runs }

queue-IsExclusive :
    (queue : List Item) (s : Workers) → IsExclusive s → IsExclusive (record s { queue = queue })
queue-IsExclusive queue s x = record { held = x.held; runs = x.runs }

finish-IsExclusive :
    (w : ℕ) (i : Item) (o : Option String) (s : Workers)
    → s.worker w ≡ running i o
    → IsExclusive s
    → IsExclusive (finish w i o s)
finish-IsExclusive w i none s e x =
    done-IsExclusive (s.done ++ i ∷ []) (set_worker w idle s)
      (set_worker-IsExclusive w idle s (ap runs_under e) refl x)
finish-IsExclusive w i (some k) s e x =
    done-IsExclusive (s.done ++ i ∷ []) (set_worker w idle (set_holder k none s))
      (release-IsExclusive w i k s e x)

Step-IsExclusive : (s s' : Workers) → Step s s' → IsExclusive s → IsExclusive s'
Step-IsExclusive s s' (puts i) x = queue-IsExclusive (s.queue ++ i ∷ []) s x
Step-IsExclusive s s' (takes w i q e h) x =
    set_worker-IsExclusive w (with_item i (key_of i.lock_key)) (record s { queue = q })
      (ap runs_under e) (with_item-none i (key_of i.lock_key)) (queue-IsExclusive q s x)
Step-IsExclusive s s' (acquires w i k e f) x = acquire-IsExclusive w i k s e f x
Step-IsExclusive s s' (finishes w i o e) x = finish-IsExclusive w i o s e x

-- In every state that the workers reach, whoever holds the lock of a key runs an item under it, and
-- whoever runs an item under a key holds its lock.
pub Reachable-IsExclusive : (s : Workers) → Reachable s → IsExclusive s
Reachable-IsExclusive s started = record {
  held = λ w k h. ground (arith, h);
  runs = λ w k h. ground (arith, h);
}
Reachable-IsExclusive s (stepped s0 s' r st) = Step-IsExclusive s0 s st (Reachable-IsExclusive s0 r)

-- A worker at a lock has an item of that key, and one that runs does so under the key of its item.
abbrev pub Matches : Worker → Type 0
Matches idle = Unit
Matches (waiting i k) = key_of i.lock_key ≡ some k
Matches (running i o) = key_of i.lock_key ≡ o

with_item-Matches : (i : Item) (o : Option String) → key_of i.lock_key ≡ o → Matches (with_item i o)
with_item-Matches i none e = e
with_item-Matches i (some k) e = e

set_worker-Matches :
    (w : ℕ) (y : Worker) (s : Workers)
    → Matches y
    → ((v : ℕ) → Matches (s.worker v))
    → (v : ℕ) → Matches ((set_worker w y s).worker v)
set_worker-Matches w y s m ms v = if-cases Matches (v == w) y (s.worker v) (λ e. m) (λ e. ms v)

release-worker : (o : Option String) (s : Workers) → (release o s).worker ≡ s.worker
release-worker none s = refl
release-worker (some k) s = refl

Step-Matches :
    (s s' : Workers)
    → Step s s'
    → ((v : ℕ) → Matches (s.worker v))
    → (v : ℕ) → Matches (s'.worker v)
Step-Matches s s' (puts i) m = m
Step-Matches s s' (takes w i q e h) m =
    set_worker-Matches w (with_item i (key_of i.lock_key)) (record s { queue = q })
      (with_item-Matches i (key_of i.lock_key) refl) m
Step-Matches s s' (acquires w i k e f) m =
    set_worker-Matches w (running i (some k)) (set_holder k (some w) s) (subst Matches e (m w)) m
Step-Matches s s' (finishes w i o e) m =
    set_worker-Matches w idle (record (release o s) { done = s.done ++ i ∷ [] }) tt
      (λ v. rw (release-worker o s) (m v))

Reachable-Matches : (s : Workers) → Reachable s → (v : ℕ) → Matches (s.worker v)
Reachable-Matches s started v = tt
Reachable-Matches s (stepped s0 s' r st) v = Step-Matches s0 s st (Reachable-Matches s0 r) v

-- The worker runs an item whose lock key is this text.
abbrev pub RunsWith : String → Worker → Type 0
RunsWith k y = (i : Item) × (o : Option String) × (y ≡ running i o) × (i.lock_key ≡ some k)

key_of-lock_key : (o : Option String) (k : String) → key_of o ≡ some k → o ≡ some k
key_of-lock_key none k h = h
key_of-lock_key (some l) k h = ground (arith, h)

-- An item whose lock key is a text that is not empty runs under it.
RunsWith-runs_under :
    (k : String) (y : Worker)
    → str_eq k "" ≡ false
    → Matches y
    → RunsWith k y
    → runs_under y ≡ some k
RunsWith-runs_under k y h m (i, o, e, l) =
    let m' : key_of i.lock_key ≡ o = subst Matches e m in
    ap runs_under e ∙ sym m' ∙ ap key_of l ∙ ground (arith, h)

runs_under-RunsWith : (k : String) (y : Worker) → Matches y → runs_under y ≡ some k → RunsWith k y
runs_under-RunsWith k idle m e = absurd (ground (arith, e))
runs_under-RunsWith k (waiting i l) m e = absurd (ground (arith, e))
runs_under-RunsWith k (running i o) m e = (i, o, refl, key_of-lock_key i.lock_key k (m ∙ e))

-- In every state that the workers reach, however they interleave: two workers that run items with
-- one lock key, which is not empty, are the same worker; and a worker that waits at a lock has an item
-- of that lock key, and may acquire the lock unless another worker runs an item of that lock key, so
-- no lock outlives the item that it was taken for.
pub mutual_exclusion :
    (s : Workers)
    → Reachable s
    → ((v w : ℕ) (k : String)
        → str_eq k "" ≡ false
        → RunsWith k (s.worker v)
        → RunsWith k (s.worker w)
        → v ≡ w)
      × ((w : ℕ) (i : Item) (k : String)
          → s.worker w ≡ waiting i k
          → (i.lock_key ≡ some k)
            × (Step s (acquire w i k s) ⊎ ((v : ℕ) × RunsWith k (s.worker v))))
mutual_exclusion s r =
    let x = Reachable-IsExclusive s r in
    let m = Reachable-Matches s r in
    (
      λ v w k h hv hw.
          let hv' = x.held v k (RunsWith-runs_under k (s.worker v) h (m v) hv) in
          let hw' = x.held w k (RunsWith-runs_under k (s.worker w) h (m w) hw) in
          ground (arith, hv', hw'),
      λ w i k e. (
        key_of-lock_key i.lock_key k (subst Matches e (m w)),
        elim (Option-cases (s.holder k)) [
          | inl f ↦ inl (acquires w i k e f)
          | inr (v, f) ↦ inr (v, runs_under-RunsWith k (s.worker v) (m v) (x.runs v k f))
        ],
      ),
    )
