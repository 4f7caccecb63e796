-- ===== src/Examples/Locks.antt =====
-- The theorem about the workers' locks at two items with one key.
use python_tty.Prelude.{ℕ, ◌≡◌, ◌⊎◌, refl, String, str_eq, false, some, [], ◌∷◌}
use python_tty.Executor.Workers.{
  Item, waiting, Workers, put, take, acquire, Step, puts, takes, acquires, start, Reachable,
  started, stepped,
}
use python_tty.Executor.Workers.Exclusion.{RunsWith, mutual_exclusion}

abbrev item : String → Item
item r = record { run_id = r; lock_key = some "db" }

abbrev queued_one : Workers
queued_one = put (item "a") start

abbrev queued_two : Workers
queued_two = put (item "b") queued_one

abbrev taken_one : Workers
taken_one = take 0 (item "a") (item "b" ∷ []) queued_two

abbrev taken_two : Workers
taken_two = take 1 (item "b") [] taken_one

-- One worker runs, and the other waits for its lock.
abbrev contended : Workers
contended = acquire 0 (item "a") "db" taken_two

contended-Reachable : Reachable contended
contended-Reachable =
    let r1 : Reachable queued_one = stepped start queued_one started (puts (item "a")) in
    let r2 : Reachable queued_two = stepped queued_one queued_two r1 (puts (item "b")) in
    let r3 : Reachable taken_one =
      stepped queued_two taken_one r2 (takes 0 (item "a") (item "b" ∷ []) refl refl) in
    let r4 : Reachable taken_two =
      stepped taken_one taken_two r3 (takes 1 (item "b") [] refl refl) in
    stepped taken_two contended r4 (acquires 0 (item "a") "db" refl refl)

mutual_exclusion_example :
    ((v w : ℕ) (k : String)
      → str_eq k "" ≡ false
      → RunsWith k (contended.worker v)
      → RunsWith k (contended.worker w)
      → v ≡ w)
    × ((w : ℕ) (i : Item) (k : String)
        → contended.worker w ≡ waiting i k
        → (i.lock_key ≡ some k)
          × (Step contended (acquire w i k contended)
              ⊎ ((v : ℕ) × RunsWith k (contended.worker v))))
mutual_exclusion_example = mutual_exclusion contended contended-Reachable
