-- ===== src/Executor/Workers.antt =====
-- src/python_tty/executor/executor.py: the workers as they interleave, `_worker_loop`. A worker waits
-- for an item, then for the lock of the item's key if it has one, and runs it with the lock held.
-- `asyncio.Lock` has one holder at most; a key without a lock has a free one, which `setdefault`
-- makes.
pub mod Exclusion
use python_tty.Prelude.{
  ℕ, ◌≡◌, String, Option, none, some, List, [], ◌∷◌, ◌++◌, if◌then◌else◌, ◌==◌, str_eq,
}
use python_tty.CommandIds.{nonempty}

pub record Item : Type 0 where
  pub run_id : String
  pub lock_key : Option String

-- Where a worker is: `queue.get()`, at the lock of a key, or in `_execute_work_item`, with the lock
-- that it holds.
pub data Worker : Type 0 where
  idle : Worker
  waiting : Item → String → Worker
  running : Item → Option String → Worker

pub record Workers : Type 0 where
  pub queue : List Item
  pub worker : ℕ → Worker
  pub holder : String → Option ℕ
  pub done : List Item

-- `if not lock_key`
abbrev pub key_of : Option String → Option String
key_of none = none
key_of (some k) = nonempty k

-- The worker with its item, before `async with lock` if the item has a key.
abbrev pub with_item : Item → Option String → Worker
with_item i none = running i none
with_item i (some k) = waiting i k

abbrev pub set_worker : ℕ → Worker → Workers → Workers
set_worker w x s = record s { worker = λ v. if v == w then x else s.worker v }

abbrev pub set_holder : String → Option ℕ → Workers → Workers
set_holder k o s = record s { holder = λ j. if str_eq k j then o else s.holder j }

-- `queue.put_nowait`
abbrev pub put : Item → Workers → Workers
put i s = record s { queue = s.queue ++ i ∷ [] }

abbrev pub take : ℕ → Item → List Item → Workers → Workers
take w i q s = set_worker w (with_item i (key_of i.lock_key)) (record s { queue = q })

abbrev pub acquire : ℕ → Item → String → Workers → Workers
acquire w i k s = set_worker w (running i (some k)) (set_holder k (some w) s)

abbrev pub release : Option String → Workers → Workers
release none s = s
release (some k) s = set_holder k none s

abbrev pub finish : ℕ → Item → Option String → Workers → Workers
finish w i k s = set_worker w idle (record (release k s) { done = s.done ++ i ∷ [] })

-- One step of the loop of one worker, or a new item.
pub data Step (s : Workers) : Workers → Type 0 where
  puts : (i : Item) → Step s (put i s)
  takes :
      (w : ℕ) (i : Item) (q : List Item)
      → s.worker w ≡ idle
      → s.queue ≡ i ∷ q
      → Step s (take w i q s)
  acquires :
      (w : ℕ) (i : Item) (k : String)
      → s.worker w ≡ waiting i k
      → s.holder k ≡ none
      → Step s (acquire w i k s)
  finishes :
      (w : ℕ) (i : Item) (k : Option String) → s.worker w ≡ running i k → Step s (finish w i k s)

-- No item, every worker at the queue and every lock free.
abbrev pub start : Workers
start = record { queue = []; worker = λ w. idle; holder = λ k. none; done = [] }

-- What any number of steps leads to.
pub data Reachable : Workers → Type 0 where
  started : Reachable start
  stepped : (s s' : Workers) → Reachable s → Step s s' → Reachable s'
