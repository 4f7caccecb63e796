-- ===== src/Prelude/Heap.antt =====
-- Objects that several holders share: a heap of cells, each named by its address.
use Prim.Native.Nat.{ℕ, suc}
use python_tty.Prelude.Tests.{if◌then◌else◌, ◌==◌}

pub record Heap {ℓ} (A : Type ℓ) : Type ℓ where
  pub next : ℕ
  pub cell : ℕ → A

module _ {ℓ} {A : Type ℓ} where
  abbrev pub write : ℕ → A → Heap A → Heap A
  write a v h = record h { cell = λ b. if b == a then v else h.cell b }

  -- A new object, at an address that nothing else has.
  abbrev pub alloc : A → Heap A → Heap A
  alloc v h = record { next = suc h.next; cell = λ b. if b == h.next then v else h.cell b }
