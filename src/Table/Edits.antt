-- ===== src/Table/Edits.antt =====
-- src/python_tty/utils/table.py: what `set_cell` does to a normalised table.
use python_tty.Prelude.{
  ℕ, zero, suc, ◌<◌, ◌≤◌, ◌≡◌, refl, ◌&&◌, Option, none, some, List, [], ◌∷◌, if◌then◌else◌, leb,
  leb→le, ◌==◌, length, arith, All, Option-cases, inl, inr, ℤ, pos, negsuc, subst, ◌∙◌, Bool-cases,
}
use python_tty.Table.{
  Text, Table, TableError, replace_at, get_elem?, put_cell, out_of_range, set_cell, set_or_raise,
}
use python_tty.Table.Normal.{IsNormal, normalize_data-normal}

-- The cell in row `i` and column `j`, where the table has one.
abbrev pub cell_in : Option (List Text) → ℕ → Option Text
cell_in none j = none
cell_in (some row) j = get_elem? row j

abbrev pub cell_at : Table → ℕ → ℕ → Option Text
cell_at t i j = cell_in (get_elem? t.rows i) j

abbrev pub cell_at_int : Table → ℤ → ℤ → Option Text
cell_at_int t (pos i) (pos j) = cell_at t i j
cell_at_int t (pos i) (negsuc j) = none
cell_at_int t (negsuc i) j = none

module _ {ℓ} {A : Type ℓ} where
  pub length-replace_at : (n : ℕ) (v : A) (xs : List A) → length (replace_at n v xs) ≡ length xs
  length-replace_at n v [] = refl
  length-replace_at zero v (x ∷ xs) = refl
  length-replace_at (suc n) v (x ∷ xs) = omega (arith, length-replace_at n v xs)

  get_elem?-none : (xs : List A) (n : ℕ) → length xs ≤ n → get_elem? xs n ≡ none
  get_elem?-none [] n h = refl
  get_elem?-none (x ∷ xs) zero h = absurd (omega arith)
  get_elem?-none (x ∷ xs) (suc n) h = get_elem?-none xs n (omega arith)

  get_elem?-some : (xs : List A) (n : ℕ) → n < length xs → (a : A) × (get_elem? xs n ≡ some a)
  get_elem?-some [] n h = absurd (omega arith)
  get_elem?-some (x ∷ xs) zero h = (x, refl)
  get_elem?-some (x ∷ xs) (suc n) h = get_elem?-some xs n (omega arith)

  pub get_elem?-replace_at :
      (n k : ℕ) (v : A) (xs : List A)
      → n < length xs
      → get_elem? (replace_at n v xs) k ≡ (if k == n then some v else get_elem? xs k)
  get_elem?-replace_at n k v [] h = absurd (omega arith)
  get_elem?-replace_at zero zero v (x ∷ xs) h = refl
  get_elem?-replace_at zero (suc k) v (x ∷ xs) h = ground arith
  get_elem?-replace_at (suc n) zero v (x ∷ xs) h = ground arith
  get_elem?-replace_at (suc n) (suc k) v (x ∷ xs) h = ground (arith, get_elem?-replace_at n k v xs)

pub get_elem?-lt {ℓ} :
    {A : Type ℓ} (xs : List A) (n : ℕ) {a : A} → get_elem? xs n ≡ some a → n < length xs
get_elem?-lt [] n h = ground arith
get_elem?-lt (x ∷ xs) zero h = omega arith
get_elem?-lt (x ∷ xs) (suc n) h = omega (arith, get_elem?-lt xs n h)

module _ {ℓ κ} {A : Type ℓ} (P : A → Type κ) where
  Holds : Option A → Type κ
  Holds none = Unit
  Holds (some a) = P a

  All-get_elem? : (xs : List A) (n : ℕ) → All P xs → Holds (get_elem? xs n)
  unfolding Holds
  All-get_elem? [] n ps = tt
  All-get_elem? (x ∷ xs) zero ps = ps.0
  All-get_elem? (x ∷ xs) (suc n) ps = All-get_elem? xs n ps.1

  pub All-found : (xs : List A) (n : ℕ) {a : A} → get_elem? xs n ≡ some a → All P xs → P a
  unfolding Holds
  All-found xs n e ps = subst Holds e (All-get_elem? xs n ps)

  All-replace_at : (n : ℕ) (v : A) (xs : List A) → All P xs → P v → All P (replace_at n v xs)
  All-replace_at n v [] ps p = tt
  All-replace_at zero v (x ∷ xs) ps p = (p, ps.1)
  All-replace_at (suc n) v (x ∷ xs) ps p = (ps.0, All-replace_at n v xs ps.1 p)

-- The rows once the cell of row `i` is assigned.
with_cell : ℕ → ℕ → Text → List Text → Table → Table
with_cell i j v row t = record t { rows = replace_at i (replace_at j v row) t.rows }

put_cell-with_cell :
    (i j : ℕ) (v : Text) (t : Table) {row : List Text}
    → get_elem? t.rows i ≡ some row
    → put_cell i j v t ≡ with_cell i j v row t
unfolding with_cell
put_cell-with_cell i j v t e = rw e refl

with_cell-IsNormal :
    (i j : ℕ) (v : Text) (row : List Text) (t : Table)
    → IsNormal t
    → length row ≡ length t.header
    → IsNormal (with_cell i j v row t)
unfolding with_cell
with_cell-IsNormal i j v row t n h =
    All-replace_at (λ r. length r ≡ length t.header) i (replace_at j v row) t.rows n
      (length-replace_at j v row ∙ h)

with_cell-cell :
    (i j : ℕ) (v : Text) (row : List Text) (t : Table) (k l : ℕ)
    → get_elem? t.rows i ≡ some row
    → i < length t.rows
    → j < length row
    → cell_at (with_cell i j v row t) k l ≡ (if (k == i) && (l == j) then some v else cell_at t k l)
unfolding with_cell
with_cell-cell i j v row t k l e hi hj =
    rw (get_elem?-replace_at i k (replace_at j v row) t.rows hi)
      (ground (arith, get_elem?-replace_at j l v row hj, e))

-- In a normalised table an index pair that names a cell is accepted.
out_of_range-none :
    (i j : ℕ) (t : Table)
    → IsNormal t
    → i < length t.rows
    → j < length t.header
    → out_of_range i j t ≡ none
out_of_range-none i j t n hi hj =
    let (row, e) = get_elem?-some t.rows i hi in
    let len = All-found (λ r. length r ≡ length t.header) t.rows i e n in
    rw (e, out_of_range) (ground (arith, len, hj))

-- Where the row and the column are those of a cell of a normalised table, `set_cell` does not raise,
-- the table stays normalised, the cell reads as the value, and every other cell is as before.
pub set_cell-cell :
    (i j : ℕ) (v : Text) (t : Table)
    → IsNormal t
    → i < length t.rows
    → j < length t.header
    → (t' : Table) × (set_cell (pos i) (pos j) v t ≡ (t', none))
      × IsNormal t'
      × ((k l : ℕ) → cell_at t' k l ≡ (if (k == i) && (l == j) then some v else cell_at t k l))
unfolding set_cell
set_cell-cell i j v t n hi hj =
    let (row, e) = get_elem?-some t.rows i hi in
    let len = All-found (λ r. length r ≡ length t.header) t.rows i e n in
    let n' = with_cell-IsNormal i j v row t n len in
    (
      with_cell i j v row t,
      rw
          (
            out_of_range-none i j t n hi hj,
            put_cell-with_cell i j v t e,
            normalize_data-normal (with_cell i j v row t) n',
          )
          refl,
      n',
      λ k l. with_cell-cell i j v row t k l e hi (omega (arith, len, hj)),
    )

-- Indices that are out of range name no cell.
out_of_range-cell_at :
    (i j : ℕ) (t : Table) {e : TableError} → out_of_range i j t ≡ some e → cell_at t i j ≡ none
out_of_range-cell_at i j t h = elim (Option-cases (get_elem? t.rows i)) [
  | inl e ↦ rw (e, cell_at) refl
  | inr (row, e) ↦ elim (Bool-cases (leb (length row) j)) [
    | inl b ↦ rw (e, cell_at) (get_elem?-none row j (leb→le (length row) j b))
    | inr b ↦ ground (arith, h, e, b)
  ]
]

-- Indices that are in range name a cell.
out_of_range-lt :
    (i j : ℕ) (t : Table)
    → IsNormal t
    → out_of_range i j t ≡ none
    → (i < length t.rows) × (j < length t.header)
out_of_range-lt i j t n h = elim (Option-cases (get_elem? t.rows i)) [
  | inl e ↦ ground (arith, h, e)
  | inr (row, e) ↦ (
    get_elem?-lt t.rows i e,
    ground (arith, h, e, All-found (λ r. length r ≡ length t.header) t.rows i e n),
  )
]

-- Where `set_cell` raises on a normalised table, the indices name no cell, and the table is as
-- before.
pub set_cell-error :
    (i j : ℤ) (v : Text) (t : Table) {e : TableError}
    → IsNormal t
    → (set_cell i j v t).1 ≡ some e
    → ((set_cell i j v t).0 ≡ t) × (cell_at_int t i j ≡ none)
unfolding set_cell
set_cell-error (pos i) (pos j) v t n h = elim (Option-cases (out_of_range i j t)) [
  | inl o ↦
      let (hi, hj) = out_of_range-lt i j t n o in
      let (t', e, n', cells) = set_cell-cell i j v t n hi hj in ground (arith, e, h)
  | inr (e', o) ↦ (rw (o, set_or_raise) refl, out_of_range-cell_at i j t o)
]
set_cell-error (pos i) (negsuc j) v t n h = (refl, refl)
set_cell-error (negsuc i) j v t n h = (refl, refl)
