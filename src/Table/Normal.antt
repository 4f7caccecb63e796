-- ===== src/Table/Normal.antt =====
-- src/python_tty/utils/table.py: when the rows of a table are as long as its header.
use python_tty.Prelude.{
  ℕ, zero, suc, ◌-◌, ◌≡◌, refl, Bool, true, false, ◌||◌, Option, none, some, List, [], ◌∷◌, map,
  leb, length, length-append, length-take, arith, All, all, Option-cases, inl, inr, ap, sym, ◌∙◌,
}
use python_tty.Table.{
  Text, Table, TableError, row_too_long, blanks, longest, normal_row, normal_rows, header_of,
  normalize_data, new_table, capitalised, formatted,
}

-- Every row is as long as the header.
abbrev pub IsNormal : Table → Type 0
IsNormal t = All (λ row. length row ≡ length t.header) t.rows

length-blanks : (n : ℕ) → length (blanks n) ≡ n
length-blanks zero = refl
length-blanks (suc n) = omega (arith, length-blanks n)

length-normal_row :
    (b : Bool) (n : ℕ) (row : List Text) {r : List Text}
    → normal_row b n row ≡ some r
    → length r ≡ n
unfolding normal_row
length-normal_row b n row h = ground (
  arith,
  length-append row (blanks (n - length row)),
  length-blanks (n - length row),
  length-take n row,
)

-- Whether no row is longer than `n`.
abbrev pub all_fit : ℕ → List (List Text) → Bool
all_fit n rows = all (λ r. leb (length r) n) rows

abbrev pub too_long_unless : Bool → Option TableError
too_long_unless true = none
too_long_unless false = some row_too_long

normal_rows-error :
    (b : Bool) (n : ℕ) (rows : List (List Text))
    → (normal_rows b n rows).1 ≡ too_long_unless (b || all_fit n rows)
unfolding normal_rows normal_row
normal_rows-error true n [] = refl
normal_rows-error false n [] = refl
normal_rows-error b n (row ∷ rows) = ground (arith, normal_rows-error b n rows)

normal_rows-All :
    (b : Bool) (n : ℕ) (rows : List (List Text))
    → (normal_rows b n rows).1 ≡ none
    → All (λ r. length r ≡ n) (normal_rows b n rows).0
unfolding normal_rows
normal_rows-All b n [] h = tt
normal_rows-All b n (row ∷ rows) h = elim (Option-cases (normal_row b n row)) [
  | inl e ↦ ground arith
  | inr (r, e) ↦
      rw (e, All) (length-normal_row b n row e, normal_rows-All b n rows (ground (arith, h, e)))
]

pub normal_rows-normal :
    (b : Bool) (n : ℕ) (rows : List (List Text))
    → All (λ r. length r ≡ n) rows
    → normal_rows b n rows ≡ (rows, none)
unfolding normal_rows normal_row
normal_rows-normal b n [] a = refl
normal_rows-normal b n (row ∷ rows) a = ground (arith, normal_rows-normal b n rows a.1, a.0)

pub length-map {ℓ κ} :
    {A : Type ℓ} {B : Type κ} (f : A → B) (xs : List A) → length (map f xs) ≡ length xs
length-map f [] = refl
length-map f (x ∷ xs) = omega (arith, length-map f xs)

normalize_data-error :
    (t : Table)
    → (normalize_data t).1
      ≡ too_long_unless (t.truncate || all_fit (length (header_of t.header t.rows)) t.rows)
unfolding normalize_data
normalize_data-error t = normal_rows-error t.truncate (length (header_of t.header t.rows)) t.rows

normalize_data-IsNormal : (t : Table) → (normalize_data t).1 ≡ none → IsNormal (normalize_data t).0
unfolding normalize_data
normalize_data-IsNormal t h =
    normal_rows-All t.truncate (length (header_of t.header t.rows)) t.rows h

module _ (upper : Text → Text) where
  formatted-error : (r : Table × Option TableError) → (formatted upper r).1 ≡ r.1
  formatted-error (t, none) = refl
  formatted-error (t, some e) = refl

  formatted-IsNormal :
      (r : Table × Option TableError)
      → (r.1 ≡ none → IsNormal r.0)
      → r.1 ≡ none
      → IsNormal (formatted upper r).0
  formatted-IsNormal (t, none) n h = rw (length-map (capitalised upper) t.header) (n h)
  formatted-IsNormal (t, some e) n h = ground arith

  -- A table is made, and every row then has a cell for each column of the header, where rows may be
  -- truncated or no row is longer than the header; otherwise the constructor raises that a row is
  -- too long. A header without columns stands for one as long as the longest row.
  pub new_table-IsNormal :
      (t : Table)
      → ((new_table upper t).1
          ≡ too_long_unless (t.truncate || all_fit (length (header_of t.header t.rows)) t.rows))
        × ((new_table upper t).1 ≡ none → IsNormal (new_table upper t).0)
  unfolding new_table
  new_table-IsNormal t = (
    formatted-error (normalize_data t) ∙ normalize_data-error t,
    λ h.
        formatted-IsNormal (normalize_data t) (normalize_data-IsNormal t)
          (sym (formatted-error (normalize_data t)) ∙ h),
  )

longest-zero : (rows : List (List Text)) → All (λ row. length row ≡ 0) rows → longest rows ≡ 0
longest-zero [] a = refl
longest-zero (row ∷ rows) a = omega (arith, a.0, longest-zero rows a.1)

-- A header without columns comes with rows without cells.
header_of-normal :
    (hs : List Text) (rows : List (List Text))
    → All (λ row. length row ≡ length hs) rows
    → header_of hs rows ≡ hs
header_of-normal [] [] a = refl
header_of-normal [] (row ∷ rows) a = ap blanks (longest-zero (row ∷ rows) a)
header_of-normal (h ∷ hs) rows a = refl

-- A normalised table is left as it is.
pub normalize_data-normal : (t : Table) → IsNormal t → normalize_data t ≡ (t, none)
unfolding normalize_data
normalize_data-normal t n =
    rw
      (header_of-normal t.header t.rows n, normal_rows-normal t.truncate (length t.header) t.rows n)
      refl
