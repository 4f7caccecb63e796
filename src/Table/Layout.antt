-- ===== src/Table/Layout.antt =====
-- src/python_tty/utils/table.py: how wide the lines are that a table prints.

pub mod Rows
pub mod Columns
use native.Mathlib.Nat.{mul-suc}
use python_tty.Prelude.{
  ℕ, zero, suc, ◌+◌, ◌-◌, ◌*◌, ◌≤◌, ◌<◌, ◌≡◌, refl, sym, ap, ◌∙◌, subst, Bool, true, false, Option,
  none, some, List, [], ◌∷◌, ◌++◌, map, if◌then◌else◌, or_else, leb, length, arith, All, if-cases,
}
use python_tty.Table.{Text, Table, space, times, spaces, longest, get_elem?}
use python_tty.Table.Normal.{length-map}
use python_tty.Table.Edits.{get_elem?-lt}
use python_tty.Table.Widths.{sum, mapped, total_width}
use python_tty.Table.Wrapping.{IsWidth, wrap_cell, wrap_cell-fits, CharsFit}
use python_tty.Table.Rendering.{
  join, is_wrapped, prepend, joined, line_at, pad, cell_lines, cells_from, parts_from, laid_out,
  render_from, render_row,
}

-- The widths from the column `i` on.
abbrev pub from_column {ℓ} : {A : Type ℓ} → ℕ → List A → List A
from_column zero ws = ws
from_column (suc n) [] = []
from_column (suc n) (w ∷ ws) = from_column n ws

pub from_column-cons {ℓ} :
    {A : Type ℓ} (i : ℕ) (ws : List A) (w : A)
    → get_elem? ws i ≡ some w
    → from_column i ws ≡ w ∷ from_column (suc i) ws
from_column-cons i [] w e = ground arith
from_column-cons zero (x ∷ ws) w e = subst (λ o. (x ∷ ws) ≡ or_else o w ∷ ws) e refl
from_column-cons (suc i) (x ∷ ws) w e = from_column-cons i ws w e

one_more : (a n : ℕ) → a * (suc (suc n) - 1) ≡ a + a * (suc n - 1)
one_more a n =
    let tail : a * (suc n - 1) ≡ a * n = ap (λ k. a * k) (omega arith) in
    let all : a * (suc (suc n) - 1) ≡ a * suc n = ap (λ k. a * k) (omega arith) in
    omega (arith, all, tail, mul-suc a n)

pub from_column-length {ℓ} : {A : Type ℓ} (ws : List A) → from_column (length ws) ws ≡ []
from_column-length [] = refl
from_column-length (w ∷ ws) = from_column-length ws

module _ (get_cwidth : Text → ℕ) (law : IsWidth get_cwidth) where
  pub width-times : (s : Text) (n : ℕ) → get_cwidth s ≡ 1 → get_cwidth (times s n) ≡ n
  width-times s zero h = law.width-nil
  width-times s (suc n) h = omega (arith, law.width-append s (times s n), width-times s n h, h)

  -- A join is as wide as its parts and the separators between them.
  width-join :
      (sep : Text) (ps : List Text)
      → get_cwidth (join sep ps) ≡ get_cwidth sep * (length ps - 1) + sum (map get_cwidth ps)
  width-join sep [] = omega (arith, law.width-nil)
  width-join sep (p ∷ []) = omega arith
  width-join sep (p ∷ q ∷ ps) =
      let rest = width-join sep (q ∷ ps) in
      omega (
        arith,
        law.width-append p (sep ++ join sep (q ∷ ps)),
        law.width-append sep (join sep (q ∷ ps)),
        rest,
        one_more (get_cwidth sep) (length ps),
      )

  module _ (space_one : get_cwidth (space ∷ []) ≡ 1) where
    -- A text within the width is padded to it.
    pub width-pad : (s : Text) (w : ℕ) → get_cwidth s ≤ w → get_cwidth (pad get_cwidth s w) ≡ w
    unfolding pad
    width-pad s w h = ground (
      arith,
      law.width-append s (spaces (w - get_cwidth s)),
      width-times (space ∷ []) (w - get_cwidth s) space_one,
    )

    module _ (t : Table) where
      pub width-laid_out :
          (parts : List Text) (ws : List ℕ)
          → map get_cwidth parts ≡ ws
          → get_cwidth (laid_out get_cwidth t parts) ≡ total_width t ws
      width-laid_out parts ws e =
          rw (← e, law.width-append (spaces t.data_indent) (join (spaces t.data_seq_len) parts))
            (omega (
              arith,
              width-times (space ∷ []) t.data_indent space_one,
              width-join (spaces t.data_seq_len) parts,
              ap (λ n. n * (length parts - 1)) (width-times (space ∷ []) t.data_seq_len space_one),
              ap (λ n. t.data_seq_len * (n - 1)) (length-map get_cwidth parts),
            ))
