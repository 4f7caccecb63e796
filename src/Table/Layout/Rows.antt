-- ===== src/Table/Layout/Rows.antt =====
-- src/python_tty/utils/table.py: the lines of one row, `_render_row`, are as wide as the columns and
-- what stands between them.
use python_tty.Prelude.{
  ℕ, zero, suc, ◌+◌, ◌≤◌, ◌≡◌, refl, sym, ◌∙◌, subst, true, false, Option, some, List, [], ◌∷◌, map,
  length, arith, All, ◌⊎◌, inl, inr,
}
use python_tty.Table.{Text, Table, space, longest, get_elem?}
use python_tty.Table.Widths.{total_width}
use python_tty.Table.Wrapping.{IsWidth, wrap_cell, wrap_cell-fits, CharsFit}
use python_tty.Table.Layout.{
  from_column, from_column-cons, from_column-length, width-pad, width-laid_out,
}
use python_tty.Table.Rendering.{
  is_wrapped, line_at, pad, cell_lines, cells_from, parts_from, laid_out, render_from, render_row,
}

module _ (get_cwidth : Text → ℕ) (ws : List ℕ) where
  -- The cell of a column as wide as `w`: it is wrapped and every character fits, or it fits.
  abbrev pub CellFits : Option ℕ → ℕ → ℕ → Text → Type 0
  CellFits wrap i w c =
      ((is_wrapped wrap i ≡ true) × (1 ≤ w) × CharsFit get_cwidth w)
      ⊎ ((is_wrapped wrap i ≡ false) × (get_cwidth c ≤ w))

  -- Every cell from the column `i` on has a width and fits it.
  abbrev pub Covered : Option ℕ → ℕ → List Text → Type 0
  Covered wrap i [] = Unit
  Covered wrap i (c ∷ row) =
      ((w : ℕ) × (get_elem? ws i ≡ some w) × CellFits wrap i w c) × Covered wrap (suc i) row

  -- Every line of every cell from the column `i` on is within the column.
  abbrev LinesFit : ℕ → List (List Text) → Type 0
  LinesFit i [] = Unit
  LinesFit i (lines ∷ cells) =
      ((w : ℕ) × (get_elem? ws i ≡ some w) × All (λ l. get_cwidth l ≤ w) lines)
      × LinesFit (suc i) cells

  -- A line as wide as the columns with what stands before and between them.
  abbrev pub LineWide : Table → Text → Type 0
  LineWide t l = get_cwidth l ≡ total_width t ws

  module _ (law : IsWidth get_cwidth) where
    cell_lines-fits :
        (wrap : Option ℕ) (i w : ℕ) (c : Text)
        → get_elem? ws i ≡ some w
        → CellFits wrap i w c
        → (lines : List Text) × (cell_lines get_cwidth ws wrap i c ≡ some lines)
          × All (λ l. get_cwidth l ≤ w) lines
    unfolding cell_lines
    cell_lines-fits wrap i w c e (inl (h, one, chars)) =
        (wrap_cell get_cwidth w c, rw (h, e) refl, wrap_cell-fits get_cwidth w law chars c one)
    cell_lines-fits wrap i w c e (inr (h, fits)) = (c ∷ [], rw h refl, (fits, tt))

    cells_from-fits :
        (wrap : Option ℕ) (i : ℕ) (row : List Text)
        → Covered wrap i row
        → (cells : List (List Text)) × (cells_from get_cwidth ws wrap i row ≡ some cells)
          × (length cells ≡ length row)
          × LinesFit i cells
    unfolding cells_from
    cells_from-fits wrap i [] cov = ([], refl, refl, tt)
    cells_from-fits wrap i (c ∷ row) ((w, e, f), cov) =
        let (lines, e1, fits) = cell_lines-fits wrap i w c e f in
        let (cells, e2, len, rest) = cells_from-fits wrap (suc i) row cov in
        (lines ∷ cells, rw (e1, e2) refl, omega (arith, len), ((w, e, fits), rest))

    line_at-le :
        (w k : ℕ) (lines : List Text)
        → All (λ l. get_cwidth l ≤ w) lines
        → get_cwidth (line_at lines k) ≤ w
    line_at-le w k [] a = omega (arith, law.width-nil)
    line_at-le w zero (l ∷ lines) a = a.0
    line_at-le w (suc k) (l ∷ lines) a = line_at-le w k lines a.1

    module _ (space_one : get_cwidth (space ∷ []) ≡ 1) where
      parts_from-widths :
          (k i : ℕ) (cells : List (List Text))
          → LinesFit i cells
          → i + length cells ≡ length ws
          → (parts : List Text) × (parts_from get_cwidth ws k i cells ≡ some parts)
            × (map get_cwidth parts ≡ from_column i ws)
      unfolding parts_from
      parts_from-widths k i [] f h = (
        [],
        refl,
        sym (subst (λ n. from_column n ws ≡ []) (omega (arith, h)) (from_column-length ws)),
      )
      parts_from-widths k i (lines ∷ cells) ((w, e, fits), f) h =
          let (parts, e1, e2) = parts_from-widths k (suc i) cells f (omega (arith, h)) in
          (
            pad get_cwidth (line_at lines k) w ∷ parts,
            rw (e, e1) refl,
            rw
                (
                  from_column-cons i ws w e,
                  width-pad get_cwidth law space_one (line_at lines k) w
                      (line_at-le w k lines fits),
                  e2,
                )
                refl,
          )

      module _ (t : Table) where
        render_from-widths :
            (cells : List (List Text)) (k n : ℕ)
            → LinesFit 0 cells
            → length cells ≡ length ws
            → (lines : List Text) × (render_from get_cwidth t ws cells k n ≡ some lines)
              × All (LineWide t) lines
        unfolding render_from
        render_from-widths cells k zero f h = ([], refl, tt)
        render_from-widths cells k (suc n) f h =
            let (parts, e1, e2) = parts_from-widths k 0 cells f (omega (arith, h)) in
            let (lines, e3, wide) = render_from-widths cells (suc k) n f h in
            (
              laid_out get_cwidth t parts ∷ lines,
              rw (e1, e3) refl,
              (width-laid_out get_cwidth law space_one t parts ws e2, wide),
            )

        -- A row whose cells have widths that they fit is rendered, in lines of one width.
        pub render_row-widths :
            (wrap : Option ℕ) (row : List Text)
            → Covered wrap 0 row
            → length row ≡ length ws
            → (lines : List Text) × (render_row get_cwidth t row ws wrap ≡ some lines)
              × All (LineWide t) lines
        unfolding render_row
        render_row-widths wrap row cov h =
            let (cells, e1, len, f) = cells_from-fits wrap 0 row cov in
            let (lines, e2, wide) = render_from-widths cells 0 (longest cells) f (len ∙ h) in
            (lines, rw e1 e2, wide)
