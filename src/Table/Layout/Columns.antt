-- ===== src/Table/Layout/Columns.antt =====
-- src/python_tty/utils/table.py: a normalised table prints, in lines of one width, `print_data`.
use python_tty.Prelude.{
  ℕ, zero, suc, ◌≤◌, ◌<◌, ◌≡◌, refl, sym, ◌∙◌, subst, Option, none, some, List, [], ◌∷◌, ◌++◌, map,
  length, arith, All, All-append, inl, inr, ◌==◌, Bool-cases,
}
use python_tty.Table.{Text, Table, space, times, get_elem?, replace_at}
use python_tty.Table.Normal.{IsNormal}
use python_tty.Table.Edits.{length-replace_at, get_elem?-replace_at}
use python_tty.Table.Widths.{all_rows, compute_col_widths, resolve_wrap, total_width}
use python_tty.Table.Widths.Bounds.{RowFits, compute_col_widths-RowFits, Wraps, resolve_wrap-Wraps}
use python_tty.Table.Wrapping.{IsWidth, CharsFit}
use python_tty.Table.Layout.{from_column, width-times, width-laid_out}
use python_tty.Table.Layout.Rows.{CellFits, Covered, LineWide, render_row-widths}
use python_tty.Table.Rendering.{render_row, render_header_sep, render_rows, render_all, data_lines}

from_column-get_elem? {ℓ} :
    {A : Type ℓ} (i : ℕ) (ws : List A) (w : A) (rest : List A)
    → from_column i ws ≡ w ∷ rest
    → (get_elem? ws i ≡ some w) × (from_column (suc i) ws ≡ rest)
from_column-get_elem? zero [] w rest e = ground arith
from_column-get_elem? (suc i) [] w rest e = ground arith
from_column-get_elem? zero (x ∷ ws) w rest e = ground (arith, e)
from_column-get_elem? (suc i) (x ∷ ws) w rest e = from_column-get_elem? i ws w rest e

module _ (get_cwidth : Text → ℕ) where
  length-RowFits :
      (ws : List ℕ) (row : List Text) → RowFits get_cwidth ws row → length row ≡ length ws
  length-RowFits [] [] f = refl
  length-RowFits [] (c ∷ row) f = elim f [ ]
  length-RowFits (w ∷ ws) [] f = elim f [ ]
  length-RowFits (w ∷ ws) (c ∷ row) f = omega (arith, length-RowFits ws row f.1)

  -- The columns `ws'` give each cell that fits `ws` a width that it fits.
  Widths : List ℕ → List ℕ → Option ℕ → Type 0
  Widths ws ws' wrap =
      (i w : ℕ) (c : Text)
      → get_elem? ws i ≡ some w
      → get_cwidth c ≤ w
      → (w' : ℕ) × (get_elem? ws' i ≡ some w') × CellFits get_cwidth ws' wrap i w' c

  RowFits-Covered :
      (ws ws' : List ℕ) (wrap : Option ℕ) (i : ℕ) (part : List ℕ) (row : List Text)
      → Widths ws ws' wrap
      → from_column i ws ≡ part
      → RowFits get_cwidth part row
      → Covered get_cwidth ws' wrap i row
  unfolding Widths
  RowFits-Covered ws ws' wrap i [] [] h e f = tt
  RowFits-Covered ws ws' wrap i [] (c ∷ row) h e f = elim f [ ]
  RowFits-Covered ws ws' wrap i (w ∷ part) [] h e f = elim f [ ]
  RowFits-Covered ws ws' wrap i (w ∷ part) (c ∷ row) h e f =
      let (found, tail) = from_column-get_elem? i ws w part e in
      (h i w c found f.0, RowFits-Covered ws ws' wrap (suc i) part row h tail f.1)

  Widths-same : (ws : List ℕ) → Widths ws ws none
  unfolding Widths
  Widths-same ws i w c e h = (w, e, inr (refl, h))

  Widths-narrowed :
      (ws : List ℕ) (k target : ℕ)
      → k < length ws
      → 1 ≤ target
      → CharsFit get_cwidth target
      → Widths ws (replace_at k target ws) (some k)
  unfolding Widths
  Widths-narrowed ws k target hk one chars i w c e h = elim (Bool-cases (i == k)) [
    | inl b ↦
        (target, ground (arith, get_elem?-replace_at k i target ws hk, b), inl (b, one, chars))
    | inr b ↦ (w, ground (arith, get_elem?-replace_at k i target ws hk, b, e), inr (b, h))
  ]

  module _ (law : IsWidth get_cwidth) (space_one : get_cwidth (space ∷ []) ≡ 1) (t : Table)
      (seq_one : get_cwidth t.header_seq ≡ 1) where
    width-render_header_sep :
        (ws : List ℕ) → get_cwidth (render_header_sep get_cwidth t ws) ≡ total_width t ws
    unfolding render_header_sep
    width-render_header_sep ws =
        width-laid_out get_cwidth law space_one t (map (times t.header_seq) ws) ws (seps ws)
      where
        seps : (ws : List ℕ) → map get_cwidth (map (times t.header_seq) ws) ≡ ws
        seps [] = refl
        seps (w ∷ ws) = rw (width-times get_cwidth law t.header_seq w seq_one, seps ws) refl

    module _ (ws ws' : List ℕ) (wrap : Option ℕ) (h : Widths ws ws' wrap)
        (len : length ws' ≡ length ws) where
      row_widths :
          (row : List Text)
          → RowFits get_cwidth ws row
          → (lines : List Text) × (render_row get_cwidth t row ws' wrap ≡ some lines)
            × All (LineWide get_cwidth ws' t) lines
      row_widths row f =
          render_row-widths get_cwidth ws' law space_one t wrap row
            (RowFits-Covered ws ws' wrap 0 ws row h refl f) (length-RowFits ws row f ∙ sym len)

      render_rows-widths :
          (rows : List (List Text))
          → All (RowFits get_cwidth ws) rows
          → (lines : List Text) × (render_rows get_cwidth t ws' wrap rows ≡ some lines)
            × All (LineWide get_cwidth ws' t) lines
      unfolding render_rows
      render_rows-widths [] a = ([], refl, tt)
      render_rows-widths (row ∷ rows) a =
          let (first, e1, wide) = row_widths row a.0 in
          let (rest, e2, wides) = render_rows-widths rows a.1 in
          (
            first ++ rest,
            rw (e1, e2) refl,
            All-append (LineWide get_cwidth ws' t) first rest wide wides,
          )

      render_all-widths :
          All (RowFits get_cwidth ws) (all_rows t)
          → (lines : List Text) × (render_all get_cwidth t (ws', wrap) ≡ some lines)
            × All (LineWide get_cwidth ws' t) lines
      unfolding render_all
      render_all-widths a =
          let (first, e1, wide) = row_widths t.header a.0 in
          let (rest, e2, wides) = render_rows-widths t.rows a.1 in
          let sep = render_header_sep get_cwidth t ws' in
          (
            first ++ sep ∷ rest,
            rw (e1, e2) refl,
            All-append (LineWide get_cwidth ws' t) first (sep ∷ rest) wide
                (width-render_header_sep ws', wides),
          )

    -- What is rendered from the widths and the index that wrapping leaves.
    abbrev Rendered : List ℕ × Option ℕ → Type 0
    Rendered r =
        (lines : List Text) × (render_all get_cwidth t r ≡ some lines)
        × All (LineWide get_cwidth r.0 t) lines

    resolved-widths :
        (ws : List ℕ) (r : List ℕ × Option ℕ)
        → Wraps t ws r
        → 1 ≤ t.wrap_min_width
        → CharsFit get_cwidth t.wrap_min_width
        → All (RowFits get_cwidth ws) (all_rows t)
        → Rendered r
    resolved-widths ws r (inl e) one chars a =
        subst Rendered (sym e) (render_all-widths ws ws none (Widths-same ws) refl a)
    resolved-widths ws r (inr (k, target, e, le, hk)) one chars a =
        let holds : CharsFit get_cwidth target = λ c. omega (arith, chars c, le) in
        let widths = Widths-narrowed ws k target hk (omega (arith, one, le)) holds in
        subst Rendered (sym e) (
          render_all-widths ws (replace_at k target ws) (some k) widths
            (length-replace_at k target ws) a)

    -- A normalised table prints without an error, and every line of its rows and the line below the
    -- header have the width of the columns, as wrapping leaves them, with what stands before and
    -- between them. The terminal library's width of a text is the sum over its characters, a space and
    -- the header's line character are 1 wide, and the minimum width of a wrapped column is positive
    -- and holds every character.
    pub data_lines-LineWide :
        (detected : Option ℕ)
        → IsNormal t
        → 1 ≤ t.wrap_min_width
        → CharsFit get_cwidth t.wrap_min_width
        → (ws : List ℕ) × (lines : List Text) × (compute_col_widths get_cwidth (all_rows t)
            ≡ some ws)
          × (data_lines get_cwidth t detected ≡ some lines)
          × All (LineWide get_cwidth (resolve_wrap detected t ws).0 t) lines
    unfolding data_lines
    data_lines-LineWide detected n one chars =
        let (ws, e, a) = compute_col_widths-RowFits get_cwidth t n in
        let (lines, e1, wide) =
          resolved-widths ws (resolve_wrap detected t ws) (resolve_wrap-Wraps detected t ws) one
            chars a in
        (ws, lines, e, rw e e1, wide)
