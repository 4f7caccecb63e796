-- ===== src/Table/Rendering.antt =====
-- src/python_tty/utils/table.py: the lines that a table prints. None stands for the IndexError of a
-- width that is not there. `get_cwidth`, `detected`, `upper`, `lower` and `isupper` are as in
-- `Table` and `Table.Widths`.
use python_tty.Prelude.{
  ℕ, zero, suc, ◌-◌, Bool, false, Option, none, some, List, [], ◌∷◌, ◌++◌, map, if◌then◌else◌,
  or_else, leb, ltb, ◌==◌, length, take,
}
use python_tty.Table.{Text, Table, newline, times, spaces, blanks, longest, get_elem?}
use python_tty.Table.Widths.{all_rows, mapped, compute_col_widths, resolve_wrap}
use python_tty.Table.Wrapping.{wrap_cell, is_empty}

-- `sep.join(parts)`
abbrev pub join : Text → List Text → Text
join sep [] = []
join sep (p ∷ []) = p
join sep (p ∷ q ∷ ps) = p ++ sep ++ join sep (q ∷ ps)

-- `wrap_idx is not None and i == wrap_idx`
abbrev pub is_wrapped : Option ℕ → ℕ → Bool
is_wrapped none i = false
is_wrapped (some k) i = i == k

abbrev pub prepend {ℓ} : {A : Type ℓ} → Option A → Option (List A) → Option (List A)
prepend none rest = none
prepend (some a) none = none
prepend (some a) (some xs) = some (a ∷ xs)

abbrev pub joined {ℓ} : {A : Type ℓ} → Option (List A) → Option (List A) → Option (List A)
joined none rest = none
joined (some xs) none = none
joined (some xs) (some ys) = some (xs ++ ys)

-- `lines[line_idx] if line_idx < len(lines) else ""`
abbrev pub line_at : List Text → ℕ → Text
line_at lines k = or_else (get_elem? lines k) []

module _ (get_cwidth : Text → ℕ) where
  -- _pad
  unfoldable pub pad : Text → ℕ → Text
  pad text width =
      if leb width (get_cwidth text) then text else text ++ spaces (width - get_cwidth text)

  module _ (col_widths : List ℕ) where
    -- One pass of the first loop of `_render_row`.
    unfoldable pub cell_lines : Option ℕ → ℕ → Text → Option (List Text)
    cell_lines wrap_idx i cell =
        if is_wrapped wrap_idx i
        then mapped (λ w. wrap_cell get_cwidth w cell) (get_elem? col_widths i)
        else some (cell ∷ [])

    -- The first loop of `_render_row`, from the column `i` on.
    unfoldable pub cells_from : Option ℕ → ℕ → List Text → Option (List (List Text))
    unfolding cell_lines
    cells_from wrap_idx i [] = some []
    cells_from wrap_idx i (cell ∷ row) =
        prepend (cell_lines wrap_idx i cell) (cells_from wrap_idx (suc i) row)

    -- The inner loop of the second, from the column `i` on: the padded values of one line.
    unfoldable pub parts_from : ℕ → ℕ → List (List Text) → Option (List Text)
    unfolding pad
    parts_from line_idx i [] = some []
    parts_from line_idx i (lines ∷ cells) =
        prepend (mapped (pad (line_at lines line_idx)) (get_elem? col_widths i))
          (parts_from line_idx (suc i) cells)

  module _ (t : Table) where
    -- `" " * self.data_indent + (" " * self.data_seq_len).join(parts)`
    abbrev pub laid_out : List Text → Text
    laid_out parts = spaces t.data_indent ++ join (spaces t.data_seq_len) parts

    -- The second loop of `_render_row`: `left` lines from `line_idx` on.
    unfoldable pub render_from : List ℕ → List (List Text) → ℕ → ℕ → Option (List Text)
    unfolding parts_from
    render_from col_widths cells line_idx zero = some []
    render_from col_widths cells line_idx (suc left) =
        prepend (mapped laid_out (parts_from col_widths line_idx 0 cells))
          (render_from col_widths cells (suc line_idx) left)

    abbrev pub render_cells : List ℕ → Option (List (List Text)) → Option (List Text)
    render_cells col_widths none = none
    render_cells col_widths (some cells) = render_from col_widths cells 0 (longest cells)

    -- _render_row
    unfoldable pub render_row : List Text → List ℕ → Option ℕ → Option (List Text)
    unfolding cells_from render_from
    render_row row col_widths wrap_idx =
        render_cells col_widths (cells_from col_widths wrap_idx 0 row)

    -- _render_header_sep
    unfoldable pub render_header_sep : List ℕ → Text
    render_header_sep col_widths = laid_out (map (times t.header_seq) col_widths)

    -- The loop of `print_data` over the rows after the first.
    unfoldable pub render_rows : List ℕ → Option ℕ → List (List Text) → Option (List Text)
    unfolding render_row
    render_rows col_widths wrap_idx [] = some []
    render_rows col_widths wrap_idx (row ∷ rows) =
        joined (render_row row col_widths wrap_idx) (render_rows col_widths wrap_idx rows)

    -- The loop of `print_data`: the first row is followed by the separator.
    unfoldable pub render_all : List ℕ × Option ℕ → Option (List Text)
    unfolding render_row render_rows render_header_sep
    render_all (col_widths, wrap_idx) =
        joined (render_row t.header col_widths wrap_idx) (
          joined (some (render_header_sep col_widths ∷ []))
            (render_rows col_widths wrap_idx t.rows))

    abbrev pub laid_lines : Option ℕ → Option (List ℕ) → Option (List Text)
    laid_lines detected none = none
    laid_lines detected (some ws) = render_all (resolve_wrap detected t ws)

    -- The lines of `print_data`.
    unfoldable pub data_lines : Option ℕ → Option (List Text)
    unfolding compute_col_widths
    data_lines detected = laid_lines detected (compute_col_widths get_cwidth (all_rows t))

    -- print_data
    unfoldable pub print_data : Option ℕ → Option Text
    unfolding data_lines
    print_data detected = mapped (join (newline ∷ [])) (data_lines detected)

    -- The cells of `print_line`, as many as the table has columns.
    abbrev pub row_cells : ℕ → List Text → List Text
    row_cells n row =
        if ltb (length row) n
        then row ++ blanks (n - length row)
        else if ltb n (length row)
        then take n row
        else row

    abbrev pub row_lines : List Text → List ℕ × Option ℕ → Option (List Text)
    row_lines row (ws, wrap_idx) = render_row (row_cells (length ws) row) ws wrap_idx

    abbrev pub line_lines : Option ℕ → List Text → Option (List ℕ) → Option (List Text)
    line_lines detected row none = none
    line_lines detected row (some ws) = row_lines row (resolve_wrap detected t ws)

    -- print_line
    unfoldable pub print_line : Option ℕ → List Text → Option Text
    unfolding compute_col_widths
    print_line detected row =
        mapped (join (newline ∷ []))
          (line_lines detected row (compute_col_widths get_cwidth (all_rows t)))

    module _ (upper lower : Text → Text) (isupper : Text → Bool) where
      abbrev titled : Text → Text
      titled [] = []
      titled (c ∷ cs) = if isupper (c ∷ []) then c ∷ cs else upper (c ∷ []) ++ lower cs

      -- print_title
      unfoldable pub print_title : Option Text
      print_title =
          if is_empty t.title
          then none
          else some (
              join (newline ∷ []) (
                (spaces t.title_indent ++ titled t.title)
                ∷ (spaces t.title_indent ++ times t.title_seq (length (titled t.title)))
                ∷ []))

      abbrev pub below_title : Option Text → Text → Text
      below_title none body = body
      below_title (some title) body = title ++ newline ∷ newline ∷ body

      abbrev pub framed : Text → Text
      framed s = if t.header_footer then newline ∷ s ++ newline ∷ [] else s

      -- print_table
      unfoldable pub print_table : Option ℕ → Option Text
      unfolding print_data print_title
      print_table detected =
          mapped (λ body. framed (below_title print_title body)) (print_data detected)
