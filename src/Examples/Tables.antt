-- ===== src/Examples/Tables.antt =====
-- The theorems about tables on a small table, in a terminal where every character is one wide.
use python_tty.Prelude.{
  ℕ, ◌≤◌, ◌≡◌, refl, true, false, none, some, List, [], ◌∷◌, arith, pos, negsuc, All, length,
  length-append, ◌||◌,
}
use python_tty.Table.{Text, Table, header_of, new_table, set_cell}
use python_tty.Table.Normal.{IsNormal, new_table-IsNormal, all_fit, too_long_unless}
use python_tty.Table.Edits.{cell_at_int, set_cell-error}
use python_tty.Table.Widths.{all_rows, compute_col_widths, resolve_wrap, total_width}
use python_tty.Table.Widths.Bounds.{resolve_wrap-total_width}
use python_tty.Table.Wrapping.{IsWidth, concat, FitsOrOne, wrap_segment, wrap_segment-lines}
use python_tty.Table.Rendering.{data_lines}
use python_tty.Table.Layout.Rows.{LineWide}
use python_tty.Table.Layout.Columns.{data_lines-LineWide}

abbrev cwidth : Text → ℕ
cwidth t = length t

cwidth-IsWidth : IsWidth cwidth
cwidth-IsWidth = record { width-nil = refl; width-append = λ s t. length-append s t }

abbrev same : Text → Text
same t = t

-- Two columns, of which the second wraps at a terminal of 14 columns.
abbrev table : Table
table = record {
  header = (105 ∷ 100 ∷ []) ∷ (110 ∷ 111 ∷ 116 ∷ 101 ∷ []) ∷ [];
  rows =
      ((49 ∷ []) ∷ (97 ∷ 98 ∷ 99 ∷ 100 ∷ 101 ∷ 102 ∷ []) ∷ [])
      ∷ ((50 ∷ []) ∷ (97 ∷ 10 ∷ 98 ∷ []) ∷ [])
      ∷ [];
  title = [];
  title_indent = 0;
  data_indent = 4;
  data_seq_len = 4;
  title_seq = 61 ∷ [];
  header_seq = 45 ∷ [];
  header_footer = true;
  wrap = true;
  wrap_col_idx = none;
  wrap_min_width = 4;
  terminal_width = some 14;
  truncate = false;
}

abbrev table-IsNormal : IsNormal table
table-IsNormal = (refl, (refl, tt))

new_table-IsNormal_example :
    ((new_table same table).1
      ≡ too_long_unless
          (table.truncate || all_fit (length (header_of table.header table.rows)) table.rows))
    × ((new_table same table).1 ≡ none → IsNormal (new_table same table).0)
new_table-IsNormal_example = new_table-IsNormal same table

set_cell-error_example :
    ((set_cell (pos 2) (negsuc 0) [] table).0 ≡ table)
    × (cell_at_int table (pos 2) (negsuc 0) ≡ none)
unfolding set_cell
set_cell-error_example = set_cell-error (pos 2) (negsuc 0) [] table table-IsNormal refl

wrap_segment-lines_example :
    (concat (wrap_segment cwidth 2 (97 ∷ 98 ∷ 99 ∷ [])) ≡ 97 ∷ 98 ∷ 99 ∷ [])
    × All (FitsOrOne cwidth 2) (wrap_segment cwidth 2 (97 ∷ 98 ∷ 99 ∷ []))
wrap_segment-lines_example = wrap_segment-lines cwidth 2 cwidth-IsWidth (97 ∷ 98 ∷ 99 ∷ [])

resolve_wrap-total_width_example : total_width table (resolve_wrap none table (2 ∷ 6 ∷ [])).0 ≤ 14
resolve_wrap-total_width_example =
    resolve_wrap-total_width none table (2 ∷ 6 ∷ []) 14 1 6 refl refl refl refl (omega arith)

data_lines-LineWide_example :
    (ws : List ℕ) × (lines : List Text) × (compute_col_widths cwidth (all_rows table) ≡ some ws)
    × (data_lines cwidth table none ≡ some lines)
    × All (LineWide cwidth (resolve_wrap none table ws).0 table) lines
data_lines-LineWide_example =
    data_lines-LineWide cwidth cwidth-IsWidth refl table refl none table-IsNormal (omega arith)
      (λ c. omega arith)
