-- ===== src/Table.antt =====
-- src/python_tty/utils/table.py: the table's cells, the normalisation of its rows and the edits.
-- A text is the list of its characters' codes; a cell is the text that `str` gives of it, which is
-- all that the code reads of a cell. Lengths and indents are natural numbers. `upper`, `lower` and
-- `isupper` are Python's functions on texts.
pub mod Normal
pub mod Edits
pub mod Widths
pub mod Wrapping
pub mod Rendering
pub mod Layout
use python_tty.Prelude.{
  ℕ, zero, suc, ◌-◌, Bool, true, false, Option, none, some, List, [], ◌∷◌, ◌++◌, map, max,
  if◌then◌else◌, or_else, ltb, leb, length, take, ℤ, pos, negsuc,
}

abbrev pub Text : Type 0
Text = List ℕ

abbrev pub space : ℕ
space = 32

abbrev pub newline : ℕ
newline = 10

-- `text * n`
abbrev pub times : Text → ℕ → Text
times t zero = []
times t (suc n) = t ++ times t n

-- `" " * n`
abbrev pub spaces : ℕ → Text
spaces n = times (space ∷ []) n

-- `[""] * n`
abbrev pub blanks : ℕ → List Text
blanks zero = []
blanks (suc n) = [] ∷ blanks n

pub record Cell : Type 0 where
  pub data_str : Text
  pub data_width : ℕ
  pub padding : Text

-- Cell.__init__
abbrev pub new_cell : Text → Cell
new_cell t = record { data_str = t; data_width = length t; padding = [] }

-- update_max_width
abbrev pub update_max_width : ℕ → Cell → Cell
update_max_width zero c = c
update_max_width (suc n) c = record c { padding = spaces (suc n) }

-- Cell.__str__
abbrev pub cell_text : Cell → Text
cell_text c = c.data_str ++ c.padding

pub record HeaderCell : Type 0 where
  pub cell : Cell
  pub seq_str : Text

-- HeaderCell.__init__
abbrev pub new_header_cell : Text → Text → HeaderCell
new_header_cell t seq = record { cell = new_cell t; seq_str = times seq (length t) }

-- get_seq_str
abbrev pub get_seq_str : HeaderCell → Text
get_seq_str h = h.seq_str ++ h.cell.padding

pub record Table : Type 0 where
  pub header : List Text
  pub rows : List (List Text)
  pub title : Text
  pub title_indent : ℕ
  pub data_indent : ℕ
  pub data_seq_len : ℕ
  pub title_seq : Text
  pub header_seq : Text
  pub header_footer : Bool
  pub wrap : Bool
  pub wrap_col_idx : Option ℤ
  pub wrap_min_width : ℕ
  pub terminal_width : Option ℕ
  pub truncate : Bool

-- What a method raises: a ValueError or an IndexError with its text.
pub data TableError : Type 0 where
  row_too_long negative_index row_out_of_range col_out_of_range : TableError

-- The longest row: `max(len(row) for row in self.data)`.
abbrev pub longest : List (List Text) → ℕ
longest [] = 0
longest (r ∷ rs) = max (length r) (longest rs)

-- One pass of the loop of `_normalize_data`: the row, unless it raises.
unfoldable pub normal_row : Bool → ℕ → List Text → Option (List Text)
normal_row truncate n row =
    if ltb (length row) n
    then some (row ++ blanks (n - length row))
    else if ltb n (length row)
    then if truncate then some (take n row) else none
    else some row

-- The loop of `_normalize_data`: it stops at the row that raises, with the rows before it replaced.
unfoldable pub normal_rows : Bool → ℕ → List (List Text) → List (List Text) × Option TableError
unfolding normal_row
normal_rows truncate n [] = ([], none)
normal_rows truncate n (row ∷ rows) =
    let rest = normal_rows truncate n rows in
    elim (normal_row truncate n row) [
      | none ↦ (row ∷ rows, some row_too_long)
      | some r ↦ (r ∷ rest.0, rest.1)
    ]

-- `header_len == 0 and self.data`
abbrev pub header_of : List Text → List (List Text) → List Text
header_of [] rows = blanks (longest rows)
header_of (h ∷ hs) rows = h ∷ hs

-- _normalize_data
unfoldable pub normalize_data : Table → Table × Option TableError
unfolding normal_rows
normalize_data t =
    let header = header_of t.header t.rows in
    let r = normal_rows t.truncate (length header) t.rows in
    (record t { header = header; rows = r.0 }, r.1)

-- The element is replaced where the index is in range.
abbrev pub replace_at {ℓ} : {A : Type ℓ} → ℕ → A → List A → List A
replace_at n v [] = []
replace_at zero v (x ∷ xs) = v ∷ xs
replace_at (suc n) v (x ∷ xs) = x ∷ replace_at n v xs

abbrev pub get_elem? {ℓ} : {A : Type ℓ} → List A → ℕ → Option A
get_elem? [] n = none
get_elem? (x ∷ xs) zero = some x
get_elem? (x ∷ xs) (suc n) = get_elem? xs n

-- The assignment to `self.data[row_idx][col_idx]`.
abbrev pub put_cell : ℕ → ℕ → Text → Table → Table
put_cell i j v t = record t {
  rows = elim (get_elem? t.rows i) [
    | none ↦ t.rows
    | some row ↦ replace_at i (replace_at j v row) t.rows
  ];
}

-- The two tests on the indices once neither is negative.
abbrev pub out_of_range : ℕ → ℕ → Table → Option TableError
out_of_range i j t = elim (get_elem? t.rows i) [
  | none ↦ some row_out_of_range
  | some row ↦ if leb (length row) j then some col_out_of_range else none
]

abbrev pub set_or_raise : Option TableError → ℕ → ℕ → Text → Table → Table × Option TableError
set_or_raise (some e) i j v t = (t, some e)
set_or_raise none i j v t = normalize_data (put_cell i j v t)

-- set_cell
unfoldable pub set_cell : ℤ → ℤ → Text → Table → Table × Option TableError
set_cell (pos i) (pos j) v t = set_or_raise (out_of_range i j t) i j v t
set_cell (pos i) (negsuc j) v t = (t, some negative_index)
set_cell (negsuc i) j v t = (t, some negative_index)

module _ (upper : Text → Text) where
  abbrev pub capitalised : Text → Text
  capitalised [] = []
  capitalised (c ∷ cs) = upper (c ∷ []) ++ cs

  -- _format_header
  abbrev pub format_header : Table → Table
  format_header t = record t { header = map capitalised t.header }

  -- The header is formatted unless the normalisation raised.
  abbrev pub formatted : Table × Option TableError → Table × Option TableError
  formatted (t, some e) = (t, some e)
  formatted (t, none) = (format_header t, none)

  -- Table.__init__, on the table with the arguments as its fields.
  unfoldable pub new_table : Table → Table × Option TableError
  new_table t = formatted (normalize_data t)

  -- update
  unfoldable pub update :
      Option (List Text) → Option (List (List Text)) → Table → Table × Option TableError
  update header rows t =
      formatted
        (normalize_data (record t { header = or_else header t.header; rows = or_else rows t.rows }))
