-- ===== src/Table/Widths.antt =====
-- src/python_tty/utils/table.py: the columns' widths and the column that wraps. `get_cwidth` is the
-- terminal library's width of a text; `detected` is what the terminal reports, None where nothing
-- does.
pub mod Bounds
use python_tty.Prelude.{
  ℕ, zero, suc, ◌+◌, ◌-◌, ◌*◌, Option, none, some, List, [], ◌∷◌, max, if◌then◌else◌, leb, ◌==◌,
  length, ℤ, pos, negsuc,
}
use python_tty.Table.{Text, Table, replace_at, get_elem?}

abbrev pub or_detected : Option ℕ → Option ℕ → Option ℕ
or_detected (some n) detected = some n
or_detected none detected = detected

-- _resolve_terminal_width
abbrev pub resolve_terminal_width : Option ℕ → Table → Option ℕ
resolve_terminal_width detected t = or_detected t.terminal_width detected

-- _rows
abbrev pub all_rows : Table → List (List Text)
all_rows t = t.header ∷ t.rows

abbrev pub sum : List ℕ → ℕ
sum [] = 0
sum (w ∷ ws) = w + sum ws

abbrev pub largest : List ℕ → ℕ
largest [] = 0
largest (w ∷ ws) = max w (largest ws)

-- `list.index`, of a value that the list has.
abbrev pub index_of : ℕ → List ℕ → ℕ
index_of v [] = 0
index_of v (w ∷ ws) = if w == v then 0 else suc (index_of v ws)

abbrev pub zeros : ℕ → List ℕ
zeros zero = []
zeros (suc n) = 0 ∷ zeros n

abbrev pub mapped {ℓ κ} : {A : Type ℓ} {B : Type κ} → (A → B) → Option A → Option B
mapped f none = none
mapped f (some a) = some (f a)

module _ (get_cwidth : Text → ℕ) where
  -- The inner loop over one row: None is the IndexError of a row that is too short.
  unfoldable pub widened : List ℕ → List Text → Option (List ℕ)
  widened [] row = some []
  widened (w ∷ ws) [] = none
  widened (w ∷ ws) (c ∷ row) = mapped (λ rest. max w (get_cwidth c) ∷ rest) (widened ws row)

  unfoldable pub widened_by : List ℕ → List (List Text) → Option (List ℕ)
  unfolding widened
  widened_by ws [] = some ws
  widened_by ws (row ∷ rows) = elim (widened ws row) [
    | none ↦ none
    | some ws' ↦ widened_by ws' rows
  ]

  -- _compute_col_widths
  unfoldable pub compute_col_widths : List (List Text) → Option (List ℕ)
  unfolding widened_by
  compute_col_widths [] = some []
  compute_col_widths (row ∷ rows) = widened_by (zeros (length row)) (row ∷ rows)

-- `sep_width`
abbrev pub sep_width : Table → List ℕ → ℕ
sep_width t ws = t.data_seq_len * (length ws - 1)

-- `total_width`
abbrev pub total_width : Table → List ℕ → ℕ
total_width t ws = t.data_indent + sep_width t ws + sum ws

-- The column that wraps unless its index is out of range.
abbrev pub wrap_index : Option ℤ → List ℕ → ℤ
wrap_index none ws = pos (index_of (largest ws) ws)
wrap_index (some i) ws = i

-- What follows once the index is in range: `w` is the column's width and `available` what is left.
abbrev pub narrowed : ℕ → ℕ → ℕ → ℕ → List ℕ → List ℕ × Option ℕ
narrowed min_width available i w ws =
    let target = max min_width available in
    if leb w target then (ws, none) else (replace_at i target ws, some i)

abbrev pub wrapped_at : Table → ℕ → ℤ → List ℕ → List ℕ × Option ℕ
wrapped_at t term (negsuc i) ws = (ws, none)
wrapped_at t term (pos i) ws = elim (get_elem? ws i) [
  | none ↦ (ws, none)
  | some w ↦ narrowed t.wrap_min_width (term - t.data_indent - sep_width t ws - (sum ws - w)) i w ws
]

-- Past the first test, with the terminal's width known.
abbrev pub wrapped_to : Table → ℕ → List ℕ → List ℕ × Option ℕ
wrapped_to t term ws =
    if leb (total_width t ws) term
    then (ws, none)
    else wrapped_at t term (wrap_index t.wrap_col_idx ws) ws

abbrev pub wrapped_within : Table → Option ℕ → List ℕ → List ℕ × Option ℕ
wrapped_within t none ws = (ws, none)
wrapped_within t (some term) ws = wrapped_to t term ws

-- _resolve_wrap: the widths as the code leaves them and the index it returns
unfoldable pub resolve_wrap : Option ℕ → Table → List ℕ → List ℕ × Option ℕ
resolve_wrap detected t [] = ([], none)
resolve_wrap detected t (w ∷ ws) =
    if t.wrap then wrapped_within t (resolve_terminal_width detected t) (w ∷ ws) else (w ∷ ws, none)
