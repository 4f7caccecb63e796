-- ===== src/Table/Widths/Bounds.antt =====
-- src/python_tty/utils/table.py: what the columns' widths hold, and when the wrapped table fits.
use python_tty.Prelude.{
  ℕ, zero, suc, ◌+◌, ◌-◌, ◌*◌, ◌≤◌, ◌<◌, ◌≡◌, refl, sym, ap, ◌∙◌, true, Option, none, some, List,
  [], ◌∷◌, max, leb, length, ℤ, pos, negsuc, arith, All, ◌⊎◌, inl, inr, Option-cases, if-cases,
  subst, leb→le,
}
use python_tty.Table.{Text, Table, replace_at, get_elem?}
use python_tty.Table.Edits.{length-replace_at, get_elem?-lt}
use python_tty.Table.Widths.{
  zeros, widened, widened_by, compute_col_widths, all_rows, sum, sep_width, total_width, wrap_index,
  wrapped_at, wrapped_to, wrapped_within, resolve_wrap, resolve_terminal_width,
}
use python_tty.Table.Normal.{IsNormal}

module _ (get_cwidth : Text → ℕ) where
  -- A row with a cell for each width, none of them wider.
  abbrev pub RowFits : List ℕ → List Text → Type 0
  RowFits [] [] = Unit
  RowFits [] (c ∷ row) = ⊥
  RowFits (w ∷ ws) [] = ⊥
  RowFits (w ∷ ws) (c ∷ row) = (get_cwidth c ≤ w) × RowFits ws row

  zeros-length : (n : ℕ) → length (zeros n) ≡ n
  zeros-length zero = refl
  zeros-length (suc n) = omega (arith, zeros-length n)

  -- The widths hold every row that the others hold.
  abbrev pub HoldsMore : List ℕ → List ℕ → Type 0
  HoldsMore ws ws' = (row : List Text) → RowFits ws row → RowFits ws' row

  HoldsMore-cons :
      (w w' : ℕ) (ws ws' : List ℕ) → w ≤ w' → HoldsMore ws ws' → HoldsMore (w ∷ ws) (w' ∷ ws')
  HoldsMore-cons w w' ws ws' h m [] f = f
  HoldsMore-cons w w' ws ws' h m (c ∷ row) f = (omega (arith, h, f.0), m row f.1)

  -- The widened widths hold the row, and all that they held before.
  widened-RowFits :
      (ws : List ℕ) (row : List Text)
      → length row ≡ length ws
      → (ws' : List ℕ) × (widened get_cwidth ws row ≡ some ws')
        × (length ws' ≡ length ws)
        × RowFits ws' row
        × HoldsMore ws ws'
  unfolding widened
  widened-RowFits [] [] h = ([], refl, refl, tt, λ row' f. f)
  widened-RowFits [] (c ∷ row) h = absurd (omega arith)
  widened-RowFits (w ∷ ws) [] h = absurd (omega arith)
  widened-RowFits (w ∷ ws) (c ∷ row) h =
      let (ws', e, len, fits, more) = widened-RowFits ws row (omega (arith, h)) in
      (
        max w (get_cwidth c) ∷ ws',
        rw e refl,
        omega (arith, len),
        (omega arith, fits),
        HoldsMore-cons w (max w (get_cwidth c)) ws ws' (omega arith) more,
      )

  widened_by-RowFits :
      (ws : List ℕ) (rows : List (List Text))
      → All (λ row. length row ≡ length ws) rows
      → (ws' : List ℕ) × (widened_by get_cwidth ws rows ≡ some ws')
        × (length ws' ≡ length ws)
        × All (RowFits ws') rows
        × HoldsMore ws ws'
  unfolding widened_by
  widened_by-RowFits ws [] a = (ws, refl, refl, tt, λ row' f. f)
  widened_by-RowFits ws (row ∷ rows) a =
      let (ws1, e, len, fits, more) = widened-RowFits ws row a.0 in
      let (ws2, e', len', fits', more') = widened_by-RowFits ws1 rows (rw len a.1) in
      (ws2, rw (e, widened_by) e', len' ∙ len, (more' row fits, fits'), λ r f. more' r (more r f))

  -- In a normalised table the widths are computed, and no cell is wider than its column.
  pub compute_col_widths-RowFits :
      (t : Table)
      → IsNormal t
      → (ws : List ℕ) × (compute_col_widths get_cwidth (all_rows t) ≡ some ws)
        × All (RowFits ws) (all_rows t)
  unfolding compute_col_widths
  compute_col_widths-RowFits t n =
      let (ws, e, len, fits, more) = widened_by-RowFits (zeros (length t.header)) (all_rows t) (
        subst (λ k. All (λ row. length row ≡ k) (all_rows t)) (sym (zeros-length (length t.header)))
          (refl, n)) in
      (ws, e, fits)

-- Nothing wraps, or one column is narrowed to a width of at least the minimum.
abbrev pub Wraps : Table → List ℕ → List ℕ × Option ℕ → Type 0
Wraps t ws r =
    (r ≡ (ws, none))
    ⊎ ((i : ℕ) × (target : ℕ) × (r ≡ (replace_at i target ws, some i))
        × (t.wrap_min_width ≤ target)
        × (i < length ws))

wrapped_at-Wraps :
    (t : Table) (term : ℕ) (i : ℤ) (ws : List ℕ) → Wraps t ws (wrapped_at t term i ws)
wrapped_at-Wraps t term (negsuc i) ws = inl refl
wrapped_at-Wraps t term (pos i) ws = elim (Option-cases (get_elem? ws i)) [
  | inl e ↦ rw (e, wrapped_at) (inl refl)
  | inr (w, e) ↦
      let available = term - t.data_indent - sep_width t ws - (sum ws - w) in
      let target = max t.wrap_min_width available in
      rw (e, wrapped_at)
        (if-cases (Wraps t ws) (leb w target) (ws, none) (replace_at i target ws, some i)
          (λ b. inl refl) (λ b. inr (i, target, refl, omega arith, get_elem?-lt ws i e)))
]

wrapped_within-Wraps :
    (t : Table) (term : Option ℕ) (ws : List ℕ) → Wraps t ws (wrapped_within t term ws)
wrapped_within-Wraps t none ws = inl refl
wrapped_within-Wraps t (some term) ws =
    if-cases (Wraps t ws) (leb (total_width t ws) term) (ws, none)
      (wrapped_at t term (wrap_index t.wrap_col_idx ws) ws) (λ b. inl refl)
      (λ b. wrapped_at-Wraps t term (wrap_index t.wrap_col_idx ws) ws)

pub resolve_wrap-Wraps :
    (detected : Option ℕ) (t : Table) (ws : List ℕ) → Wraps t ws (resolve_wrap detected t ws)
unfolding resolve_wrap
resolve_wrap-Wraps detected t [] = inl refl
resolve_wrap-Wraps detected t (w ∷ ws) =
    if-cases (Wraps t (w ∷ ws)) t.wrap
      (wrapped_within t (resolve_terminal_width detected t) (w ∷ ws)) (w ∷ ws, none)
      (λ b. wrapped_within-Wraps t (resolve_terminal_width detected t) (w ∷ ws)) (λ b. inl refl)

sum-replace_at :
    (i w target : ℕ) (ws : List ℕ)
    → get_elem? ws i ≡ some w
    → sum (replace_at i target ws) + w ≡ sum ws + target
sum-replace_at i w target [] e = ground arith
sum-replace_at zero w target (x ∷ ws) e = ground (arith, e)
sum-replace_at (suc i) w target (x ∷ ws) e = omega (arith, sum-replace_at i w target ws e)

get_elem?-le-sum : (i w : ℕ) (ws : List ℕ) → get_elem? ws i ≡ some w → w ≤ sum ws
get_elem?-le-sum i w [] e = ground arith
get_elem?-le-sum zero w (x ∷ ws) e = ground (arith, e)
get_elem?-le-sum (suc i) w (x ∷ ws) e = omega (arith, get_elem?-le-sum i w ws e)

abbrev FitsIn : Table → ℕ → List ℕ × Option ℕ → Type 0
FitsIn t term (ws, i) = total_width t ws ≤ term

wrapped_at-total_width :
    (t : Table) (ws : List ℕ) (term i w : ℕ)
    → get_elem? ws i ≡ some w
    → total_width t ws - w + t.wrap_min_width ≤ term
    → term < total_width t ws
    → total_width t (wrapped_at t term (pos i) ws).0 ≤ term
wrapped_at-total_width t ws term i w e h big =
    let available = term - t.data_indent - sep_width t ws - (sum ws - w) in
    let target = max t.wrap_min_width available in
    let sep = ap (λ n. t.data_seq_len * (n - 1)) (length-replace_at i target ws) in
    let total = sum-replace_at i w target ws e in
    let part = get_elem?-le-sum i w ws e in
    rw (e, wrapped_at)
      (if-cases (FitsIn t term) (leb w target) (ws, none) (replace_at i target ws, some i)
        (λ b. absurd (ground (arith, leb→le w target b, part, h, big)))
        (λ b. omega (arith, sep, total, part, h, big)))

-- Where wrapping is on, the terminal's width is known, the column that wraps is one of the table's
-- and the table fits with that column at its minimum, the widths after wrapping fit the terminal.
pub resolve_wrap-total_width :
    (detected : Option ℕ) (t : Table) (ws : List ℕ) (term i w : ℕ)
    → t.wrap ≡ true
    → resolve_terminal_width detected t ≡ some term
    → wrap_index t.wrap_col_idx ws ≡ pos i
    → get_elem? ws i ≡ some w
    → total_width t ws - w + t.wrap_min_width ≤ term
    → total_width t (resolve_wrap detected t ws).0 ≤ term
unfolding resolve_wrap
resolve_wrap-total_width detected t [] term i w hw ht hi e h = ground (arith, e)
resolve_wrap-total_width detected t (x ∷ ws) term i w hw ht hi e h =
    rw (hw, ht, hi, wrapped_within, wrapped_to)
      (if-cases (FitsIn t term) (leb (total_width t (x ∷ ws)) term) (x ∷ ws, none)
        (wrapped_at t term (pos i) (x ∷ ws)) (λ b. leb→le (total_width t (x ∷ ws)) term b)
        (λ b. wrapped_at-total_width t (x ∷ ws) term i w e h (ground (arith, b))))
