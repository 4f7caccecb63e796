-- ===== src/Table/Wrapping.antt =====
-- src/python_tty/utils/table.py: how a cell is broken into lines, `_wrap_segment` and `_wrap_cell`.
use mathlib.Core.List.{append_assoc, append-nil}
use python_tty.Prelude.{
  ℕ, ◌+◌, ◌≤◌, ◌≡◌, refl, Bool, true, false, List, [], ◌∷◌, ◌++◌, if◌then◌else◌, ltb, leb, ◌==◌,
  length, arith, All, ◌⊎◌, inl, inr, if-cases, subst, All-append, All-append,
}
use python_tty.Table.{Text, newline}

abbrev pub is_empty {ℓ} : {A : Type ℓ} → List A → Bool
is_empty [] = true
is_empty (x ∷ xs) = false

-- `text.split("\n")`: the first part and the others.
unfoldable pub split_lines : Text → Text × List Text
split_lines [] = ([], [])
split_lines (c ∷ cs) =
    let rest = split_lines cs in
    if c == newline then ([], rest.0 ∷ rest.1) else (c ∷ rest.0, rest.1)

module _ (get_cwidth : Text → ℕ) (width : ℕ) where
  -- The loop of `_wrap_segment` from `current`, its width and the characters left; the lines that it
  -- appends, with the last one.
  unfoldable pub wrap_from : Text → ℕ → Text → List Text
  wrap_from current current_width [] = current ∷ []
  wrap_from [] current_width (ch ∷ text) =
      wrap_from (ch ∷ []) (current_width + get_cwidth (ch ∷ [])) text
  wrap_from (c ∷ current) current_width (ch ∷ text) =
      let ch_width = get_cwidth (ch ∷ []) in
      let broken = wrap_from (ch ∷ []) ch_width text in
      let joined = wrap_from (c ∷ current ++ ch ∷ []) (current_width + ch_width) text in
      if ltb width (current_width + ch_width) then (c ∷ current) ∷ broken else joined

  -- _wrap_segment
  unfoldable pub wrap_segment : Text → List Text
  unfolding wrap_from
  wrap_segment text = wrap_from [] 0 text

  -- The loop of `_wrap_cell`, an empty line after each part but the last.
  unfoldable pub wrap_parts : Text → List Text → List Text
  unfolding wrap_segment
  wrap_parts part [] = wrap_segment part
  wrap_parts part (p ∷ parts) = wrap_segment part ++ [] ∷ wrap_parts p parts

  -- _wrap_cell
  unfoldable pub wrap_cell : Text → List Text
  unfolding wrap_parts split_lines
  wrap_cell text =
      if leb width 0 then text ∷ [] else wrap_parts (split_lines text).0 (split_lines text).1

-- The lines one after another.
abbrev pub concat : List Text → Text
concat [] = []
concat (l ∷ ls) = l ++ concat ls

concat-append : (xs ys : List Text) → concat (xs ++ ys) ≡ concat xs ++ concat ys
concat-append [] ys = refl
concat-append (x ∷ xs) ys = simp (concat-append xs ys, append_assoc)

-- What the terminal library says of the width of a text: the sum over its characters.
pub record IsWidth (get_cwidth : Text → ℕ) : Type 0 where
  pub width-nil : get_cwidth [] ≡ 0
  pub width-append : (s t : Text) → get_cwidth (s ++ t) ≡ get_cwidth s + get_cwidth t

module _ (get_cwidth : Text → ℕ) (width : ℕ) where
  -- A line that fits, or one character.
  abbrev pub FitsOrOne : Text → Type 0
  FitsOrOne line = (get_cwidth line ≤ width) ⊎ (length line ≡ 1)

  wrap_from-concat :
      (current : Text) (w : ℕ) (text : Text)
      → concat (wrap_from get_cwidth width current w text) ≡ current ++ text
  unfolding wrap_from
  wrap_from-concat current w [] = rw (append-nil current) refl
  wrap_from-concat [] w (ch ∷ text) = wrap_from-concat (ch ∷ []) (w + get_cwidth (ch ∷ [])) text
  wrap_from-concat (c ∷ current) w (ch ∷ text) = ground (
    arith,
    wrap_from-concat (ch ∷ []) (get_cwidth (ch ∷ [])) text,
    wrap_from-concat (c ∷ current ++ ch ∷ []) (w + get_cwidth (ch ∷ [])) text,
    append_assoc current (ch ∷ []) text,
  )

  module _ (law : IsWidth get_cwidth) where
    wrap_from-fits :
        (current : Text) (text : Text)
        → FitsOrOne current
        → All FitsOrOne (wrap_from get_cwidth width current (get_cwidth current) text)
    unfolding wrap_from
    wrap_from-fits current [] f = (f, tt)
    wrap_from-fits [] (ch ∷ text) f =
        subst (λ w. All FitsOrOne (wrap_from get_cwidth width (ch ∷ []) w text))
          (omega (arith, law.width-nil)) (wrap_from-fits (ch ∷ []) text (inr refl))
    wrap_from-fits (c ∷ current) (ch ∷ text) f =
        if-cases (All FitsOrOne) (ltb width (get_cwidth (c ∷ current) + get_cwidth (ch ∷ [])))
          ((c ∷ current) ∷ wrap_from get_cwidth width (ch ∷ []) (get_cwidth (ch ∷ [])) text)
          (wrap_from get_cwidth width (c ∷ current ++ ch ∷ [])
            (get_cwidth (c ∷ current) + get_cwidth (ch ∷ [])) text)
          (λ e. (f, wrap_from-fits (ch ∷ []) text (inr refl)))
          (λ e.
            subst (λ w. All FitsOrOne (wrap_from get_cwidth width (c ∷ current ++ ch ∷ []) w text))
              (law.width-append (c ∷ current) (ch ∷ []))
              (wrap_from-fits (c ∷ current ++ ch ∷ []) text
                (inl (ground (arith, law.width-append (c ∷ current) (ch ∷ []), e)))))

    -- Breaking a text loses and adds nothing, and every line is within the width or is one
    -- character, where the width of a text is the sum over its characters.
    pub wrap_segment-lines :
        (text : Text)
        → (concat (wrap_segment get_cwidth width text) ≡ text)
          × All FitsOrOne (wrap_segment get_cwidth width text)
    unfolding wrap_segment
    wrap_segment-lines text = (
      wrap_from-concat [] 0 text,
      subst (λ w. All FitsOrOne (wrap_from get_cwidth width [] w text)) law.width-nil
          (wrap_from-fits [] text (inl (omega (arith, law.width-nil)))),
    )

  -- Every character fits in a line.
  abbrev pub CharsFit : Type 0
  CharsFit = (c : ℕ) → get_cwidth (c ∷ []) ≤ width

  FitsOrOne-le : CharsFit → (line : Text) → FitsOrOne line → get_cwidth line ≤ width
  FitsOrOne-le chars line (inl h) = h
  FitsOrOne-le chars [] (inr h) = absurd (omega arith)
  FitsOrOne-le chars (c ∷ []) (inr h) = chars c
  FitsOrOne-le chars (c ∷ d ∷ cs) (inr h) = absurd (omega arith)

  FitsOrOne-All :
      CharsFit → (lines : List Text) → All FitsOrOne lines → All (λ l. get_cwidth l ≤ width) lines
  FitsOrOne-All chars [] a = tt
  FitsOrOne-All chars (l ∷ ls) a = (FitsOrOne-le chars l a.0, FitsOrOne-All chars ls a.1)

  module _ (law : IsWidth get_cwidth) (chars : CharsFit) where
    wrap_parts-fits :
        (part : Text) (parts : List Text)
        → All (λ l. get_cwidth l ≤ width) (wrap_parts get_cwidth width part parts)
    unfolding wrap_parts
    wrap_parts-fits part [] =
        FitsOrOne-All chars (wrap_segment get_cwidth width part) (wrap_segment-lines law part).1
    wrap_parts-fits part (p ∷ parts) =
        All-append (λ l. get_cwidth l ≤ width) (wrap_segment get_cwidth width part)
          ([] ∷ wrap_parts get_cwidth width p parts)
          (FitsOrOne-All chars (wrap_segment get_cwidth width part) (wrap_segment-lines law part).1)
          (omega (arith, law.width-nil), wrap_parts-fits p parts)

    -- Every line of a wrapped cell is within a positive width that holds every character.
    pub wrap_cell-fits :
        (text : Text)
        → 1 ≤ width
        → All (λ l. get_cwidth l ≤ width) (wrap_cell get_cwidth width text)
    unfolding wrap_cell
    wrap_cell-fits text h =
        if-cases (All (λ l. get_cwidth l ≤ width)) (leb width 0) (text ∷ [])
          (wrap_parts get_cwidth width (split_lines text).0 (split_lines text).1)
          (λ e. ground (arith, e, h))
          (λ e. wrap_parts-fits (split_lines text).0 (split_lines text).1)
