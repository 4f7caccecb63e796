-- ===== src/Tokens/Splitting.antt =====
-- src/python_tty/utils/tokenize.py: what `split_cmd` takes off a line, and what it leaves.
use Prim.Native.Char.{code}
use Prim.Native.String.append
use python_tty.Prelude.{
  ◌≡◌, refl, ap, subst, ◌∙◌, String, true, Option, none, some, List, [], ◌∷◌, str_eq, eq_iff,
  append, arith, Option-cases, inl, inr, ◌==◌, ==_iff, Bool-cases, ◌⊎◌,
}
use python_tty.Prelude.Texts.{
  lstrip, rstrip, join_spaced, leading, is_blank, leading-lstrip, leading-blank, lstrip-lstrip,
}
use python_tty.CommandIds.{after_prefix}
use python_tty.Tokens.{tokenize_cmd, split_cmd, split_tokens, remainder_of}
use text.Mathlib.TextEquality.{Char-path}

after_prefix-append : (p s r : String) → after_prefix p s ≡ some r → append p r ≡ s
unfolding after_prefix
after_prefix-append String.[] s r h = append.nil r ∙ ground arith
after_prefix-append (String.◌∷◌ c p) String.[] r h = absurd (ground arith)
after_prefix-append (String.◌∷◌ c p) (String.◌∷◌ d s) r h = elim (Bool-cases (code c == code d)) [
  | inl e ↦
      let k : after_prefix p s ≡ some r = ground (arith, h, e) in
      append.cons c p r
      ∙ ap (String.◌∷◌ c) (after_prefix-append p s r k)
      ∙ ap (λ x. String.◌∷◌ x s) (Char-path c d ((==_iff (code c) (code d)).0 e))
  | inr e ↦ absurd (ground (arith, h, e))
]

-- What is left of a line after its token: where the line begins with the token, it is space, the
-- token, space and the remainder, which begins with none; otherwise the remainder is the other tokens, joined by spaces.
abbrev pub IsRemainder : String → String → String → List String → Type 0
IsRemainder cmd token rest ts =
    ((space : String) × (is_blank space ≡ true)
      × (lstrip rest ≡ rest)
      × (append (leading cmd) (append token (append space rest)) ≡ cmd))
    ⊎ ((after_prefix token (lstrip cmd) ≡ none) × (rest ≡ join_spaced ts))

remainder_of-IsRemainder :
    (cmd token : String) (ts : List String)
    → IsRemainder cmd token (remainder_of (after_prefix token (lstrip cmd)) ts) ts
remainder_of-IsRemainder cmd token ts = elim (Option-cases (after_prefix token (lstrip cmd))) [
  | inl e ↦ rw e (inr (refl, refl))
  | inr (r, e) ↦ rw e (
      inl (
        leading r,
        leading-blank r,
        lstrip-lstrip r,
        ap (λ x. append (leading cmd) (append token x)) (leading-lstrip r)
            ∙ ap (append (leading cmd)) (after_prefix-append token (lstrip cmd) r e)
            ∙ leading-lstrip cmd,
      ))
]

tokenize_cmd-empty : (split : String → Option (List String)) → tokenize_cmd split "" ≡ some []
unfolding tokenize_cmd lstrip rstrip
tokenize_cmd-empty split = refl

module _ (split : String → Option (List String)) (cmd : String) where
  -- The parts of a line: none where the line has no tokens, or a token with the tokens of the line and
  -- the remainder.
  abbrev pub IsSplit : String × String × List String → Type 0
  IsSplit (token, rest, tokens) =
      ((tokenize_cmd split (lstrip cmd) ≡ some []) × (token ≡ "") × (rest ≡ "") × (tokens ≡ []))
      ⊎ ((ts : List String) × (tokens ≡ token ∷ ts)
          × (tokenize_cmd split (lstrip cmd) ≡ some (token ∷ ts))
          × IsRemainder cmd token rest ts)

  split_tokens-IsSplit :
      (ts : List String)
      → tokenize_cmd split (lstrip cmd) ≡ some ts
      → IsSplit (split_tokens (lstrip cmd) ts)
  split_tokens-IsSplit [] h = inl (h, refl, refl, refl)
  split_tokens-IsSplit (t ∷ ts) h = inr (ts, refl, h, remainder_of-IsRemainder cmd t ts)

  -- A line that splits either has no tokens, without the space before it, and neither token nor
  -- remainder is given; or its tokens are those of the line without the space before it, the first is given as the token, and where
  -- the line begins with that text the remainder is what follows it and all the space after it,
  -- otherwise it is the other tokens joined by spaces.
  pub split_cmd-IsSplit :
      (parts : String × String × List String) → split_cmd split cmd ≡ some parts → IsSplit parts
  unfolding split_cmd
  split_cmd-IsSplit parts h = elim (Bool-cases (str_eq (lstrip cmd) "")) [
    | inl e ↦ subst IsSplit (ground (arith, h, e)) (
        inl (
          ap (tokenize_cmd split) ((eq_iff (lstrip cmd) "").0 e) ∙ tokenize_cmd-empty split,
          refl,
          refl,
          refl,
        ))
    | inr e ↦ elim (Option-cases (tokenize_cmd split (lstrip cmd))) [
      | inl f ↦ absurd (ground (arith, h, e, f))
      | inr (ts, f) ↦ subst IsSplit (ground (arith, h, e, f)) (split_tokens-IsSplit ts f)
    ]
  ]
