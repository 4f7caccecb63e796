-- ===== src/Prelude/Texts.antt =====
-- Python's texts: their order by code points, and `strip`, `lstrip`, `join` and `startswith`.
use Prim.Native.Char.{code}
use Prim.Native.Nat.{ℕ}
use Prim.Native.String.{String, ◌++◌ as append}
use Prim.Native.String.append
use mathlib.Core.Bool.{Bool, true, false, ◌&&◌, ◌||◌}
use mathlib.Core.List.{List, [], ◌∷◌}
use mathlib.Core.Path.{◌≡◌, refl, ap, ap₂}
use mathlib.Core.Logic.{inl, inr}
use native.Mathlib.Omega.{arith}
use python_tty.Prelude.Sorting.{IsOrder}
use python_tty.Prelude.Tests.{if◌then◌else◌, ◌==◌, ltb, leb, Bool-cases}
use text.Mathlib.TextEquality.{Char-path}

-- `a <= b` on texts
unfoldable pub text_le : String → String → Bool
text_le String.[] t = true
text_le (String.◌∷◌ c s) String.[] = false
text_le (String.◌∷◌ c s) (String.◌∷◌ d t) =
    if code c == code d then text_le s t else ltb (code c) (code d)

text_le-total : (s t : String) → text_le s t ≡ false → text_le t s ≡ true
unfolding text_le
text_le-total String.[] t h = absurd (ground arith)
text_le-total (String.◌∷◌ c s) String.[] h = refl
text_le-total (String.◌∷◌ c s) (String.◌∷◌ d t) h = ground (arith, text_le-total s t)

text_le_trans : (s t u : String) → text_le s t ≡ true → text_le t u ≡ true → text_le s u ≡ true
unfolding text_le
text_le_trans String.[] t u h k = refl
text_le_trans (String.◌∷◌ c s) String.[] u h k = absurd (ground arith)
text_le_trans (String.◌∷◌ c s) (String.◌∷◌ d t) String.[] h k = absurd (ground arith)
text_le_trans (String.◌∷◌ c s) (String.◌∷◌ d t) (String.◌∷◌ e u) h k =
    ground (arith, text_le_trans s t u)

pub text_le_antisymm : (s t : String) → text_le s t ≡ true → text_le t s ≡ true → s ≡ t
unfolding text_le
text_le_antisymm String.[] String.[] h k = refl
text_le_antisymm String.[] (String.◌∷◌ d t) h k = absurd (ground arith)
text_le_antisymm (String.◌∷◌ c s) String.[] h k = absurd (ground arith)
text_le_antisymm (String.◌∷◌ c s) (String.◌∷◌ d t) h k =
    ap₂ String.◌∷◌ (Char-path c d (ground arith))
      (text_le_antisymm s t (ground arith) (ground arith))

pub text_le-IsOrder : IsOrder text_le
text_le-IsOrder = record { total = text_le-total; trans = text_le_trans }

-- The order of a key.
pub key-IsOrder {ℓ} : {A : Type ℓ} (key : A → String) → IsOrder (λ a b. text_le (key a) (key b))
key-IsOrder key = record {
  total = λ a b. text_le-total (key a) (key b);
  trans = λ a b c. text_le_trans (key a) (key b) (key c);
}

-- Whether `str.isspace` holds of a character.
unfoldable pub is_space : ℕ → Bool
is_space c =
    (leb 9 c && leb c 13)
    || (leb 28 c && leb c 32)
    || c == 133
    || c == 160
    || c == 5760
    || (leb 8192 c && leb c 8202)
    || c == 8232
    || c == 8233
    || c == 8239
    || c == 8287
    || c == 12288

-- lstrip
unfoldable pub lstrip : String → String
lstrip String.[] = ""
lstrip (String.◌∷◌ c s) = if is_space (code c) then lstrip s else String.◌∷◌ c s

-- A text of whitespace.
unfoldable pub is_blank : String → Bool
is_blank String.[] = true
is_blank (String.◌∷◌ c s) = is_space (code c) && is_blank s

-- rstrip
unfoldable pub rstrip : String → String
unfolding is_blank
rstrip String.[] = ""
rstrip (String.◌∷◌ c s) =
    let rest = rstrip s in if is_space (code c) && is_blank s then "" else String.◌∷◌ c rest

-- strip
abbrev pub strip : String → String
strip s = rstrip (lstrip s)

-- `" ".join(texts)`
unfoldable pub join_spaced : List String → String
join_spaced [] = ""
join_spaced (s ∷ []) = s
join_spaced (s ∷ t ∷ ts) = append s (append " " (join_spaced (t ∷ ts)))

-- What `lstrip` takes off.
unfoldable pub leading : String → String
leading String.[] = ""
leading (String.◌∷◌ c s) = if is_space (code c) then String.◌∷◌ c (leading s) else ""

pub leading-lstrip : (s : String) → append (leading s) (lstrip s) ≡ s
unfolding leading lstrip
leading-lstrip String.[] = append.nil ""
leading-lstrip (String.◌∷◌ c s) = elim (Bool-cases (is_space (code c))) [
  | inl e ↦ rw (e, append.cons c (leading s) (lstrip s)) (ap (String.◌∷◌ c) (leading-lstrip s))
  | inr e ↦ rw (e, append.nil (String.◌∷◌ c s)) refl
]

pub leading-blank : (s : String) → is_blank (leading s) ≡ true
unfolding leading is_blank
leading-blank String.[] = refl
leading-blank (String.◌∷◌ c s) = elim (Bool-cases (is_space (code c))) [
  | inl e ↦ rw (e, is_blank) (rw e (leading-blank s))
  | inr e ↦ rw (e, is_blank) refl
]

pub lstrip-lstrip : (s : String) → lstrip (lstrip s) ≡ lstrip s
unfolding lstrip
lstrip-lstrip String.[] = refl
lstrip-lstrip (String.◌∷◌ c s) = ground (arith, lstrip-lstrip s)

pub text_le_refl : (s : String) → text_le s s ≡ true
unfolding text_le
text_le_refl String.[] = refl
text_le_refl (String.◌∷◌ c s) = ground (arith, text_le_refl s)
