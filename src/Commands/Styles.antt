-- ===== src/Commands/Styles.antt =====
-- src/python_tty/commands/registry.py, decorators.py and mixins.py: the styles of names, the checks of what
-- a command is declared with, and the help. `lower` and `upper` are Python's functions on texts.
use Prim.Native.Char.{code}
use python_tty.Prelude.{
  ℕ, ◌≡◌, refl, ◌∙◌, String, Bool, true, false, not, ◌&&◌, ◌||◌, if◌then◌else◌, leb, ◌==◌, arith,
}

pub data CommandStyle : Type 0 where
  plain lowercase uppercase powershell slugified : CommandStyle

abbrev pub is_upper : ℕ → Bool
is_upper c = leb b'A' c && leb c b'Z'

abbrev pub is_lower : ℕ → Bool
is_lower c = leb b'a' c && leb c b'z'

abbrev pub is_digit : ℕ → Bool
is_digit c = leb b'0' c && leb c b'9'

-- The characters of a text from which the one before is matched: an upper-case letter and a lower-case
-- one at its head.
abbrev pub starts_word : ℕ → ℕ → ℕ → Bool
starts_word c u l = not (c == 10) && (is_upper u && is_lower l)

-- `re.sub(r'(.)([A-Z][a-z]+)', r'\1-\2', name)`; `copying` is whether the letters of a match go on.
unfoldable pub hyphenate_words : Bool → String → String
hyphenate_words copying String.[] = ""
hyphenate_words copying (String.◌∷◌ c String.[]) = String.◌∷◌ c ""
hyphenate_words copying (String.◌∷◌ c (String.◌∷◌ u String.[])) = String.◌∷◌ c (String.◌∷◌ u "")
hyphenate_words copying (String.◌∷◌ c (String.◌∷◌ u (String.◌∷◌ l s))) =
    let in_word = hyphenate_words true (String.◌∷◌ u (String.◌∷◌ l s)) in
    let matched = hyphenate_words true s in
    let other = hyphenate_words false (String.◌∷◌ u (String.◌∷◌ l s)) in
    if copying && is_lower (code c)
    then String.◌∷◌ c in_word
    else if starts_word (code c) (code u) (code l)
    then String.◌∷◌ c (String.◌∷◌ "-" (String.◌∷◌ u (String.◌∷◌ l matched)))
    else String.◌∷◌ c other

-- `re.sub(r'([a-z0-9])([A-Z])', r'\1-\2', name)`
unfoldable pub hyphenate_capitals : String → String
hyphenate_capitals String.[] = ""
hyphenate_capitals (String.◌∷◌ c String.[]) = String.◌∷◌ c ""
hyphenate_capitals (String.◌∷◌ c (String.◌∷◌ u s)) =
    let matched = hyphenate_capitals s in
    let other = hyphenate_capitals (String.◌∷◌ u s) in
    if (is_lower (code c) || is_digit (code c)) && is_upper (code u)
    then String.◌∷◌ c (String.◌∷◌ "-" (String.◌∷◌ u matched))
    else String.◌∷◌ c other

-- A text less its hyphens.
unfoldable pub letters : String → String
letters String.[] = ""
letters (String.◌∷◌ c s) =
    let rest = letters s in if code c == b'-' then rest else String.◌∷◌ c rest

letters-hyphenate_capitals : (s : String) → letters (hyphenate_capitals s) ≡ letters s
unfolding letters hyphenate_capitals
letters-hyphenate_capitals String.[] = refl
letters-hyphenate_capitals (String.◌∷◌ c String.[]) = refl
letters-hyphenate_capitals (String.◌∷◌ c (String.◌∷◌ u s)) =
    ground (arith, letters-hyphenate_capitals s, letters-hyphenate_capitals (String.◌∷◌ u s))

letters-hyphenate_words : (b : Bool) (s : String) → letters (hyphenate_words b s) ≡ letters s
unfolding letters hyphenate_words
letters-hyphenate_words b String.[] = refl
letters-hyphenate_words b (String.◌∷◌ c String.[]) = refl
letters-hyphenate_words b (String.◌∷◌ c (String.◌∷◌ u String.[])) = refl
letters-hyphenate_words b (String.◌∷◌ c (String.◌∷◌ u (String.◌∷◌ l s))) = ground (
  arith,
  letters-hyphenate_words true s,
  letters-hyphenate_words true (String.◌∷◌ u (String.◌∷◌ l s)),
  letters-hyphenate_words false (String.◌∷◌ u (String.◌∷◌ l s)),
)

module _ (lower upper : String → String) where
  -- define_command_style
  unfoldable pub define_command_style : String → CommandStyle → String
  unfolding hyphenate_words hyphenate_capitals
  define_command_style name plain = name
  define_command_style name lowercase = lower name
  define_command_style name uppercase = upper name
  define_command_style name powershell = hyphenate_capitals (hyphenate_words false name)
  define_command_style name slugified = lower (hyphenate_capitals (hyphenate_words false name))

  -- The style of PowerShell inserts hyphens and changes nothing else.
  letters-define_command_style :
      (name : String) → letters (define_command_style name powershell) ≡ letters name
  unfolding define_command_style
  letters-define_command_style name =
      letters-hyphenate_capitals (hyphenate_words false name) ∙ letters-hyphenate_words false name
