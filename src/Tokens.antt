-- ===== src/Tokens.antt =====
-- src/python_tty/utils/tokenize.py: the tokens of a command line. `split` is `shlex.split` with posix
-- rules, `none` being its ValueError; a result `none` is a ValueError here too.
pub mod Splitting
use python_tty.Prelude.{ℕ, String, Option, none, some, List, [], ◌∷◌, if◌then◌else◌, str_eq, ◌==◌}
use python_tty.Prelude.Texts.{strip, lstrip, rstrip, join_spaced}
use python_tty.CommandIds.{after_prefix}

-- `stripped[len(token):].lstrip()` where the line starts with the token, else the joined tokens.
abbrev pub remainder_of : Option String → List String → String
remainder_of (some rest) ts = lstrip rest
remainder_of none ts = join_spaced ts

abbrev pub head_token : List String → String
head_token [] = ""
head_token (t ∷ ts) = t

abbrev pub split_tokens : String → List String → String × String × List String
split_tokens s [] = ("", "", [])
split_tokens s (t ∷ ts) = (t, remainder_of (after_prefix t s) ts, t ∷ ts)

module _ (split : String → Option (List String)) where
  -- tokenize_cmd
  unfoldable pub tokenize_cmd : String → Option (List String)
  unfolding lstrip rstrip
  tokenize_cmd cmd = let s = strip cmd in if str_eq s "" then some [] else split s

  -- get_command_token
  unfoldable pub get_command_token : String → Option String
  unfolding tokenize_cmd
  get_command_token cmd = elim (tokenize_cmd cmd) [ none ↦ none | some ts ↦ some (head_token ts) ]

  -- The one parameter of a line: its token where it has one, else the whole line.
  abbrev pub one_param : String → Option (List String) → Option (List String)
  one_param s none = none
  one_param s (some (t ∷ [])) = some (t ∷ [])
  one_param s (some _) = some (s ∷ [])

  -- get_func_param_strs, None being an inner `none`; a count is not negative
  unfoldable pub get_func_param_strs : String → ℕ → Option (Option (List String))
  unfolding tokenize_cmd
  get_func_param_strs cmd n =
      let s = strip cmd in
      if n == 0
      then some none
      else if str_eq s ""
      then some (some [])
      else elim (if n == 1 then one_param s (tokenize_cmd s) else tokenize_cmd s) [
        | none ↦ none
        | some ts ↦ some (some ts)
      ]

  -- split_cmd
  unfoldable pub split_cmd : String → Option (String × String × List String)
  unfolding tokenize_cmd lstrip after_prefix join_spaced
  split_cmd cmd =
      let s = lstrip cmd in
      if str_eq s ""
      then some ("", "", [])
      else elim (tokenize_cmd s) [ none ↦ none | some ts ↦ some (split_tokens s ts) ]
