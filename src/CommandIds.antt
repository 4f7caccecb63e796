-- ===== src/CommandIds.antt =====
-- Command identifiers "cmd:<console>:<command>": `_build_command_id` (executor/execution.py,
-- session/manager.py, frontends/rpc/core.py) and `_parse_command_id` (session/manager.py), all under
-- src/python_tty.
use Prim.Native.Char.{code}
use Prim.Native.String.append
use python_tty.Prelude.{
  ◌≡◌, refl, String, Bool, true, false, Option, none, some, append, if◌then◌else◌, str_eq, ◌==◌,
  arith,
}

-- _build_command_id
unfoldable pub build_command_id : String → String → String
build_command_id console command = append "cmd:" (append console (append ":" command))

-- The text before the first colon and the text after it.
unfoldable pub split_at_colon : String → Option (String × String)
split_at_colon String.[] = none
split_at_colon (String.◌∷◌ c s) =
    let rest = split_at_colon s in
    if code c == b':'
    then some ("", s)
    else elim rest [ none ↦ none | some (a, b) ↦ some (String.◌∷◌ c a, b) ]

-- The rest of a text that starts with the prefix.
unfoldable pub after_prefix : String → String → Option String
after_prefix String.[] s = some s
after_prefix (String.◌∷◌ c p) String.[] = none
after_prefix (String.◌∷◌ c p) (String.◌∷◌ d s) = if code c == code d then after_prefix p s else none

-- `x or None`
abbrev pub nonempty : String → Option String
nonempty s = if str_eq s "" then none else some s

abbrev pub named_parts : Option (String × String) → Option String × Option String
named_parts none = (none, none)
named_parts (some (a, b)) = (nonempty a, nonempty b)

abbrev pub after_cmd : Option String → Option String × Option String
after_cmd none = (none, none)
after_cmd (some rest) = named_parts (split_at_colon rest)

-- _parse_command_id: the console's and the command's name
unfoldable pub parse_command_id : String → Option String × Option String
unfolding split_at_colon
parse_command_id command_id = after_cmd (after_prefix "cmd:" command_id)

-- A text without a colon.
abbrev pub has_no_colon : String → Bool
has_no_colon String.[] = true
has_no_colon (String.◌∷◌ c s) = if code c == b':' then false else has_no_colon s

colon-append : (b : String) → split_at_colon (append ":" b) ≡ some ("", b)
unfolding split_at_colon
colon-append b = rw (append.cons ":" "" b, append.nil b) refl

split_at_colon-append :
    (a b : String) → has_no_colon a ≡ true → split_at_colon (append a (append ":" b)) ≡ some (a, b)
unfolding split_at_colon
split_at_colon-append String.[] b h = rw (append.nil (append ":" b)) (colon-append b)
split_at_colon-append (String.◌∷◌ c s) b h =
    rw (append.cons c s (append ":" b)) (ground (arith, split_at_colon-append s b))

after_prefix-append : (s : String) → after_prefix "cmd:" (append "cmd:" s) ≡ some s
unfolding after_prefix
after_prefix-append s =
    rw
      (
        append.cons "c" "md:" s,
        append.cons "m" "d:" s,
        append.cons "d" ":" s,
        append.cons ":" "" s,
        append.nil s,
      )
      refl

-- The identifier that is built for a command is parsed back into the console and the command, where
-- the console's name has no colon and neither name is empty; the command's may have colons.
pub parse-build_command_id :
    (console command : String)
    → has_no_colon console ≡ true
    → str_eq console "" ≡ false
    → str_eq command "" ≡ false
    → parse_command_id (build_command_id console command) ≡ (some console, some command)
unfolding parse_command_id build_command_id
parse-build_command_id console command h a b =
    rw
      (
        after_prefix-append (append console (append ":" command)),
        split_at_colon-append console command h,
        a,
        b,
      )
      refl
