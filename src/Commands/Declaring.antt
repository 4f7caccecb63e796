-- ===== src/Commands/Declaring.antt =====
-- src/python_tty/commands/registry.py, decorators.py, core.py and general.py: how commands are declared
-- and collected, and what is asked of a command's text. A class is known by its name, `members` are the
-- functions of a class that carry command information, in the order of `dir`, and `parse` is the
-- shell-like splitting, None where it raises ValueError.
use python_tty.Prelude.{
  ℕ, ◌≡◌, refl, String, Bool, true, false, not, Option, none, some, List, [], ◌∷◌, ◌++◌,
  if◌then◌else◌, ltb, leb, or_else, str_eq, length, arith, Option-cases, inl, inr,
}
use python_tty.Prelude.Dict.{Dict, get, put, get-put_self}
use python_tty.Models.{exception, str_of_exception, Outcome, returned, raised}
use python_tty.Commands.{ArgSpec, CommandDef, validate_count}

-- What `command_alias` may be given as: None, a text, a list, or anything else.
pub data Alias : Type 0 where
  no_alias other_alias : Alias
  one_alias : String → Alias
  aliases : List String → Alias

-- CommandInfo.__init__, the alias
abbrev pub alias_list : Alias → List String
alias_list no_alias = []
alias_list other_alias = []
alias_list (one_alias a) = a ∷ []
alias_list (aliases names) = names

pub record CommandRegistry (Fn : Type 0) : Type 0 where
  pub console_command_classes : Dict String
  pub commands_defs : Dict (List (CommandDef Fn))
  pub console_defs : Dict (List (CommandDef Fn))

-- A class that the decorator `commands` may target: its name, whether it is a console class, and the
-- commands class that it is bound to.
pub record Target : Type 0 where
  pub name : String
  pub is_console : Bool
  pub commands_cls : Option String

-- What a custom validator of a command answers.
pub data Validation : Type 0 where
  valid : Validation
  validation_error : String → Validation

abbrev pub is_bound_elsewhere : Option String → String → Bool
is_bound_elsewhere none commands = false
is_bound_elsewhere (some c) commands = not (str_eq c commands)

module _ {Fn : Type 0} where
  -- register_console_commands
  unfoldable pub register_console_commands :
      String → String → CommandRegistry Fn → CommandRegistry Fn
  unfolding put
  register_console_commands console commands r = record r {
    console_command_classes = put console commands r.console_command_classes;
  }

  -- get_commands_cls
  abbrev pub get_commands_cls : String → CommandRegistry Fn → Option String
  get_commands_cls console r = get console r.console_command_classes

  -- The decorator `commands`, on a class of commands: the class that it returns
  unfoldable pub bind_commands :
      String → Target → CommandRegistry Fn → CommandRegistry Fn × Outcome Target
  unfolding register_console_commands
  bind_commands commands t r =
      if not t.is_console
      then (r, raised (exception "commands decorator must target a Console class"))
      else if is_bound_elsewhere t.commands_cls commands
      then (r, raised (exception "already binds to another class"))
      else (
        register_console_commands t.name commands r,
        returned (record t { commands_cls = some commands }),
      )

  abbrev pub appended :
      Option String → CommandDef Fn → Dict (List (CommandDef Fn)) → Dict (List (CommandDef Fn))
  appended none d m = m
  appended (some c) d m = put c (or_else (get c m) [] ++ d ∷ []) m

  -- register, of a definition that its checks let through
  unfoldable pub register :
      CommandDef Fn → Option String → Option String → CommandRegistry Fn → CommandRegistry Fn
  unfolding put get
  register d console commands r = record r {
    commands_defs = appended commands d r.commands_defs;
    console_defs = appended console d r.console_defs;
  }

  module _ (members : String → List (CommandDef Fn)) where
    abbrev pub collect_members :
        Option (List (CommandDef Fn))
        → String
        → CommandRegistry Fn
        → CommandRegistry Fn × List (CommandDef Fn)
    collect_members (some defs) c r = (r, defs)
    collect_members none c r =
        (record r { commands_defs = put c (members c) r.commands_defs }, members c)

    -- collect_from_commands_cls
    unfoldable pub collect_from_commands_cls :
        String → CommandRegistry Fn → CommandRegistry Fn × List (CommandDef Fn)
    unfolding put
    collect_from_commands_cls c r = collect_members (get c r.commands_defs) c r

    abbrev pub collect_bound :
        Option String → CommandRegistry Fn → CommandRegistry Fn × List (CommandDef Fn)
    collect_bound none r = (r, [])
    collect_bound (some c) r = collect_from_commands_cls c r

    -- get_command_defs_for_console
    unfoldable pub get_command_defs_for_console :
        String → CommandRegistry Fn → CommandRegistry Fn × List (CommandDef Fn)
    unfolding collect_from_commands_cls
    get_command_defs_for_console console r =
        let (r', defs) = collect_bound (get_commands_cls console r) r in
        (r', defs ++ or_else (get console r'.console_defs) [])

    -- BaseCommands._init_funcs, the definitions of a commands object of the class `own`
    unfoldable pub init_funcs :
        String → String → CommandRegistry Fn → CommandRegistry Fn × List (CommandDef Fn)
    unfolding get_command_defs_for_console
    init_funcs own console r =
        let (r', defs) = get_command_defs_for_console console r in
        elim defs [ [] ↦ collect_from_commands_cls own r' | d ∷ ds ↦ (r', d ∷ ds) ]

    -- What is collected of a class once is what every later collection gives, without a change.
    pub collect-twice :
        (c : String) (r : CommandRegistry Fn)
        → collect_from_commands_cls c (collect_from_commands_cls c r).0
          ≡ collect_from_commands_cls c r
    unfolding collect_from_commands_cls
    collect-twice c r = elim (Option-cases (get c r.commands_defs)) [
      | inl e ↦ rw (e, get-put_self c (members c) r.commands_defs) refl
      | inr (defs, e) ↦ rw (e, e) refl
    ]

-- _allow_complete_for_spec, for a text that does or does not end in a space
unfoldable pub allow_complete_for_spec : ArgSpec → Bool → ℕ → Bool
allow_complete_for_spec a spaced n = elim a.max_args [
  | none ↦ true
  | some m ↦ if spaced then ltb n m else leb n m
]

abbrev pub validate_parsed :
    (List String → Validation) → ArgSpec → Option (List String) → Validation
validate_parsed custom a none = validation_error "Invalid command arguments"
validate_parsed custom a (some args) = elim (validate_count a (length args)) [
  | raised e ↦ validation_error (str_of_exception e)
  | returned _ ↦ custom args
]

module _ (parse : String → Option (List String)) where
  -- GeneralValidator.validate
  unfoldable pub validate : (List String → Validation) → ArgSpec → String → Validation
  unfolding validate_count
  validate custom a text = validate_parsed custom a (parse text)

  -- The candidates that a completer asks for: none where the text does not parse or has its arguments.
  unfoldable pub get_completions :
      (List String → List String) → ArgSpec → Bool → String → List String
  unfolding allow_complete_for_spec
  get_completions candidates a spaced text = elim (parse text) [
    | none ↦ []
    | some args ↦ if allow_complete_for_spec a spaced (length args) then candidates args else []
  ]

-- CommandValidator.validate, for the splitting of the line into a command's token and the rest
unfoldable pub validate_command :
    (String → Option (String × String)) → Dict (String → Validation) → Bool → String → Validation
unfolding get
validate_command split validators enable_undefined text = elim (split text) [
  | none ↦ valid
  | some (token, rest) ↦ elim (get token validators) [
    | some v ↦ v rest
    | none ↦ if enable_undefined then valid else validation_error "Bad command"
  ]
]

-- Where completion is refused to a text whose last argument is being typed, and the arguments are
-- enough, validation finds too many of them.
allow_complete-validate_count :
    (a : ArgSpec) (n : ℕ)
    → (allow_complete_for_spec a false n ≡ false)
    → ltb n a.min_args ≡ false
    → (validate_count a n ≡ raised (exception "Too many parameters set!"))
unfolding allow_complete_for_spec validate_count
allow_complete-validate_count a n h m = elim (Option-cases a.max_args) [
  | inl e ↦ ground (arith, h, e)
  | inr (k, e) ↦ rw (m, e) (ground (arith, h, e))
]
