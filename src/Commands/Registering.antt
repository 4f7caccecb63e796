-- ===== src/Commands/Registering.antt =====
-- src/python_tty/commands/registry.py, decorators.py and mixins.py: what a command is declared with, and
-- the help on the commands of a console. A class that is given is known by its name.
use python_tty.Prelude.{
  ◌≡◌, refl, ap, String, Bool, true, false, Option, none, some, List, [], ◌∷◌, ◌++◌, if◌then◌else◌,
  or_else, map, Bool-cases, inl, inr,
}
use mathlib.Core.List.{append-nil}
use python_tty.Prelude.Dict.{Dict}
use python_tty.Prelude.Sorting.{Permutes, same, skip, swap, chain}
use python_tty.Models.{exception, Outcome, returned, raised}
use python_tty.Commands.{ArgSpec, CommandDef, Exposure, normalize_exposure}
use python_tty.Commands.Declaring.{Alias, alias_list, CommandRegistry, register}
use python_tty.Commands.Styles.{CommandStyle, define_command_style}

-- What may be given for a completer or a validator: None, an object that is no class, a class of
-- another base, or a class of the right one.
pub data ClassArgument : Type 0 where
  no_class no_type other_base : ClassArgument
  class_named : String → ClassArgument

abbrev pub is_type : ClassArgument → Bool
is_type no_type = false
is_type _ = true

abbrev pub has_base : ClassArgument → Bool
has_base other_base = false
has_base _ = true

abbrev pub class_name : ClassArgument → Option String
class_name (class_named c) = some c
class_name _ = none

pub record CommandInfo : Type 0 where
  pub func_name : String
  pub func_description : String
  pub completer : Option String
  pub validator : Option String
  pub arg_spec : Option ArgSpec
  pub exposure : Dict Bool
  pub alias : List String

-- What a command is declared with.
pub record Declaration : Type 0 where
  pub command_name : Option String
  pub description : String
  pub alias : Alias
  pub style : CommandStyle
  pub completer : ClassArgument
  pub validator : ClassArgument
  pub arg_spec : Option ArgSpec
  pub exposure : Exposure

-- The four tests, in their order.
abbrev pub check_classes : ClassArgument → ClassArgument → Outcome (Unit {0})
check_classes completer validator =
    if is_type completer
    then if is_type validator
      then if has_base completer
        then if has_base validator
          then returned tt
          else raised (exception "Command validator must inherit Validator")
        else raised (exception "Command completer must inherit Completer")
      else raised (exception "Command validator must be a class")
    else raised (exception "Command completer must be a class")

module _ (lower upper : String → String) where
  -- CommandInfo.__init__, for the name in its style
  abbrev pub info_of : String → Declaration → CommandInfo
  info_of name d = record {
    func_name = define_command_style lower upper name d.style;
    func_description = d.description;
    completer = class_name d.completer;
    validator = class_name d.validator;
    arg_spec = d.arg_spec;
    exposure = normalize_exposure d.exposure;
    alias = alias_list d.alias;
  }

  -- register_command, for the information that it puts on the function
  unfoldable pub register_command : String → Declaration → Outcome CommandInfo
  unfolding define_command_style
  register_command name d = elim (check_classes d.completer d.validator) [
    | raised x ↦ raised x
    | returned u ↦ returned (info_of name d)
  ]

  module _ {Fn : Type 0} where
    -- CommandDef.__init__, from the information
    abbrev pub def_of : Fn → CommandInfo → CommandDef Fn
    def_of f i = record {
      func_name = i.func_name;
      func = f;
      func_description = i.func_description;
      alias = i.alias;
      completer = i.completer;
      validator = i.validator;
      arg_spec = i.arg_spec;
      exposure = i.exposure;
    }

    abbrev pub with_def :
        Option String
        → Option String
        → Fn
        → CommandRegistry Fn
        → Outcome CommandInfo
        → CommandRegistry Fn × Outcome (CommandDef Fn)
    with_def console commands f r (raised x) = (r, raised x)
    with_def console commands f r (returned i) =
        (register (def_of f i) console commands r, returned (def_of f i))

    -- CommandRegistry.register, of a function of that name
    unfoldable pub register_checked :
        Fn
        → String
        → Option String
        → Option String
        → Declaration
        → CommandRegistry Fn
        → CommandRegistry Fn × Outcome (CommandDef Fn)
    unfolding register register_command
    register_checked f name console commands d r =
        with_def console commands f r (register_command (or_else d.command_name name) d)

-- A table of the help: its rows and its title.
pub record HelpTable : Type 0 where
  pub rows : List (String × String)
  pub title : String

module _ {Fn : Type 0} (is_base : Fn → Bool) (description : Fn → String) where
  abbrev pub row_of : String × Fn → String × String
  row_of (name, f) = (name, description f)

  -- The rows of the functions for which the test has this answer.
  abbrev pub rows_where : Bool → Dict Fn → List (String × String)
  rows_where b [] = []
  rows_where true ((n, f) ∷ funcs) =
      if is_base f then row_of (n, f) ∷ rows_where true funcs else rows_where true funcs
  rows_where false ((n, f) ∷ funcs) =
      if is_base f then rows_where false funcs else row_of (n, f) ∷ rows_where false funcs

  abbrev pub table_of : String → List (String × String) → List HelpTable
  table_of title [] = []
  table_of title (r ∷ rows) = record { rows = r ∷ rows; title = title } ∷ []

  -- run_help, the tables that are printed
  unfoldable pub run_help : Dict Fn → List HelpTable
  run_help funcs =
      table_of "Core Commands" (rows_where true funcs)
      ++ table_of "Custom Commands" (rows_where false funcs)

  abbrev pub all_rows : List HelpTable → List (String × String)
  all_rows [] = []
  all_rows (t ∷ ts) = t.rows ++ all_rows ts

  Permutes-middle :
      (xs : List (String × String)) (y : String × String) (ys : List (String × String))
      → Permutes (xs ++ y ∷ ys) (y ∷ xs ++ ys)
  Permutes-middle [] y ys = same
  Permutes-middle (x ∷ xs) y ys = chain (skip x (Permutes-middle xs y ys)) (swap x y)

  rows_where-Permutes :
      (funcs : Dict Fn)
      → Permutes (rows_where true funcs ++ rows_where false funcs) (map row_of funcs)
  rows_where-Permutes [] = same
  rows_where-Permutes ((n, f) ∷ funcs) = elim (Bool-cases (is_base f)) [
    | inl e ↦ rw e (skip (row_of (n, f)) (rows_where-Permutes funcs))
    | inr e ↦ rw e (
        chain (Permutes-middle (rows_where true funcs) (row_of (n, f)) (rows_where false funcs))
          (skip (row_of (n, f)) (rows_where-Permutes funcs)))
  ]

  all_rows-tables :
      (a b : String) (xs ys : List (String × String))
      → all_rows (table_of a xs ++ table_of b ys) ≡ xs ++ ys
  all_rows-tables a b [] [] = refl
  all_rows-tables a b [] (y ∷ ys) = append-nil (y ∷ ys)
  all_rows-tables a b (x ∷ xs) [] = refl
  all_rows-tables a b (x ∷ xs) (y ∷ ys) = ap (λ l. (x ∷ xs) ++ l) (append-nil (y ∷ ys))

  -- The help lists every name of a command once, with its description, whatever the functions are.
  run_help-Permutes : (funcs : Dict Fn) → Permutes (all_rows (run_help funcs)) (map row_of funcs)
  unfolding run_help
  run_help-Permutes funcs =
      rw
        (all_rows-tables "Core Commands" "Custom Commands" (rows_where true funcs)
          (rows_where false funcs))
        (rows_where-Permutes funcs)
