-- ===== src/Commands.antt =====
-- src/python_tty/commands/registry.py and core.py: command definitions, their argument counts, and
-- the tables in which a console looks its commands up. `Fn` is the type of the handlers. Completers
-- and validators are the terminal's.
pub mod Lookup
pub mod Authorisation
pub mod Declaring
pub mod Collecting
pub mod Styles
pub mod Registering
use python_tty.Prelude.{
  ℕ, suc, ◌+◌, String, Bool, true, false, not, ◌&&◌, ◌||◌, Option, none, some, List, [], ◌∷◌, ◌++◌,
  if◌then◌else◌, ltb, leb, is_some, or_else, str_eq, find?,
}
use python_tty.Prelude.Dict.{Dict, get, put}
use python_tty.Models.{exception, Outcome, returned, raised}
use python_tty.CommandIds.{build_command_id}

pub record ArgSpec : Type 0 where
  pub min_args : ℕ
  pub max_args : Option ℕ
  pub variadic : Bool

-- A parameter of a signature: whether it is `*args`, and whether it has a default.
pub record Parameter : Type 0 where
  pub is_variadic : Bool
  pub has_default : Bool

-- The loop of `from_signature`, from the two counts and the flag on.
unfoldable pub count_parameters : List Parameter → ℕ → ℕ → Bool → ArgSpec
count_parameters [] lo hi variadic = record {
  min_args = lo;
  max_args = if variadic then none else some hi;
  variadic = variadic;
}
count_parameters (p ∷ ps) lo hi variadic =
    count_parameters ps (if p.is_variadic || p.has_default then lo else suc lo)
      (if p.is_variadic then hi else suc hi) (variadic || p.is_variadic)

abbrev pub skip_self : Bool → List Parameter → List Parameter
skip_self true (p ∷ ps) = ps
skip_self _ ps = ps

-- ArgSpec.from_signature
unfoldable pub from_signature : Bool → List Parameter → ArgSpec
unfolding count_parameters
from_signature skip_first ps = count_parameters (skip_self skip_first ps) 0 0 false

abbrev too_many : ℕ → Option ℕ → Bool
too_many n none = false
too_many n (some m) = ltb m n

-- ArgSpec.validate_count
unfoldable pub validate_count : ArgSpec → ℕ → Outcome (Unit {0})
validate_count a n =
    if ltb n a.min_args
    then raised (exception "Not enough parameters set!")
    else if too_many n a.max_args
    then raised (exception "Too many parameters set!")
    else returned tt

-- What `exposure` may be given as.
pub data Exposure : Type 0 where
  unset : Exposure
  flag : Bool → Exposure
  table : Dict Bool → Exposure

-- _normalize_exposure
abbrev pub normalize_exposure : Exposure → Dict Bool
normalize_exposure Exposure.unset = ("rpc", false) ∷ []
normalize_exposure (Exposure.flag b) = ("rpc", b) ∷ []
normalize_exposure (Exposure.table d) = d

-- A completer's or validator's class is known by its name.
pub record CommandDef (Fn : Type 0) : Type 0 where
  pub func_name : String
  pub func : Fn
  pub func_description : String
  pub alias : List String
  pub completer : Option String
  pub validator : Option String
  pub arg_spec : Option ArgSpec
  pub exposure : Dict Bool

-- The two dictionaries of a BaseCommands object that look commands up.
pub record CommandTables (Fn : Type 0) : Type 0 where
  pub by_id : Dict (CommandDef Fn)
  pub by_name : Dict (CommandDef Fn)

abbrev pub has_name : String → List String → Bool
has_name n [] = false
has_name n (x ∷ xs) = str_eq x n || has_name n xs

module _ {Fn : Type 0} where
  -- all_names
  abbrev pub all_names : CommandDef Fn → List String
  all_names d = d.func_name ∷ d.alias

  abbrev pub put_names : List String → CommandDef Fn → Dict (CommandDef Fn) → Dict (CommandDef Fn)
  put_names [] d m = m
  put_names (n ∷ ns) d m = put_names ns d (put n d m)

  -- _map_components
  abbrev pub map_components : String → CommandDef Fn → CommandTables Fn → CommandTables Fn
  map_components console d t = record {
    by_id = put (build_command_id console d.func_name) d t.by_id;
    by_name = put_names (all_names d) d t.by_name;
  }

  -- _collect_completer_and_validator, from the tables so far on
  unfoldable pub collect : String → List (CommandDef Fn) → CommandTables Fn → CommandTables Fn
  collect console [] t = t
  collect console (d ∷ ds) t = collect console ds (map_components console d t)

  -- get_command_def_by_id
  abbrev pub get_command_def_by_id : Option String → CommandTables Fn → Option (CommandDef Fn)
  get_command_def_by_id none t = none
  get_command_def_by_id (some i) t = get i t.by_id

  -- get_command_def
  abbrev pub get_command_def : String → CommandTables Fn → Option (CommandDef Fn)
  get_command_def n t = elim (get n t.by_id) [ none ↦ get n t.by_name | some d ↦ some d ]

  -- The command that `ExecutionBinding.execute` calls for an identifier and a name, if any.
  unfoldable pub executed_command :
      String → List (CommandDef Fn) → Option String → Option String → Option (CommandDef Fn)
  unfolding collect
  executed_command console defs command_id command_name =
      let t = collect console defs (record { by_id = []; by_name = [] }) in
      elim (get_command_def_by_id command_id t) [
        | some d ↦ some d
        | none ↦ elim command_name [ none ↦ none | some n ↦ get_command_def n t ]
      ]

  abbrev pub find_by_id : String → Option String → List (CommandDef Fn) → Option (CommandDef Fn)
  find_by_id console none defs = none
  find_by_id console (some i) defs =
      if str_eq i ""
      then none
      else find? (λ d. str_eq (build_command_id console d.func_name) i) defs

  abbrev pub find_by_name : Option String → List (CommandDef Fn) → Option (CommandDef Fn)
  find_by_name none defs = none
  find_by_name (some n) defs =
      if str_eq n "" then none else find? (λ d. has_name n (all_names d)) defs

  -- _resolve_command_def of the RPC front end, on the console's commands
  unfoldable pub resolved_command :
      String → List (CommandDef Fn) → Option String → Option String → Option (CommandDef Fn)
  resolved_command console defs command_id command_name =
      elim (find_by_id console command_id defs) [
        | some d ↦ some d
        | none ↦ find_by_name command_name defs
      ]
