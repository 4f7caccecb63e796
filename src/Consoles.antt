-- ===== src/Consoles.antt =====
-- src/python_tty/consoles/registry.py: the registry of consoles, with what `register_all` does to the
-- console manager's table (consoles/manager.py, `register` and `is_registered`). A class stands for
-- the names that it declares; keyword arguments of consoles are passed on and left out.
pub mod Naming
pub mod Parents
pub mod Tree
pub mod Declaring
use python_tty.Prelude.{
  String, Bool, true, false, not, ◌&&◌, ◌||◌, Option, none, some, List, [], ◌∷◌, ◌++◌,
  if◌then◌else◌, is_some, str_eq, append, all,
}
use python_tty.Prelude.Dict.{Dict, get, contains, put}
use python_tty.Models.{or_text, exception, Outcome, returned, raised}
use python_tty.CommandIds.{after_prefix}

-- `console_name`, `CONSOLE_NAME`, the lower-cased name of a class, its name and its module.
pub record ConsoleClass : Type 0 where
  pub console_name : Option String
  pub constant_name : Option String
  pub lower_name : String
  pub class_name : String
  pub module_name : String

-- _get_console_name
abbrev pub get_console_name : ConsoleClass → String
get_console_name c = or_text c.console_name (or_text c.constant_name c.lower_name)

pub record SubConsoleEntry : Type 0 where
  pub console_cls : ConsoleClass
  pub parent_name : String
  pub name : String

pub record ConsoleRegistry : Type 0 where
  pub root : Option (ConsoleClass × String)
  pub subs : Dict SubConsoleEntry

-- set_root
unfoldable pub set_root : ConsoleClass → ConsoleRegistry → ConsoleRegistry × Outcome (Unit {0})
set_root c s =
    if is_some s.root
    then (s, raised (exception "Root console already set"))
    else (record s { root = some (c, get_console_name c) }, returned tt)

abbrev pub is_root_name : Option (ConsoleClass × String) → String → Bool
is_root_name none n = false
is_root_name (some (c, r)) n = str_eq r n

-- `name == self._root_name or name in self._subs`
abbrev pub is_taken : String → ConsoleRegistry → Bool
is_taken n s = is_root_name s.root n || contains n s.subs

abbrev pub insert_sub : ConsoleClass → String → String → ConsoleRegistry → ConsoleRegistry
insert_sub c parent n s = record s {
  subs = put n (record { console_cls = c; parent_name = parent; name = n }) s.subs;
}

-- The test and the assignment that `add_sub` and the loop of `add_multi` make.
unfoldable pub add_named :
    ConsoleClass → String → String → ConsoleRegistry → ConsoleRegistry × Outcome (Unit {0})
add_named c parent n s =
    if is_taken n s
    then (s, raised (exception (append "Console name duplicate [" (append n "]"))))
    else (insert_sub c parent n s, returned tt)

-- add_sub
unfoldable pub add_sub :
    ConsoleClass → String → ConsoleRegistry → ConsoleRegistry × Outcome (Unit {0})
unfolding add_named
add_sub c parent s = add_named c parent (get_console_name c) s

-- _resolve_instance_name
unfoldable pub resolve_instance_name : String → String → String
unfolding after_prefix
resolve_instance_name parent instance_name =
    let prefix = append parent "_" in
    if is_some (after_prefix prefix instance_name)
    then instance_name
    else append prefix instance_name

-- The rest of a loop, which an error ends.
abbrev pub after :
    Outcome (Unit {0})
    → ConsoleRegistry
    → ConsoleRegistry × Outcome (Unit {0})
    → ConsoleRegistry × Outcome (Unit {0})
after (raised x) s rest = (s, raised x)
after (returned _) s rest = rest

-- The loop of add_multi; entries added before an error stay.
unfoldable pub add_each :
    ConsoleClass → List (String × String) → ConsoleRegistry → ConsoleRegistry × Outcome (Unit {0})
add_each c [] s = (s, returned tt)
add_each c ((parent, instance_name) ∷ m) s =
    if str_eq parent ""
    then (s, raised (exception "Multi console parent name is empty"))
    else if str_eq instance_name ""
    then (s, raised (exception "Multi console instance name is empty"))
    else (let (s', out) = add_named c parent (resolve_instance_name parent instance_name) s in
        let rest = add_each c m s' in after out s' rest)

-- add_multi
unfoldable pub add_multi :
    ConsoleClass → List (String × String) → ConsoleRegistry → ConsoleRegistry × Outcome (Unit {0})
unfolding add_each
add_multi c [] s = (s, raised (exception "Multi console mapping is empty"))
add_multi c (p ∷ m) s = add_each c (p ∷ m) s

-- The manager's table once every sub console is registered in it.
unfoldable pub register_subs : Dict SubConsoleEntry → Dict ConsoleClass → Dict ConsoleClass
register_subs [] m = m
register_subs ((n, entry) ∷ d) m = register_subs d (put n entry.console_cls m)

-- The loop over the parents.
unfoldable pub check_parents : Dict SubConsoleEntry → Dict ConsoleClass → Outcome (Unit {0})
check_parents [] m = returned tt
check_parents ((n, entry) ∷ d) m =
    let rest = check_parents d m in
    if contains entry.parent_name m
    then rest
    else raised (
        exception (
          append "Parent console ["
            (append entry.parent_name (append "] for [" (append n "] not registered")))))

-- register_all, less the console tree
unfoldable pub register_all :
    ConsoleRegistry → Dict ConsoleClass → Dict ConsoleClass × Outcome (Unit {0})
unfolding register_subs check_parents
register_all s m = elim s.root [
  | none ↦ (m, raised (exception "Root console not set"))
  | some (c, r) ↦ let m' = register_subs s.subs (put r c m) in (m', check_parents s.subs m')
]
