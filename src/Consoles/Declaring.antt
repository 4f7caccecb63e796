-- ===== src/Consoles/Declaring.antt =====
-- src/python_tty/consoles/decorators.py and loader.py: the decorators that declare consoles. Importing a
-- module runs the decorators in it, so a module stands for the calls that it makes.
use python_tty.Prelude.{String, Bool, Option, none, some, List, [], ◌∷◌, if◌then◌else◌, str_eq}
use python_tty.Models.{exception, Outcome, returned, raised}
use python_tty.Consoles.{ConsoleClass, ConsoleRegistry, set_root, add_sub, add_multi}

-- A class with whether it inherits MainConsole and SubConsole.
pub record DeclaredClass : Type 0 where
  pub console_cls : ConsoleClass
  pub is_main : Bool
  pub is_sub : Bool

-- root
unfoldable pub root : DeclaredClass → ConsoleRegistry → ConsoleRegistry × Outcome (Unit {0})
unfolding set_root
root c s =
    if c.is_main
    then set_root c.console_cls s
    else (s, raised (exception "Root console must inherit MainConsole"))

abbrev pub declare_sub :
    String → DeclaredClass → ConsoleRegistry → ConsoleRegistry × Outcome (Unit {0})
declare_sub parent c s =
    if c.is_sub
    then add_sub c.console_cls parent s
    else (s, raised (exception "Sub console must inherit SubConsole"))

-- sub, for a parent's name; none is an object that is no text
unfoldable pub sub :
    Option String → DeclaredClass → ConsoleRegistry → ConsoleRegistry × Outcome (Unit {0})
unfolding add_sub
sub none c s = (s, raised (exception "Sub console parent name is empty"))
sub (some parent) c s =
    if str_eq parent ""
    then (s, raised (exception "Sub console parent name is empty"))
    else declare_sub parent c s

-- multi, for the mapping of parents; none is an object that is no dictionary
unfoldable pub multi :
    Option (List (String × String))
    → DeclaredClass
    → ConsoleRegistry
    → ConsoleRegistry × Outcome (Unit {0})
unfolding add_multi
multi none c s = (s, raised (exception "Multi console mapping is empty"))
multi (some []) c s = (s, raised (exception "Multi console mapping is empty"))
multi (some (p ∷ m)) c s =
    if c.is_sub
    then add_multi c.console_cls (p ∷ m) s
    else (s, raised (exception "Multi console must inherit SubConsole"))

-- A decorator that a module applies.
pub data Declared : Type 0 where
  as_root : DeclaredClass → Declared
  as_sub : Option String → DeclaredClass → Declared
  as_multi : Option (List (String × String)) → DeclaredClass → Declared

abbrev pub declare : Declared → ConsoleRegistry → ConsoleRegistry × Outcome (Unit {0})
declare (as_root c) s = root c s
declare (as_sub parent c) s = sub parent c s
declare (as_multi m c) s = multi m c s

abbrev pub then_load :
    (ConsoleRegistry → ConsoleRegistry × Outcome (Unit {0}))
    → ConsoleRegistry × Outcome (Unit {0})
    → ConsoleRegistry × Outcome (Unit {0})
then_load rest (s, raised x) = (s, raised x)
then_load rest (s, returned u) = rest s

-- load_consoles, with the declarations of the modules in order; an error ends the import
unfoldable pub load_consoles :
    List Declared → ConsoleRegistry → ConsoleRegistry × Outcome (Unit {0})
unfolding root sub multi
load_consoles [] s = (s, returned tt)
load_consoles (d ∷ ds) s = then_load (load_consoles ds) (declare d s)
