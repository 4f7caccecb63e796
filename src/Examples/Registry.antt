-- ===== src/Examples/Registry.antt =====
-- The theorems about the console registry on small inputs.
use python_tty.Prelude.{List, none, some, [], ◌∷◌, arith}
use python_tty.Prelude.Dict.{get}
use python_tty.Consoles.{ConsoleClass, ConsoleRegistry}
use python_tty.Consoles.Naming.{
  Registration, Extends, IsUniquelyNamed, registered, registered-IsUniquelyNamed, single, several,
}

abbrev pub root_class : ConsoleClass
root_class = record {
  console_name = some "root";
  constant_name = none;
  lower_name = "rootconsole";
  class_name = "RootConsole";
  module_name = "main";
}

abbrev module_class : ConsoleClass
module_class = record {
  console_name = none;
  constant_name = none;
  lower_name = "module";
  class_name = "Module";
  module_name = "main";
}

-- A root with one sub console.
abbrev pub registry : ConsoleRegistry
registry = record {
  root = some (root_class, "root");
  subs =
      ("module", record { console_cls = module_class; parent_name = "root"; name = "module" }) ∷ [];
}

abbrev bare : ConsoleRegistry
bare = record { root = some (root_class, "root"); subs = [] }

bare-IsUniquelyNamed : IsUniquelyNamed bare
unfolding get
bare-IsUniquelyNamed = record { distinct = tt; apart = λ n. ground arith }

-- The second name of `several`, once resolved, is the first one again.
abbrev registrations : List Registration
registrations =
    single module_class "root" ∷ several module_class (("root", "a") ∷ ("root", "root_a") ∷ []) ∷ []

registered-IsUniquelyNamed_example :
    IsUniquelyNamed (registered registrations bare) × Extends bare (registered registrations bare)
registered-IsUniquelyNamed_example =
    registered-IsUniquelyNamed registrations bare bare-IsUniquelyNamed
