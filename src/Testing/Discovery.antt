-- ===== src/Testing/Discovery.antt =====
-- src/python_tty/testing/discovery.py: which cases `discover_tests` collects. What Python's inspection
-- says of the application's classes and methods is a record of functions.
use python_tty.Prelude.{
  String, Bool, false, ◌||◌, Option, none, some, List, [], ◌∷◌, ◌++◌, if◌then◌else◌, str_eq, append,
}
use python_tty.Prelude.Dict.{get}
use python_tty.Models.{exception, Outcome, returned, raised}
use python_tty.CommandIds.{build_command_id, nonempty, after_prefix, split_at_colon}
use python_tty.Commands.{CommandDef, has_name}
use python_tty.Commands.Declaring.{CommandRegistry, get_commands_cls, collect_from_commands_cls}
use python_tty.Consoles.{ConsoleClass, ConsoleRegistry}
use python_tty.Consoles.Tree.{iter_consoles}
use python_tty.Testing.{mark_in, Marks, update, DiscoveredTestCase, DiscoveredTestSuite, new_suite}

-- `members` are the commands of a class, `method_of` is what `_resolve_method` finds, `owner` the class
-- of commands that `_resolve_owner_commands_cls` finds, `fallback_name` the attribute `console_name`
-- of a class or its lower-cased name, and `is_same` the identity of unwrapped methods.
pub record Inspection (Fn Any : Type 0) : Type 0 where
  pub members : String → List (CommandDef Fn)
  pub marks : Marks Fn Any
  pub method_of : String → Fn → Fn
  pub method_name : Fn → String
  pub owner : Fn → Option String
  pub fallback_name : String → String
  pub is_same : Fn → Fn → Bool

-- What may be given to `discover_tests`. A module is known by its classes of commands, and `other` is
-- anything else, with its text.
mutual
  pub data Target (Fn : Type 0) : Type 0 where
    nothing : Target Fn
    several : Targets Fn → Target Fn
    id_text commands_class commands_object other : String → Target Fn
    commands_module : List String → Target Fn
    command_method : Fn → Target Fn

  pub data Targets (Fn : Type 0) : Type 0 where
    no_targets : Targets Fn
    target_and : Target Fn → Targets Fn → Targets Fn

module _ {Fn : Type 0} where
  -- _expand_targets
  unfoldable mutual
    pub expand_targets : Targets Fn → List (Target Fn)
    expand_targets no_targets = []
    expand_targets (target_and t ts) = expand_target t ++ expand_targets ts

    pub expand_target : Target Fn → List (Target Fn)
    expand_target nothing = []
    expand_target (several ts) = expand_targets ts
    expand_target (id_text i) = id_text i ∷ []
    expand_target (commands_class c) = commands_class c ∷ []
    expand_target (commands_object c) = commands_object c ∷ []
    expand_target (other s) = other s ∷ []
    expand_target (commands_module cs) = commands_module cs ∷ []
    expand_target (command_method f) = command_method f ∷ []

-- What the targets select.
pub record Selection (Fn : Type 0) : Type 0 where
  pub ids : List String
  pub classes : List String
  pub explicit_classes : List String
  pub methods : List Fn

abbrev pub owner_list : Option String → List String
owner_list none = []
owner_list (some c) = c ∷ []

-- _extract_console_name
unfoldable pub extract_console_name : String → Option String
unfolding after_prefix split_at_colon
extract_console_name i = elim (after_prefix "cmd:" i) [
  | none ↦ none
  | some rest ↦ elim (split_at_colon rest) [ none ↦ none | some (a, b) ↦ nonempty a ]
]

-- _unique_ordered, from the values that were seen on
unfoldable pub unique_ordered : List String → List String → List String
unique_ordered seen [] = []
unique_ordered seen (v ∷ vs) =
    let old = unique_ordered seen vs in
    let new = unique_ordered (v ∷ seen) vs in if has_name v seen then old else v ∷ new

module _ {Fn Any : Type 0} (python : Inspection Fn Any) where
  open python use {members, marks, method_of, method_name, owner, fallback_name, is_same}

  -- The loop over the expanded targets.
  unfoldable pub select : List (Target Fn) → Selection Fn → Outcome (Selection Fn)
  select [] q = returned q
  select (id_text i ∷ ts) q = select ts (record q { ids = q.ids ++ i ∷ [] })
  select (commands_class c ∷ ts) q =
      select ts
        (record q { classes = q.classes ++ c ∷ []; explicit_classes = c ∷ q.explicit_classes })
  select (commands_module cs ∷ ts) q = select ts (record q { classes = q.classes ++ cs })
  select (commands_object c ∷ ts) q =
      select ts
        (record q { classes = q.classes ++ c ∷ []; explicit_classes = c ∷ q.explicit_classes })
  select (command_method f ∷ ts) q =
      select ts (record q { methods = f ∷ q.methods; classes = q.classes ++ owner_list (owner f) })
  select (other s ∷ ts) q = raised (exception (append "Unsupported discover_tests target: " s))
  select (nothing ∷ ts) q = select ts q
  select (several us ∷ ts) q = select ts q

  -- _is_method_selected
  abbrev pub is_method_selected : Fn → List Fn → Bool
  is_method_selected f [] = false
  is_method_selected f (g ∷ gs) = is_same g f || is_method_selected f gs

  module _ (s : ConsoleRegistry) (r : CommandRegistry Fn) where
    abbrev pub classes_named : String → List (String × ConsoleClass × Option String) → List String
    classes_named n [] = []
    classes_named n ((m, c, p) ∷ rest) =
        let others = classes_named n rest in
        if str_eq m n then owner_list (get_commands_cls c.class_name r) ++ others else others

    -- _collect_classes_by_command_ids
    unfoldable pub collect_classes_by_command_ids : List String → List String
    unfolding extract_console_name iter_consoles get
    collect_classes_by_command_ids [] = []
    collect_classes_by_command_ids (i ∷ is) = elim (extract_console_name i) [
      | none ↦ collect_classes_by_command_ids is
      | some n ↦ classes_named n (iter_consoles s) ++ collect_classes_by_command_ids is
    ]

    abbrev pub is_bound : String → Option String → Bool
    is_bound c none = false
    is_bound c (some d) = str_eq d c

    abbrev pub bound_consoles :
        String → List (String × ConsoleClass × Option String) → List (String × Option ConsoleClass)
    bound_consoles c [] = []
    bound_consoles c ((n, k, p) ∷ rest) =
        let others = bound_consoles c rest in
        if is_bound c (get_commands_cls k.class_name r) then (n, some k) ∷ others else others

    abbrev pub or_fallback :
        String → List (String × Option ConsoleClass) → List (String × Option ConsoleClass)
    or_fallback c [] = (fallback_name c, none) ∷ []
    or_fallback c (b ∷ bs) = b ∷ bs

    -- _resolve_console_bindings
    unfoldable pub resolve_console_bindings : String → List (String × Option ConsoleClass)
    unfolding iter_consoles get
    resolve_console_bindings c = or_fallback c (bound_consoles c (iter_consoles s))

  -- Whether a method of a class is to be a case.
  abbrev pub is_included : Selection Fn → String → Fn → String → Bool
  is_included q c f i =
      has_name c q.explicit_classes
      || (mark_in (get c marks.classes)).testable
      || (marks.methods f).testable
      || is_method_selected f q.methods
      || has_name i q.ids

  abbrev pub case_of :
      String → CommandDef Fn → Fn → String × Option ConsoleClass → DiscoveredTestCase Fn Any
  case_of c d f (n, k) = record {
    command_id = build_command_id n d.func_name;
    command_name = d.func_name;
    console_name = n;
    console_cls = k;
    commands_cls = c;
    method_name = method_name f;
    method = f;
    class_marked = (mark_in (get c marks.classes)).testable;
    method_marked = (marks.methods f).testable;
    test_meta = update (mark_in (get c marks.classes)).meta (marks.methods f).meta;
  }

  -- The loop over the console bindings.
  abbrev pub cases_of_method :
      Selection Fn
      → String
      → CommandDef Fn
      → Fn
      → List (String × Option ConsoleClass)
      → List (DiscoveredTestCase Fn Any)
  cases_of_method q c d f [] = []
  cases_of_method q c d f ((n, k) ∷ bs) =
      let others = cases_of_method q c d f bs in
      if is_included q c f (build_command_id n d.func_name)
      then case_of c d f (n, k) ∷ others
      else others

  -- The loop over the commands of a class.
  abbrev pub cases_of_class :
      Selection Fn
      → String
      → List (String × Option ConsoleClass)
      → List (CommandDef Fn)
      → List (DiscoveredTestCase Fn Any)
  cases_of_class q c bs [] = []
  cases_of_class q c bs (d ∷ ds) =
      cases_of_method q c d (method_of c d.func) bs ++ cases_of_class q c bs ds

  -- The loop over the classes; what is collected of a class is kept in the registry.
  unfoldable pub cases_of_classes :
      ConsoleRegistry
      → Selection Fn
      → List String
      → CommandRegistry Fn
      → CommandRegistry Fn × List (DiscoveredTestCase Fn Any)
  unfolding resolve_console_bindings collect_from_commands_cls get update build_command_id
  cases_of_classes s q [] r = (r, [])
  cases_of_classes s q (c ∷ cs) r =
      let (r1, defs) = collect_from_commands_cls members c r in
      let cases = cases_of_class q c (resolve_console_bindings s r c) defs in
      let (r2, rest) = cases_of_classes s q cs r1 in (r2, cases ++ rest)

  abbrev pub all_classes : ConsoleRegistry → CommandRegistry Fn → Selection Fn → List String
  all_classes s r q = unique_ordered [] (q.classes ++ collect_classes_by_command_ids s r q.ids)

  abbrev pub suite_of :
      ConsoleRegistry
      → CommandRegistry Fn
      → Outcome (Selection Fn)
      → CommandRegistry Fn × Outcome (DiscoveredTestSuite Fn Any)
  suite_of s r (raised x) = (r, raised x)
  suite_of s r (returned q) =
      let (r', cases) = cases_of_classes s q (all_classes s r q) r in
      (r', returned (new_suite cases))

  -- discover_tests
  unfoldable pub discover_tests :
      Targets Fn
      → List String
      → ConsoleRegistry
      → CommandRegistry Fn
      → CommandRegistry Fn × Outcome (DiscoveredTestSuite Fn Any)
  unfolding select expand_targets cases_of_classes unique_ordered collect_classes_by_command_ids
      new_suite
  discover_tests targets command_ids s r = suite_of s r (
      select (expand_targets targets)
        (record { ids = command_ids; classes = []; explicit_classes = []; methods = [] }))
