-- ===== src/Testing.antt =====
-- src/python_tty/testing/decorators.py and testing/discovery.py: the marks of test cases and the suite of
-- the cases that were discovered. A class is known by its name; `Fn` are the methods.
pub mod Suite
pub mod Discovery
pub mod Harness
pub mod Running
use python_tty.Prelude.{
  ℕ, ◌≡◌, String, Bool, true, false, Option, none, some, List, [], ◌∷◌, if◌then◌else◌, map, length,
}
use python_tty.Prelude.Dict.{Dict, get, put, values}
use python_tty.Prelude.Sorting.{sort}
use python_tty.Prelude.Texts.{text_le}
use python_tty.Models.{exception, Outcome, returned, raised}
use python_tty.Consoles.{ConsoleClass}

-- The three attributes that a mark sets.
pub record Mark (Any : Type 0) : Type 0 where
  pub testable : Bool
  pub meta : Dict Any
  pub scope : Option String

abbrev pub no_mark : {Any : Type 0} → Mark Any
no_mark = record { testable = false; meta = []; scope = none }

-- What `tty_testable` may be put on: a class of commands, another class, a method with whether it is a
-- registered command, or something that cannot be called.
pub data Markable (Fn : Type 0) : Type 0 where
  commands_class : String → Markable Fn
  other_class other_object : Markable Fn
  method : Fn → Bool → Markable Fn

pub record Marks (Fn Any : Type 0) : Type 0 where
  pub classes : Dict (Mark Any)
  pub methods : Fn → Mark Any

-- d.update(other)
unfoldable pub update {ℓ} : {A : Type ℓ} → Dict A → Dict A → Dict A
unfolding put
update d [] = d
update d ((k, v) ∷ other) = update (put k v d) other

module _ {Any : Type 0} where
  -- What `getattr` finds of a class.
  abbrev pub mark_in : Option (Mark Any) → Mark Any
  mark_in none = no_mark
  mark_in (some m) = m

  -- _mark_testable, on the attributes of one target
  abbrev pub marked : String → Dict Any → Mark Any → Mark Any
  marked scope meta m = record { testable = true; meta = update m.meta meta; scope = some scope }

module _ {Fn Any : Type 0} (is_same : Fn → Fn → Bool) where
  -- tty_testable
  unfoldable pub tty_testable :
      Dict Any → Markable Fn → Marks Fn Any → Marks Fn Any × Outcome (Unit {0})
  unfolding get put update
  tty_testable meta (commands_class c) m = (
    record m { classes = put c (marked "class" meta (mark_in (get c m.classes))) m.classes },
    returned tt,
  )
  tty_testable meta other_class m =
      (m, raised (exception "@tty_testable class target must inherit BaseCommands"))
  tty_testable meta (method f true) m = (
    record m {
      methods = λ g. if is_same f g then marked "method" meta (m.methods f) else m.methods g;
    },
    returned tt,
  )
  tty_testable meta (method f false) m =
      (m, raised (exception "@tty_testable method target must be a registered command method"))
  tty_testable meta other_object m =
      (m, raised (exception "@tty_testable target must be a BaseCommands subclass"))

pub record DiscoveredTestCase (Fn Any : Type 0) : Type 0 where
  pub command_id : String
  pub command_name : String
  pub console_name : String
  pub console_cls : Option ConsoleClass
  pub commands_cls : String
  pub method_name : String
  pub method : Fn
  pub class_marked : Bool
  pub method_marked : Bool
  pub test_meta : Dict Any

pub record DiscoveredTestSuite (Fn Any : Type 0) : Type 0 where
  pub cases : List (DiscoveredTestCase Fn Any)
  pub cases_by_id : Dict (DiscoveredTestCase Fn Any)

module _ {Fn Any : Type 0} where
  abbrev pub by_id : DiscoveredTestCase Fn Any → DiscoveredTestCase Fn Any → Bool
  by_id a b = text_le a.command_id b.command_id

  -- The loop of the constructor.
  unfoldable pub dedupe :
      List (DiscoveredTestCase Fn Any)
      → Dict (DiscoveredTestCase Fn Any)
      → Dict (DiscoveredTestCase Fn Any)
  unfolding put
  dedupe [] d = d
  dedupe (c ∷ cs) d = dedupe cs (put c.command_id c d)

  -- DiscoveredTestSuite.__init__
  unfoldable pub new_suite : List (DiscoveredTestCase Fn Any) → DiscoveredTestSuite Fn Any
  unfolding dedupe sort text_le
  new_suite cases =
      let deduped = dedupe (sort by_id cases) [] in
      record { cases = values deduped; cases_by_id = deduped }

  -- get_case
  unfoldable pub get_case : String → DiscoveredTestSuite Fn Any → Option (DiscoveredTestCase Fn Any)
  unfolding get
  get_case i s = get i s.cases_by_id

  -- ids
  abbrev pub ids : DiscoveredTestSuite Fn Any → List String
  ids s = map (λ (c : DiscoveredTestCase Fn Any). c.command_id) s.cases
