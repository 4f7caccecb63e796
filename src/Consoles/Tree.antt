-- ===== src/Consoles/Tree.antt =====
-- src/python_tty/consoles/registry.py: the consoles in the order of their declaration, and the tree and
-- the map of them that are exported.
use python_tty.Prelude.{
  ◌≡◌, refl, String, Bool, true, false, ◌||◌, Option, none, some, List, [], ◌∷◌, ◌++◌,
  if◌then◌else◌, or_else, str_eq, eq_iff, arith, map, ap, ◌∙◌, Bool-cases, inl, inr,
}
use python_tty.Prelude.Dict.{Dict, get, put, contains, keys, get-put}
use mathlib.Core.List.{append_assoc}
use python_tty.Prelude.Sorting.{sort}
use python_tty.Prelude.Texts.{text_le}
use python_tty.Consoles.{ConsoleClass, SubConsoleEntry, ConsoleRegistry}

-- get_root: the class and its name
abbrev pub get_root : ConsoleRegistry → Option (ConsoleClass × String)
get_root s = s.root

abbrev pub root_entries :
    Option (ConsoleClass × String) → List (String × ConsoleClass × Option String)
root_entries none = []
root_entries (some (c, n)) = (n, c, none) ∷ []

abbrev pub sub_entries : Dict SubConsoleEntry → List (String × ConsoleClass × Option String)
sub_entries d = map (λ e. (e.0, e.1.console_cls, some e.1.parent_name)) d

-- iter_consoles
unfoldable pub iter_consoles : ConsoleRegistry → List (String × ConsoleClass × Option String)
iter_consoles s = root_entries (get_root s) ++ sub_entries s.subs

pub record ConsoleInfo : Type 0 where
  pub name : String
  pub parent : Option String
  pub class_name : String
  pub module_name : String

-- The loop of get_console_map.
unfoldable pub map_consoles :
    List (String × ConsoleClass × Option String) → Dict ConsoleInfo → Dict ConsoleInfo
unfolding put
map_consoles [] m = m
map_consoles ((n, c, parent) ∷ rest) m = map_consoles rest (
    put n
      (record { name = n; parent = parent; class_name = c.class_name; module_name = c.module_name })
      m)

-- get_console_map
unfoldable pub get_console_map : ConsoleRegistry → Dict ConsoleInfo
unfolding map_consoles iter_consoles
get_console_map s = map_consoles (iter_consoles s) []

-- The first loop of _build_console_tree.
unfoldable pub group : Dict SubConsoleEntry → Dict (List String) → Dict (List String)
unfolding put get
group [] m = m
group ((n, entry) ∷ d) m =
    group d (put entry.parent_name (or_else (get entry.parent_name m) [] ++ n ∷ []) m)

-- The loop that sorts the children.
unfoldable pub sort_each : Dict (List String) → Dict (List String)
unfolding sort text_le
sort_each [] = []
sort_each ((n, names) ∷ m) = (n, sort text_le names) ∷ sort_each m

-- The loop over all names.
unfoldable pub add_missing : List String → Dict (List String) → Dict (List String)
unfolding put get
add_missing [] m = m
add_missing (n ∷ ns) m = add_missing ns (if contains n m then m else put n [] m)

pub record ConsoleTree : Type 0 where
  pub root : String
  pub children : Dict (List String)

-- _build_console_tree
unfoldable pub build_console_tree : String → Dict SubConsoleEntry → ConsoleTree
unfolding group sort_each add_missing
build_console_tree root subs = record {
  root = root;
  children = add_missing (root ∷ keys subs) (sort_each (group subs []));
}

abbrev pub tree_of : Option (ConsoleClass × String) → Dict SubConsoleEntry → Option ConsoleTree
tree_of none subs = none
tree_of (some (c, n)) subs = if str_eq n "" then none else some (build_console_tree n subs)

-- get_console_tree
unfoldable pub get_console_tree : ConsoleRegistry → Option ConsoleTree
unfolding build_console_tree
get_console_tree s = tree_of (get_root s) s.subs

-- The consoles that name a parent, in the order of their declaration.
abbrev pub children_of : String → Dict SubConsoleEntry → List String
children_of p [] = []
children_of p ((n, entry) ∷ d) =
    if str_eq entry.parent_name p then n ∷ children_of p d else children_of p d

abbrev pub is_parent : String → Dict SubConsoleEntry → Bool
is_parent p [] = false
is_parent p ((n, entry) ∷ d) = str_eq entry.parent_name p || is_parent p d

abbrev is_member : String → List String → Bool
is_member n [] = false
is_member n (x ∷ xs) = str_eq x n || is_member n xs

abbrev sorted_option : Option (List String) → Option (List String)
sorted_option none = none
sorted_option (some names) = some (sort text_le names)

get-sort_each :
    (p : String) (m : Dict (List String)) → get p (sort_each m) ≡ sorted_option (get p m)
unfolding sort_each get
get-sort_each p [] = refl
get-sort_each p ((n, names) ∷ m) = ground (arith, get-sort_each p m)

get-add_missing :
    (p : String) (ns : List String) (m : Dict (List String))
    → get p (add_missing ns m)
      ≡ (if contains p m then get p m else if is_member p ns then some [] else none)
unfolding add_missing
get-add_missing p [] m = ground arith
get-add_missing p (n ∷ ns) m =
    ground (
      arith,
      get-add_missing p ns m,
      get-add_missing p ns (put n [] m),
      get-put n p [] m,
      eq_iff n p,
    )

children_of-is_parent :
    (p : String) (subs : Dict SubConsoleEntry) → is_parent p subs ≡ false → children_of p subs ≡ []
children_of-is_parent p [] h = refl
children_of-is_parent p ((n, entry) ∷ d) h = ground (arith, children_of-is_parent p d)

-- What a parent has after the first loop.
abbrev grouped : Option (List String) → Bool → List String → Option (List String)
grouped o false names = o
grouped o true names = some (or_else o [] ++ names)

grouped-grouped :
    (o : Option (List String)) (n : String) (b : Bool) (names : List String)
    → (b ≡ false → names ≡ [])
    → grouped (some (or_else o [] ++ n ∷ [])) b names ≡ some (or_else o [] ++ n ∷ names)
grouped-grouped o n false names h = rw (h refl) refl
grouped-grouped o n true names h = ap some (append_assoc (or_else o []) (n ∷ []) names)

get-group :
    (p : String) (subs : Dict SubConsoleEntry) (m : Dict (List String))
    → get p (group subs m) ≡ grouped (get p m) (is_parent p subs) (children_of p subs)
unfolding group
get-group p [] m = refl
get-group p ((n, entry) ∷ d) m =
    let q = entry.parent_name in
    let m' = put q (or_else (get q m) [] ++ n ∷ []) m in
    elim (Bool-cases (str_eq q p)) [
      | inl e ↦
          let same : q ≡ p = (eq_iff q p).0 e in
          get-group p d m'
          ∙ rw (get-put q p (or_else (get q m) [] ++ n ∷ []) m) (
              rw e (
                rw same (
                  grouped-grouped (get p m) n (is_parent p d) (children_of p d)
                    (children_of-is_parent p d))))
      | inr e ↦ get-group p d m' ∙ rw (get-put q p (or_else (get q m) [] ++ n ∷ []) m) (rw e refl)
    ]

-- A name is known to the tree: it is the root's, a console's or a parent's.
abbrev pub is_known : String → String → Dict SubConsoleEntry → Bool
is_known root p subs = is_parent p subs || is_member p (root ∷ keys subs)

-- The tree has an entry for the root, for every sub console and for every parent, and for no other
-- name; the entry lists the consoles that were declared for that parent, sorted.
pub build_console_tree-children :
    (root p : String) (subs : Dict SubConsoleEntry)
    → get p (build_console_tree root subs).children
      ≡ (if is_known root p subs then some (sort text_le (children_of p subs)) else none)
unfolding build_console_tree sort get
build_console_tree-children root p subs = ground (
  arith,
  get-add_missing p (root ∷ keys subs) (sort_each (group subs [])),
  get-sort_each p (group subs []),
  get-group p subs [],
  children_of-is_parent p subs,
)
