-- ===== src/Commands/Lookup.antt =====
-- What the tables of commands/core.py hold: for each key the last command that was collected.
use python_tty.Prelude.{
  ◌≡◌, refl, String, Bool, true, not, ◌&&◌, Option, none, some, List, [], ◌∷◌, if◌then◌else◌,
  str_eq, arith, find?, all,
}
use python_tty.Prelude.Dict.{Dict, get, put, get-put}
use python_tty.CommandIds.{build_command_id}
use python_tty.Commands.{
  CommandDef, CommandTables, has_name, all_names, put_names, map_components, collect,
}

module _ {A : Type 0} where
  -- The last element that passes the test.
  abbrev pub find_last : (A → Bool) → List A → Option A
  find_last p [] = none
  find_last p (x ∷ xs) =
      let rest = find_last p xs in
      elim rest [ some y ↦ some y | none ↦ (if p x then some x else none) ]

  -- No two elements pass the test.
  abbrev pub is_unique : (A → Bool) → List A → Bool
  is_unique p [] = true
  is_unique p (x ∷ xs) = all (λ y. not (p x && p y)) xs && is_unique p xs

  find_last-none :
      (p : A → Bool) (x : A) (xs : List A)
      → p x ≡ true
      → all (λ y. not (p x && p y)) xs ≡ true
      → find_last p xs ≡ none
  find_last-none p x [] h a = refl
  find_last-none p x (y ∷ ys) h a = ground (arith, find_last-none p x ys)

  pub find_last-find :
      (p : A → Bool) (xs : List A) → is_unique p xs ≡ true → find_last p xs ≡ find? p xs
  find_last-find p [] u = refl
  find_last-find p (x ∷ xs) u = ground (arith, find_last-find p xs, find_last-none p x xs)

  abbrev pub or_last : Option A → Option A → Option A
  or_last none o = o
  or_last (some x) o = some x

module _ {Fn : Type 0} where
  get-put_names :
      (k : String) (ns : List String) (d : CommandDef Fn) (m : Dict (CommandDef Fn))
      → get k (put_names ns d m) ≡ (if has_name k ns then some d else get k m)
  get-put_names k [] d m = refl
  get-put_names k (n ∷ ns) d m = ground (arith, get-put_names k ns d (put n d m), get-put n k d m)

  pub collect-by_id :
      (console i : String) (ds : List (CommandDef Fn)) (t : CommandTables Fn)
      → get i (collect console ds t).by_id
        ≡ or_last
            (find_last (λ d. str_eq (build_command_id console d.func_name) i) ds)
            (get i t.by_id)
  unfolding collect
  collect-by_id console i [] t = refl
  collect-by_id console i (d ∷ ds) t = ground (
    arith,
    collect-by_id console i ds (map_components console d t),
    get-put (build_command_id console d.func_name) i d t.by_id,
  )

  pub collect-by_name :
      (console n : String) (ds : List (CommandDef Fn)) (t : CommandTables Fn)
      → get n (collect console ds t).by_name
        ≡ or_last (find_last (λ d. has_name n (all_names d)) ds) (get n t.by_name)
  unfolding collect
  collect-by_name console n [] t = refl
  collect-by_name console n (d ∷ ds) t = ground (
    arith,
    collect-by_name console n ds (map_components console d t),
    get-put_names n (all_names d) d t.by_name,
  )
