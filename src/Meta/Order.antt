-- ===== src/Meta/Order.antt =====
-- src/python_tty/meta/__init__.py: what is exported does not depend on the order of declaration.
use python_tty.Prelude.{
  ◌≡◌, refl, String, Bool, true, false, not, ◌&&◌, List, [], ◌∷◌, map, str_eq, eq_iff, arith, all,
  Bool-cases, inl, inr,
}
use python_tty.Prelude.Sorting.{
  Permutes, Permutes-map, apart, all_apart, sort-same, sort-sorted, is_sorted,
}
use python_tty.Prelude.Texts.{text_le, text_le_antisymm, key-IsOrder}
use python_tty.CommandIds.{build_command_id}
use python_tty.Commands.{Parameter, CommandDef}
use python_tty.Commands.Authorisation.{build_command_id_cancel}
use python_tty.Meta.{CommandMeta, by_id, command_meta, export_commands}

module _ {Fn : Type 0} (signature : Fn → List Parameter) (console : String) where
  -- No two commands have the same name.
  abbrev pub is_distinct : List (CommandDef Fn) → Bool
  is_distinct [] = true
  is_distinct (x ∷ xs) = all (λ y. not (str_eq x.func_name y.func_name)) xs && is_distinct xs

  apart-meta :
      (x y : CommandDef Fn)
      → str_eq x.func_name y.func_name ≡ false
      → apart by_id (command_meta signature console x) (command_meta signature console y) ≡ true
  apart-meta x y h =
      let i = build_command_id console x.func_name in
      let j = build_command_id console y.func_name in
      elim (Bool-cases (text_le i j)) [
        | inr e ↦ ground (arith, e)
        | inl e ↦ elim (Bool-cases (text_le j i)) [
          | inr f ↦ ground (arith, e, f)
          | inl f ↦
              let n : x.func_name ≡ y.func_name =
                build_command_id_cancel console x.func_name y.func_name
                  (text_le_antisymm i j e f) in
              absurd (ground (arith, h, (eq_iff x.func_name y.func_name).1 n))
        ]
      ]

  all-apart :
      (x : CommandDef Fn) (xs : List (CommandDef Fn))
      → all (λ y. not (str_eq x.func_name y.func_name)) xs ≡ true
      → all
          (apart by_id (command_meta signature console x))
          (map (command_meta signature console) xs)
        ≡ true
  all-apart x [] h = refl
  all-apart x (y ∷ ys) h =
      rw (apart-meta x y (ground (arith, h))) (all-apart x ys (ground (arith, h)))

  all_apart-meta :
      (xs : List (CommandDef Fn))
      → is_distinct xs ≡ true
      → all_apart by_id (map (command_meta signature console) xs) ≡ true
  all_apart-meta [] h = refl
  all_apart-meta (x ∷ xs) h =
      rw (all-apart x xs (ground (arith, h))) (all_apart-meta xs (ground (arith, h)))

  -- Where no two commands of a console have the same name, what is exported for them is sorted by
  -- identifier and is the same in whatever order the commands were declared.
  pub export_commands-same :
      (xs ys : List (CommandDef Fn))
      → Permutes xs ys
      → is_distinct xs ≡ true
      → (is_sorted by_id (export_commands signature console xs) ≡ true)
        × (export_commands signature console xs ≡ export_commands signature console ys)
  unfolding export_commands
  export_commands-same xs ys p d =
      let o = key-IsOrder (λ (c : CommandMeta). c.id) in
      (
        sort-sorted by_id o (map (command_meta signature console) xs),
        sort-same by_id o (Permutes-map (command_meta signature console) p) (all_apart-meta xs d),
      )
