-- ===== src/Meta/Exported.antt =====
-- src/python_tty/meta/__init__.py with commands/core.py: what is exported can be run.
use python_tty.Prelude.{
  ◌≡◌, refl, ◌∙◌, String, Bool, true, false, none, some, List, [], ◌∷◌, map, str_eq, eq_iff,
  eq_refl, arith, all, Option-cases, inl, inr, Bool-cases,
}
use python_tty.Prelude.Dict.{get}
use python_tty.Prelude.Sorting.{sort-Permutes, all-Permutes, Permutes-sym}
use python_tty.CommandIds.{build_command_id}
use python_tty.Commands.{Parameter, CommandDef, executed_command}
use python_tty.Commands.Lookup.{find_last, collect-by_id}
use python_tty.Commands.Authorisation.{has_id_of, build_command_id_cancel}
use python_tty.Meta.{CommandMeta, by_id, command_meta, export_commands}

module _ {A : Type 0} where
  all_mono :
      (p q : A → Bool) (h : (x : A) → p x ≡ true → q x ≡ true) (xs : List A)
      → all p xs ≡ true
      → all q xs ≡ true
  all_mono p q h [] a = refl
  all_mono p q h (x ∷ xs) a = ground (arith, h x, all_mono p q h xs)

  all-map :
      {B : Type 0} (f : A → B) (p : B → Bool) (xs : List A)
      → all p (map f xs) ≡ all (λ x. p (f x)) xs
  all-map f p [] = refl
  all-map f p (x ∷ xs) = ground (arith, all-map f p xs)

  -- The last element that is related to `x` is there, and is related to it.
  abbrev finds : (A → A → Bool) → List A → A → Bool
  finds q xs x = elim (find_last (q x) xs) [ none ↦ false | some y ↦ q x y ]

  find_last-passes : (p : A → Bool) (xs : List A) (y : A) → find_last p xs ≡ some y → p y ≡ true
  find_last-passes p [] y h = absurd (ground (arith, h))
  find_last-passes p (x ∷ xs) y h = elim (Option-cases (find_last p xs)) [
    | inl e ↦ elim (Bool-cases (p x)) [
      | inl f ↦ ground (arith, h, e, f)
      | inr f ↦ absurd (ground (arith, h, e, f))
    ]
    | inr (z, e) ↦ find_last-passes p xs y (ground (arith, h, e))
  ]

  finds-cons :
      (q : A → A → Bool) (x y : A) (xs : List A) → finds q xs y ≡ true → finds q (x ∷ xs) y ≡ true
  finds-cons q x y xs h = ground (arith, h)

  finds-head : (q : A → A → Bool) (x : A) (xs : List A) → q x x ≡ true → finds q (x ∷ xs) x ≡ true
  finds-head q x xs r = elim (Option-cases (find_last (q x) xs)) [
    | inl e ↦ ground (arith, e, r)
    | inr (z, e) ↦ ground (arith, e, find_last-passes (q x) xs z e)
  ]

  all-finds :
      (q : A → A → Bool) (r : (x : A) → q x x ≡ true) (xs : List A) → all (finds q xs) xs ≡ true
  all-finds q r [] = refl
  all-finds q r (x ∷ xs) =
      rw (finds-head q x xs (r x))
        (all_mono (finds q xs) (finds q (x ∷ xs)) (λ y. finds-cons q x y xs) xs (all-finds q r xs))

module _ {Fn : Type 0} (signature : Fn → List Parameter) (console : String) where
  -- The identifier runs a command of the exported name.
  abbrev pub runs : List (CommandDef Fn) → CommandMeta → Bool
  runs defs c = elim (executed_command console defs (some c.id) none) [
    | none ↦ false
    | some d ↦ str_eq d.func_name c.name
  ]

  same_id : CommandDef Fn → CommandDef Fn → Bool
  same_id x y = has_id_of console (build_command_id console x.func_name) y

  runs-finds :
      (defs : List (CommandDef Fn)) (x : CommandDef Fn)
      → finds same_id defs x ≡ true
      → runs defs (command_meta signature console x) ≡ true
  unfolding executed_command same_id get
  runs-finds defs x h =
      let i = build_command_id console x.func_name in
      elim (Option-cases (find_last (has_id_of console i) defs)) [
        | inl e ↦ absurd (ground (arith, h, e))
        | inr (d, e) ↦
            let k : str_eq (build_command_id console d.func_name) i ≡ true = ground (arith, h, e) in
            let n : d.func_name ≡ x.func_name =
              build_command_id_cancel console d.func_name x.func_name
                ((eq_iff (build_command_id console d.func_name) i).0 k) in
            ground (
              arith,
              collect-by_id console i defs (record { by_id = []; by_name = [] }),
              e,
              (eq_iff d.func_name x.func_name).1 n,
            )
      ]

  -- Every command that is exported for a console can be run in a console with the same commands by the
  -- exported identifier, and the command that runs has the exported name.
  pub export_commands-runs :
      (defs : List (CommandDef Fn))
      → all (runs defs) (export_commands signature console defs) ≡ true
  unfolding export_commands same_id
  export_commands-runs defs =
      all-Permutes (runs defs)
        (Permutes-sym (sort-Permutes by_id (map (command_meta signature console) defs)))
        (all-map (command_meta signature console) (runs defs) defs
          ∙ all_mono (finds same_id defs) (λ x. runs defs (command_meta signature console x))
              (runs-finds defs) defs
              (all-finds same_id (λ x. eq_refl (build_command_id console x.func_name)) defs))
