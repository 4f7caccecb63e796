-- ===== src/Commands/Authorisation.antt =====
-- The command that is authorised is the command that runs (commands/core.py, executor/execution.py,
-- frontends/rpc/core.py).
use Prim.Native.Char.{Char}
use Prim.Native.String.append
use python_tty.Prelude.{
  ◌≡◌, refl, sym, ap, ◌∙◌, String, Bool, true, false, not, ◌&&◌, none, some, List, [], ◌∷◌,
  if◌then◌else◌, str_eq, eq_iff, arith, append, find?, all, Bool-cases, Option-cases, inl, inr,
  is_some,
}
use python_tty.Prelude.Dict.{get}
use python_tty.CommandIds.{build_command_id}
use python_tty.Commands.{
  CommandDef, has_name, all_names, collect, get_command_def, executed_command, resolved_command,
}
use python_tty.CommandIds.{nonempty}
use python_tty.Executor.Contexts.{derived_id}
use python_tty.Commands.Lookup.{is_unique, find_last-find, collect-by_id, collect-by_name}

module _ {A : Type 0} (p q : A → Bool) (implies : (x : A) → q x ≡ true → p x ≡ true) where
  pub find?-excluded :
      (x : A) (xs : List A) → p x ≡ true → all (λ y. not (p x && p y)) xs ≡ true → find? q xs ≡ none
  find?-excluded x [] h a = refl
  find?-excluded x (y ∷ ys) h a = ground (arith, find?-excluded x ys, implies y)

  find?-implied :
      (e : A) (xs : List A) → is_unique p xs ≡ true → find? q xs ≡ some e → find? p xs ≡ some e
  find?-implied e [] u h = cc
  find?-implied e (x ∷ xs) u h = ground (arith, find?-implied e xs, find?-excluded x xs, implies x)

tail : String → String
tail String.[] = ""
tail (String.◌∷◌ c s) = s

uncons : (c : Char) (a b : String) → String.◌∷◌ c a ≡ String.◌∷◌ c b → a ≡ b
unfolding tail
uncons c a b h = ap tail h

append_cancel : (s a b : String) → append s a ≡ append s b → a ≡ b
append_cancel String.[] a b e = sym (append.nil a) ∙ e ∙ append.nil b
append_cancel (String.◌∷◌ c s) a b e =
    append_cancel s a b
      (uncons c (append s a) (append s b) (sym (append.cons c s a) ∙ e ∙ append.cons c s b))

pub build_command_id_cancel :
    (console a b : String) → build_command_id console a ≡ build_command_id console b → a ≡ b
unfolding build_command_id
build_command_id_cancel console a b e =
    append_cancel ":" a b (append_cancel console _ _ (append_cancel "cmd:" _ _ e))

module _ {Fn : Type 0} where
  abbrev pub has_id_of : String → String → CommandDef Fn → Bool
  has_id_of console i d = str_eq (build_command_id console d.func_name) i

  abbrev pub is_called : String → CommandDef Fn → Bool
  is_called n d = has_name n (all_names d)

  -- No two commands of a console share an identifier or a name, and no name is an identifier.
  pub record IsUnambiguous (console : String) (defs : List (CommandDef Fn)) : Type 0 where
    pub ids : (i : String) → is_unique (has_id_of console i) defs ≡ true
    pub names : (n : String) → is_unique (is_called n) defs ≡ true
    pub apart :
        (n : String) (d : CommandDef Fn)
        → find? (is_called n) defs ≡ some d
        → find? (has_id_of console n) defs ≡ none

  pub get-by_id :
      (console i : String) (defs : List (CommandDef Fn))
      → IsUnambiguous console defs
      → get i (collect console defs (record { by_id = []; by_name = [] })).by_id
        ≡ find? (has_id_of console i) defs
  unfolding get
  get-by_id console i defs u = ground (
    arith,
    collect-by_id console i defs (record { by_id = []; by_name = [] }),
    find_last-find (has_id_of console i) defs (u.ids i),
  )

  pub get-by_name :
      (console n : String) (defs : List (CommandDef Fn))
      → IsUnambiguous console defs
      → get n (collect console defs (record { by_id = []; by_name = [] })).by_name
        ≡ find? (is_called n) defs
  unfolding get
  get-by_name console n defs u = ground (
    arith,
    collect-by_name console n defs (record { by_id = []; by_name = [] }),
    find_last-find (is_called n) defs (u.names n),
  )

  pub get_command_def-called :
      (console n : String) (defs : List (CommandDef Fn)) (d : CommandDef Fn)
      → IsUnambiguous console defs
      → find? (is_called n) defs ≡ some d
      → get_command_def n (collect console defs (record { by_id = []; by_name = [] })) ≡ some d
  get_command_def-called console n defs d u h =
      ground (arith, get-by_id console n defs u, u.apart n d h, get-by_name console n defs u, h)

  named-id :
      (console n : String) (defs : List (CommandDef Fn)) (d : CommandDef Fn)
      → IsUnambiguous console defs
      → find? (has_id_of console (build_command_id console n)) defs ≡ some d
      → find? (is_called n) defs ≡ some d
  named-id console n defs d u h =
      find?-implied (is_called n) (has_id_of console (build_command_id console n))
        (λ x g. ground (
          arith,
          build_command_id_cancel console x.func_name n,
          eq_iff (build_command_id console x.func_name) (build_command_id console n),
          eq_iff x.func_name n,
        ))
        d defs (u.names n) h

  -- Where no two commands of the console share an identifier or a name, the command that the RPC
  -- front end finds for a request, and so authorises, is the one that the execution binding calls,
  -- by the identifier or name that the request gave or by the identifier derived from the name.
  pub executed-resolved :
      (console s t : String) (defs : List (CommandDef Fn)) (d : CommandDef Fn)
      → str_eq console "" ≡ false
      → IsUnambiguous console defs
      → resolved_command console defs (nonempty s) (nonempty t) ≡ some d
      → executed_command console defs
          (if is_some (nonempty s) then nonempty s else derived_id (some console) (nonempty t))
          (nonempty t)
        ≡ some d
  unfolding resolved_command executed_command
  executed-resolved console s t defs d c u h = elim (Bool-cases (str_eq s "")) [
    | inl e ↦ elim (Bool-cases (str_eq t "")) [
      | inl f ↦ absurd (ground (arith, h, e, f))
      | inr f ↦
          let k : find? (is_called t) defs ≡ some d = ground (arith, h, e, f) in
          elim (Option-cases (find? (has_id_of console (build_command_id console t)) defs)) [
            | inl g ↦ ground (
              arith,
              e,
              f,
              c,
              g,
              get-by_id console (build_command_id console t) defs u,
              get_command_def-called console t defs d u k,
            )
            | inr (d', g) ↦
                let same = named-id console t defs d' u g in
                ground (
                  arith,
                  e,
                  f,
                  c,
                  g,
                  same,
                  k,
                  get-by_id console (build_command_id console t) defs u,
                )
          ]
    ]
    | inr e ↦ elim (Option-cases (find? (has_id_of console s) defs)) [
      | inr (d', g) ↦ ground (arith, h, e, g, get-by_id console s defs u)
      | inl g ↦ elim (Bool-cases (str_eq t "")) [
        | inl f ↦ absurd (ground (arith, h, e, f, g))
        | inr f ↦
            let k : find? (is_called t) defs ≡ some d = ground (arith, h, e, f, g) in
            ground (
              arith,
              e,
              f,
              g,
              get-by_id console s defs u,
              get_command_def-called console t defs d u k,
            )
      ]
    ]
  ]
