-- ===== src/Commands/Collecting.antt =====
-- src/python_tty/commands/registry.py and core.py: what was collected of a console's commands is what a
-- commands object of the console collects after it.
use python_tty.Prelude.{
  ◌≡◌, refl, sym, ap, ◌∙◌, String, Bool, true, false, Option, none, some, List, [], ◌∷◌, ◌++◌,
  or_else, arith, Option-cases, inl, inr,
}
use python_tty.Prelude.Dict.{get}
use python_tty.Commands.{CommandDef}
use python_tty.Commands.Declaring.{
  CommandRegistry, get_commands_cls, collect_from_commands_cls, collect-twice,
  get_command_defs_for_console, init_funcs,
}

-- A class of commands is bound to the console, and there is no command for it.
abbrev pub is_bound_empty : {Fn : Type 0} → Option String → List (CommandDef Fn) → Bool
is_bound_empty (some c) [] = true
is_bound_empty _ _ = false

module _ {Fn : Type 0} (members : String → List (CommandDef Fn)) where
  -- A console's definitions, or those of the class `own` where it has none.
  abbrev pub defs_or :
      String → CommandRegistry Fn × List (CommandDef Fn) → CommandRegistry Fn × List (CommandDef Fn)
  defs_or own (r, []) = collect_from_commands_cls members own r
  defs_or own (r, d ∷ ds) = (r, d ∷ ds)

  -- A class that was collected stays as it was collected, and nothing else of the registry changes.
  collect-classes :
      (c : String) (r : CommandRegistry Fn)
      → (collect_from_commands_cls members c r).0.console_command_classes
        ≡ r.console_command_classes
  unfolding collect_from_commands_cls
  collect-classes c r = elim (Option-cases (get c r.commands_defs)) [
    | inl e ↦ rw e refl
    | inr (defs, e) ↦ rw e refl
  ]

  collect-console_defs :
      (c : String) (r : CommandRegistry Fn)
      → (collect_from_commands_cls members c r).0.console_defs ≡ r.console_defs
  unfolding collect_from_commands_cls
  collect-console_defs c r = elim (Option-cases (get c r.commands_defs)) [
    | inl e ↦ rw e refl
    | inr (defs, e) ↦ rw e refl
  ]

  defs-unbound :
      (c : String) (r : CommandRegistry Fn)
      → get c r.console_command_classes ≡ none
      → get_command_defs_for_console members c r ≡ (r, or_else (get c r.console_defs) [])
  unfolding get_command_defs_for_console
  defs-unbound c r e = rw e refl

  defs-bound :
      (c own : String) (r : CommandRegistry Fn)
      → get c r.console_command_classes ≡ some own
      → get_command_defs_for_console members c r ≡ (
        (collect_from_commands_cls members own r).0,
        (collect_from_commands_cls members own r).1 ++ or_else (get c r.console_defs) [],
      )
  unfolding get_command_defs_for_console
  defs-bound c own r e = rw (e, collect-console_defs own r) refl

  init_funcs-defs_or :
      (own c : String) (r : CommandRegistry Fn)
      → init_funcs members own c r ≡ defs_or own (get_command_defs_for_console members c r)
  unfolding init_funcs
  init_funcs-defs_or own c r = refl

  bound-again :
      (c own : String) (r : CommandRegistry Fn) (d : CommandDef Fn) (ds : List (CommandDef Fn))
      → get c r.console_command_classes ≡ some own
      → (collect_from_commands_cls members own r).1 ++ or_else (get c r.console_defs) [] ≡ d ∷ ds
      → (let r' = (collect_from_commands_cls members own r).0 in
          init_funcs members own c r' ≡ (r', d ∷ ds))
  bound-again c own r d ds e f =
      let x = collect_from_commands_cls members own r in
      let e' : get c x.0.console_command_classes ≡ some own = rw (collect-classes own r) e in
      let f' : (collect_from_commands_cls members own x.0).1 ++ or_else (get c x.0.console_defs) []
          ≡ d ∷ ds =
        rw (collect-twice members own r, collect-console_defs own r) f in
      init_funcs-defs_or own c x.0
      ∙ ap (defs_or own) (
          defs-bound c own x.0 e'
          ∙ ap (λ l. ((collect_from_commands_cls members own x.0).0, l)) f'
          ∙ ap (λ y. (y.0, d ∷ ds)) (collect-twice members own r))

  module _ (default : String) where
    unbound-again :
        (c : String) (r : CommandRegistry Fn) (defs : List (CommandDef Fn))
        → get c r.console_command_classes ≡ none
        → or_else (get c r.console_defs) [] ≡ defs
        → (let x = defs_or default (r, defs) in init_funcs members default c x.0 ≡ x)
    unbound-again c r [] e f =
        let x = collect_from_commands_cls members default r in
        let e' : get c x.0.console_command_classes ≡ none = rw (collect-classes default r) e in
        let f' : or_else (get c x.0.console_defs) [] ≡ [] = rw (collect-console_defs default r) f in
        init_funcs-defs_or default c x.0
        ∙ ap (defs_or default) (defs-unbound c x.0 e' ∙ ap (λ l. (x.0, l)) f')
        ∙ collect-twice members default r
    unbound-again c r (d ∷ ds) e f =
        init_funcs-defs_or default c r
        ∙ ap (defs_or default) (defs-unbound c r e ∙ ap (λ l. (r, l)) f)

    unbound-own :
        (c : String) (r : CommandRegistry Fn) (defs : List (CommandDef Fn))
        → get c r.console_command_classes ≡ none
        → get c (defs_or default (r, defs)).0.console_command_classes ≡ none
    unbound-own c r [] e = rw (collect-classes default r) e
    unbound-own c r (d ∷ ds) e = e

    bound-own :
        (c own : String) (r : CommandRegistry Fn) (defs : List (CommandDef Fn))
        → get c r.console_command_classes ≡ some own
        → (collect_from_commands_cls members own r).1 ++ or_else (get c r.console_defs) [] ≡ defs
        → is_bound_empty (some own) defs ≡ false
        → (let x = defs_or default ((collect_from_commands_cls members own r).0, defs) in
            init_funcs members (or_else (get_commands_cls c x.0) default) c x.0 ≡ x)
    bound-own c own r [] e f h = absurd (ground (arith, h))
    bound-own c own r (d ∷ ds) e f h = rw (collect-classes own r, e) (bound-again c own r d ds e f)

    -- The commands of a class, once looked up, are those that a commands object of it collects, unless
    -- the class is bound to commands of which there are none.
    pub init_funcs-again :
        (c : String) (r : CommandRegistry Fn)
        → is_bound_empty (get_commands_cls c r) (get_command_defs_for_console members c r).1 ≡ false
        → (let x = defs_or default (get_command_defs_for_console members c r) in
            init_funcs members (or_else (get_commands_cls c x.0) default) c x.0 ≡ x)
    init_funcs-again c r h = elim (Option-cases (get_commands_cls c r)) [
      | inl e ↦
          let defs = or_else (get c r.console_defs) [] in
          rw (defs-unbound c r e, unbound-own c r defs e) (unbound-again c r defs e refl)
      | inr (own, e) ↦
          let defs =
            (collect_from_commands_cls members own r).1 ++ or_else (get c r.console_defs) [] in
          let h' : is_bound_empty (some own) defs ≡ false =
            ap (λ o. is_bound_empty o defs) (sym e)
            ∙ ap (λ y. is_bound_empty (get_commands_cls c r) y.1) (sym (defs-bound c own r e))
            ∙ h in
          rw (defs-bound c own r e) (bound-own c own r defs e refl h')
    ]
