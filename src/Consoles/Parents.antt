-- ===== src/Consoles/Parents.antt =====
-- When `register_all` accepts the consoles (consoles/registry.py).
use python_tty.Prelude.{
  ◌≡◌, refl, ◌∙◌, String, Bool, true, false, ◌||◌, some, [], ◌∷◌, str_eq, eq_iff, all, arith,
}
use python_tty.Prelude.Dict.{Dict, get, contains, put, get-put}
use python_tty.Models.{Outcome, returned, raised}
use python_tty.Consoles.{
  ConsoleClass, SubConsoleEntry, ConsoleRegistry, register_subs, check_parents, register_all,
}

contains-register_subs :
    (k : String) (d : Dict SubConsoleEntry) (m : Dict ConsoleClass)
    → contains k (register_subs d m) ≡ (contains k d || contains k m)
unfolding register_subs get
contains-register_subs k [] m = refl
contains-register_subs k ((n, e) ∷ d) m = ground (
  arith,
  contains-register_subs k d (put n e.console_cls m),
  get-put n k e.console_cls m,
  eq_iff n k,
)

abbrev pub has_returned : {A : Type 0} → Outcome A → Bool
has_returned (returned a) = true
has_returned (raised x) = false

has_returned-check_parents :
    (d : Dict SubConsoleEntry) (m : Dict ConsoleClass)
    → has_returned (check_parents d m) ≡ all (λ e. contains e.1.parent_name m) d
unfolding check_parents
has_returned-check_parents [] m = refl
has_returned-check_parents ((n, e) ∷ d) m = ground (arith, has_returned-check_parents d m)

all-same :
    (p q : String × SubConsoleEntry → Bool) (d : Dict SubConsoleEntry)
    → ((e : String × SubConsoleEntry) → p e ≡ q e)
    → all p d ≡ all q d
all-same p q [] h = refl
all-same p q (e ∷ d) h = ground (arith, all-same p q d h, h e)

-- With a root set, `register_all` succeeds exactly where the parent of every sub console is the
-- root, another sub console or a console that the manager has already, in whatever order they were
-- declared.
has_returned-register_all :
    (c : ConsoleClass) (r : String) (s : ConsoleRegistry) (m : Dict ConsoleClass)
    → s.root ≡ some (c, r)
    → has_returned (register_all s m).1
      ≡ all
          (λ e.
            contains e.1.parent_name s.subs
            || (str_eq r e.1.parent_name || contains e.1.parent_name m))
          s.subs
unfolding register_all
has_returned-register_all c r s m h =
    rw (h, register_all)
      (has_returned-check_parents s.subs (register_subs s.subs (put r c m))
        ∙ all-same _ _ s.subs (λ e. ground (
          arith,
          contains-register_subs e.1.parent_name s.subs (put r c m),
          get-put r e.1.parent_name c m,
        )))
