-- ===== src/Consoles/Naming.antt =====
-- Names in the console registry (consoles/registry.py).
use Prim.Native.String.append
use python_tty.Prelude.{
  ◌≡◌, refl, ◌∙◌, String, Bool, true, false, ◌&&◌, some, List, [], ◌∷◌, if◌then◌else◌, is_some,
  str_eq, eq_iff, append, arith, Bool-cases, inl, inr,
}
use python_tty.Prelude.Dict.{get, contains, get-put, IsDict, put-IsDict}
use python_tty.Models.{Outcome, returned, raised}
use python_tty.CommandIds.{after_prefix}
use python_tty.Consoles.{
  SubConsoleEntry, ConsoleClass, ConsoleRegistry, is_root_name, is_taken, add_named, add_sub,
  add_each, after, add_multi, resolve_instance_name,
}

after_prefix-append_self : (p s : String) → after_prefix p (append p s) ≡ some s
unfolding after_prefix
after_prefix-append_self String.[] s = rw (append.nil s) refl
after_prefix-append_self (String.◌∷◌ c p) s =
    rw (append.cons c p s) (ground (arith, after_prefix-append_self p s))

-- Resolving an instance's name twice under one parent gives what resolving it once gives.
resolve_instance_name_idem :
    (parent n : String)
    → resolve_instance_name parent (resolve_instance_name parent n) ≡ resolve_instance_name parent n
unfolding resolve_instance_name
resolve_instance_name_idem parent n =
    elim (Bool-cases (is_some (after_prefix (append parent "_") n))) [
      | inl h ↦ ground (arith, h)
      | inr h ↦ ground (arith, h, after_prefix-append_self (append parent "_") n)
    ]

-- Each console has its name alone: no sub console stands twice or bears the root's name.
pub record IsUniquelyNamed (s : ConsoleRegistry) : Type 0 where
  pub distinct : IsDict s.subs
  pub apart : (n : String) → (is_root_name s.root n && contains n s.subs) ≡ false

add_named-IsUniquelyNamed :
    (c : ConsoleClass) (parent n : String) (s : ConsoleRegistry)
    → IsUniquelyNamed s
    → IsUniquelyNamed (add_named c parent n s).0
unfolding add_named
add_named-IsUniquelyNamed c parent n s u = elim (Bool-cases (is_taken n s)) [
  | inl h ↦ rw (h, add_named) u
  | inr h ↦
      rw (h, add_named)
        (record {
          distinct = put-IsDict n _ s.subs u.distinct;
          apart = λ k. ground (
            arith,
            h,
            u.apart k,
            get-put n k (record { console_cls = c; parent_name = parent; name = n }) s.subs,
            eq_iff n k,
          );
        })
]

picked :
    (P : ConsoleRegistry → Type 0) (b : Bool) (x y : ConsoleRegistry × Outcome (Unit {0}))
    → P x.0
    → P y.0
    → P (if b then x else y).0
picked P true x y u v = u
picked P false x y u v = v

continued :
    (P : ConsoleRegistry → Type 0) (out : Outcome (Unit {0})) (s : ConsoleRegistry)
    (rest : ConsoleRegistry × Outcome (Unit {0}))
    → P s
    → P rest.0
    → P (after out s rest).0
continued P (raised x) s rest u v = u
continued P (returned t) s rest u v = v

-- A registry with the root of another, and with all its sub consoles as they stand there.
pub record Extends (s t : ConsoleRegistry) : Type 0 where
  pub root : t.root ≡ s.root
  pub kept : (n : String) (x : SubConsoleEntry) → get n s.subs ≡ some x → get n t.subs ≡ some x

Extends-refl : (s : ConsoleRegistry) → Extends s s
Extends-refl s = record { root = refl; kept = λ n x h. h }

Extends-trans : {s t u : ConsoleRegistry} → Extends s t → Extends t u → Extends s u
Extends-trans p q = record { root = q.root ∙ p.root; kept = λ n x h. q.kept n x (p.kept n x h) }

add_named-Extends :
    (c : ConsoleClass) (parent n : String) (s : ConsoleRegistry)
    → Extends s (add_named c parent n s).0
unfolding add_named
add_named-Extends c parent n s = elim (Bool-cases (is_taken n s)) [
  | inl h ↦ rw (h, add_named) (Extends-refl s)
  | inr h ↦
      rw (h, add_named)
        (record {
          root = refl;
          kept = λ k x g. ground (
            arith,
            h,
            g,
            get-put n k (record { console_cls = c; parent_name = parent; name = n }) s.subs,
            eq_iff n k,
          );
        })
]

add_each-Extends :
    (c : ConsoleClass) (m : List (String × String)) (s : ConsoleRegistry)
    → Extends s (add_each c m s).0
unfolding add_each
add_each-Extends c [] s = Extends-refl s
add_each-Extends c ((parent, n) ∷ m) s =
    let v = add_named-Extends c parent (resolve_instance_name parent n) s in
    let w = add_each-Extends c m (add_named c parent (resolve_instance_name parent n) s).0 in
    picked (Extends s) (str_eq parent "") _ _ (Extends-refl s) (
      picked (Extends s) (str_eq n "") _ _ (Extends-refl s)
        (continued (Extends s) _ _ _ v (Extends-trans v w)))

add_each-IsUniquelyNamed :
    (c : ConsoleClass) (m : List (String × String)) (s : ConsoleRegistry)
    → IsUniquelyNamed s
    → IsUniquelyNamed (add_each c m s).0
unfolding add_each
add_each-IsUniquelyNamed c [] s u = u
add_each-IsUniquelyNamed c ((parent, n) ∷ m) s u =
    let v = add_named-IsUniquelyNamed c parent (resolve_instance_name parent n) s u in
    picked IsUniquelyNamed (str_eq parent "") _ _ u (
      picked IsUniquelyNamed (str_eq n "") _ _ u
        (continued IsUniquelyNamed _ _ _ v (add_each-IsUniquelyNamed c m _ v)))

-- Registrations of sub consoles, singly and by several parents.
pub data Registration : Type 0 where
  single : ConsoleClass → String → Registration
  several : ConsoleClass → List (String × String) → Registration

abbrev pub registered : List Registration → ConsoleRegistry → ConsoleRegistry
registered [] s = s
registered (single c parent ∷ rs) s = registered rs (add_sub c parent s).0
registered (several c m ∷ rs) s = registered rs (add_multi c m s).0

add_multi-IsUniquelyNamed :
    (c : ConsoleClass) (m : List (String × String)) (s : ConsoleRegistry)
    → IsUniquelyNamed s
    → IsUniquelyNamed (add_multi c m s).0
unfolding add_multi
add_multi-IsUniquelyNamed c [] s u = u
add_multi-IsUniquelyNamed c (p ∷ m) s u = add_each-IsUniquelyNamed c (p ∷ m) s u

add_multi-Extends :
    (c : ConsoleClass) (m : List (String × String)) (s : ConsoleRegistry)
    → Extends s (add_multi c m s).0
unfolding add_multi
add_multi-Extends c [] s = Extends-refl s
add_multi-Extends c (p ∷ m) s = add_each-Extends c (p ∷ m) s

registered-Extends : (rs : List Registration) (s : ConsoleRegistry) → Extends s (registered rs s)
unfolding add_sub
registered-Extends [] s = Extends-refl s
registered-Extends (single c parent ∷ rs) s =
    Extends-trans (add_named-Extends c parent _ s) (registered-Extends rs (add_sub c parent s).0)
registered-Extends (several c m ∷ rs) s =
    Extends-trans (add_multi-Extends c m s) (registered-Extends rs (add_multi c m s).0)

registered-distinct :
    (rs : List Registration) (s : ConsoleRegistry)
    → IsUniquelyNamed s
    → IsUniquelyNamed (registered rs s)
unfolding add_sub
registered-distinct [] s u = u
registered-distinct (single c parent ∷ rs) s u =
    registered-distinct rs (add_sub c parent s).0 (add_named-IsUniquelyNamed c parent _ s u)
registered-distinct (several c m ∷ rs) s u =
    registered-distinct rs (add_multi c m s).0 (add_multi-IsUniquelyNamed c m s u)

-- From a registry where no sub console stands twice or bears the root's name, whatever sub consoles
-- are registered, also where a registration of several stops half way at an error, the same holds
-- afterwards, and no registration replaces another: the root, and every sub console that was
-- registered, stand under their names as before.
pub registered-IsUniquelyNamed :
    (rs : List Registration) (s : ConsoleRegistry)
    → IsUniquelyNamed s
    → IsUniquelyNamed (registered rs s) × Extends s (registered rs s)
registered-IsUniquelyNamed rs s u = (registered-distinct rs s u, registered-Extends rs s)
