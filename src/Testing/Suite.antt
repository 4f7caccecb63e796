-- ===== src/Testing/Suite.antt =====
-- src/python_tty/testing/discovery.py: a suite has one case for each identifier, in order.
use python_tty.Prelude.{
  ◌≡◌, refl, ap, ◌∙◌, String, Bool, true, ◌&&◌, List, [], ◌∷◌, str_eq, eq_iff, eq_refl, arith, all,
  Bool-cases, inl, inr,
}
use python_tty.Prelude.Dict.{Dict, get, put, values, get-put, IsDict, put-IsDict}
use python_tty.Prelude.Sorting.{sort, insert, sort-sorted, is_sorted}
use python_tty.Prelude.Texts.{text_le, key-IsOrder, text_le_refl}
use python_tty.Commands.Lookup.{find_last, or_last}
use python_tty.Testing.{DiscoveredTestCase, by_id, dedupe, new_suite, get_case}

module _ {A : Type 0} (key : A → String) where
  abbrev pub le_key : A → A → Bool
  le_key a b = text_le (key a) (key b)

  abbrev pub has_key : String → A → Bool
  has_key i a = str_eq (key a) i

  find_last-insert :
      (i : String) (x : A) (ys : List A)
      → find_last (has_key i) (insert le_key x ys) ≡ find_last (has_key i) (x ∷ ys)
  unfolding insert
  find_last-insert i x [] = refl
  find_last-insert i x (y ∷ ys) =
      ground
        (arith, find_last-insert i x ys, eq_iff (key x) i, eq_iff (key y) i, text_le_refl (key x))

  -- A stable sort keeps the last element of each key.
  pub find_last-sort :
      (i : String) (xs : List A) → find_last (has_key i) (sort le_key xs) ≡ find_last (has_key i) xs
  unfolding sort
  find_last-sort i [] = refl
  find_last-sort i (x ∷ xs) =
      find_last-insert i x (sort le_key xs) ∙ ground (arith, find_last-sort i xs)

  -- Each entry has its own key.
  abbrev pub is_keyed : Dict A → Bool
  is_keyed [] = true
  is_keyed ((k, v) ∷ d) = str_eq (key v) k && is_keyed d

  put-is_keyed : (v : A) (d : Dict A) → is_keyed d ≡ true → is_keyed (put (key v) v d) ≡ true
  unfolding put
  put-is_keyed v [] h = rw (eq_refl (key v)) refl
  put-is_keyed v ((j, w) ∷ d) h =
      ground (arith, put-is_keyed v d, eq_iff j (key v), eq_iff (key v) j)

  all-put :
      (a v : A) (d : Dict A)
      → le_key a v ≡ true
      → all (le_key a) (values d) ≡ true
      → all (le_key a) (values (put (key v) v d)) ≡ true
  unfolding put
  all-put a v [] h k = ground arith
  all-put a v ((j, w) ∷ d) h k = ground (arith, all-put a v d)

  all-same :
      (v w : A) (xs : List A) → key w ≡ key v → all (le_key w) xs ≡ true → all (le_key v) xs ≡ true
  all-same v w [] e h = refl
  all-same v w (x ∷ xs) e h = ground (arith, all-same v w xs e, ap (λ k. text_le k (key x)) e)

  put-sorted :
      (v : A) (d : Dict A)
      → is_keyed d ≡ true
      → is_sorted le_key (values d) ≡ true
      → all (λ w. le_key w v) (values d) ≡ true
      → is_sorted le_key (values (put (key v) v d)) ≡ true
  unfolding put
  put-sorted v [] k h b = refl
  put-sorted v ((j, w) ∷ d) k h b = elim (Bool-cases (str_eq j (key v))) [
    | inl e ↦
        let same : key w ≡ key v =
          (eq_iff (key w) j).0 (ground (arith, k)) ∙ (eq_iff j (key v)).0 e in
        let a : all (le_key v) (values d) ≡ true =
          all-same v w (values d) same (ground (arith, h)) in
        rw e (rw a (ground (arith, h)))
    | inr e ↦
        let a : all (le_key w) (values (put (key v) v d)) ≡ true =
          all-put w v d (ground (arith, b)) (ground (arith, h)) in
        rw e (rw a (put-sorted v d (ground (arith, k)) (ground (arith, h)) (ground (arith, b))))
  ]

  -- Every entry of a list is below the rest of a sorted one.
  all-below :
      (v : A) (xs : List A) (ys : List A)
      → all (λ w. all (le_key w) (v ∷ ys)) xs ≡ true
      → (all (λ w. le_key w v) xs ≡ true) × (all (λ w. all (le_key w) ys) xs ≡ true)
  all-below v [] ys h = (refl, refl)
  all-below v (x ∷ xs) ys h =
      let (a, b) = all-below v xs ys (ground (arith, h)) in
      (ground (arith, h, a), ground (arith, h, b))

  all-put_any :
      (p : A → Bool) (k : String) (v : A) (d : Dict A)
      → p v ≡ true
      → all p (values d) ≡ true
      → all p (values (put k v d)) ≡ true
  unfolding put
  all-put_any p k v [] h a = ground (arith, h)
  all-put_any p k v ((j, w) ∷ d) h a = ground (arith, all-put_any p k v d)

module _ {Fn Any : Type 0} where
  abbrev pub id_of : DiscoveredTestCase Fn Any → String
  id_of c = c.command_id

  -- What the loop of the constructor keeps, with the cases that are left.
  record IsDeduped (d : Dict (DiscoveredTestCase Fn Any)) (cs : List (DiscoveredTestCase Fn Any))
      : Type 0 where
    keyed : is_keyed id_of d ≡ true
    once : IsDict d
    sorted : is_sorted by_id (values d) ≡ true
    below : all (λ w. all (by_id w) cs) (values d) ≡ true
    rest : is_sorted by_id cs ≡ true

  dedupe-IsDeduped :
      (cs : List (DiscoveredTestCase Fn Any)) (d : Dict (DiscoveredTestCase Fn Any))
      → IsDeduped d cs
      → IsDeduped (dedupe cs d) []
  unfolding dedupe
  dedupe-IsDeduped [] d v = v
  dedupe-IsDeduped (c ∷ cs) d v =
      let (a, b) = all-below id_of c (values d) cs v.below in
      dedupe-IsDeduped cs (put c.command_id c d) (record {
        keyed = put-is_keyed id_of c d v.keyed;
        once = put-IsDict c.command_id c d v.once;
        sorted = put-sorted id_of c d v.keyed v.sorted a;
        below =
            all-put_any id_of (λ w. all (by_id w) cs) c.command_id c d (ground (arith, v.rest)) b;
        rest = ground (arith, v.rest);
      })

  get-dedupe :
      (i : String) (cs : List (DiscoveredTestCase Fn Any)) (d : Dict (DiscoveredTestCase Fn Any))
      → get i (dedupe cs d) ≡ or_last (find_last (has_key id_of i) cs) (get i d)
  unfolding dedupe
  get-dedupe i [] d = refl
  get-dedupe i (c ∷ cs) d =
      ground (arith, get-dedupe i cs (put c.command_id c d), get-put c.command_id i c d)

  -- A suite lists its cases by identifier, each identifier once, and finds for an identifier the last
  -- case that was discovered with it, or none where there was none.
  pub new_suite_lem :
      (cases : List (DiscoveredTestCase Fn Any)) (i : String)
      → let s = new_suite cases in
        (is_sorted by_id s.cases ≡ true)
        × IsDict s.cases_by_id
        × (is_keyed id_of s.cases_by_id ≡ true)
        × (s.cases ≡ values s.cases_by_id)
        × (get_case i s ≡ find_last (has_key id_of i) cases)
  unfolding new_suite get_case get
  new_suite_lem cases i =
      let start : IsDeduped [] (sort by_id cases) = record {
        keyed = refl;
        once = tt;
        sorted = refl;
        below = refl;
        rest = sort-sorted by_id (key-IsOrder id_of) cases;
      } in
      let v = dedupe-IsDeduped (sort by_id cases) [] start in
      (
        v.sorted,
        v.once,
        v.keyed,
        refl,
        get-dedupe i (sort by_id cases) [] ∙ ground (arith, find_last-sort id_of i cases),
      )
