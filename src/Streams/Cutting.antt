-- ===== src/Streams/Cutting.antt =====
-- Lists that are cut at the first element that passes a test, and lists that lose one element.
use python_tty.Prelude.{
  ℕ, suc, ◌≡◌, refl, Bool, true, false, ◌||◌, none, some, List, [], ◌∷◌, ◌++◌, if◌then◌else◌, ◌==◌,
  arith, count, inl, inr, Bool-cases, Option-cases, remove_first,
}

module _ {ℓ} {A : Type ℓ} (p : A → Bool) where
  -- The elements up to and with the first that passes the test.
  abbrev pub up_to : List A → List A
  up_to [] = []
  up_to (x ∷ xs) = if p x then x ∷ [] else x ∷ up_to xs

  abbrev pub any : List A → Bool
  any [] = false
  any (x ∷ xs) = p x || any xs

  pub any-snoc : (xs : List A) (x : A) → any xs ≡ false → any (xs ++ x ∷ []) ≡ p x
  any-snoc [] x h = ground arith
  any-snoc (y ∷ xs) x h = ground (arith, any-snoc xs x, h)

  -- The first element that passes is where the list is cut.
  pub up_to-append :
      (xs : List A) (x : A) (ys : List A)
      → any xs ≡ false
      → p x ≡ true
      → (up_to (xs ++ x ∷ ys) ≡ xs ++ x ∷ []) × (any (xs ++ x ∷ ys) ≡ true)
  up_to-append [] x ys h px = ground (arith, px)
  up_to-append (y ∷ xs) x ys h px = ground (arith, up_to-append xs x ys, h, px)

  pub up_to-any :
      (xs ys : List A) → any xs ≡ true → (up_to (xs ++ ys) ≡ up_to xs) × (any (xs ++ ys) ≡ true)
  up_to-any [] ys h = ground (arith, h)
  up_to-any (x ∷ xs) ys h = ground (arith, up_to-any xs ys, h)

pub remove_first-count :
    (a : ℕ) (xs ys : List ℕ)
    → remove_first (λ q. q == a) xs ≡ some ys
    → count (λ x. x == a) xs ≡ suc (count (λ x. x == a) ys)
unfolding remove_first
remove_first-count a [] ys h = ground arith
remove_first-count a (x ∷ xs) ys h = elim (Bool-cases (x == a)) [
  | inl e ↦ ground (arith, e, h)
  | inr e ↦ elim (Option-cases (remove_first (λ q. q == a) xs)) [
    | inl n ↦ ground (arith, e, h, n)
    | inr (zs, f) ↦ ground (arith, e, h, f, remove_first-count a xs zs f)
  ]
]

pub remove_first-none :
    (a : ℕ) (xs : List ℕ) → remove_first (λ q. q == a) xs ≡ none → count (λ x. x == a) xs ≡ 0
unfolding remove_first
remove_first-none a [] h = refl
remove_first-none a (x ∷ xs) h = elim (Option-cases (remove_first (λ q. q == a) xs)) [
  | inl n ↦ ground (arith, h, n, remove_first-none a xs n)
  | inr (zs, f) ↦ ground (arith, h, f)
]
