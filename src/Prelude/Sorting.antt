-- ===== src/Prelude/Sorting.antt =====
-- `list.sort` with a key: an insertion sort gives the same list, since both are stable. What an
-- order's test is, and that a sorted list does not depend on the order it was given in.
use mathlib.Core.Bool.{Bool, true, false, ◌&&◌}
use mathlib.Core.List.{List, [], ◌∷◌, map}
use mathlib.Core.Path.{◌≡◌, refl, ap, ◌∙◌}
use native.Mathlib.Omega.{arith}
use python_tty.Prelude.Lists.{all}
use python_tty.Prelude.Tests.{if◌then◌else◌, Bool-cases}
use mathlib.Core.Logic.{inl, inr}

-- A test `a <= b` that is total and transitive.
pub record IsOrder {ℓ} {A : Type ℓ} (le : A → A → Bool) : Type ℓ where
  pub total : (a b : A) → le a b ≡ false → le b a ≡ true
  pub trans : (a b c : A) → le a b ≡ true → le b c ≡ true → le a c ≡ true

-- One list is another in a different order.
pub data Permutes {ℓ} {A : Type ℓ} : List A → List A → Type ℓ where
  same : {xs : List A} → Permutes xs xs
  skip : (x : A) {xs ys : List A} → Permutes xs ys → Permutes (x ∷ xs) (x ∷ ys)
  swap : (x y : A) {xs : List A} → Permutes (x ∷ y ∷ xs) (y ∷ x ∷ xs)
  chain : {xs ys zs : List A} → Permutes xs ys → Permutes ys zs → Permutes xs zs

pub Permutes-sym {ℓ} : {A : Type ℓ} {xs ys : List A} → Permutes xs ys → Permutes ys xs
Permutes-sym same = same
Permutes-sym (skip x p) = skip x (Permutes-sym p)
Permutes-sym (swap x y) = swap y x
Permutes-sym (chain p q) = chain (Permutes-sym q) (Permutes-sym p)

pub Permutes-map {ℓ κ} :
    {A : Type ℓ} {B : Type κ} (f : A → B) {xs ys : List A}
    → Permutes xs ys
    → Permutes (map f xs) (map f ys)
Permutes-map f same = same
Permutes-map f (skip x p) = skip (f x) (Permutes-map f p)
Permutes-map f (swap x y) = swap (f x) (f y)
Permutes-map f (chain p q) = chain (Permutes-map f p) (Permutes-map f q)

module _ {ℓ} {A : Type ℓ} where
  pub all-Permutes :
      (p : A → Bool) {xs ys : List A} → Permutes xs ys → all p xs ≡ true → all p ys ≡ true
  all-Permutes p same h = h
  all-Permutes p (skip x {xs} {ys} q) h = ground (arith, all-Permutes p q)
  all-Permutes p (swap x y) h = ground arith
  all-Permutes p (chain q r) h = all-Permutes p r (all-Permutes p q h)

module _ {ℓ} {A : Type ℓ} (le : A → A → Bool) where
  unfoldable pub insert : A → List A → List A
  insert x [] = x ∷ []
  insert x (y ∷ ys) = if le x y then x ∷ y ∷ ys else y ∷ insert x ys

  unfoldable pub sort : List A → List A
  unfolding insert
  sort [] = []
  sort (x ∷ xs) = insert x (sort xs)

  abbrev pub is_sorted : List A → Bool
  is_sorted [] = true
  is_sorted (x ∷ xs) = all (le x) xs && is_sorted xs

  insert-Permutes : (x : A) (ys : List A) → Permutes (insert x ys) (x ∷ ys)
  unfolding insert
  insert-Permutes x [] = same
  insert-Permutes x (y ∷ ys) = elim (Bool-cases (le x y)) [
    | inl e ↦ rw e same
    | inr e ↦ rw e (chain (skip y (insert-Permutes x ys)) (swap y x))
  ]

  pub sort-Permutes : (xs : List A) → Permutes (sort xs) xs
  unfolding sort
  sort-Permutes [] = same
  sort-Permutes (x ∷ xs) = chain (insert-Permutes x (sort xs)) (skip x (sort-Permutes xs))

  -- No two elements are alike for the order.
  abbrev pub apart : A → A → Bool
  apart x y = if le x y then (if le y x then false else true) else true

  abbrev pub all_apart : List A → Bool
  all_apart [] = true
  all_apart (x ∷ xs) = all (apart x) xs && all_apart xs

  all_apart-Permutes : {xs ys : List A} → Permutes xs ys → all_apart xs ≡ true → all_apart ys ≡ true
  all_apart-Permutes same h = h
  all_apart-Permutes (skip x {xs} {ys} q) h =
      ground (arith, all_apart-Permutes q, all-Permutes (apart x) q)
  all_apart-Permutes (swap x y) h = ground arith
  all_apart-Permutes (chain q r) h = all_apart-Permutes r (all_apart-Permutes q h)

  module _ (o : IsOrder le) where
    all_trans :
        (x y : A) (ys : List A) → le x y ≡ true → all (le y) ys ≡ true → all (le x) ys ≡ true
    all_trans x y [] h a = refl
    all_trans x y (z ∷ zs) h a = ground (arith, all_trans x y zs, o.trans x y z)

    all-insert :
        (x y : A) (ys : List A)
        → le y x ≡ true
        → all (le y) ys ≡ true
        → all (le y) (insert x ys) ≡ true
    unfolding insert
    all-insert x y [] h a = ground arith
    all-insert x y (z ∷ zs) h a = ground (arith, all-insert x y zs)

    insert-sorted : (x : A) (ys : List A) → is_sorted ys ≡ true → is_sorted (insert x ys) ≡ true
    unfolding insert
    insert-sorted x [] h = refl
    insert-sorted x (y ∷ ys) h =
        ground (arith, insert-sorted x ys, all_trans x y ys, all-insert x y ys, o.total x y)

    pub sort-sorted : (xs : List A) → is_sorted (sort xs) ≡ true
    unfolding sort
    sort-sorted [] = refl
    sort-sorted (x ∷ xs) = insert-sorted x (sort xs) (sort-sorted xs)

    -- Two elements that the order tells apart are inserted in either order.
    insert_comm :
        (x y : A) (zs : List A)
        → (le x y && le y x) ≡ false
        → insert x (insert y zs) ≡ insert y (insert x zs)
    unfolding insert
    insert_comm x y [] h = ground (arith, o.total x y)
    insert_comm x y (z ∷ zs) h = ground (
      arith,
      insert_comm x y zs,
      o.total x y,
      o.total y z,
      o.total x z,
      o.trans x y z,
      o.trans y x z,
      o.trans x z y,
      o.trans y z x,
    )

    -- The sorted list does not depend on the order of the list, where the key tells elements apart.
    pub sort-same : {xs ys : List A} → Permutes xs ys → all_apart xs ≡ true → sort xs ≡ sort ys
    unfolding sort
    sort-same same h = refl
    sort-same (skip x q) h = ap (insert x) (sort-same q (ground arith))
    sort-same (swap x y {xs}) h = insert_comm x y (sort xs) (ground arith)
    sort-same (chain q r) h = sort-same q h ∙ sort-same r (all_apart-Permutes q h)
