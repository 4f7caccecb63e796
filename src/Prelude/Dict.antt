-- ===== src/Prelude/Dict.antt =====
-- Python's `dict` with text keys: an association list in insertion order. A new key goes to the
-- end, and an assignment to a key that is there keeps its place.
use Prim.Native.String.{String}
use mathlib.Core.Bool.{Bool, false}
use mathlib.Core.List.{List, [], ◌∷◌, map}
use mathlib.Core.Option.{Option, none, some}
use mathlib.Core.Path.{◌≡◌, refl}
use native.Mathlib.Omega.{arith}
use python_tty.Prelude.Tests.{if◌then◌else◌, is_some}
use text.Mathlib.Text.{◌==◌ as str_eq}
use text.Mathlib.TextEquality.{eq_iff}
use text.Mathlib.TextPositions.{eq_refl}

abbrev pub Dict {ℓ} : Type ℓ → Type ℓ
Dict A = List (String × A)

module _ {ℓ} {A : Type ℓ} where
  -- d.get(k)
  unfoldable pub get : String → Dict A → Option A
  get k [] = none
  get k ((j, v) ∷ d) = if str_eq j k then some v else get k d

  -- k in d
  abbrev pub contains : String → Dict A → Bool
  contains k d = is_some (get k d)

  -- d[k] = v
  unfoldable pub put : String → A → Dict A → Dict A
  put k v [] = (k, v) ∷ []
  put k v ((j, w) ∷ d) = if str_eq j k then (j, v) ∷ d else (j, w) ∷ put k v d

  -- d.pop(k, None); keys are distinct, so every entry of the key is the one entry
  unfoldable pub pop : String → Dict A → Dict A
  pop k [] = []
  pop k ((j, w) ∷ d) = if str_eq j k then pop k d else (j, w) ∷ pop k d

  abbrev pub keys : Dict A → List String
  keys d = map (λ e. e.0) d

  abbrev pub values : Dict A → List A
  values d = map (λ e. e.1) d

module _ {ℓ} {A : Type ℓ} where
  pub get-put :
      (k j : String) (v : A) (d : Dict A)
      → get j (put k v d) ≡ (if str_eq k j then some v else get j d)
  unfolding get put
  get-put k j v [] = refl
  get-put k j v ((i, w) ∷ d) = ground (arith, eq_iff k j, eq_iff i k, eq_iff i j, get-put k j v d)

  pub get-put_self : (k : String) (v : A) (d : Dict A) → get k (put k v d) ≡ some v
  get-put_self k v d = simp (get-put, eq_refl)

  pub get-pop :
      (k j : String) (d : Dict A) → get j (pop k d) ≡ (if str_eq k j then none else get j d)
  unfolding get pop
  get-pop k j [] = ground arith
  get-pop k j ((i, w) ∷ d) = ground (arith, eq_iff k j, eq_iff i k, eq_iff i j, get-pop k j d)

  pub get-pop_self : (k : String) (d : Dict A) → get k (pop k d) ≡ none
  get-pop_self k d = simp (get-pop, eq_refl)

pub ruleset dict_laws = (get-put, get-pop, eq_refl)

module _ {ℓ} {A : Type ℓ} where
  -- A dictionary has each key once.
  abbrev pub IsDict : Dict A → Type 0
  IsDict [] = Unit {0}
  IsDict ((k, v) ∷ d) = (contains k d ≡ false) × IsDict d

  pub put-IsDict : (k : String) (v : A) (d : Dict A) → IsDict d → IsDict (put k v d)
  unfolding put get
  put-IsDict k v [] h = (refl, tt)
  put-IsDict k v ((j, w) ∷ d) h =
      ground (arith, put-IsDict k v d h.1, get-put k j v d, eq_iff k j, eq_iff j k)

  pub pop-IsDict : (k : String) (d : Dict A) → IsDict d → IsDict (pop k d)
  unfolding pop
  pop-IsDict k [] h = tt
  pop-IsDict k ((j, w) ∷ d) h = ground (arith, pop-IsDict k d h.1, get-pop k j d)
