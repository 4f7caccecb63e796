-- ===== src/Factory/Sinks.antt =====
-- src/python_tty/console_factory.py: the task of the factory's sink, and the loops on which it lives.
use python_tty.Prelude.{
  ℕ, ◌≡◌, refl, ap, ◌∙◌, true, false, Option, none, some, List, [], ◌∷◌, arith, is_some, ◌⊎◌, ◌==◌,
  ==_iff, Bool-cases, inl, inr,
}
use python_tty.Factory.{is_stopped, less}

abbrev pub sink_list : Option ℕ → List ℕ
sink_list none = []
sink_list (some l) = l ∷ []

-- The tasks of a sink: the one on its loop, or none once that loop was told to stop.
abbrev pub IsSunk : Option ℕ → List ℕ → List ℕ → Type 0
IsSunk sink tasks stops =
    (tasks ≡ sink_list sink)
    ⊎ ((l : ℕ) × (sink ≡ some l) × (tasks ≡ []) × (is_stopped l stops ≡ true))

pub IsSunk-none :
    (o : Option ℕ) (tasks stops : List ℕ) → is_some o ≡ false → IsSunk o tasks stops → tasks ≡ []
IsSunk-none none tasks stops e (inl q) = q
IsSunk-none none tasks stops e (inr (l, a, b, c)) = b
IsSunk-none (some l) tasks stops e x = absurd (ground (arith, e))

pub IsSunk-more :
    (k : ℕ) (o : Option ℕ) (tasks stops : List ℕ)
    → IsSunk o tasks stops
    → IsSunk o tasks (k ∷ stops)
IsSunk-more k o tasks stops (inl q) = inl q
IsSunk-more k o tasks stops (inr (l, a, b, c)) = inr (l, a, b, ground (arith, c))

-- Ending a loop that was told to stop ends the sink's task, if it is on that loop.
pub IsSunk-less :
    (l : ℕ) (o : Option ℕ) (tasks stops : List ℕ)
    → is_stopped l stops ≡ true
    → IsSunk o tasks stops
    → IsSunk o (less l tasks) stops
IsSunk-less l o tasks stops h (inr (k, a, b, c)) = inr (k, a, ap (less l) b, c)
IsSunk-less l none tasks stops h (inl q) = inl (ap (less l) q)
IsSunk-less l (some k) tasks stops h (inl q) = elim (Bool-cases (k == l)) [
  | inl e ↦ inr (
    k,
    refl,
    ap (less l) q ∙ ground (arith, e),
    ap (λ j. is_stopped j stops) ((==_iff k l).0 e) ∙ h,
  )
  | inr e ↦ inl (ap (less l) q ∙ ground (arith, e))
]
