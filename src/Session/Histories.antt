-- ===== src/Session/Histories.antt =====
-- Sequences of calls of the session store's methods (session/store.py).
use python_tty.Models.{Outcome}
use python_tty.Prelude.{Bool, if◌then◌else◌, ℕ, refl, String, true, false, List, [], ◌∷◌}
use python_tty.Prelude.Dict.{contains}
use python_tty.Session.{
  SessionState, SessionStore, SessionStatus, create, close, touch, add_run, remove, gc,
}
use python_tty.Session.Expiry.{
  IsNamed, put-IsNamed, pop-IsNamed, update-IsNamed, expire_all-IsNamed,
}

-- The methods that change a store.
pub data Call (Any : Type 0) : Type 0 where
  creates : SessionState Any → Call Any
  closes : ℕ → String → SessionStatus → Call Any
  touches : ℕ → String → Call Any
  adds_run : String → String → Call Any
  removes : String → Call Any
  collects : ℕ → Call Any

module _ {Any : Type 0} where
  abbrev pub step : Call Any → SessionStore Any → SessionStore Any
  step (creates t) s = (create t s).0
  step (closes now k status) s = close now k status s
  step (touches ts k) s = touch ts k s
  step (adds_run k r) s = add_run k r s
  step (removes k) s = (remove k s).0
  step (collects now) s = (gc now s).0

  abbrev pub steps : List (Call Any) → SessionStore Any → SessionStore Any
  steps [] s = s
  steps (c ∷ cs) s = steps cs (step c s)

  chosen :
      (b : Bool) (x y : SessionStore Any × Outcome (Unit {0}))
      → IsNamed x.0.sessions
      → IsNamed y.0.sessions
      → IsNamed (if b then x else y).0.sessions
  chosen true x y m n = m
  chosen false x y m n = n

  step-IsNamed :
      (c : Call Any) (s : SessionStore Any) → IsNamed s.sessions → IsNamed (step c s).sessions
  unfolding create close touch add_run remove gc
  step-IsNamed (creates t) s n =
      chosen (contains t.session_id s.sessions) _ _ n (put-IsNamed t.session_id t s.sessions refl n)
  step-IsNamed (closes now k status) s n = update-IsNamed k _ s (λ t. refl) n
  step-IsNamed (touches ts k) s n = update-IsNamed k _ s (λ t. refl) n
  step-IsNamed (adds_run k r) s n = update-IsNamed k _ s (λ t. refl) n
  step-IsNamed (removes k) s n = pop-IsNamed k s.sessions n
  step-IsNamed (collects now) s n = expire_all-IsNamed _ s n

  -- From a store where each session stands once under its own identifier, every sequence of calls
  -- of the store's methods leads to such a store.
  steps-IsNamed :
      (cs : List (Call Any)) (s : SessionStore Any)
      → IsNamed s.sessions
      → IsNamed (steps cs s).sessions
  steps-IsNamed [] s n = n
  steps-IsNamed (c ∷ cs) s n = steps-IsNamed cs (step c s) (step-IsNamed c s n)
