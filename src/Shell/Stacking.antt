-- ===== src/Shell/Stacking.antt =====
-- src/python_tty/consoles/manager.py and consoles/core.py: what the stack's consoles, the forwarding
-- console, the listeners and the router's session have to do with one another.
use python_tty.Prelude.{
  ℕ, suc, ◌<◌, ◌≡◌, refl, String, Bool, true, false, Option, none, some, List, [], ◌∷◌, ◌++◌,
  remove_first, ◌==◌, All, All-append, arith, Bool-cases, inl, inr, length, if-cases, subst, ◌∙◌,
  ap, ◌-◌,
}
use python_tty.Prelude.Dict.{get}
use python_tty.Shell.{
  Signal, Console, ConsoleManager, top_uid, current, bind_output_router, with_listener, added,
  ConsoleKind, push_kind, push, accepts, console_init, clean_console, pop,
}

-- The consoles that listen, in the order in which they were made.
abbrev pub listening : List Console → List ℕ
listening [] = []
listening (c ∷ cs) = with_listener c.listens c.uid (listening cs)

-- Each console's parent is the console below it, and was made before it.
abbrev pub IsChain : List Console → Type 0
IsChain [] = Unit
IsChain (c ∷ cs) = (c.parent ≡ top_uid cs) × All (λ d. d.uid < c.uid) cs × IsChain cs

pub record IsStacked (m : ConsoleManager) : Type 0 where
  pub chain : IsChain m.stack
  pub made : All (λ c. c.uid < m.next_uid) m.stack
  pub forwards : m.forward_console ≡ top_uid m.stack
  pub heard : m.listeners ≡ listening m.stack
  pub bound : m.shutdown_called ≡ false → m.has_router ≡ true → m.bound_session ≡ top_uid m.stack

pub bind_output_router-IsStacked :
    (m : ConsoleManager)
    → IsChain m.stack
    → All (λ c. c.uid < m.next_uid) m.stack
    → m.forward_console ≡ top_uid m.stack
    → m.listeners ≡ listening m.stack
    → IsStacked (bind_output_router m)
unfolding bind_output_router
bind_output_router-IsStacked m ch md f h =
    if-cases IsStacked m.has_router (record m { bound_session = current m }) m
      (λ e. record { chain = ch; made = md; forwards = f; heard = h; bound = λ s r. refl })
      (λ e. record {
        chain = ch;
        made = md;
        forwards = f;
        heard = h;
        bound = λ s r. ground (arith, e, r);
      })

-- Binding the router's session touches nothing else.
pub bind_output_router-rest :
    (m : ConsoleManager)
    → ((bind_output_router m).stack ≡ m.stack)
      × ((bind_output_router m).shutdown_called ≡ m.shutdown_called)
      × ((bind_output_router m).shutdowns ≡ m.shutdowns)
unfolding bind_output_router
bind_output_router-rest m =
    if-cases {A = ConsoleManager}
      (λ r.
        (r.stack ≡ m.stack) × (r.shutdown_called ≡ m.shutdown_called) × (r.shutdowns ≡ m.shutdowns))
      m.has_router (record m { bound_session = current m }) m (λ e. (refl, refl, refl))
      (λ e. (refl, refl, refl))

All-later : (n : ℕ) (cs : List Console) → All (λ c. c.uid < n) cs → All (λ c. c.uid < suc n) cs
All-later n [] a = tt
All-later n (c ∷ cs) a = (omega (arith, a.0), All-later n cs a.1)

pushed-IsStacked :
    (n : String) (m : ConsoleManager) → IsStacked m → IsStacked (bind_output_router (added n m))
pushed-IsStacked n m s =
    bind_output_router-IsStacked (added n m) (refl, s.made, s.chain)
      (omega arith, All-later m.next_uid m.stack s.made) refl
      (ap (with_listener m.speaks m.next_uid) s.heard)

push_kind-IsStacked :
    (k : Option ConsoleKind) (n : String) (m : ConsoleManager)
    → IsStacked m
    → IsStacked (push_kind k n m).0
push_kind-IsStacked none n m s = s
push_kind-IsStacked (some k) n m s =
    if-cases {A = ConsoleManager × Option Signal} (λ r. IsStacked r.0) (accepts k (current m))
      (bind_output_router (added n m), none) (m, some console_init) (λ b. pushed-IsStacked n m s)
      (λ b. s)

-- Pushing a console keeps the stack, whether it raises or not.
pub push-IsStacked : (n : String) (m : ConsoleManager) → IsStacked m → IsStacked (push n m).0
unfolding push
push-IsStacked n m s = push_kind-IsStacked (get n m.registry) n m s

with_listener-All :
    (b : Bool) (n k : ℕ) (ls : List ℕ)
    → All (λ l. l < n) ls
    → k < n
    → All (λ l. l < n) (with_listener b k ls)
with_listener-All true n k ls a h = All-append (λ l. l < n) ls (k ∷ []) a (h, tt)
with_listener-All false n k ls a h = a

pub listening-All :
    (n : ℕ) (cs : List Console) → All (λ c. c.uid < n) cs → All (λ l. l < n) (listening cs)
listening-All n [] a = tt
listening-All n (c ∷ cs) a =
    with_listener-All c.listens n c.uid (listening cs) (listening-All n cs a.1) a.0

-- A number above all others is taken from the end.
remove_first-snoc :
    (n : ℕ) (ls : List ℕ)
    → All (λ l. l < n) ls
    → remove_first (λ k. k == n) (ls ++ n ∷ []) ≡ some ls
unfolding remove_first
remove_first-snoc n [] a = ground arith
remove_first-snoc n (l ∷ ls) a = ground (arith, remove_first-snoc n ls a.1, a.0)

-- What `clean_console` does to the top of the stack: it raises nothing.
abbrev without_top : Console → List Console → ConsoleManager → ConsoleManager
without_top c cs m = record m { stack = cs; forward_console = c.parent; listeners = listening cs }

clean_console-top :
    (c : Console) (cs : List Console) (m : ConsoleManager)
    → All (λ d. d.uid < c.uid) cs
    → m.forward_console ≡ some c.uid
    → m.listeners ≡ listening (c ∷ cs)
    → clean_console c (record m { stack = cs }) ≡ (without_top c cs m, none)
unfolding clean_console
clean_console-top c cs m a f h =
    let same : (c.uid == c.uid) ≡ true = ground arith in
    let removed = remove_first-snoc c.uid (listening cs) (listening-All c.uid cs a) in
    elim (Bool-cases c.listens) [
      | inl e ↦ rw (e, h, e, removed, f, same) refl
      | inr e ↦ rw (e, h, e, f, same) refl
    ]

-- What a pop leaves: it raises nothing, takes the top off, and keeps the stack.
abbrev pub Pops : ConsoleManager → Type 0
Pops m =
    (m' : ConsoleManager) × (pop m ≡ (m', none))
    × IsStacked m'
    × (length m'.stack ≡ length m.stack - 1)
    × (m'.shutdown_called ≡ m.shutdown_called)
    × (m'.shutdowns ≡ m.shutdowns)

pop-from : (m : ConsoleManager) (cs : List Console) → m.stack ≡ cs → IsStacked m → Pops m
unfolding pop
pop-from m [] e s = (m, rw e refl, s, rw e refl, refl, refl)
pop-from m (c ∷ cs) e s =
    let (up, below, ch) : IsChain (c ∷ cs) = subst IsChain e s.chain in
    let made : All (λ d. d.uid < m.next_uid) (c ∷ cs) =
      subst (All (λ d. d.uid < m.next_uid)) e s.made in
    let left = without_top c cs m in
    let (st, called, downs) = bind_output_router-rest left in
    let cleaned =
      clean_console-top c cs m below (s.forwards ∙ ap top_uid e) (s.heard ∙ ap listening e) in
    (
      bind_output_router left,
      rw (e, cleaned) refl,
      bind_output_router-IsStacked left ch made.1 up refl,
      ap length st ∙ (rw e (omega arith)),
      called,
      downs,
    )

pub pop-IsStacked : (m : ConsoleManager) → IsStacked m → Pops m
pop-IsStacked m s = pop-from m m.stack refl s
