-- ===== src/Shell/Loop.antt =====
-- src/python_tty/consoles/manager.py: the loop over the prompt keeps the stack, and ends.
pub mod Ending
use python_tty.Prelude.{
  ℕ, suc, ◌+◌, ◌-◌, ◌≤◌, ◌<◌, ◌≡◌, refl, sym, ap, ◌∙◌, subst, String, Bool, true, false, ◌&&◌,
  Option, none, some, List, [], ◌∷◌, if◌then◌else◌, length, all, arith, if-cases,
}
use python_tty.Shell.{
  Signal, sub_console_exit, console_exit, keyboard_interrupt, value_error, key_error, console_init,
  other, Console, ConsoleManager, top_uid, bind_output_router, clean, closed, push, push_kind,
  added, accepts, current, pop,
}
use python_tty.Shell.Stacking.{
  IsStacked, bind_output_router-IsStacked, push-IsStacked, pop-IsStacked, bind_output_router-rest,
  Pops,
}
use python_tty.Shell.Turns.{
  Action, push_console, pop_console, Turn, prompt_raises, command, perform, passed_on, take_turn,
  LoopEnd, waiting, ended, escaped, then_pops, pop_each, leave, resume, after_turn, while_stacked,
  loop,
}

-- Binding the router's session keeps the stack.
pub rebound-IsStacked : (m : ConsoleManager) → IsStacked m → IsStacked (bind_output_router m)
rebound-IsStacked m s = bind_output_router-IsStacked m s.chain s.made s.forwards s.heard

-- What a manager is left with: the stack is as it was, and the shutdown is noted.
abbrev pub Leaves : ConsoleManager → ConsoleManager → Type 0
Leaves m r = IsStacked r × (r.stack ≡ m.stack) × (r.shutdown_called ≡ true)

closed-Leaves : (m : ConsoleManager) → IsStacked m → Leaves m (closed m)
unfolding closed
closed-Leaves m s =
    if-cases (Leaves m) m.has_router (record m { shutdown_called = true; bound_session = none })
      (record m { shutdown_called = true }) (λ e. (noted none, refl, refl))
      (λ e. (noted m.bound_session, refl, refl))
  where
    noted : (o : Option ℕ) → IsStacked (record m { shutdown_called = true; bound_session = o })
    noted o = record {
      chain = s.chain;
      made = s.made;
      forwards = s.forwards;
      heard = s.heard;
      bound = λ called. ground arith;
    }

counted-Leaves : (m r : ConsoleManager) (n : ℕ) → Leaves m r → Leaves m (record r { shutdowns = n })
counted-Leaves m r n (s, st, called) = (
  record {
    chain = s.chain;
    made = s.made;
    forwards = s.forwards;
    heard = s.heard;
    bound = s.bound;
  },
  st,
  called,
)

pub clean-Leaves : (m : ConsoleManager) → IsStacked m → Leaves m (clean m)
unfolding clean
clean-Leaves m s =
    let counted = record (closed m) { shutdowns = suc (closed m).shutdowns } in
    if-cases (Leaves m) m.shutdown_called m (if m.has_shutdown then counted else closed m)
      (λ e. (s, refl, e))
      (λ e.
        if-cases (Leaves m) m.has_shutdown counted (closed m)
          (λ e'. counted-Leaves m (closed m) (suc (closed m).shutdowns) (closed-Leaves m s))
          (λ e'. closed-Leaves m s))

pub pop-keeps : (m : ConsoleManager) → IsStacked m → IsStacked (pop m).0
pop-keeps m s =
    let (m', e, s', len, c, d) = pop-IsStacked m s in subst (λ r. IsStacked r.0) (sym e) s'

pub perform-IsStacked :
    (actions : List Action) (m : ConsoleManager) → IsStacked m → IsStacked (perform actions m)
unfolding perform
perform-IsStacked [] m s = s
perform-IsStacked (push_console n ∷ rest) m s =
    perform-IsStacked rest (push n m).0 (push-IsStacked n m s)
perform-IsStacked (pop_console ∷ rest) m s = perform-IsStacked rest (pop m).0 (pop-keeps m s)

pub take_turn-IsStacked :
    (t : Turn) (m : ConsoleManager) → IsStacked m → IsStacked (take_turn t m).0
unfolding take_turn
take_turn-IsStacked (prompt_raises x) m s = s
take_turn-IsStacked (command actions ends) m s = perform-IsStacked actions m s

length-zero {ℓ} : {A : Type ℓ} (xs : List A) → length xs ≡ 0 → xs ≡ []
length-zero [] h = refl
length-zero (x ∷ xs) h = absurd (omega (arith, h))

-- Popping as often as the stack is long empties it and raises nothing.
pub pop_each-IsStacked :
    (cs : List Console) (m : ConsoleManager)
    → IsStacked m
    → length m.stack ≡ length cs
    → (m' : ConsoleManager) × (pop_each cs m ≡ (m', none)) × IsStacked m' × (m'.stack ≡ [])
unfolding pop_each
pop_each-IsStacked [] m s h = (m, refl, s, length-zero m.stack h)
pop_each-IsStacked (c ∷ cs) m s h =
    let (m1, e1, s1, len, x, y) = pop-IsStacked m s in
    let (m2, e2, s2, empty) = pop_each-IsStacked cs m1 s1 (omega (arith, len, h)) in
    (m2, rw (e1, e2) refl, s2, empty)
