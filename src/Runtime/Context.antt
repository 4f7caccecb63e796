-- ===== src/Runtime/Context.antt =====
-- src/python_tty/runtime/context.py: the context variables of a run. `use_run_context` sets all of
-- them for a block and resets each to what it was, so a context is a record that a call is given.
use python_tty.Prelude.{ℕ, ◌≡◌, refl, String, Bool, false, Option, none, some}
use python_tty.Prelude.Dict.{Dict}
use python_tty.Prelude.Heap.{Heap}
use python_tty.Models.{Value}

-- `emits` says whether the current emitter is set, and `cancel_flag` is the flag's address.
pub record RunContext (Any : Type 0) : Type 0 where
  pub run_id : Option String
  pub source : Option String
  pub emits : Bool
  pub cancel_flag : Option ℕ
  pub session_id : Option String
  pub parent_run_id : Option String
  pub depth : Option ℕ
  pub origin_source : Option String
  pub principal : Option String
  pub lock_key : Option String
  pub command_id : Option String
  pub callable_meta : Option (Dict (Value Any))

-- The defaults of the variables.
abbrev pub empty_context : {Any : Type 0} → RunContext Any
empty_context = record {
  run_id = none;
  source = none;
  emits = false;
  cancel_flag = none;
  session_id = none;
  parent_run_id = none;
  depth = none;
  origin_source = none;
  principal = none;
  lock_key = none;
  command_id = none;
  callable_meta = none;
}

-- is_cancelled
unfoldable pub is_cancelled : {Any : Type 0} → RunContext Any → Heap Bool → Bool
is_cancelled c flags = elim c.cancel_flag [ none ↦ false | some a ↦ flags.cell a ]

-- The tokens of the variables, reset in the order of the source.
abbrev pub reset_all : {Any : Type 0} → RunContext Any → RunContext Any → RunContext Any
reset_all tokens c = record c {
  run_id = tokens.run_id;
  source = tokens.source;
  emits = tokens.emits;
  cancel_flag = tokens.cancel_flag;
  session_id = tokens.session_id;
  parent_run_id = tokens.parent_run_id;
  depth = tokens.depth;
  origin_source = tokens.origin_source;
  principal = tokens.principal;
  lock_key = tokens.lock_key;
  command_id = tokens.command_id;
  callable_meta = tokens.callable_meta;
}

-- use_run_context, around a block that is given the variables and may set them
unfoldable pub use_run_context {ℓ} :
    {Any : Type 0} {A : Type ℓ}
    → RunContext Any
    → (RunContext Any → RunContext Any × A)
    → RunContext Any
    → RunContext Any × A
use_run_context inner block outer = let (left, a) = block inner in (reset_all outer left, a)

-- A block, whatever it sets and whatever it raises, leaves the variables as they were, so what runs
-- within it nests and what runs after it sees the outer run.
use_run_context-nested {ℓ} :
    {Any : Type 0} {A : Type ℓ} (inner outer : RunContext Any)
    (block : RunContext Any → RunContext Any × A)
    → use_run_context inner block outer ≡ (outer, (block inner).1)
unfolding use_run_context
use_run_context-nested inner outer block = refl
