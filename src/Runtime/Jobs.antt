-- ===== src/Runtime/Jobs.antt =====
-- src/python_tty/runtime/jobs.py: the job store. Run states, futures and cancel flags are shared
-- objects, so the dictionaries hold their addresses; an invocation is never changed once stored.
-- The lock makes each method one step. `now` is the reading of `time.time()`, and `current` the loop
-- that runs in the calling thread, if any.
pub mod Listing
pub mod Lifecycle
pub mod Publishing
pub mod Cleanup
pub mod Invariant
pub mod Histories
pub mod Retention
pub mod Surplus
pub mod Cancellation
use python_tty.Prelude.{
  ℕ, zero, suc, ◌+◌, ◌-◌, String, Bool, true, false, not, ◌&&◌, ◌||◌, Option, none, some, List, [],
  ◌∷◌, ◌++◌, length, drop, ltb, leb, ◌==◌, if◌then◌else◌, is_some, remove_first, or_else, ℤ, pos,
  negsuc, str_eq, map, all,
}
use Prim.Native.Nat.{Ordering}
use Prim.Native.String.{compare}
use python_tty.Prelude.Int.{bound}
use python_tty.Prelude.Heap.{Heap, write, alloc}
use python_tty.Prelude.Dict.{Dict, get, put, pop}
use python_tty.Models.{
  RunStatus, PyException, cancelled_error, exception, Value, Invocation, RunState, is_active,
  status_eq, Outcome, returned, raised,
}
use python_tty.Runtime.Events.{RuntimeEvent}
use python_tty.Runtime.EventBus.{
  RunEventBus, Queue, offer_all, publish, subscribe, unsubscribe, drop_run,
}
use python_tty.Runtime.EventBus

-- asyncio.Future
pub data Future (Any : Type 0) : Type 0 where
  waiting : Future Any
  resolved : Option Any → Future Any
  failed : PyException → Future Any
  dropped : Future Any

abbrev pub is_done : {Any : Type 0} → Future Any → Bool
is_done Future.waiting = false
is_done _ = true

pub data CancelReply : Type 0 where
  missing cancelled requested noop : CancelReply

pub record JobStore (Any : Type 0) : Type 0 where
  pub runs : Dict ℕ
  pub invocations : Dict (Invocation Any)
  pub run_futures : Dict ℕ
  pub event_seq : Dict ℕ
  pub cancel_flags : Dict ℕ
  pub event_bus : RunEventBus Any
  pub retain_last_n : Option ℤ
  pub ttl_seconds : Option ℕ
  pub loop : Option ℕ
  pub global_subscribers : List ℕ
  pub states : Heap (RunState Any)
  pub futures : Heap (Future Any)
  pub flags : Heap Bool

-- The content of a cell that nobody has allocated.
abbrev pub no_state : {Any : Type 0} → RunState Any
no_state = record {
  run_id = "";
  source = none;
  origin_source = none;
  principal = none;
  session_id = none;
  parent_run_id = none;
  depth = 0;
  command_id = none;
  callable_meta = none;
  lock_key = none;
  status = RunStatus.pending;
  result = none;
  error = none;
  started_at = none;
  finished_at = none;
}

module _ {Any : Type 0} where
  -- __init__
  unfoldable pub init : Option ℤ → Option ℕ → Option ℤ → Option ℕ → JobStore Any
  unfolding EventBus.init
  init retain_last_n ttl_seconds event_history_max event_history_ttl = record {
    runs = [];
    invocations = [];
    run_futures = [];
    event_seq = [];
    cancel_flags = [];
    event_bus = EventBus.init event_history_max event_history_ttl;
    retain_last_n = retain_last_n;
    ttl_seconds = ttl_seconds;
    loop = none;
    global_subscribers = [];
    states = record { next = 0; cell = λ _. no_state };
    futures = record { next = 0; cell = λ _. Future.waiting };
    flags = record { next = 0; cell = λ _. false };
  }

  unfoldable pub set_loop : Option ℕ → JobStore Any → JobStore Any
  set_loop l s = record s { loop = l }

  -- The RunState that `create_run` builds.
  unfoldable pub state_of_invocation : String → Invocation Any → RunState Any
  state_of_invocation run_id i = record {
    run_id = run_id;
    source = some i.source;
    origin_source = i.origin_source;
    principal = i.principal;
    session_id = i.session_id;
    parent_run_id = i.parent_run_id;
    depth = i.depth;
    command_id = i.command_id;
    callable_meta = i.callable_meta;
    lock_key = some i.lock_key;
    status = RunStatus.pending;
    result = none;
    error = none;
    started_at = none;
    finished_at = none;
  }

  abbrev pub store_run : String → Invocation Any → JobStore Any → JobStore Any
  store_run run_id i s = record s {
    runs = put run_id s.states.next s.runs;
    invocations = put run_id i s.invocations;
    cancel_flags = put run_id s.flags.next s.cancel_flags;
    states = alloc (state_of_invocation run_id i) s.states;
    flags = alloc false s.flags;
  }

  -- create_run: the address of the new run state, or the ValueError
  unfoldable pub create_run : Invocation Any → JobStore Any → JobStore Any × Outcome ℕ
  create_run i s = elim i.run_id [
    | none ↦ (s, raised (exception "Invocation run_id is required for JobStore"))
    | some run_id ↦ (store_run run_id i s, returned s.states.next)
  ]

  unfoldable pub set_future : String → ℕ → JobStore Any → JobStore Any
  set_future run_id f s = record s { run_futures = put run_id f s.run_futures }

  unfoldable pub get_future : String → JobStore Any → Option ℕ
  get_future run_id s = get run_id s.run_futures

  -- get_run_state: the object's address
  unfoldable pub get_run_state : String → JobStore Any → Option ℕ
  get_run_state run_id s = get run_id s.runs

  unfoldable pub get_invocation : String → JobStore Any → Option (Invocation Any)
  get_invocation run_id s = get run_id s.invocations

  -- get
  unfoldable pub get_job : String → JobStore Any → Option ℕ × Option (Invocation Any)
  get_job run_id s = (get run_id s.runs, get run_id s.invocations)
