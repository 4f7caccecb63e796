-- ===== src/Session.antt =====
-- src/python_tty/session/store.py, models.py and policy.py: sessions and their store. A session is
-- reached through the store alone, so the dictionary holds it by value. `now` is `time.time()`.
pub mod Expiry
pub mod Trimming
pub mod Admission
pub mod Submission
pub mod Limits
pub mod Booking
pub mod Histories
pub mod Waiting
use python_tty.Prelude.{
  ℕ, ◌+◌, String, Bool, true, false, not, ◌&&◌, Option, none, some, List, [], ◌∷◌, ◌++◌,
  if◌then◌else◌, leb, is_some, str_eq, ℤ, pos, append,
}
use python_tty.Prelude.Dict.{Dict, get, contains, put, pop}
use python_tty.Models.{Value, exception, Outcome, returned, raised}
use python_tty.Runtime.Jobs.Listing.{FilterValue, normalize_filter, excluded}

-- "session", "global", "none"
pub data LockKeyMode : Type 0 where
  by_session by_global by_none : LockKeyMode

pub record SessionPolicy : Type 0 where
  pub default_lock_key_mode : LockKeyMode
  pub max_concurrent_runs : Option ℤ
  pub default_timeout_ms : Option ℤ
  pub idle_ttl_seconds : Option ℕ

abbrev pub default_policy : SessionPolicy
default_policy = record {
  default_lock_key_mode = LockKeyMode.by_session;
  max_concurrent_runs = some (pos 8);
  default_timeout_ms = none;
  idle_ttl_seconds = some 3600000;
}

-- "OPEN", "CLOSED", "EXPIRED"
pub data SessionStatus : Type 0 where
  opened closed expired : SessionStatus

abbrev pub session_status_eq : SessionStatus → SessionStatus → Bool
session_status_eq SessionStatus.opened SessionStatus.opened = true
session_status_eq SessionStatus.closed SessionStatus.closed = true
session_status_eq SessionStatus.expired SessionStatus.expired = true
session_status_eq _ _ = false

pub record SessionState (Any : Type 0) : Type 0 where
  pub session_id : String
  pub principal : String
  pub created_at : ℕ
  pub last_activity_at : ℕ
  pub status : SessionStatus
  pub policy : SessionPolicy
  pub tags : Dict (Value Any)
  pub run_ids : List String

pub record SessionStore (Any : Type 0) : Type 0 where
  pub retain_last_n : Option ℤ
  pub sessions : Dict (SessionState Any)

pub record SessionFilters : Type 0 where
  pub status : FilterValue SessionStatus
  pub principal : FilterValue String

module _ {Any : Type 0} where
  -- __init__
  abbrev pub init : Option ℤ → SessionStore Any
  init retain_last_n = record { retain_last_n = retain_last_n; sessions = [] }

  -- create
  unfoldable pub create :
      SessionState Any → SessionStore Any → SessionStore Any × Outcome (Unit {0})
  create state s =
      if contains state.session_id s.sessions
      then (s, raised (exception (append "Session already exists: " state.session_id)))
      else (record s { sessions = put state.session_id state s.sessions }, returned tt)

  unfoldable pub get_session : String → SessionStore Any → Option (SessionState Any)
  get_session session_id s = get session_id s.sessions

  abbrev pub is_selected : SessionFilters → SessionState Any → Bool
  is_selected f state =
      not (excluded session_status_eq (normalize_filter f.status) state.status)
      && not (excluded str_eq (normalize_filter f.principal) state.principal)

  abbrev pub selected : SessionFilters → Dict (SessionState Any) → List (SessionState Any)
  selected f [] = []
  selected f ((k, state) ∷ d) = if is_selected f state then state ∷ selected f d else selected f d

  -- list
  unfoldable pub list_sessions : SessionFilters → SessionStore Any → List (SessionState Any)
  unfolding normalize_filter
  list_sessions f s = selected f s.sessions

  -- Changes the session of that identifier, if it is there.
  unfoldable pub update :
      String → (SessionState Any → SessionState Any) → SessionStore Any → SessionStore Any
  update session_id f s = elim (get session_id s.sessions) [
    | none ↦ s
    | some state ↦ record s { sessions = put session_id (f state) s.sessions }
  ]

  -- close
  unfoldable pub close : ℕ → String → SessionStatus → SessionStore Any → SessionStore Any
  unfolding update
  close now session_id status s =
      update session_id (λ state. record state { status = status; last_activity_at = now }) s

  -- touch
  unfoldable pub touch : ℕ → String → SessionStore Any → SessionStore Any
  unfolding update
  touch ts session_id s = update session_id (λ state. record state { last_activity_at = ts }) s

  -- add_run
  unfoldable pub add_run : String → String → SessionStore Any → SessionStore Any
  unfolding update
  add_run session_id run_id s =
      update session_id (λ state. record state { run_ids = state.run_ids ++ run_id ∷ [] }) s

  -- remove
  unfoldable pub remove : String → SessionStore Any → SessionStore Any × Option (SessionState Any)
  remove session_id s =
      (record s { sessions = pop session_id s.sessions }, get session_id s.sessions)

  -- `ttl is not None and status == "OPEN" and now - last_activity_at >= ttl`
  abbrev pub is_idle : ℕ → SessionState Any → Bool
  is_idle now state = elim state.policy.idle_ttl_seconds [
    | none ↦ false
    | some ttl ↦
        session_status_eq state.status SessionStatus.opened
        && leb (state.last_activity_at + ttl) now
  ]

  -- The first loop of `gc`.
  unfoldable pub idle_ids : ℕ → Dict (SessionState Any) → List String
  idle_ids now [] = []
  idle_ids now ((k, state) ∷ d) =
      if is_idle now state then state.session_id ∷ idle_ids now d else idle_ids now d

  abbrev pub expire : SessionState Any → SessionState Any
  expire state = record state { status = SessionStatus.expired }

  -- The second loop.
  unfoldable pub expire_all : List String → SessionStore Any → SessionStore Any
  unfolding update
  expire_all [] s = s
  expire_all (k ∷ ks) s = expire_all ks (update k expire s)

  -- gc
  unfoldable pub gc : ℕ → SessionStore Any → SessionStore Any × List String
  gc now s = let ids = idle_ids now s.sessions in (expire_all ids s, ids)
