-- ===== src/Runtime/Jobs/Listing.antt =====
-- src/python_tty/runtime/jobs.py, `list` and `_normalize_filter`.
use python_tty.Prelude.{
  ℕ, String, Bool, true, false, not, ◌&&◌, Option, none, some, List, [], ◌∷◌, if◌then◌else◌, str_eq,
  all,
}
use python_tty.Prelude.Dict.{Dict, get}
use python_tty.Models.{RunStatus, Invocation, RunState, status_eq}
use python_tty.Runtime.Jobs.{JobStore}

-- What `filters.get(key)` may be: nothing, one value, or a collection.
pub data FilterValue (A : Type 0) : Type 0 where
  absent : FilterValue A
  single : A → FilterValue A
  several : List A → FilterValue A

-- _normalize_filter; the set as the list of its elements
unfoldable pub normalize_filter : {A : Type 0} → FilterValue A → Option (List A)
normalize_filter FilterValue.absent = none
normalize_filter (FilterValue.single a) = some (a ∷ [])
normalize_filter (FilterValue.several as') = some as'

-- `flt and x not in flt`: an empty set filters nothing
abbrev pub excluded : {A : Type 0} → (A → A → Bool) → Option (List A) → A → Bool
excluded eq none a = false
excluded eq (some []) a = false
excluded eq (some (x ∷ xs)) a = all (λ y. not (eq y a)) (x ∷ xs)

abbrev pub opt_eq : Option String → Option String → Bool
opt_eq none none = true
opt_eq (some a) (some b) = str_eq a b
opt_eq _ _ = false

pub record Filters : Type 0 where
  pub status : FilterValue RunStatus
  pub source : FilterValue String
  pub principal : FilterValue (Option String)
  pub command_id : FilterValue (Option String)

-- One entry of `list`.
pub record JobSummary : Type 0 where
  pub run_id : String
  pub status : RunStatus
  pub source : Option String
  pub principal : Option String
  pub command_id : Option String
  pub started_at : Option ℕ
  pub finished_at : Option ℕ

module _ {Any : Type 0} where
  -- The three tests of `list` that read the invocation, each passed over where it is missing.
  abbrev pub by_invocation : Filters → Option (Invocation Any) → Bool
  by_invocation f none = true
  by_invocation f (some i) =
      not (excluded str_eq (normalize_filter f.source) i.source)
      && (not (excluded opt_eq (normalize_filter f.principal) i.principal)
          && not (excluded opt_eq (normalize_filter f.command_id) i.command_id))

  abbrev pub is_listed : Filters → RunState Any → Option (Invocation Any) → Bool
  is_listed f r i =
      not (excluded status_eq (normalize_filter f.status) r.status) && by_invocation f i

  abbrev pub attr : {A : Type 0} → (Invocation Any → A) → A → Option (Invocation Any) → A
  attr g d none = d
  attr g d (some i) = g i

  abbrev pub summary : String → RunState Any → Option (Invocation Any) → JobSummary
  summary run_id r i = record {
    run_id = run_id;
    status = r.status;
    source = attr (λ x. some x.source) none i;
    principal = attr (λ x. x.principal) none i;
    command_id = attr (λ x. x.command_id) none i;
    started_at = r.started_at;
    finished_at = r.finished_at;
  }

  unfoldable pub list_from : Filters → JobStore Any → Dict ℕ → List JobSummary
  list_from f s [] = []
  list_from f s ((run_id, a) ∷ rest) =
      let r = s.states.cell a in
      let i = get run_id s.invocations in
      if is_listed f r i then summary run_id r i ∷ list_from f s rest else list_from f s rest

  -- list
  unfoldable pub list_runs : Filters → JobStore Any → List JobSummary
  unfolding list_from
  list_runs f s = list_from f s s.runs
