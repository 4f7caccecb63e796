-- ===== src/Session/Limits.antt =====
-- What an admitted submission satisfies, and what a session keeps of its runs (session/manager.py).
use python_tty.Prelude.{
  ℕ, suc, ◌+◌, ◌≤◌, ◌<◌, ◌≡◌, refl, String, Bool, true, false, append, Option, none, some, List, [],
  ◌∷◌, leb, is_some, count, str_eq, eq_iff, subst, pos, arith, Bool-cases, Option-cases, inl, inr,
  ◌⊎◌,
}
use python_tty.Prelude.Dict.{get}
use python_tty.Models.{or_text, Invocation, PyException, Outcome, returned, raised}
use python_tty.Runtime.Context.{RunContext}
use python_tty.Runtime.Jobs.{JobStore}
use python_tty.Executor.{World, CommandExecutor}
use python_tty.Executor.Running.{Handlers}
use python_tty.Session.{touch, SessionState, SessionStatus, session_status_eq}
use python_tty.Session.Trimming.{is_live}
use python_tty.Session.Admission.{
  by_mode, Request, Admission, parent_invocation, resolve_origin_source, reaches_limit,
  exceeds_limit, would_deadlock, resolve_lock_key, too_few_workers, unless, resolve_source,
  resolve_timeout, resolve_depth, admit, require_session,
}
use python_tty.Session.Submission.{SessionManager, book, submit_work}
use python_tty.Executor.Submission.{submit_threadsafe}

module _ {Any : Type 0} where
  is_live-known :
      (s : JobStore Any) (r : String) → is_live s r ≡ true → is_some (get r s.runs) ≡ true
  unfolding is_live
  is_live-known s r h = ground arith

  reaches_limit-count :
      (s : JobStore Any) (n k : ℕ) (ids : List String)
      → k < n
      → reaches_limit s n k ids ≡ leb n (k + count (is_live s) ids)
  unfolding reaches_limit
  reaches_limit-count s n k [] h = ground arith
  reaches_limit-count s n k (r ∷ rs) h = elim (Bool-cases (is_live s r)) [
    | inl e ↦ elim (Bool-cases (leb n (suc k))) [
      | inl g ↦ ground (arith, e, g, is_live-known s r)
      | inr g ↦ ground (arith, e, g, is_live-known s r, reaches_limit-count s n (suc k) rs)
    ]
    | inr e ↦ ground (arith, e, reaches_limit-count s n k rs h)
  ]

  -- With a positive limit the check refuses exactly where the session has that many pending or
  -- running runs already.
  pub exceeds_limit-count :
      (s : JobStore Any) (n : ℕ) (state : SessionState Any)
      → state.policy.max_concurrent_runs ≡ some (pos (suc n))
      → exceeds_limit s state ≡ leb (suc n) (count (is_live s) state.run_ids)
  unfolding exceeds_limit
  exceeds_limit-count s n state h =
      rw (h, exceeds_limit) (ground (arith, reaches_limit-count s (suc n) 0 state.run_ids))

unless-returned :
    (b : Bool) (message : String) (rest : Outcome Admission) (a : Admission)
    → unless b message rest ≡ returned a
    → (b ≡ false) × (rest ≡ returned a)
unless-returned b message rest a h = ground arith

Outcome-cases :
    {A : Type 0} (o : Outcome A)
    → ((x : PyException) × (o ≡ raised x)) ⊎ ((a : A) × (o ≡ returned a))
Outcome-cases (raised x) = inl (x, refl)
Outcome-cases (returned a) = inr (a, refl)

returned-injective : (a b : Admission) → returned a ≡ returned b → a ≡ b
returned-injective a b h = ground arith

unlocked_key :
    {Any : Type 0} (p : Invocation Any) (key : String) (await_result : Bool)
    → await_result ≡ true
    → str_eq p.lock_key "" ≡ false
    → would_deadlock (some p) key await_result ≡ false
    → str_eq key p.lock_key ≡ false
unfolding would_deadlock
unlocked_key p key b w k d =
    ground (arith, eq_iff key p.lock_key, eq_iff key "", eq_iff p.lock_key "")

-- The lock that the submission is made with: the one asked for, else one of the caller's run, else
-- the one of the session's policy.
abbrev pub lock_of : {Any : Type 0} → RunContext Any → SessionState Any → Request → String
lock_of c state q = elim q.lock_key [
  | some k ↦ k
  | none ↦ elim c.run_id [
    | some r ↦ append "child:" r
    | none ↦ by_mode state.policy.default_lock_key_mode state.session_id
  ]
]

resolve_origin_source-origin :
    {Any : Type 0} (c : RunContext Any) (p : Option (Invocation Any))
    → resolve_origin_source c p
      ≡ elim p [ none ↦ or_text c.source "internal" | some i ↦ or_text i.origin_source i.source ]
resolve_origin_source-origin c none = refl
resolve_origin_source-origin c (some p) = refl

resolve_lock_key-lock :
    {Any : Type 0} (k : Option String) (state : SessionState Any) (run_id : Option String)
    → resolve_lock_key k state run_id ≡ elim k [
      | some key ↦ key
      | none ↦ elim run_id [
        | some r ↦ append "child:" r
        | none ↦ by_mode state.policy.default_lock_key_mode state.session_id
      ]
    ]
unfolding resolve_lock_key
resolve_lock_key-lock (some k) state run_id = refl
resolve_lock_key-lock none state (some r) = refl
resolve_lock_key-lock none state none = refl

module _ {Handler Any : Type 0} where
  -- Where the submission comes from: the caller's run's origin if the store knows that run, else the
  -- source of the caller's context.
  abbrev pub origin_of : RunContext Any → CommandExecutor Handler Any → String
  origin_of c e = elim (parent_invocation c e.store) [
    | none ↦ or_text c.source "internal"
    | some p ↦ or_text p.origin_source p.source
  ]

  -- What the checks promise of a submission, and what the invocation is then made of.
  pub record IsAdmitted (c : RunContext Any) (state : SessionState Any) (q : Request)
      (e : CommandExecutor Handler Any) (a : Admission) : Type 0 where
    pub origin : a.origin_source ≡ origin_of c e
    pub lock : a.lock_key ≡ lock_of c state q
    pub parent : a.parent_run_id ≡ c.run_id
    pub local : str_eq (origin_of c e) "rpc" ≡ false
    pub below :
        (n : ℕ)
        → state.policy.max_concurrent_runs ≡ some (pos (suc n))
        → count (is_live e.store) state.run_ids ≤ n
    pub unlocked :
        (p : Invocation Any)
        → q.await_result ≡ true
        → parent_invocation c e.store ≡ some p
        → str_eq p.lock_key "" ≡ false
        → str_eq (lock_of c state q) p.lock_key ≡ false
    pub staffed : q.await_result ≡ true → is_some c.run_id ≡ true → 2 ≤ e.config.workers

  -- Everything the checks resolve, once none of them raised.
  abbrev resolved :
      RunContext Any → SessionState Any → Request → CommandExecutor Handler Any → Admission
  resolved c state q e =
      let p = parent_invocation c e.store in
      let origin = resolve_origin_source c p in
      record {
        source = resolve_source c origin;
        origin_source = origin;
        parent_run_id = c.run_id;
        lock_key = resolve_lock_key q.lock_key state c.run_id;
        timeout_ms = resolve_timeout q.timeout_ms state;
        depth = resolve_depth p;
      }

  resolved-IsAdmitted :
      (c : RunContext Any) (state : SessionState Any) (q : Request)
      (e : CommandExecutor Handler Any)
      → str_eq (resolve_origin_source c (parent_invocation c e.store)) "rpc" ≡ false
      → too_few_workers c.run_id q.await_result e.config.workers ≡ false
      → exceeds_limit e.store state ≡ false
      → would_deadlock
          (parent_invocation c e.store)
          (resolve_lock_key q.lock_key state c.run_id)
          q.await_result
        ≡ false
      → IsAdmitted c state q e (resolved c state q e)
  resolved-IsAdmitted c state q e r f x d =
      let origin : resolve_origin_source c (parent_invocation c e.store) ≡ origin_of c e =
        resolve_origin_source-origin c (parent_invocation c e.store) in
      let lock : resolve_lock_key q.lock_key state c.run_id ≡ lock_of c state q =
        resolve_lock_key-lock q.lock_key state c.run_id in
      record {
        origin = origin;
        lock = lock;
        parent = refl;
        local = rw⁻¹ origin r;
        below = λ n l. ground (arith, x, exceeds_limit-count e.store n state l);
        unlocked = λ p w j k.
            let d' = rw j at d in
            rw⁻¹ lock
              (unlocked_key p (resolve_lock_key q.lock_key state c.run_id) q.await_result w k d');
        staffed = λ w j. ground (arith, f);
      }

  admit-IsAdmitted :
      (c : RunContext Any) (state : SessionState Any) (q : Request)
      (e : CommandExecutor Handler Any) (a : Admission)
      → admit c state q e ≡ returned a
      → IsAdmitted c state q e a
  unfolding admit
  admit-IsAdmitted c state q e a h =
      let (b1, h1) = unless-returned _ _ _ a h in
      let (b2, h2) = unless-returned _ _ _ a h1 in
      let (b3, h3) = unless-returned _ _ _ a h2 in
      let (b4, h4) = unless-returned _ _ _ a h3 in
      subst (IsAdmitted c state q e) (returned-injective _ a h4)
        (resolved-IsAdmitted c state q e b1 b2 b3 b4)

  -- A submission that returns a run was made on an open session, outside a remote caller's context,
  -- with fewer pending and running runs than the limit where that is positive, and, where it waits,
  -- on another lock than a parent's and with two workers where it has a parent. What it returns, and
  -- the session's book, come from the executor's submission of the invocation that is built from the
  -- session and from an admission that has that origin, that lock and the caller's run as parent.
  pub submit_work-IsAdmitted :
      {Awaitable : Type 0} (handlers : Handlers Handler Awaitable Any) (w : World) (now : ℕ)
      (uuid session_id r : String) (c : RunContext Any) (q : Request)
      (build : SessionState Any → Admission → Invocation Any) (h : Option Handler)
      (m : SessionManager Handler Any)
      → (submit_work handlers w now uuid c session_id q build h m).1 ≡ returned r
      → (state : SessionState Any) × (a : Admission) × (get session_id m.store.sessions
          ≡ some state)
        × (session_status_eq state.status SessionStatus.opened ≡ true)
        × IsAdmitted c state q m.executor a
        × (submit_work handlers w now uuid c session_id q build h m
            ≡ book session_id
                (record m { store = touch now session_id m.store })
                (submit_threadsafe handlers w uuid
                  (record { invocation = build state a; handler = h })
                  m.executor))
  unfolding submit_work require_session
  submit_work-IsAdmitted handlers w now uuid session_id r c q build h m e =
      elim (Option-cases (get session_id m.store.sessions)) [
        | inl g ↦ absurd (ground (arith, e, g))
        | inr (state, g) ↦ elim (Bool-cases (session_status_eq state.status SessionStatus.opened)) [
          | inr o ↦ absurd (ground (arith, e, g, o))
          | inl o ↦ elim (Outcome-cases (admit c state q m.executor)) [
            | inl (x, k) ↦ absurd (ground (arith, e, g, o, k))
            | inr (a, k) ↦
                (state, a, g, o, admit-IsAdmitted c state q m.executor a k, ground (arith, g, o, k))
          ]
        ]
      ]
