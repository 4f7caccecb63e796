-- ===== src/Session/Expiry.antt =====
-- Which sessions `gc` expires (session/store.py).
use python_tty.Prelude.{
  ℕ, ◌≡◌, refl, ◌∙◌, String, Bool, false, Option, none, some, List, [], ◌∷◌, if◌then◌else◌, arith,
  str_eq, eq_iff, Option-cases, inl, inr,
}
use python_tty.Prelude.Dict.{Dict, get, put, get-put, contains, pop, get-pop}
use python_tty.Session.{
  SessionState, SessionStore, update, expire, expire_all, idle_ids, is_idle, gc,
}
use python_tty.Runtime.Jobs.Retention.{has_id}

module _ {Any : Type 0} where
  -- Each session stands once, under its own identifier.
  abbrev pub IsNamed : Dict (SessionState Any) → Type 0
  IsNamed [] = Unit {0}
  IsNamed ((k, t) ∷ d) = (t.session_id ≡ k) × (contains k d ≡ false) × IsNamed d

  pub put-IsNamed :
      (k : String) (t : SessionState Any) (d : Dict (SessionState Any))
      → t.session_id ≡ k
      → IsNamed d
      → IsNamed (put k t d)
  unfolding put get
  put-IsNamed k t [] e n = (e, refl, tt)
  put-IsNamed k t ((j, u) ∷ d) e n =
      ground
        (arith, n.0, n.1, n.2, put-IsNamed k t d e n.2, get-put k j t d, eq_iff k j, eq_iff j k, e)

  pub pop-IsNamed : (k : String) (d : Dict (SessionState Any)) → IsNamed d → IsNamed (pop k d)
  unfolding pop
  pop-IsNamed k [] n = tt
  pop-IsNamed k ((j, u) ∷ d) n = ground (arith, n.0, n.1, pop-IsNamed k d n.2, get-pop k j d)

  get-IsNamed :
      (k : String) (t : SessionState Any) (d : Dict (SessionState Any))
      → IsNamed d
      → get k d ≡ some t
      → t.session_id ≡ k
  unfolding get
  get-IsNamed k t [] n h = cc
  get-IsNamed k t ((j, u) ∷ d) n h = ground (arith, n.0, get-IsNamed k t d n.2, eq_iff j k)

  abbrev pub map_option :
      (SessionState Any → SessionState Any) → Option (SessionState Any) → Option (SessionState Any)
  map_option f none = none
  map_option f (some t) = some (f t)

  pub get-update :
      (k j : String) (f : SessionState Any → SessionState Any) (s : SessionStore Any)
      → get j (update k f s).sessions
        ≡ (if str_eq k j then map_option f (get j s.sessions) else get j s.sessions)
  unfolding update
  get-update k j f s = elim (Option-cases (get k s.sessions)) [
    | inl e ↦ ground (arith, eq_iff k j, e)
    | inr (t, e) ↦ ground (arith, eq_iff k j, e, get-put k j (f t) s.sessions)
  ]

  -- Changing a session other than in its identifier keeps the store's sessions named.
  pub update-IsNamed :
      (k : String) (f : SessionState Any → SessionState Any) (s : SessionStore Any)
      → ((t : SessionState Any) → (f t).session_id ≡ t.session_id)
      → IsNamed s.sessions
      → IsNamed (update k f s).sessions
  unfolding update
  update-IsNamed k f s same n = elim (Option-cases (get k s.sessions)) [
    | inl e ↦ rw (e, update) n
    | inr (t, e) ↦
        rw (e, update) (put-IsNamed k (f t) s.sessions (same t ∙ get-IsNamed k t s.sessions n e) n)
  ]

  pub expire_all-IsNamed :
      (ks : List String) (s : SessionStore Any)
      → IsNamed s.sessions
      → IsNamed (expire_all ks s).sessions
  unfolding expire_all
  expire_all-IsNamed [] s n = n
  expire_all-IsNamed (k ∷ ks) s n =
      expire_all-IsNamed ks (update k expire s) (update-IsNamed k expire s (λ t. refl) n)

  map_expire_twice :
      (o : Option (SessionState Any))
      → map_option expire (map_option expire o) ≡ map_option expire o
  map_expire_twice none = refl
  map_expire_twice (some t) = refl

  get-expire_all :
      (ks : List String) (j : String) (s : SessionStore Any)
      → get j (expire_all ks s).sessions
        ≡ (if has_id j ks then map_option expire (get j s.sessions) else get j s.sessions)
  unfolding expire_all
  get-expire_all [] j s = refl
  get-expire_all (k ∷ ks) j s = ground (
    arith,
    get-expire_all ks j (update k expire s),
    get-update k j expire s,
    map_expire_twice (get j s.sessions),
  )

  abbrev is_idle_at : ℕ → Option (SessionState Any) → Bool
  is_idle_at now none = false
  is_idle_at now (some t) = is_idle now t

  has_id-idle_ids :
      (j : String) (now : ℕ) (d : Dict (SessionState Any))
      → IsNamed d
      → has_id j (idle_ids now d) ≡ is_idle_at now (get j d)
  unfolding idle_ids get
  has_id-idle_ids j now [] n = refl
  has_id-idle_ids j now ((k, t) ∷ d) n =
      ground (arith, n.0, n.1, has_id-idle_ids j now d n.2, eq_iff k j)

  -- What `gc` makes of one session.
  abbrev pub collected : ℕ → SessionState Any → SessionState Any
  collected now t = if is_idle now t then expire t else t

  -- In a store where each session stands once under its own identifier, `gc` expires exactly the
  -- open sessions that have been idle for their time to live, and leaves every other session as it
  -- was.
  pub gc-sessions :
      (now : ℕ) (j : String) (s : SessionStore Any)
      → IsNamed s.sessions
      → get j (gc now s).0.sessions ≡ map_option (collected now) (get j s.sessions)
  unfolding gc
  gc-sessions now j s n =
      ground
        (arith, get-expire_all (idle_ids now s.sessions) j s, has_id-idle_ids j now s.sessions n)
