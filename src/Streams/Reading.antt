-- ===== src/Streams/Reading.antt =====
-- What a reader of a subscription sees: the promise of the loops that Streams models.
use mathlib.Core.List.{append_assoc}
use python_tty.Prelude.{
  ℕ, ◌≡◌, refl, sym, ap, ◌∙◌, subst, String, Bool, true, false, some, List, [], ◌∷◌, ◌++◌,
  if◌then◌else◌, if-cases, ltb, ◌==◌, str_eq, pos, arith, count, filter, ◌⊎◌, inl, inr, Bool-cases,
  Option-cases, remove_first, eq_refl,
}
use python_tty.Prelude.Heap.{write}
use python_tty.Prelude.Dict.{get, get-put, get-pop}
use python_tty.Runtime.Events.{RuntimeEvent, seq_of}
use python_tty.Runtime.EventBus.{
  RunEventBus, publish_to, subscribe, unsubscribe, subscribers_of, history_of,
}
use python_tty.Runtime.EventBus.Delivery.{publish-subscribers}
use python_tty.Runtime.EventBus.Streaming.{Follows, publish-Follows, subscribe-Follows, IsAllocated}
use python_tty.Streams.Cutting.{
  up_to, any, any-snoc, up_to-append, up_to-any, remove_first-count, remove_first-none,
}
use python_tty.Streams.{Reader, new_reader, stops, finish, take_from, read_event}

-- A run's events come, and the reader is resumed, in any order.
pub data Event (Any : Type 0) : Type 0 where
  published : ℕ → String → RuntimeEvent Any → Event Any
  resumed : Event Any

abbrev pub step :
    {Any : Type 0} → Event Any → Reader Any × RunEventBus Any → Reader Any × RunEventBus Any
step (published now j e) (r, b) = (r, publish_to now j e b)
step resumed s = read_event s

abbrev pub steps :
    {Any : Type 0} → List (Event Any) → Reader Any × RunEventBus Any → Reader Any × RunEventBus Any
steps [] s = s
steps (x ∷ xs) s = steps xs (step x s)

-- The events of a run with one that was published.
abbrev pub with_published :
    {Any : Type 0}
    → String
    → String
    → RuntimeEvent Any
    → List (RuntimeEvent Any)
    → List (RuntimeEvent Any)
with_published run_id j e xs = if str_eq run_id j then xs ++ e ∷ [] else xs

-- The events of a run after those before.
abbrev pub arrived :
    {Any : Type 0} → String → List (Event Any) → List (RuntimeEvent Any) → List (RuntimeEvent Any)
arrived run_id [] total = total
arrived run_id (published now j e ∷ xs) total = arrived run_id xs (with_published run_id j e total)
arrived run_id (resumed ∷ xs) total = arrived run_id xs total

module _ {Any : Type 0} where
  -- The reader has not seen an event that stops it, and what it has not seen is in its queue.
  pub record IsReading (run_id : String) (total : List (RuntimeEvent Any)) (r : Reader Any)
      (b : RunEventBus Any) : Type 0 where
    pub named : r.run_id ≡ run_id
    pub still : r.is_open ≡ true
    pub quiet : any (stops r.break_on_terminal) r.seen ≡ false
    pub rest : List (RuntimeEvent Any)
    pub follows : Follows r.queue run_id rest b
    pub split : total ≡ r.seen ++ rest

  -- The reader has seen all up to and with the first event that stops it, and has left the bus.
  pub record IsFinished (run_id : String) (total : List (RuntimeEvent Any)) (r : Reader Any)
      (b : RunEventBus Any) : Type 0 where
    pub named : r.run_id ≡ run_id
    pub shut : r.is_open ≡ false
    pub cut : r.seen ≡ up_to (stops r.break_on_terminal) total
    pub last : any (stops r.break_on_terminal) total ≡ true
    pub gone : (j : String) → count (λ x. x == r.queue) (subscribers_of j b) ≡ 0

  abbrev pub Progress : String → List (RuntimeEvent Any) → Reader Any × RunEventBus Any → Type 0
  Progress run_id total (r, b) = IsReading run_id total r b ⊎ IsFinished run_id total r b

  pub unsubscribe-gone :
      (a : ℕ) (run_id : String) (xs : List (RuntimeEvent Any)) (b : RunEventBus Any)
      → Follows a run_id xs b
      → (j : String) → count (λ x. x == a) (subscribers_of j (unsubscribe run_id a b)) ≡ 0
  unfolding subscribers_of unsubscribe
  unsubscribe-gone a run_id xs b f j =
      let mine = f.once run_id in
      let its = f.once j in
      elim (Option-cases (get run_id b.subscribers)) [
        | inl e ↦ ground (arith, mine, e, eq_refl run_id)
        | inr ([], e) ↦ ground (arith, mine, e, eq_refl run_id)
        | inr (q ∷ qs, e) ↦ elim (Option-cases (remove_first (λ k. k == a) (q ∷ qs))) [
          | inl n ↦ ground (arith, mine, e, eq_refl run_id, remove_first-none a (q ∷ qs) n)
          | inr ([], n) ↦
              rw (e, n, unsubscribe) (ground (arith, get-pop run_id j b.subscribers, its))
          | inr (y ∷ ys, n) ↦
              rw (e, n, unsubscribe)
                (ground (
                  arith,
                  get-put run_id j (y ∷ ys) b.subscribers,
                  its,
                  mine,
                  e,
                  eq_refl run_id,
                  remove_first-count a (q ∷ qs) (y ∷ ys) n,
                ))
        ]
      ]

  published-Progress :
      (run_id : String) (total : List (RuntimeEvent Any)) (now : ℕ) (j : String)
      (e : RuntimeEvent Any) (r : Reader Any) (b : RunEventBus Any)
      → Progress run_id total (r, b)
      → Progress run_id (with_published run_id j e total) (r, publish_to now j e b)
  unfolding subscribers_of
  published-Progress run_id total now j e r b (inl p) = inl (record {
    named = p.named;
    still = p.still;
    quiet = p.quiet;
    rest = with_published run_id j e p.rest;
    follows = publish-Follows r.queue run_id p.rest now j e b p.follows;
    split = elim (Bool-cases (str_eq run_id j)) [
      | inl m ↦ rw (m, p.split) (append_assoc r.seen p.rest (e ∷ []))
      | inr m ↦ rw m (p.split)
    ];
  })
  published-Progress run_id total now j e r b (inr p) = inr (record {
    named = p.named;
    shut = p.shut;
    cut = elim (Bool-cases (str_eq run_id j)) [
      | inl m ↦ rw m (p.cut ∙ sym (up_to-any (stops r.break_on_terminal) total (e ∷ []) p.last).0)
      | inr m ↦ rw m (p.cut)
    ];
    last = elim (Bool-cases (str_eq run_id j)) [
      | inl m ↦ rw m ((up_to-any (stops r.break_on_terminal) total (e ∷ []) p.last).1)
      | inr m ↦ rw m (p.last)
    ];
    gone = λ i. rw ((publish-subscribers now j e b).0) (p.gone i);
  })

  taken-Progress :
      (run_id : String) (total rest : List (RuntimeEvent Any)) (r : Reader Any)
      (b : RunEventBus Any)
      → (p : IsReading run_id total r b) → p.rest ≡ rest
      → Progress run_id total (take_from rest (r, b))
  unfolding finish subscribers_of
  taken-Progress run_id total [] r b p h = inl p
  taken-Progress run_id total (e ∷ es) r b p h =
      let r1 = record r { seen = r.seen ++ e ∷ [] } in
      let q = record (b.queues.cell r.queue) { items = es } in
      let b1 = record b { queues = write r.queue q b.queues } in
      let follows1 : Follows r.queue run_id es b1 = record {
        once = p.follows.once;
        holds = record {
          unbounded = ground (arith, p.follows.holds.unbounded);
          items = ground arith;
        };
      } in
      if-cases {A = Reader Any × RunEventBus Any} (Progress run_id total)
        (stops r.break_on_terminal e) (finish (r1, b1)) (r1, b1)
        (λ st.
          let (cut, last) = up_to-append (stops r.break_on_terminal) r.seen e es p.quiet st in
          let all : total ≡ r.seen ++ e ∷ es = p.split ∙ ap (λ l. r.seen ++ l) h in
          inr (record {
            named = p.named;
            shut = refl;
            cut = sym (ap (up_to (stops r.break_on_terminal)) all ∙ cut);
            last = ap (any (stops r.break_on_terminal)) all ∙ last;
            gone = λ j.
                subst
                  (λ k. count (λ x. x == r.queue) (subscribers_of j (unsubscribe k r.queue b1)) ≡ 0)
                  (sym p.named) (unsubscribe-gone r.queue run_id es b1 follows1 j);
          }))
        (λ st. inl (record {
          named = p.named;
          still = p.still;
          quiet = any-snoc (stops r.break_on_terminal) r.seen e p.quiet ∙ st;
          rest = es;
          follows = follows1;
          split = p.split ∙ ap (λ l. r.seen ++ l) h ∙ sym (append_assoc r.seen (e ∷ []) es);
        }))

  resumed-Progress :
      (run_id : String) (total : List (RuntimeEvent Any)) (r : Reader Any) (b : RunEventBus Any)
      → r.is_open ≡ true
      → Progress run_id total (r, b)
      → Progress run_id total (take_from (b.queues.cell r.queue).items (r, b))
  resumed-Progress run_id total r b st (inl p) =
      subst (λ items. Progress run_id total (take_from items (r, b))) (sym p.follows.holds.items)
        (taken-Progress run_id total p.rest r b p refl)
  resumed-Progress run_id total r b st (inr p) = absurd (ground (arith, st, p.shut))

  read_event-Progress :
      (run_id : String) (total : List (RuntimeEvent Any)) (r : Reader Any) (b : RunEventBus Any)
      → Progress run_id total (r, b)
      → Progress run_id total (read_event (r, b))
  unfolding read_event
  read_event-Progress run_id total r b p =
      if-cases {A = Reader Any × RunEventBus Any} (Progress run_id total) r.is_open
        (take_from (b.queues.cell r.queue).items (r, b)) (r, b)
        (λ st. resumed-Progress run_id total r b st p) (λ st. p)

  steps-Progress :
      (run_id : String) (total : List (RuntimeEvent Any)) (xs : List (Event Any))
      (s : Reader Any × RunEventBus Any)
      → Progress run_id total s
      → Progress run_id (arrived run_id xs total) (steps xs s)
  steps-Progress run_id total [] s p = p
  steps-Progress run_id total (published now j e ∷ xs) (r, b) p =
      steps-Progress run_id (with_published run_id j e total) xs (r, publish_to now j e b)
        (published-Progress run_id total now j e r b p)
  steps-Progress run_id total (resumed ∷ xs) (r, b) p =
      steps-Progress run_id total xs (read_event (r, b)) (read_event-Progress run_id total r b p)

  -- A reader of a new subscription without a size limit that starts at `since`, however its passes
  -- interleave with publications to any runs, either is open and has seen, in order and once each,
  -- what its queue does not hold of the kept events of its run past `since` and those published
  -- since, none of them one that stops it; or it is closed, has seen all of them up to and with the
  -- first that stops it, and is subscribed to no run. Every subscribed queue has been allocated.
  pub subscribe-steps :
      (run_id : String) (since : ℕ) (break : Bool) (xs : List (Event Any)) (b : RunEventBus Any)
      → IsAllocated b
      → Progress run_id
          (arrived run_id xs (filter (λ e. ltb since (seq_of e)) (history_of run_id b)))
          (steps xs (
            new_reader run_id break b.queues.next,
            (subscribe run_id (some (pos since)) (pos 0) b).0,
          ))
  subscribe-steps run_id since break xs b fresh =
      let kept = filter (λ e. ltb since (seq_of e)) (history_of run_id b) in
      let b1 = (subscribe run_id (some (pos since)) (pos 0) b).0 in
      let r = new_reader run_id break b.queues.next in
      steps-Progress run_id kept xs (r, b1)
        (inl (record {
          named = refl;
          still = refl;
          quiet = refl;
          rest = kept;
          follows = subscribe-Follows run_id since b fresh;
          split = refl;
        }))
