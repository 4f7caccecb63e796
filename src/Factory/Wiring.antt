-- ===== src/Factory/Wiring.antt =====
-- src/python_tty/console_factory.py: what the steps of the factory keep of its sink and its thread.
use python_tty.Prelude.{
  ℕ, ◌<◌, ◌≡◌, refl, sym, ap, ◌∙◌, true, false, ◌&&◌, Option, none, some, ◌∷◌, if◌then◌else◌, arith,
  subst, is_some, if-cases, Bool-cases, inl, inr,
}
use python_tty.Models.{Outcome, returned, raised}
use python_tty.Executor.{World, CommandExecutor}
use python_tty.Executor.Submission.{start}
use python_tty.Factory.{
  ConsoleFactory, Phase, ready, serving, ended, is_alive, is_serving, has_live_thread,
  attach_tty_sink, attach_any, first_loop, after_start, start_executor, start_executor_thread,
  start_executor_if_needed, set_phase, begin_from, thread_begins, thread_ends, stop_running,
  shutdown_executor, shutdown_all, is_stopped, cancel_tasks,
}
use python_tty.Factory.Sinks.{IsSunk, IsSunk-none, IsSunk-more, IsSunk-less}

module _ {Handler Any : Type 0} where
  -- Where the sink has a task, it is on the loop that the sink was started on and is the only one; where
  -- it has a sink and no task, that loop was told to stop. Every thread that has not ended is the
  -- executor's thread.
  pub record IsWired (f : ConsoleFactory Handler Any) : Type 0 where
    pub sinks : IsSunk f.tty_sink f.sink_tasks f.stops
    pub only :
        (t : ℕ)
        → t < f.threads.next
        → is_alive (f.threads.cell t).phase ≡ true
        → f.executor_thread ≡ some t
    pub made : (t : ℕ) → f.executor_thread ≡ some t → t < f.threads.next

  -- The fields that matter are as they were.
  abbrev pub Same : ConsoleFactory Handler Any → ConsoleFactory Handler Any → Type 0
  Same f g =
      (g.sink_tasks ≡ f.sink_tasks)
      × (g.tty_sink ≡ f.tty_sink)
      × (g.stops ≡ f.stops)
      × (g.threads ≡ f.threads)
      × (g.executor_thread ≡ f.executor_thread)

  pub Same-IsWired : (f g : ConsoleFactory Handler Any) → Same f g → IsWired f → IsWired g
  Same-IsWired f g (a, b, s, c, d) v = record {
    sinks = rw (a, b, s) v.sinks;
    only = λ t h k.
        d
        ∙ v.only t (subst (λ x. t < x.next) c h)
            (subst (λ x. is_alive (x.cell t).phase ≡ true) c k);
    made = λ t e. subst (λ x. t < x.next) (sym c) (v.made t (sym d ∙ e));
  }

  abbrev HasSunk : ConsoleFactory Handler Any → Type 0
  HasSunk f = IsSunk f.tty_sink f.sink_tasks f.stops

  attach_tty_sink-IsSunk :
      (l : ℕ) (f : ConsoleFactory Handler Any) → HasSunk f → HasSunk (attach_tty_sink l f)
  unfolding attach_tty_sink
  attach_tty_sink-IsSunk l f x =
      let g = record f { tty_sink = some l; sink_tasks = l ∷ f.sink_tasks } in
      if-cases HasSunk (is_some f.tty_sink) f (if f.has_router then g else f) (λ e. x)
        (λ e.
          if-cases HasSunk f.has_router g f
            (λ h. inl (ap (λ ts. l ∷ ts) (IsSunk-none f.tty_sink f.sink_tasks f.stops e x)))
            (λ h. x))

  attach_tty_sink-IsWired :
      (l : ℕ) (f : ConsoleFactory Handler Any) → IsWired f → IsWired (attach_tty_sink l f)
  unfolding attach_tty_sink
  attach_tty_sink-IsWired l f v = record {
    sinks = attach_tty_sink-IsSunk l f v.sinks;
    only = λ t h k. ground (arith, v.only t);
    made = λ t e. ground (arith, v.made t);
  }

  with_executor-IsWired :
      (e : CommandExecutor Handler Any) (f : ConsoleFactory Handler Any)
      → IsWired f
      → IsWired (record f { executor = e })
  with_executor-IsWired e f v =
      Same-IsWired f (record f { executor = e }) (refl, refl, refl, refl, refl) v

  attach_any-IsWired :
      (o : Option ℕ) (f : ConsoleFactory Handler Any) → IsWired f → IsWired (attach_any o f)
  attach_any-IsWired none f v = v
  attach_any-IsWired (some l) f v = attach_tty_sink-IsWired l f v

  after_start-IsWired :
      (o : Option ℕ) (f : ConsoleFactory Handler Any)
      (r : CommandExecutor Handler Any × Outcome (Unit {0}))
      → IsWired f
      → IsWired (after_start o f r).0
  after_start-IsWired o f (e, raised x) v = with_executor-IsWired e f v
  after_start-IsWired o f (e, returned u) v =
      attach_any-IsWired (first_loop o f.executor_loop e.loop) (record f { executor = e })
        (with_executor-IsWired e f v)

  pub start_executor-IsWired :
      (w : World) (o : Option ℕ) (f : ConsoleFactory Handler Any)
      → IsWired f
      → IsWired (start_executor w o f).0
  unfolding start_executor
  start_executor-IsWired w o f v = after_start-IsWired o f (start w o f.executor) v

  has_live_thread-none :
      (f : ConsoleFactory Handler Any) (t : ℕ)
      → IsWired f
      → has_live_thread f.executor_thread f ≡ false
      → t < f.threads.next
      → is_alive (f.threads.cell t).phase ≡ false
  has_live_thread-none f t v h k = elim (Bool-cases (is_alive (f.threads.cell t).phase)) [
    | inr e ↦ e
    | inl e ↦ absurd (ground (arith, h, e, v.only t k e))
  ]

  start_executor_thread-IsWired :
      (f : ConsoleFactory Handler Any) → IsWired f → IsWired (start_executor_thread f)
  unfolding start_executor_thread
  start_executor_thread-IsWired f v = elim (Bool-cases (has_live_thread f.executor_thread f)) [
    | inl e ↦ rw e v
    | inr e ↦ rw e (record {
      sinks = v.sinks;
      only = λ t h k. ground (arith, has_live_thread-none f t v e);
      made = λ t d. ground arith;
    })
  ]

  set_phase-IsWired :
      (t : ℕ) (p : Phase) (f : ConsoleFactory Handler Any)
      → (is_alive p ≡ true → is_alive (f.threads.cell t).phase ≡ true)
      → IsWired f
      → IsWired (set_phase t p f)
  set_phase-IsWired t p f h v = record {
    sinks = v.sinks;
    only = λ u k l. ground (arith, v.only u k, h);
    made = v.made;
  }

  pub start_executor_if_needed-IsWired :
      (w : World) (f : ConsoleFactory Handler Any)
      → IsWired f
      → IsWired (start_executor_if_needed w f).0
  unfolding start_executor_if_needed
  start_executor_if_needed-IsWired w f v =
      grind (arith, v, start_executor_thread-IsWired f v, start_executor-IsWired w none f v)

  begin_from-IsWired :
      (p : Phase) (w : World) (t : ℕ) (f : ConsoleFactory Handler Any)
      → (f.threads.cell t).phase ≡ p
      → IsWired f
      → IsWired (begin_from p w t f)
  begin_from-IsWired ready w t f e v =
      start_executor-IsWired w (some (f.threads.cell t).loop) (set_phase t serving f)
        (set_phase-IsWired t serving f (λ h. ap is_alive e) v)
  begin_from-IsWired serving w t f e v = v
  begin_from-IsWired ended w t f e v = v

  pub thread_begins-IsWired :
      (w : World) (t : ℕ) (f : ConsoleFactory Handler Any)
      → IsWired f
      → IsWired (thread_begins w t f)
  unfolding thread_begins
  thread_begins-IsWired w t f v = begin_from-IsWired (f.threads.cell t).phase w t f refl v

  pub cancel_tasks-IsWired :
      (l : ℕ) (f : ConsoleFactory Handler Any)
      → is_stopped l f.stops ≡ true
      → IsWired f
      → IsWired (cancel_tasks l f)
  cancel_tasks-IsWired l f h v = record {
    sinks = IsSunk-less l f.tty_sink f.sink_tasks f.stops h v.sinks;
    only = v.only;
    made = v.made;
  }

  pub thread_ends-IsWired :
      (t : ℕ) (f : ConsoleFactory Handler Any) → IsWired f → IsWired (thread_ends t f)
  unfolding thread_ends
  thread_ends-IsWired t f v =
      let l = (f.threads.cell t).loop in
      if-cases IsWired (is_serving (f.threads.cell t).phase && is_stopped l f.stops)
        (set_phase t ended (cancel_tasks l f)) f
        (λ e.
          set_phase-IsWired t ended (cancel_tasks l f) (λ h. cc)
            (cancel_tasks-IsWired l f (ground (arith, e)) v))
        (λ e. v)

  pub stop_running-IsWired :
      (w : World) (o : Option ℕ) (f : ConsoleFactory Handler Any)
      → IsWired f
      → IsWired (stop_running w o f)
  stop_running-IsWired w none f v = v
  stop_running-IsWired w (some l) f v =
      if-cases IsWired (w.is_running l) (record f { stops = l ∷ f.stops }) f
        (λ e. record {
          sinks = IsSunk-more l f.tty_sink f.sink_tasks f.stops v.sinks;
          only = v.only;
          made = v.made;
        })
        (λ e. v)

  pub shutdown_executor-IsWired :
      (w : World) (f : ConsoleFactory Handler Any) → IsWired f → IsWired (shutdown_executor w f)
  unfolding shutdown_executor
  shutdown_executor-IsWired w f v =
      stop_running-IsWired w f.executor_loop _ (with_executor-IsWired _ f v)

  pub shutdown_all-IsWired :
      (w : World) (f : ConsoleFactory Handler Any) → IsWired f → IsWired (shutdown_all w f)
  unfolding shutdown_all
  shutdown_all-IsWired w f v =
      let f1 = record f { sessions_closed = true } in
      let v1 : IsWired f1 = Same-IsWired f f1 (refl, refl, refl, refl, refl) v in
      let f2 = if f.config.shutdown_executor then shutdown_executor w f1 else f1 in
      let v2 : IsWired f2 =
        if-cases IsWired f.config.shutdown_executor (shutdown_executor w f1) f1
          (λ e. shutdown_executor-IsWired w f1 v1) (λ e. v1) in
      Same-IsWired f2 (shutdown_all w f) (refl, refl, refl, refl, refl) v2
