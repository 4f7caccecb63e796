-- ===== src/Examples/Events.antt =====
-- The theorems about histories, subscribers and audit streams on small inputs.
use python_tty.Prelude.{
  String, ℕ, ◌≡◌, refl, ◌∷◌, [], List, filter, ltb, true, none, some, pos, inl,
}
use python_tty.Prelude.Dict.{get}
use python_tty.Runtime.Events.{RuntimeEvent, seq_of}
use python_tty.Runtime.EventBus.{
  RunEventBus, publish_to, history_of, subscribe, subscribers_of, put_nowait, offer, offer_all,
  replay, prune_history, append_history, pruned,
}
use python_tty.Runtime.EventBus
use python_tty.Runtime.EventBus.Streaming.{subscribe-publish_all, publish_all, IsAllocated}
use python_tty.Runtime.EventBus.Logs.{
  BusCall, publishes, subscribes, drops, calls, log_calls, Refines, init-Refines,
}
use python_tty.Streams.{new_reader}
use python_tty.Streams.Reading.{
  Event, published, resumed, steps, arrived, Progress, subscribe-steps,
}
use python_tty.Audit.{AuditSink, event, close}
use python_tty.Audit.Durability.{writes, takes, flushes, run, close-run}
use python_tty.Examples.Samples.{progress, progress_at, bus_of}

-- A bus that keeps `n` events, with one event of run "a" in its history.
abbrev bus_with : ℕ → RunEventBus ℕ
bus_with n = record (bus_of n) { history = ("a", progress_at 1 ∷ []) ∷ [] }

bus-IsAllocated : (n : ℕ) → IsAllocated (bus_with n)
unfolding EventBus.init subscribers_of get
bus-IsAllocated n j = tt

-- Events of two runs, in the order of their publication.
abbrev publications : List (ℕ × String × RuntimeEvent ℕ)
publications = (8, "a", progress_at 2) ∷ (9, "b", progress_at 1) ∷ (9, "a", progress_at 3) ∷ []

subscribe-publish_all_example :
    ((publish_all publications (subscribe "a" (some (pos 0)) (pos 0) (bus_with 2)).0).queues.cell
      0).items
    ≡ progress_at 1 ∷ progress_at 2 ∷ progress_at 3 ∷ []
unfolding EventBus.init history_of get
subscribe-publish_all_example =
    subscribe-publish_all "a" 0 publications (bus_with 2) (bus-IsAllocated 2)

-- An open stream with a worker, and one record queued.
abbrev sink : AuditSink ℕ
sink = record {
  is_open = true;
  written = [];
  buffer = none;
  queue = some (event progress ∷ []);
  batch = [];
}

close-run_example :
    (close (run (takes ∷ writes (event (progress_at 2)) ∷ flushes ∷ []) sink)).written
    ≡ event progress ∷ event (progress_at 2) ∷ []
close-run_example =
    close-run (takes ∷ writes (event (progress_at 2)) ∷ flushes ∷ []) sink
      (record { opened = refl; idle = inl refl })

-- A reader that is resumed before, between and after two publications, of which the first is
-- terminal.
abbrev finished_event : RuntimeEvent ℕ
finished_event = record (progress_at 2) { event_type = some "success" }

abbrev happenings : List (Event ℕ)
happenings =
    resumed
    ∷ published 8 "a" finished_event
    ∷ published 9 "a" (progress_at 3)
    ∷ resumed
    ∷ resumed
    ∷ []

subscribe-steps_example :
    Progress "a"
      (arrived "a" happenings (filter (λ e. ltb 0 (seq_of e)) (history_of "a" (bus_with 2))))
      (steps happenings (
        new_reader "a" true (bus_with 2).queues.next,
        (subscribe "a" (some (pos 0)) (pos 0) (bus_with 2)).0,
      ))
subscribe-steps_example = subscribe-steps "a" 0 true happenings (bus_with 2) (bus-IsAllocated 2)

-- Two publications to a bus that keeps one event, and a drop of another run.
abbrev bus_calls : List (BusCall ℕ)
bus_calls =
    publishes 8 (some "a") (progress_at 1)
    ∷ subscribes "a" none (pos 0)
    ∷ publishes 9 (some "a") (progress_at 2)
    ∷ drops "b"
    ∷ []

init-Refines_example :
    Refines (log_calls bus_calls (λ j. [])) (calls bus_calls (EventBus.init (some (pos 1)) none))
init-Refines_example = init-Refines (some (pos 1)) none bus_calls
