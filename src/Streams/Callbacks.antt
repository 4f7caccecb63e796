-- ===== src/Streams/Callbacks.antt =====
-- src/python_tty/session/callbacks.py: the registry of callbacks on runs' events. A callback is known
-- by whether it is given; what it does, its errors included, has no effect here, and the task of a
-- subscription is a `Reader` that stops at a terminal event.
use python_tty.Prelude.{
  ℕ, ◌≡◌, String, Bool, true, Option, none, some, List, [], ◌∷◌, ◌++◌, if◌then◌else◌, pos, count,
  ◌==◌, filter, ltb,
}
use python_tty.Prelude.Dict.{Dict, get, put, pop, get-put_self}
use python_tty.Models.{exception, Outcome, returned, raised}
use python_tty.Runtime.Events.{RuntimeEvent, is_terminal_event, seq_of}
use python_tty.Runtime.EventBus.{RunEventBus, subscribe, unsubscribe, subscribers_of, history_of}
use python_tty.Runtime.EventBus.Streaming.{IsAllocated, subscribe-Follows, subscribe-some}
use python_tty.Streams.{Reader, new_reader}
use python_tty.Streams.Reading.{unsubscribe-gone}

pub record CallbackSubscription : Type 0 where
  pub run_id : String
  pub queue : ℕ
  pub on_event : Bool
  pub on_done : Bool

pub record CallbackRegistry (Any : Type 0) : Type 0 where
  pub subs : Dict CallbackSubscription
  pub bus : RunEventBus Any

-- A call of a callback.
pub data Call (Any : Type 0) : Type 0 where
  event_call done_call : RuntimeEvent Any → Call Any

module _ {Any : Type 0} where
  -- _create_subscription
  abbrev pub create_subscription :
      String
      → String
      → Bool
      → Bool
      → CallbackRegistry Any
      → RunEventBus Any × Option ℕ
      → CallbackRegistry Any × Outcome String
  create_subscription id run_id on_event on_done r (b, none) =
      (record r { bus = b }, raised (exception "QueueFull"))
  create_subscription id run_id on_event on_done r (b, some q) =
      let sub : CallbackSubscription = record {
        run_id = run_id;
        queue = q;
        on_event = on_event;
        on_done = on_done;
      } in
      (record r { subs = put id sub r.subs; bus = b }, returned id)

  -- register, under the identifier that uuid gives
  unfoldable pub register :
      Bool
      → String
      → String
      → Bool
      → Bool
      → CallbackRegistry Any
      → CallbackRegistry Any × Outcome String
  unfolding subscribe put
  register loop_running id run_id on_event on_done r =
      let made =
        create_subscription id run_id on_event on_done r
          (subscribe run_id (some (pos 0)) (pos 0) r.bus) in
      if loop_running then made else (r, raised (exception "Executor loop is not running"))

  abbrev pub cancel_sub : CallbackSubscription → RunEventBus Any → RunEventBus Any
  cancel_sub sub b = unsubscribe sub.run_id sub.queue b

  abbrev pub unregister_sub :
      Option CallbackSubscription → String → CallbackRegistry Any → CallbackRegistry Any
  unregister_sub none id r = r
  unregister_sub (some sub) id r = record r { subs = pop id r.subs; bus = cancel_sub sub r.bus }

  -- unregister
  unfoldable pub unregister : String → CallbackRegistry Any → CallbackRegistry Any
  unregister id r = unregister_sub (get id r.subs) id r

  unfoldable pub cancel_each : Dict CallbackSubscription → RunEventBus Any → RunEventBus Any
  unfolding unsubscribe
  cancel_each [] b = b
  cancel_each ((id, sub) ∷ subs) b = cancel_each subs (cancel_sub sub b)

  -- close
  unfoldable pub close : CallbackRegistry Any → CallbackRegistry Any
  unfolding cancel_each
  close r = record r { subs = []; bus = cancel_each r.subs r.bus }

  -- The `finally` of `_watch`, under the identifier of the subscription.
  unfoldable pub end_watch :
      String → CallbackSubscription → CallbackRegistry Any → CallbackRegistry Any
  unfolding pop unsubscribe
  end_watch id sub r = record r { subs = pop id r.subs; bus = cancel_sub sub r.bus }

  -- The calls that `_watch` makes for one event.
  abbrev pub event_calls : CallbackSubscription → RuntimeEvent Any → List (Call Any)
  event_calls sub e =
      let done = if is_terminal_event e then if sub.on_done then done_call e ∷ [] else [] else [] in
      if sub.on_event then event_call e ∷ done else done

  -- The calls that `_watch` makes for the events that it reads.
  unfoldable pub watch_calls : CallbackSubscription → List (RuntimeEvent Any) → List (Call Any)
  unfolding is_terminal_event
  watch_calls sub [] = []
  watch_calls sub (e ∷ es) = event_calls sub e ++ watch_calls sub es

  -- The task of a subscription, at its start.
  abbrev pub watcher : CallbackSubscription → Reader Any
  watcher sub = new_reader sub.run_id true sub.queue

  -- A callback that is registered and unregistered leaves no subscription behind.
  unregister-gone :
      (id run_id : String) (on_event on_done : Bool) (r : CallbackRegistry Any) (j : String)
      → IsAllocated r.bus
      → count
          (λ x. x == r.bus.queues.next)
          (subscribers_of j (unregister id (register true id run_id on_event on_done r).0).bus)
        ≡ 0
  unfolding register unregister
  unregister-gone id run_id on_event on_done r j fresh =
      let sub : CallbackSubscription = record {
        run_id = run_id;
        queue = r.bus.queues.next;
        on_event = on_event;
        on_done = on_done;
      } in
      let kept = filter (λ e. ltb 0 (seq_of e)) (history_of run_id r.bus) in
      let b = (subscribe run_id (some (pos 0)) (pos 0) r.bus).0 in
      rw (subscribe-some run_id 0 r.bus, get-put_self id sub r.subs)
        (unsubscribe-gone r.bus.queues.next run_id kept b (subscribe-Follows run_id 0 r.bus fresh)
          j)
