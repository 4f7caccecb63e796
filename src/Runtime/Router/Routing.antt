-- ===== src/Runtime/Router/Routing.antt =====
-- src/python_tty/runtime/router.py: a text is printed alike in a run and outside of one.
use python_tty.Prelude.{
  ℕ, ◌≡◌, refl, String, Bool, true, false, ◌&&◌, Option, none, is_some, sym, ◌∙◌, Bool-cases, inl,
  inr,
}
use python_tty.Models.{Value}
use python_tty.Runtime.Events.{UiEventLevel}
use python_tty.Runtime.Context.{RunContext}
use python_tty.Runtime.Router.{
  level, UiEvent, Level, Sent, to_emitter, to_router, Emitted, ui, runtime, OutputRouter, emit,
  proxy_print, normalize_level,
}

module _ {Any : Type 0} where
  -- What reaches the router: the event itself, or the run's event once the sink takes it.
  abbrev pub routed : Sent Any → Emitted Any
  routed (to_emitter e) = runtime e
  routed (to_router e) = ui e

  abbrev pub is_emitted : Sent Any → Bool
  is_emitted (to_emitter e) = true
  is_emitted (to_router e) = false

  module _ (str : Option (Value Any) → String) (is_running takes_calls : ℕ → Bool) where
    -- The event in question, wherever it comes from.
    bare : Option (Value Any) → UiEventLevel → UiEvent Any
    bare msg l = record {
      msg = msg;
      level = level l;
      run_id = none;
      event_type = none;
      payload = none;
      source = none;
      ts = none;
      seq = none;
    }

    proxy_print-bare :
        (now : ℕ) (c : RunContext Any) (msg : Option (Value Any)) (l : Level) (source : String)
        (run_id : Option String) (r : OutputRouter Any)
        → emit str is_running takes_calls (routed (proxy_print now c msg l source run_id)) r
          ≡ emit str is_running takes_calls (ui (bare msg (normalize_level l))) r
    unfolding proxy_print emit bare
    proxy_print-bare now c msg l source run_id r = elim (Bool-cases (is_some c.run_id && c.emits)) [
      | inl e ↦ rw e refl
      | inr e ↦ rw e refl
    ]

    -- Printing a text of some level sends it to the run's emitter exactly where the context has a run
    -- and an emitter; and a router that gets the event, from the caller or from the sink of runs'
    -- events, prints the same, with the same level, symbol and style, whatever the contexts, sources
    -- and times are.
    pub proxy_print-emit :
        (now now' : ℕ) (c c' : RunContext Any) (msg : Option (Value Any)) (l : Level)
        (source source' : String) (run_id run_id' : Option String) (r : OutputRouter Any)
        → (is_emitted (proxy_print now c msg l source run_id) ≡ (is_some c.run_id && c.emits))
          × (emit str is_running takes_calls (routed (proxy_print now c msg l source run_id)) r
              ≡ emit str is_running takes_calls
                  (routed (proxy_print now' c' msg l source' run_id'))
                  r)
    unfolding proxy_print
    proxy_print-emit now now' c c' msg l source source' run_id run_id' r = (
      elim (Bool-cases (is_some c.run_id && c.emits)) [ inl e ↦ rw e refl | inr e ↦ rw e refl ],
      proxy_print-bare now c msg l source run_id r
          ∙ sym (proxy_print-bare now' c' msg l source' run_id' r),
    )
