-- ===== src/Examples/Prints.antt =====
-- The theorem about printing on one message, in a run and outside of one.
use python_tty.Prelude.{ℕ, String, ◌≡◌, true, Option, none, some, [], pos, is_some, ◌&&◌}
use python_tty.Models.{Value, text}
use python_tty.Runtime.Context.{RunContext, empty_context}
use python_tty.Runtime.Router.{code, OutputRouter, emit, proxy_print}
use python_tty.Runtime.Router.Routing.{routed, is_emitted, proxy_print-emit}

abbrev shown : Option (Value ℕ) → String
shown (some (text s)) = s
shown m = "None"

abbrev router : OutputRouter ℕ
router = record { app = some 1; output = none; printed = [] }

abbrev in_run : RunContext ℕ
in_run = record empty_context { run_id = some "a"; emits = true; source = some "rpc" }

proxy_print-emit_example :
    (is_emitted (proxy_print 5 in_run (some (text "done")) (code (pos 3)) "custom" none)
      ≡ (is_some in_run.run_id && in_run.emits))
    × (emit shown
          (λ a. true)
          (λ a. true)
          (routed (proxy_print 5 in_run (some (text "done")) (code (pos 3)) "custom" none))
          router
        ≡ emit shown
            (λ a. true)
            (λ a. true)
            (routed (proxy_print 6 empty_context (some (text "done")) (code (pos 3)) "tty" none))
            router)
proxy_print-emit_example =
    proxy_print-emit shown (λ a. true) (λ a. true) 5 6 in_run empty_context (some (text "done"))
      (code (pos 3)) "custom" "tty" none none router
