-- ===== src/Examples/Suites.antt =====
-- The theorems about test suites and harnesses on small inputs.
use python_tty.Prelude.{ℕ, ◌≡◌, refl, String, true, false, none, some, List, [], ◌∷◌}
use python_tty.Prelude.Dict.{Dict, IsDict, values}
use python_tty.Prelude.Sorting.{is_sorted}
use python_tty.Models.{returned}
use python_tty.Commands.{CommandTables}
use python_tty.Commands.Lookup.{find_last}
use python_tty.Executor.Bindings.{new_commands}
use python_tty.Testing.{DiscoveredTestCase, by_id, new_suite, get_case}
use python_tty.Testing.Suite.{is_keyed, has_key, id_of, new_suite_lem}
use python_tty.Testing.Harness.{Arguments, Effect}
use python_tty.Testing.Running.{run_command, run_invocation, run_invocation-run_command}
use python_tty.Examples.Lines.{split_words, no_parameters}
use python_tty.Examples.Sessions.{help, quit}

abbrev case_named : String → String → ℕ → DiscoveredTestCase ℕ ℕ
case_named i n f = record {
  command_id = i;
  command_name = n;
  console_name = "root";
  console_cls = none;
  commands_cls = "RootCommands";
  method_name = n;
  method = f;
  class_marked = true;
  method_marked = false;
  test_meta = [];
}

abbrev cases : List (DiscoveredTestCase ℕ ℕ)
cases =
    case_named "cmd:root:quit" "quit" 2
    ∷ case_named "cmd:root:help" "help" 1
    ∷ case_named "cmd:root:quit" "quit" 3
    ∷ []

new_suite_lem_example :
    (is_sorted by_id (new_suite cases).cases ≡ true)
    × IsDict (new_suite cases).cases_by_id
    × (is_keyed id_of (new_suite cases).cases_by_id ≡ true)
    × ((new_suite cases).cases ≡ values (new_suite cases).cases_by_id)
    × (get_case "cmd:root:quit" (new_suite cases) ≡ find_last (has_key id_of "cmd:root:quit") cases)
new_suite_lem_example = new_suite_lem cases "cmd:root:quit"

abbrev arguments : Arguments ℕ
arguments = record {
  argv = some ("now" ∷ []);
  kwargs = [];
  raw_text = none;
  validate = false;
  run_id = none;
  raise_exceptions = false;
}

abbrev answer : ℕ → List String → Dict ℕ → Effect ℕ
answer f argv kwargs = record { runtime_events = []; ui_events = []; ends = returned (some f) }

abbrev tables : String → String → CommandTables ℕ
tables c n = new_commands n (help ∷ quit ∷ [])

run_invocation-run_command_example :
    run_invocation split_words no_parameters tables
      (λ b d text. answer 0 [] [])
      answer
      "u"
      "test"
      (case_named "cmd:root:quit" "quit" 2)
      arguments
    ≡ run_command split_words no_parameters tables
        (λ b d text. answer 0 [] [])
        answer
        "u"
        "test"
        (case_named "cmd:root:quit" "quit" 2)
        arguments
run_invocation-run_command_example =
    run_invocation-run_command split_words no_parameters tables (λ b d text. answer 0 [] []) answer
      "u" "test" (case_named "cmd:root:quit" "quit" 2) arguments refl refl
