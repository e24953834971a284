-- ===== src/Runner/Gate/Tests.antt =====
-- crates/proef-core/src/runner.rs: `RecordGate` with a worker.
use proef.Base.{◌≡◌, refl, ℕ, List, [], ◌∷◌, ◌++◌, reverse}
use proef.Base.Texts.{codes}
use proef.Runner.Gate.{ScenarioId, new, scenario_sink, finish_scenario, emit_run_level, close_run}
use proef.Runner.Gate.Record.{
  Call, from_worker, finished, run_level, closing, apply_calls, record_of, apply_calls-record_of,
}

abbrev one : ScenarioId
one = (codes "a.feature", codes "one")

abbrev other : ScenarioId
other = (codes "a.feature", codes "two")

abbrev opening : List (Call ℕ)
opening = run_level 0 ∷ from_worker one 1 ∷ from_worker other 2 ∷ []

abbrev rest : List (Call ℕ)
rest =
    from_worker one 4
    ∷ from_worker other 5
    ∷ finished other 6
    ∷ run_level 7
    ∷ closing
    ∷ from_worker other 8
    ∷ []

written :
    (apply_calls (opening ++ finished one 3 ∷ rest) new).written ≡ 7 ∷ 6 ∷ 5 ∷ 3 ∷ 2 ∷ 1 ∷ 0 ∷ []
unfolding new scenario_sink finish_scenario emit_run_level close_run
written = refl

apply_calls-record_of_example :
    (apply_calls (opening ++ rest) new).written ≡ record_of (reverse (opening ++ rest))
apply_calls-record_of_example = apply_calls-record_of (opening ++ rest)
