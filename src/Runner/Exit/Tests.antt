-- ===== src/Runner/Exit/Tests.antt =====
-- crates/proef-core/src/runner.rs: exit codes of small runs.
use proef.Base.{◌≡◌, ◌↔◌, refl, false, none, some, List, [], ◌∷◌, All, Any}
use proef.Base.Texts.{Text, codes}
use proef.Runner.{failed, user, ScenarioOutcome}
use proef.Runner.Exit.{
  success, test_failure, user_error, system_error, RunSummary, exit_code_excluding, exit_code,
}
use proef.Runner.Exit.Gating.{HasSystemFault, HasUserFault, IsAccepted, exit_code_excluding_iff}

abbrev flaky : ScenarioOutcome
flaky = record {
  file = codes "a.feature";
  name = codes "flaky";
  line = 1;
  status = failed;
  reason = none;
  tags = [];
  steps = [];
  fault = none;
  artifact_slug = none;
}

abbrev misused : ScenarioOutcome
misused = record {
  file = codes "b.feature";
  name = codes "misused";
  line = 4;
  status = failed;
  reason = none;
  tags = [];
  steps = [];
  fault = some (user (codes "no secret"));
  artifact_slug = none;
}

abbrev quarantine : List (Text × Text)
quarantine = (codes "a.feature", codes "flaky") ∷ []

abbrev two : RunSummary
two = record {
  outcomes = flaky ∷ misused ∷ [];
  passed = 0;
  failed = 2;
  skipped = 0;
  cancelled = false;
}

abbrev only_flaky : RunSummary
only_flaky = record {
  outcomes = flaky ∷ [];
  passed = 0;
  failed = 1;
  skipped = 0;
  cancelled = false;
}

gated : exit_code only_flaky ≡ test_failure
unfolding exit_code
gated = refl

excluded : exit_code_excluding quarantine only_flaky ≡ success
unfolding exit_code_excluding
excluded = refl

user_wins : exit_code_excluding quarantine two ≡ user_error
unfolding exit_code_excluding
user_wins = refl

exit_code_excluding_iff_example :
    ((exit_code_excluding quarantine two ≡ system_error)
      ↔ Any HasSystemFault (flaky ∷ misused ∷ []))
    × (((exit_code_excluding quarantine two ≡ user_error)
          ↔ (¬ Any HasSystemFault (flaky ∷ misused ∷ [])) × Any HasUserFault (flaky ∷ misused ∷ []))
        × ((exit_code_excluding quarantine two ≡ success)
            ↔ (false ≡ false) × All (IsAccepted quarantine) (flaky ∷ misused ∷ [])))
exit_code_excluding_iff_example = exit_code_excluding_iff quarantine two
