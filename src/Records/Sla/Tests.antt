-- ===== src/Records/Sla/Tests.antt =====
-- crates/proef-cli/src/sla.rs: the tests of the program, and an instance.
use proef.Base.{ℕ, ◌≡◌, refl, none, some, List, [], ◌∷◌, is_some}
use proef.Base.Texts.{codes}
use proef.Runner.{passed, skipped, StepOutcome, ScenarioOutcome, Status}
use proef.Records.Sla.{SlaThresholds, percentile, rows_of, durations, check}
use proef.Records.Sla.Budget.{is_over, check-reports}

nearest_rank : percentile (10 ∷ 20 ∷ 30 ∷ 40 ∷ []) 95 ≡ some 40
unfolding percentile
nearest_rank = refl

abbrev step : Status → ℕ → StepOutcome
step status ms = record {
  step = record { file = codes "a.feature"; line = 3; text = codes "I log in" };
  status = status;
  attempts = 1;
  duration = ms;
  detail = none;
  attempt_details = [];
  reproduce_hint = none;
  fragment = none;
  label = none;
}

abbrev outcomes : List ScenarioOutcome
outcomes =
    record {
      file = codes "a.feature";
      name = codes "login";
      line = 1;
      status = passed;
      reason = none;
      tags = [];
      steps = step passed 700 ∷ step skipped 900 ∷ step passed 20 ∷ [];
      fault = none;
      artifact_slug = none;
    }
    ∷ []

abbrev budget : SlaThresholds
budget = record { p95_ms = none; max_ms = some 600 }

check-reports_example :
    is_some (check outcomes budget []) ≡ is_over budget (durations (rows_of [] outcomes))
check-reports_example = check-reports outcomes budget []
