-- ===== src/Records/Diff/Tests.antt =====
-- crates/proef-cli/src/diff.rs: a regression and a skip, and instances.
use proef.Base.{◌≡◌, ◌↔◌, refl, true, false, none, List, [], ◌∷◌}
use proef.Base.Texts.{codes, text_eq, text_lt}
use proef.Base.Keyed.{find}
use proef.Runner.{Status, passed, failed, skipped}
use proef.Runner.Exit.{success, test_failure}
use proef.Records.Events.{Event, scenario_finished, run_finished}
use proef.Records.{Key, key_order, ScenarioRun, parse_record}
use proef.Records.Diff.{Runs, compute, diff, is_completed}
use proef.Records.Diff.Verdicts.{regressed, verdict, is_verdict, count_in, one_if}
use proef.Records.Diff.Computed.{status_of, compute-verdict}
use proef.Records.Diff.Certified.{NotRegressed, diff-eq-success_iff}

abbrev run : Status → ScenarioRun
run status = record { status = status; steps = []; phase = none; reason = none; tags = [] }

abbrev login : Key
login = (codes "a.feature", codes "login")

abbrev logout : Key
logout = (codes "a.feature", codes "logout")

abbrev base : Runs
base = (login, run passed) ∷ (logout, run failed) ∷ []

abbrev new : Runs
new = (login, run failed) ∷ (logout, run skipped) ∷ []

skip_is_no_fix : (compute base new).now_skipped ≡ (logout, true) ∷ []
unfolding compute text_eq
skip_is_no_fix = refl

compute-verdict_example :
    count_in regressed login (compute base new)
    ≡ one_if (
        is_verdict regressed
          (verdict (status_of (find key_order login base)) (status_of (find key_order login new))))
unfolding text_eq text_lt
compute-verdict_example =
    compute-verdict regressed login base new ((refl, tt), (tt, tt)) ((refl, tt), (tt, tt))

abbrev ended : Status → List Event
ended status =
    scenario_finished (record {
      scenario = codes "login";
      file = codes "a.feature";
      status = status;
      timestamp_ms = none;
      worker = none;
      phase = none;
      reason = none;
      tags = [];
    })
    ∷ run_finished (record { passed = 1; failed = 0; skipped = 0; cancelled = false })
    ∷ []

caught : diff (parse_record (ended passed)) (parse_record (ended failed)) true ≡ test_failure
unfolding diff parse_record
caught = refl

diff-eq-success_iff_example :
    (diff (parse_record (ended passed)) (parse_record (ended passed)) true ≡ success) ↔ (
      (is_completed (parse_record (ended passed)).completion ≡ true)
      × ((k : Key) → NotRegressed (ended passed) (ended passed) k))
diff-eq-success_iff_example = diff-eq-success_iff (ended passed) (ended passed)
