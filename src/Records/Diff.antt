-- ===== src/Records/Diff.antt =====
-- crates/proef-cli/src/diff.rs: the comparison of two records. A rendered line is the data that it
-- shows.
mod Verdicts
mod Computed
mod Certified
mod Tests
use proef.Base.{
  filter, ℕ, suc, ◌+◌, ◌-◌, ◌*◌, min, Bool, true, false, Option, none, some, List, [], ◌∷◌, ◌++◌,
  is_some, ltb, leb, ◌&&◌, if◌then◌else◌, ◌^◌,
}
use proef.Base.Texts.{Text}
use proef.Base.Keyed.{Order, find}
use proef.Runner.{Status, passed, failed, skipped, warned}
use proef.Runner.Exit.{is_failed, ExitCode, success, test_failure}
use proef.Records.{
  Key, key_order, StepRun, step_order, StepBuffer, ScenarioRun, is_suite, Record, RunCompletion,
  completed, cancelled, incomplete,
}

abbrev pub slower_min_delta_ms : ℕ
slower_min_delta_ms = 50

abbrev pub slower_min_ratio_num : ℕ
slower_min_ratio_num = 3

abbrev pub slower_min_ratio_den : ℕ
slower_min_ratio_den = 2

-- A step whose attempts rose, and by how much.
pub record FlakyLine : Type 0 where
  pub key : Key
  pub text : Text
  pub base_attempts : ℕ
  pub new_attempts : ℕ

pub record SlowerLine : Type 0 where
  pub key : Key
  pub base_ms : ℕ
  pub new_ms : ℕ
  pub delta : ℕ

pub record Report : Type 0 where
  pub regressed : List Key
  pub fixed : List Key
  pub still_failing : List Key
  pub now_skipped : List (Key × Bool)
  pub added : List (Key × Status)
  pub removed : List Key
  pub flaky : List FlakyLine
  pub slower : List SlowerLine

-- The `match` on whether the scenario failed then and now.
abbrev pub by_failure : Key → Bool → Bool → Report → Report
by_failure key false true r = record r { regressed = r.regressed ++ key ∷ [] }
by_failure key true false r = record r { fixed = r.fixed ++ key ∷ [] }
by_failure key true true r = record r { still_failing = r.still_failing ++ key ∷ [] }
by_failure key false false r = r

abbrev pub skip_now : Key → Status → Report → Report
skip_now key base r = record r { now_skipped = r.now_skipped ++ (key, is_failed base) ∷ [] }

abbrev pub add : Key → Status → Report → Report
add key status r = record r { added = r.added ++ (key, status) ∷ [] }

-- The `match` on the two statuses.
unfoldable pub by_statuses : Key → Status → Status → Report → Report
unfolding is_failed
by_statuses key skipped skipped r = r
by_statuses key base skipped r = skip_now key base r
by_statuses key skipped new r = add key new r
by_statuses key base new r = by_failure key (is_failed base) (is_failed new) r

abbrev pub flaky_step : Key → Text → Option StepRun → StepRun → Report → Report
flaky_step key text none new_step r = r
flaky_step key text (some base_step) new_step r =
    if ltb base_step.attempts new_step.attempts
    then record r {
      flaky =
          r.flaky
          ++ record {
            key = key;
            text = text;
            base_attempts = base_step.attempts;
            new_attempts = new_step.attempts;
          }
            ∷ [];
    }
    else r

-- The loop of `note_flaky` over the steps of the new run.
unfoldable pub flaky_steps : Key → StepBuffer → StepBuffer → Report → Report
unfolding find
flaky_steps key base [] r = r
flaky_steps key base (((text, ord), new_step) ∷ steps) r =
    flaky_steps key base steps (flaky_step key text (find step_order (text, ord) base) new_step r)

unfoldable pub note_flaky : Key → ScenarioRun → ScenarioRun → Report → Report
unfolding flaky_steps
note_flaky key base new r = flaky_steps key base.steps new.steps r

abbrev pub u64_max : ℕ
u64_max = 2 ^ 64 - 1

abbrev pub saturating_add : ℕ → ℕ → ℕ
saturating_add a b = min u64_max (a + b)

abbrev pub saturating_mul : ℕ → ℕ → ℕ
saturating_mul a b = min u64_max (a * b)

-- `base_ms` and `new_ms`
abbrev pub Sums : Type 0
Sums = ℕ × ℕ

abbrev pub sum_step : Option StepRun → StepRun → Sums → Sums
sum_step none new_step sums = sums
sum_step (some base_step) new_step (base_ms, new_ms) =
    (saturating_add base_ms base_step.duration_ms, saturating_add new_ms new_step.duration_ms)

unfoldable pub sum_steps : StepBuffer → StepBuffer → Sums → Sums
unfolding find
sum_steps base [] sums = sums
sum_steps base ((id, new_step) ∷ steps) sums =
    sum_steps base steps (sum_step (find step_order id base) new_step sums)

-- The two tests of `note_slower`; the difference stops at 0.
unfoldable pub is_slower : Sums → Bool
is_slower (base_ms, new_ms) =
    leb slower_min_delta_ms (new_ms - base_ms)
    && leb (saturating_mul base_ms slower_min_ratio_num)
        (saturating_mul new_ms slower_min_ratio_den)

unfoldable pub note_slower : Key → ScenarioRun → ScenarioRun → Report → Report
unfolding sum_steps is_slower
note_slower key base new r =
    let sums = sum_steps base.steps new.steps (0, 0) in
    if is_slower sums
    then record r {
      slower =
          r.slower
          ++ record { key = key; base_ms = sums.0; new_ms = sums.1; delta = sums.1 - sums.0 } ∷ [];
    }
    else r

unfoldable pub compare_runs : Key → Option ScenarioRun → ScenarioRun → Report → Report
unfolding by_statuses note_flaky note_slower
compare_runs key none new r = add key new.status r
compare_runs key (some base) new r =
    note_slower key base new (note_flaky key base new (by_statuses key base.status new.status r))

abbrev pub Runs : Type 0
Runs = List (Key × ScenarioRun)

unfoldable pub compare_all : Runs → Runs → Report → Report
unfolding compare_runs find
compare_all base [] r = r
compare_all base ((key, new) ∷ runs) r =
    compare_all base runs (compare_runs key (find key_order key base) new r)

-- The loop over the keys of the base run.
unfoldable pub note_removed : Runs → Runs → Report → Report
unfolding find
note_removed new [] r = r
note_removed new ((key, base) ∷ runs) r =
    note_removed new runs
      (if is_some (find key_order key new) then r else record r { removed = r.removed ++ key ∷ [] })

abbrev pub empty_report : Report
empty_report = record {
  regressed = [];
  fixed = [];
  still_failing = [];
  now_skipped = [];
  added = [];
  removed = [];
  flaky = [];
  slower = [];
}

-- `Report::compute`
unfoldable pub compute : Runs → Runs → Report
unfolding compare_all note_removed
compute base new = note_removed new base (compare_all base new empty_report)

abbrev pub suite_only : Runs → Runs
suite_only runs = filter (λ (e : Key × ScenarioRun). is_suite e.1) runs

abbrev pub is_completed : RunCompletion → Bool
is_completed completed = true
is_completed cancelled = false
is_completed incomplete = false

abbrev pub is_empty : List Key → Bool
is_empty [] = true
is_empty (_ ∷ _) = false

-- The exit code of `diff` for two records that could be read.
unfoldable pub diff : Record → Record → Bool → ExitCode
unfolding compute is_suite
diff base new fail_on_regression =
    let report = compute (suite_only base.scenarios) (suite_only new.scenarios) in
    if fail_on_regression
    then (if is_completed new.completion
        then (if is_empty report.regressed then success else test_failure)
        else test_failure)
    else success
