-- ===== src/Records/Flaky.antt =====
-- crates/proef-cli/src/flaky.rs: the verdicts over the retained runs. The rate above which a run is
-- an outage is a test of the numbers of failed and of all scenarios.
mod Hysteresis
mod Tests
use proef.Base.{
  ℕ, zero, suc, ◌+◌, ◌-◌, min, ◌^◌, Bool, true, false, not, Option, none, some, List, [], ◌∷◌, ◌++◌,
  map, any, all, length, count_p, ltb, leb, ◌==◌, ◌&&◌, ◌||◌, if◌then◌else◌,
}
use proef.Base.Texts.{Text, codes, text_eq}
use proef.Base.Keyed.{Order, text_order, pair_order, find, put}
use proef.Runner.{Status, passed, failed, skipped, warned}
use proef.Runner.Exit.{is_failed}
use proef.Records.{Key, key_order, StepRun, StepBuffer, ScenarioRun, is_suite, Record}
use proef.Records.Sla.{percentile}

pub record FlakyThresholds : Type 0 where
  pub min_samples : ℕ
  pub recovery_runs : ℕ

pub record Observation : Type 0 where
  pub has_failed : Bool
  pub retried : Bool
  pub duration_ms : ℕ

pub record History : Type 0 where
  pub runs : List Observation
  pub quarantined : Bool

abbrev pub observed : History → ℕ
observed h = length h.runs

abbrev pub failures : List Observation → ℕ
failures runs = count_p (λ (o : Observation). o.has_failed) runs

abbrev pub fails : History → ℕ
fails h = failures h.runs

abbrev pub differ : Bool → Bool → Bool
differ true b = not b
differ false b = b

-- `windows(2)`
unfoldable pub changes : List Observation → ℕ
changes [] = 0
changes (o ∷ []) = 0
changes (o ∷ p ∷ runs) =
    if differ o.has_failed p.has_failed then suc (changes (p ∷ runs)) else changes (p ∷ runs)

abbrev pub transitions : History → ℕ
transitions h = changes h.runs

abbrev pub pass_on_retry : History → ℕ
pass_on_retry h = count_p (λ (o : Observation). not o.has_failed && o.retried) h.runs

unfoldable pub insert_sorted : ℕ → List ℕ → List ℕ
insert_sorted n [] = n ∷ []
insert_sorted n (m ∷ ms) = if leb n m then n ∷ m ∷ ms else m ∷ insert_sorted n ms

unfoldable pub sorted : List ℕ → List ℕ
unfolding insert_sorted
sorted [] = []
sorted (n ∷ ns) = insert_sorted n (sorted ns)

abbrev pub or_zero : Option ℕ → ℕ
or_zero none = 0
or_zero (some n) = n

unfoldable pub p95_ms : History → ℕ
unfolding sorted percentile
p95_ms h = or_zero (percentile (sorted (map (λ (o : Observation). o.duration_ms) h.runs)) 95)

abbrev pub drop : ℕ → List Observation → List Observation
drop zero runs = runs
drop (suc n) [] = []
drop (suc n) (o ∷ runs) = drop n runs

abbrev pub is_clean : Observation → Bool
is_clean o = not o.has_failed && not o.retried

unfoldable pub clean_tail : ℕ → History → Bool
clean_tail n h = ltb 0 n && leb n (observed h) && all is_clean (drop (observed h - n) h.runs)

pub data Verdict : Type 0 where
  disabled flaky latent broken recovered insufficient_data healthy : Verdict

-- The part behind the sample floor and the quarantine.
unfoldable pub unquarantined : FlakyThresholds → History → Verdict
unfolding clean_tail changes
unquarantined t h =
    if fails h == observed h
    then broken
    else if leb 2 (transitions h) && not (clean_tail t.recovery_runs h)
    then flaky
    else if ltb 0 (pass_on_retry h) && not (clean_tail t.recovery_runs h)
    then latent
    else healthy

unfoldable pub verdict : FlakyThresholds → History → Verdict
unfolding unquarantined
verdict t h =
    if ltb (observed h) t.min_samples
    then insufficient_data
    else if h.quarantined && fails h == observed h
    then disabled
    else if h.quarantined && fails h == 0 && pass_on_retry h == 0
    then recovered
    else unquarantined t h

-- Context, file and scenario.
abbrev pub HistoryKey : Type 0
HistoryKey = Text × Key

abbrev pub history_order : Order HistoryKey
history_order = pair_order text_order key_order

abbrev pub Histories : Type 0
Histories = List (HistoryKey × History)

abbrev pub or_new : Option History → History
or_new none = record { runs = []; quarantined = false }
or_new (some h) = h

abbrev pub sum_ms : ℕ → StepBuffer → ℕ
sum_ms ms [] = ms
sum_ms ms ((_, s) ∷ steps) = sum_ms (min (2 ^ 64 - 1) (ms + s.duration_ms)) steps

unfoldable pub observe : ScenarioRun → History → History
unfolding text_eq is_failed
observe run h = record {
  quarantined = h.quarantined || any (λ t. text_eq t (codes "quarantine")) run.tags;
  runs =
      h.runs
      ++ record {
        has_failed = is_failed run.status;
        retried = any (λ (s : (Text × ℕ) × StepRun). ltb 1 s.1.attempts) run.steps;
        duration_ms = sum_ms 0 run.steps;
      }
        ∷ [];
}

abbrev pub is_skipped : Status → Bool
is_skipped skipped = true
is_skipped passed = false
is_skipped failed = false
is_skipped warned = false

-- A suite scenario that was reached.
unfoldable pub is_evidence : ScenarioRun → Bool
unfolding is_suite
is_evidence run = is_suite run && not (is_skipped run.status)

unfoldable pub observe_all : Text → List (Key × ScenarioRun) → Histories → Histories
unfolding observe is_evidence find put
observe_all context [] hs = hs
observe_all context ((key, run) ∷ runs) hs = observe_all context runs (
    if is_evidence run
    then put history_order (context, key)
        (observe run (or_new (find history_order (context, key) hs))) hs
    else hs)

module _ (exceeds : ℕ → ℕ → Bool) where
  unfoldable pub is_outage : Record → Bool
  unfolding is_evidence is_failed
  is_outage r =
      let total = count_p (λ (e : Key × ScenarioRun). is_evidence e.1) r.scenarios in
      let lost =
        count_p (λ (e : Key × ScenarioRun). is_evidence e.1 && is_failed e.1.status) r.scenarios in
      if total == 0 then false else exceeds lost total

  -- The runs, oldest first, with their contexts; one that cannot be read is `none`. The numbers
  -- are those of unreadable runs and of outages.
  unfoldable pub fold_runs : List (Option (Text × Record)) → Histories → ℕ → ℕ → Histories × ℕ × ℕ
  unfolding observe_all is_outage
  fold_runs [] hs unreadable outages = (hs, unreadable, outages)
  fold_runs (none ∷ runs) hs unreadable outages = fold_runs runs hs (suc unreadable) outages
  fold_runs (some (context, r) ∷ runs) hs unreadable outages =
      let counts = is_outage r in
      fold_runs runs (if counts then hs else observe_all context r.scenarios hs) unreadable
        (if counts then suc outages else outages)

-- The order of the verdicts: what a human should look at first.
abbrev pub urgency : Verdict → ℕ
urgency disabled = 0
urgency flaky = 1
urgency latent = 2
urgency broken = 3
urgency recovered = 4
urgency insufficient_data = 5
urgency healthy = 6

pub record VerdictRow : Type 0 where
  pub key : HistoryKey
  pub history : History
  pub verdict : Verdict

unfoldable pub insert_ranked : VerdictRow → List VerdictRow → List VerdictRow
insert_ranked r [] = r ∷ []
insert_ranked r (s ∷ rows) =
    if ltb (urgency r.verdict) (urgency s.verdict)
      || (urgency r.verdict == urgency s.verdict && not (history_order.lt s.key r.key))
    then r ∷ s ∷ rows
    else s ∷ insert_ranked r rows

unfoldable pub ranked : FlakyThresholds → Histories → List VerdictRow
unfolding verdict insert_ranked
ranked t [] = []
ranked t ((key, h) ∷ hs) =
    insert_ranked (record { key = key; history = h; verdict = verdict t h }) (ranked t hs)

-- A refusal, or the rows.
unfoldable pub flaky_report :
    (ℕ → ℕ → Bool) → FlakyThresholds → List (Option (Text × Record)) → Option (List VerdictRow)
unfolding fold_runs ranked
flaky_report exceeds t runs =
    let (hs, unreadable, outages) = fold_runs exceeds runs [] 0 0 in
    if ltb (length runs) 2
    then none
    else if ltb (length runs - unreadable - outages) 2
    then none
    else some (ranked t hs)
