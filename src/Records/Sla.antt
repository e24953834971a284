-- ===== src/Records/Sla.antt =====
-- crates/proef-cli/src/sla.rs: the latency budget of a run. A report is the data that it shows.
mod Rank
mod Budget
mod Tests
use proef.Base.{
  ℕ, zero, suc, ◌+◌, ◌-◌, ◌*◌, ◌/◌, ◌^◌, min, max, Bool, true, false, not, Option, none, some, List,
  [], ◌∷◌, ◌++◌, map, reverse, any, filter, length, get_elem?, is_some, ltb, leb, ◌&&◌, ◌||◌,
  if◌then◌else◌,
}
use proef.Base.Texts.{Text, text_eq}
use proef.Runner.{Status, passed, failed, skipped, warned, StepOutcome, ScenarioOutcome}

pub record SlaThresholds : Type 0 where
  pub p95_ms : Option ℕ
  pub max_ms : Option ℕ

unfoldable pub is_set : SlaThresholds → Bool
is_set t = is_some t.p95_ms || is_some t.max_ms

-- Of an ascending list.
unfoldable pub percentile : List ℕ → ℕ → Option ℕ
percentile [] p = none
percentile (x ∷ sorted) p =
    let n = length (x ∷ sorted) in
    let rank = max ((p * n + 99) / 100) 1 in get_elem? (x ∷ sorted) (min (rank - 1) (n - 1))

-- A measured step: milliseconds, file and line.
pub record Row : Type 0 where
  pub ms : ℕ
  pub file : Text
  pub line : ℕ

-- `sort_unstable_by_key`: rows of the same duration keep their order here.
unfoldable pub insert_row : Row → List Row → List Row
insert_row r [] = r ∷ []
insert_row r (s ∷ rows) = if leb r.ms s.ms then r ∷ s ∷ rows else s ∷ insert_row r rows

unfoldable pub sort_rows : List Row → List Row
unfolding insert_row
sort_rows [] = []
sort_rows (r ∷ rows) = insert_row r (sort_rows rows)

-- What was measured, and the budget.
pub data Breach : Type 0 where
  p95 maximum : ℕ → ℕ → Breach

abbrev pub breach_of : (ℕ → ℕ → Breach) → Option ℕ → Option ℕ → List Breach
breach_of kind (some budget) (some measured) =
    if ltb budget measured then kind measured budget ∷ [] else []
breach_of kind none measured = []
breach_of kind (some budget) none = []

unfoldable pub last : List ℕ → Option ℕ
last [] = none
last (x ∷ []) = some x
last (x ∷ y ∷ xs) = last (y ∷ xs)

abbrev pub take : ℕ → List Row → List Row
take zero rows = []
take (suc n) [] = []
take (suc n) (r ∷ rows) = r ∷ take n rows

pub record SlaReport : Type 0 where
  pub measured : ℕ
  pub breaches : List Breach
  pub slowest : List Row

abbrev pub reported : List Row → List Breach → Option SlaReport
reported rows [] = none
reported rows (b ∷ breaches) =
    some
      (record { measured = length rows; breaches = b ∷ breaches; slowest = take 3 (reverse rows) })

abbrev pub durations : List Row → List ℕ
durations rows = map (λ (r : Row). r.ms) rows

abbrev pub breaches_of : SlaThresholds → List ℕ → List Breach
breaches_of t ms = breach_of p95 t.p95_ms (percentile ms 95) ++ breach_of maximum t.max_ms (last ms)

-- No row at all gives no report.
unfoldable pub evaluate : List Row → SlaThresholds → Option SlaReport
unfolding sort_rows percentile last
evaluate steps t = let rows = sort_rows steps in reported rows (breaches_of t (durations rows))

abbrev pub was_run : Status → Bool
was_run skipped = false
was_run passed = true
was_run failed = true
was_run warned = true

unfoldable pub is_gating : List (Text × Text) → ScenarioOutcome → Bool
unfolding text_eq
is_gating non_gating o =
    not (any (λ (p : Text × Text). text_eq p.0 o.file && text_eq p.1 o.name) non_gating)

abbrev pub row_of : StepOutcome → Row
row_of s = record { ms = min (2 ^ 64 - 1) s.duration; file = s.step.file; line = s.step.line }

-- The rows of the steps that ran, of the scenarios that gate.
unfoldable pub rows_of : List (Text × Text) → List ScenarioOutcome → List Row
unfolding is_gating
rows_of non_gating [] = []
rows_of non_gating (o ∷ outcomes) =
    let rest = rows_of non_gating outcomes in
    if is_gating non_gating o
    then map row_of (filter (λ (s : StepOutcome). was_run s.status) o.steps) ++ rest
    else rest

unfoldable pub check : List ScenarioOutcome → SlaThresholds → List (Text × Text) → Option SlaReport
unfolding is_set rows_of evaluate
check outcomes t non_gating = if is_set t then evaluate (rows_of non_gating outcomes) t else none
