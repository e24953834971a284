-- ===== src/Runner/Scenario/Tests.antt =====
-- crates/proef-core/src/runner.rs: a scenario of two batches with an engine that saves what it is told.
use proef.Base.{
  ◌≡◌, refl, ℕ, Bool, false, none, some, List, [], ◌∷◌, ◌==◌, map, arith, if◌then◌else◌,
}
use proef.Base.Texts.{Text, codes, text_eq}
use proef.Base.Maps.{lookup}
use proef.World.{string, World, new, guard_secrets, set_global}
use proef.World.Clean.{Write, apply_writes, promotion, IsClean}
use proef.Runner.{passed, skipped, StepOutcome}
use proef.Runner.Pool.{ScenarioSpec}
use proef.Runner.Scenario.{LoweredStep, opened, Engines, Prepared, ready}
use proef.Runner.Scenario.Life.{start, run_scenario}
use proef.Runner.Scenario.Secrets.{WritesOnly, run_scenario-IsClean}
use proef.Runner.Scenario.Passing.{Ran, run_scenario-Ran}

-- A payload is what is saved under `k`; the teardown is fine.
abbrev report : LoweredStep Text → StepOutcome
report s = record {
  step = s.step;
  status = passed;
  attempts = 1;
  duration = 5;
  detail = none;
  attempt_details = [];
  reproduce_hint = none;
  fragment = none;
  label = none;
}

abbrev save : List (LoweredStep Text) → World ℕ → World ℕ
save [] w = w
save (s ∷ ss) w = save ss (set_global (codes "k") (string s.payload) w).0

abbrev saver : Engines ℕ Unit Text
saver = record {
  open_session = λ id. if text_eq id (codes "save") then some (opened tt) else none;
  run_batch = λ batch session world.
      (tt, (save batch.steps world, record { steps = map report batch.steps; error = none }));
  finish = λ session. none;
}

abbrev saves : ℕ → Text → LoweredStep Text
saves n value = record {
  step = record { file = codes "a.feature"; line = n; text = codes "save" };
  payload = value;
  optional = false;
  label = none;
  fragment = none;
}

abbrev two_batches : Prepared Text
two_batches = record {
  batches =
      record {
        engine = codes "save";
        steps = saves 3 (codes "s3cret!") ∷ saves 4 (codes "ok") ∷ [];
      }
      ∷ record { engine = codes "save"; steps = saves 5 (codes "ok") ∷ [] }
      ∷ [];
  artifact_slug = none;
}

abbrev spec : ScenarioSpec
spec = record {
  file = codes "a.feature";
  name = codes "saving";
  line = 2;
  tags = [];
  skip = none;
  exclusive = false;
}

abbrev goes_on : ℕ → Bool
goes_on n = false

abbrev stops_at_one : ℕ → Bool
stops_at_one n = n == 1

abbrev needles : List Text
needles = codes "s3cret" ∷ []

saved :
    lookup (codes "k") (run_scenario saver goes_on needles (λ w. ready two_batches) spec [] []).1
    ≡ some (string (codes "ok"))
unfolding run_scenario lookup set_global
saved = refl

ends_well :
    (run_scenario saver goes_on needles (λ w. ready two_batches) spec [] []).0.status ≡ passed
unfolding run_scenario
ends_well = refl

broken_off :
    (run_scenario saver stops_at_one needles (λ w. ready two_batches) spec [] []).0.status ≡ skipped
unfolding run_scenario
broken_off = refl

written :
    (ss : List (LoweredStep Text)) (w : World ℕ)
    → (ops : List (Write ℕ)) × (save ss w ≡ apply_writes w ops)
written [] w = ([], refl)
written (s ∷ ss) w =
    let (ops, same) = written ss (set_global (codes "k") (string s.payload) w).0 in
    (promotion (codes "k") (string s.payload) ∷ ops, same)

writes : WritesOnly saver
writes batch session world = written batch.steps world

nothing_there : IsClean {Float = ℕ} needles []
unfolding lookup
nothing_there k v h = absurd (ground arith)

run_scenario-IsClean_example :
    IsClean needles (run_scenario saver goes_on needles (λ w. ready two_batches) spec [] []).1
run_scenario-IsClean_example =
    run_scenario-IsClean saver goes_on needles (λ w. ready two_batches) spec [] [] writes
      nothing_there

run_scenario-Ran_example :
    (prepared : Prepared Text) × ((ready two_batches ≡ ready prepared)
      × Ran saver goes_on prepared.batches
          (start (guard_secrets needles (new [])) false)
          (run_scenario saver goes_on needles (λ w. ready two_batches) spec [] []).0.steps)
run_scenario-Ran_example =
    run_scenario-Ran saver goes_on needles (λ w. ready two_batches) spec [] [] ends_well
