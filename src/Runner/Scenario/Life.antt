-- ===== src/Runner/Scenario/Life.antt =====
-- crates/proef-core/src/runner.rs: the loops of `run_scenario`, and how it ends.
use proef.Base.{
  ℕ, Bool, true, false, Option, none, some, List, [], ◌∷◌, ◌++◌, map, reverse, length, all,
  if◌then◌else◌,
}
use proef.Base.Texts.{Text, codes}
use proef.Base.Maps.{Map}
use proef.Redaction.{Redactions}
use proef.World.{Value, World, new, guard_secrets, merge_back}
use proef.Runner.{failed, Fault, user, ScenarioOutcome}
use proef.Runner.Pool.{ScenarioSpec}
use proef.Runner.Scenario.{
  LoweredStep, StepBatch, Opening, opened, unopened, Engines, Prepare, ready, refused,
  scenario_started, batch_started, step_finished, Progress, soften, settle, fail_with, set_session,
  find_session, unreached, skip, keep_fault, unreached_reason, status_of, outcome_with, join,
}

module _ {Float Session : Type 0} where
  abbrev pub start : World Float → Bool → Progress Float Session
  start world exclusive = record {
    sessions = [];
    world = world;
    steps = [];
    fault = none;
    failed = false;
    interrupted = false;
    processed = 0;
    emitted = scenario_started exclusive ∷ [];
  }

module _ {Float Session Payload : Type 0} where
  -- `session.run_batch` and what is made of its result.
  unfoldable pub dispatch_batch :
      Engines Float Session Payload
      → StepBatch Payload
      → Session
      → Progress Float Session
      → Progress Float Session
  unfolding settle soften set_session
  dispatch_batch engines batch session p =
      let (session', (world', result)) = engines.run_batch batch session p.world in
      let all_optional = all (λ (s : LoweredStep Payload). s.optional) batch.steps in
      settle all_optional result.error (record p {
        sessions = set_session batch.engine session' p.sessions;
        world = world';
        steps = p.steps ++ map (soften all_optional) result.steps;
        emitted = batch_started batch.engine (length batch.steps) ∷ p.emitted;
      })

  -- Open the engine's session on its first batch.
  unfoldable pub open_and_dispatch :
      Engines Float Session Payload
      → StepBatch Payload
      → Progress Float Session
      → Option (Opening Session)
      → Progress Float Session
  unfolding dispatch_batch fail_with
  open_and_dispatch engines batch p none =
      fail_with (codes "no engine registered for `" ++ batch.engine ++ codes "`") p
  open_and_dispatch engines batch p (some (unopened message)) =
      fail_with (codes "cannot open engine `" ++ batch.engine ++ codes "`: " ++ message) p
  open_and_dispatch engines batch p (some (opened session)) =
      dispatch_batch engines batch session
        (record p { sessions = p.sessions ++ (batch.engine, session) ∷ [] })

  unfoldable pub run_in :
      Engines Float Session Payload
      → StepBatch Payload
      → Progress Float Session
      → Option Session
      → Progress Float Session
  unfolding open_and_dispatch dispatch_batch
  run_in engines batch p (some session) = dispatch_batch engines batch session p
  run_in engines batch p none =
      open_and_dispatch engines batch p (engines.open_session batch.engine)

  unfoldable pub run_batches :
      Engines Float Session Payload
      → (ℕ → Bool)
      → List (StepBatch Payload)
      → Progress Float Session
      → Progress Float Session
  unfolding run_in find_session
  run_batches engines cancelled [] p = p
  run_batches engines cancelled (batch ∷ batches) p =
      let rest =
        run_batches engines cancelled batches
          (run_in engines batch p (find_session batch.engine p.sessions)) in
      if p.failed
      then p
      else if cancelled p.processed
      then record p { interrupted = true }
      else rest

  -- The inner loop over a batch that was not dispatched.
  unfoldable pub report_steps :
      Text → Text → List (LoweredStep Payload) → Progress Float Session → Progress Float Session
  unfolding unreached
  report_steps reason engine [] p = p
  report_steps reason engine (s ∷ ss) p = report_steps reason engine ss (record p {
    steps = p.steps ++ unreached reason s ∷ [];
    emitted = step_finished engine (unreached reason s) ∷ p.emitted;
  })

  -- The loop over the batches that were not dispatched.
  unfoldable pub report_unreached :
      Text → List (StepBatch Payload) → Progress Float Session → Progress Float Session
  unfolding report_steps
  report_unreached reason [] p = p
  report_unreached reason (b ∷ batches) p =
      report_unreached reason batches (report_steps reason b.engine b.steps p)

  -- The sessions come in the order in which they are torn down.
  unfoldable pub teardown :
      Engines Float Session Payload → List (Text × Session) → Option Fault → Option Fault
  unfolding keep_fault
  teardown engines [] fault = fault
  teardown engines ((id, session) ∷ sessions) fault =
      teardown engines sessions (keep_fault id (engines.finish session) fault)

  -- From the loop over the batches to the reports of what was not reached.
  unfoldable pub run_prepared :
      Engines Float Session Payload
      → (ℕ → Bool)
      → List (StepBatch Payload)
      → Progress Float Session
      → Progress Float Session
  unfolding run_batches report_unreached
  run_prepared engines cancelled batches p =
      let ran = run_batches engines cancelled batches p in
      report_unreached (unreached_reason ran.interrupted) (skip ran.processed batches) ran

  -- The outcome, and the shared store, which is `store` when the scenario ends.
  unfoldable pub conclude_scenario :
      Engines Float Session Payload
      → ScenarioSpec
      → Option Text
      → Map (Value Float)
      → Progress Float Session
      → ScenarioOutcome × Map (Value Float)
  unfolding teardown status_of outcome_with merge_back
  conclude_scenario engines spec slug store p =
      let fault = teardown engines (reverse p.sessions) p.fault in
      (
        outcome_with spec (status_of p.failed p.interrupted p.steps) p.steps fault slug,
        merge_back p.world store,
      )

  unfoldable pub run_ready :
      Engines Float Session Payload
      → (ℕ → Bool)
      → ScenarioSpec
      → World Float
      → Map (Value Float)
      → Prepare Payload
      → ScenarioOutcome × Map (Value Float)
  unfolding run_prepared conclude_scenario outcome_with join
  run_ready engines cancelled spec world store (refused messages) =
      (outcome_with spec failed [] (some (user (join messages))) none, store)
  run_ready engines cancelled spec world store (ready prepared) =
      conclude_scenario engines spec prepared.artifact_slug store
        (run_prepared engines cancelled prepared.batches (start world spec.exclusive))

  -- `snapshot` is the shared store when the scenario starts.
  unfoldable pub run_scenario :
      Engines Float Session Payload
      → (ℕ → Bool)
      → Redactions
      → (World Float → Prepare Payload)
      → ScenarioSpec
      → Map (Value Float)
      → Map (Value Float)
      → ScenarioOutcome × Map (Value Float)
  unfolding run_ready guard_secrets
  run_scenario engines cancelled needles prepare spec snapshot store =
      let world = guard_secrets needles (new snapshot) in
      run_ready engines cancelled spec world store (prepare world)
