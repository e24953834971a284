-- ===== src/Runner/Scenario.antt =====
-- crates/proef-core/src/runner.rs: `run_scenario`, the life of one scenario. The engines, which are
-- behind two traits, are a parameter, as is what they keep in a session and what a step's payload is;
-- the calls of `cancel.is_cancelled()` are a function of the number of batches that were processed.
pub mod Life
pub mod Steps
mod Passing
mod Secrets
mod Tests
use proef.Base.{
  ℕ, zero, suc, ◌+◌, Bool, true, false, not, Option, none, some, List, [], ◌∷◌, ◌++◌, map, reverse,
  length, any, all, ◌&&◌, ◌||◌, if◌then◌else◌,
}
use proef.Base.Texts.{Text, codes, text_eq}
use proef.Base.Maps.{Map}
use proef.Redaction.{Redactions}
use proef.World.{Value, World, new, guard_secrets, merge_back}
use proef.Runner.{
  Status, passed, failed, skipped, warned, StepRef, StepOutcome, Fault, user, system,
  ScenarioOutcome,
}
use proef.Runner.Exit.{is_failed}
use proef.Runner.Pool.{ScenarioSpec}

-- `kind`, `when` and `save_as` are with the payload, which only the engine reads.
pub record LoweredStep (Payload : Type 0) : Type 0 where
  pub step : StepRef
  pub payload : Payload
  pub optional : Bool
  pub label : Option Text
  pub fragment : Option Text

-- Without `index`, which only the engine reads.
pub record StepBatch (Payload : Type 0) : Type 0 where
  pub engine : Text
  pub steps : List (LoweredStep Payload)

pub data EngineErrorClass : Type 0 where
  infra assert_failed user_input setup : EngineErrorClass

pub record EngineError : Type 0 where
  pub class : EngineErrorClass
  pub message : Text

pub record BatchResult : Type 0 where
  pub steps : List StepOutcome
  pub error : Option EngineError

pub data Opening (Session : Type 0) : Type 0 where
  opened : Session → Opening Session
  unopened : Text → Opening Session

-- What the engines do: `none` is an engine that is not registered, `finish` gives the message of a
-- failed teardown.
pub record Engines (Float Session Payload : Type 0) : Type 0 where
  pub open_session : Text → Option (Opening Session)
  pub run_batch : StepBatch Payload → Session → World Float → Session × (World Float × BatchResult)
  pub finish : Session → Option Text

pub record Prepared (Payload : Type 0) : Type 0 where
  pub batches : List (StepBatch Payload)
  pub artifact_slug : Option Text

pub data Prepare (Payload : Type 0) : Type 0 where
  ready : Prepared Payload → Prepare Payload
  refused : List Text → Prepare Payload

-- The orchestrator's own events of a scenario.
pub data ScenarioEvent : Type 0 where
  scenario_started : Bool → ScenarioEvent
  batch_started : Text → ℕ → ScenarioEvent
  step_finished : Text → StepOutcome → ScenarioEvent

pub record Progress (Float Session : Type 0) : Type 0 where
  pub sessions : List (Text × Session)
  pub world : World Float
  pub steps : List StepOutcome
  pub fault : Option Fault
  pub failed : Bool
  pub interrupted : Bool
  pub processed : ℕ
  -- Newest first.
  pub emitted : List ScenarioEvent

unfoldable pub is_warned : Status → Bool
is_warned warned = true
is_warned passed = false
is_warned failed = false
is_warned skipped = false

pub is_skipped : Status → Bool
is_skipped skipped = true
is_skipped passed = false
is_skipped failed = false
is_skipped warned = false

-- A failed step of a batch whose steps are all optional is a warning.
unfoldable pub soften : Bool → StepOutcome → StepOutcome
unfolding is_failed
soften all_optional o =
    if is_failed o.status && all_optional then record o { status = warned } else o

abbrev pub fault_by : EngineErrorClass → Text → Option Fault → Option Fault
fault_by assert_failed m before = before
fault_by user_input m before = some (user m)
fault_by infra m before = some (system m)
fault_by setup m before = some (system m)

module _ {Float Session : Type 0} where
  -- The end of a turn of the loop, with the steps of the result pushed.
  unfoldable pub settle :
      Bool → Option EngineError → Progress Float Session → Progress Float Session
  settle all_optional none p = record p { processed = suc p.processed }
  settle true (some e) p = record p { processed = suc p.processed }
  settle false (some e) p = record p {
    fault = fault_by e.class e.message p.fault;
    failed = true;
    processed = suc p.processed;
  }

  unfoldable pub fail_with : Text → Progress Float Session → Progress Float Session
  fail_with message p = record p { fault = some (system message); failed = true }

module _ {Session : Type 0} where
  unfoldable pub set_session : Text → Session → List (Text × Session) → List (Text × Session)
  unfolding text_eq
  set_session id s [] = []
  set_session id s ((j, r) ∷ rs) =
      if text_eq j id then (j, s) ∷ rs else (j, r) ∷ set_session id s rs

  unfoldable pub find_session : Text → List (Text × Session) → Option Session
  unfolding text_eq
  find_session id [] = none
  find_session id ((j, r) ∷ rs) = if text_eq j id then some r else find_session id rs

module _ {Payload : Type 0} where
  -- The outcome of a step that was not reached.
  unfoldable pub unreached : Text → LoweredStep Payload → StepOutcome
  unreached reason s = record {
    step = s.step;
    status = skipped;
    attempts = 0;
    duration = 0;
    detail = some reason;
    attempt_details = [];
    reproduce_hint = none;
    fragment = s.fragment;
    label = s.label;
  }

  -- `Iterator::skip`
  abbrev pub skip : ℕ → List (StepBatch Payload) → List (StepBatch Payload)
  skip zero batches = batches
  skip (suc n) [] = []
  skip (suc n) (b ∷ batches) = skip n batches

-- A teardown that fails is the fault where there is none.
unfoldable pub keep_fault : Text → Option Text → Option Fault → Option Fault
keep_fault id none fault = fault
keep_fault id (some message) (some fault) = some fault
keep_fault id (some message) none =
    some (system (codes "engine `" ++ id ++ codes "` teardown failed: " ++ message))

abbrev pub unreached_reason : Bool → Text
unreached_reason interrupted =
    if interrupted
    then codes "not run (run cancelled)"
    else codes "not run (an earlier step failed)"

-- A failed step, an interrupt, a warning, or none of them.
unfoldable pub status_of : Bool → Bool → List StepOutcome → Status
unfolding is_failed is_warned
status_of failed_run interrupted steps =
    if failed_run || any (λ (o : StepOutcome). is_failed o.status) steps
    then failed
    else if interrupted
    then skipped
    else if any (λ (o : StepOutcome). is_warned o.status) steps
    then warned
    else passed

-- The closure `outcome`.
unfoldable pub outcome_with :
    ScenarioSpec → Status → List StepOutcome → Option Fault → Option Text → ScenarioOutcome
unfolding is_skipped
outcome_with spec status steps fault slug = record {
  file = spec.file;
  name = spec.name;
  line = spec.line;
  status = status;
  reason = if is_skipped status then some (codes "run cancelled") else none;
  tags = spec.tags;
  steps = steps;
  fault = fault;
  artifact_slug = slug;
}

-- The messages with `"; "` between them.
unfoldable pub join : List Text → Text
join [] = []
join (m ∷ []) = m
join (m ∷ n ∷ ms) = m ++ codes "; " ++ join (n ∷ ms)
