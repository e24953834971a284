-- ===== src/Runner.antt =====
-- crates/proef-core/src/runner.rs and step.rs: the orchestrator's data. Tags and names are texts,
-- durations are milliseconds.
pub mod Exit
pub mod Gate
pub mod Scenario
pub mod Pool
use proef.Base.{ℕ, Bool, true, false, Option, none, some, List}
use proef.Base.Texts.{Text}

pub data Status : Type 0 where
  passed failed skipped warned : Status

-- A step's anchor in the feature file.
pub record StepRef : Type 0 where
  pub file : Text
  pub line : ℕ
  pub text : Text

pub record StepOutcome : Type 0 where
  pub step : StepRef
  pub status : Status
  pub attempts : ℕ
  pub duration : ℕ
  pub detail : Option Text
  pub attempt_details : List Text
  pub reproduce_hint : Option Text
  pub fragment : Option Text
  pub label : Option Text

pub data Fault : Type 0 where
  user system : Text → Fault

pub record ScenarioOutcome : Type 0 where
  pub file : Text
  pub name : Text
  pub line : ℕ
  pub status : Status
  pub reason : Option Text
  pub tags : List Text
  pub steps : List StepOutcome
  pub fault : Option Fault
  pub artifact_slug : Option Text
