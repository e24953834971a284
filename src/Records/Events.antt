-- ===== src/Records/Events.antt =====
-- crates/proef-core/src/event.rs: the events of a run.
use proef.Base.{ℕ, Bool, Option, List}
use proef.Base.Texts.{Text}
use proef.Base.Maps.{Map}
use proef.Runner.{Status, StepRef}

pub record RunStarted : Type 0 where
  pub schema : ℕ
  pub run_id : Text
  pub env : Option Text
  pub metadata : Map Text
  pub shuffled : Bool
  pub rerun_of : Option Text

pub record ScenarioStarted : Type 0 where
  pub scenario : Text
  pub file : Text
  pub timestamp_ms : Option ℕ
  pub worker : Option ℕ
  pub phase : Option Text
  pub exclusive : Bool

pub record BatchStarted : Type 0 where
  pub scenario : Text
  pub engine : Text
  pub steps : ℕ

pub record EntryRunning : Type 0 where
  pub scenario : Text
  pub engine : Text
  pub entry : ℕ
  pub retry : ℕ

pub record StepFinished : Type 0 where
  pub scenario : Text
  pub engine : Text
  pub step : StepRef
  pub status : Status
  pub attempts : ℕ
  pub duration_ms : ℕ
  pub captures : List Text
  pub fragment : Option Text
  pub label : Option Text
  pub detail : Option Text
  pub attempt_details : List Text
  pub reproduce_hint : Option Text

pub record ScenarioFinished : Type 0 where
  pub scenario : Text
  pub file : Text
  pub status : Status
  pub timestamp_ms : Option ℕ
  pub worker : Option ℕ
  pub phase : Option Text
  pub reason : Option Text
  pub tags : List Text

pub record RunFinished : Type 0 where
  pub passed : ℕ
  pub failed : ℕ
  pub skipped : ℕ
  pub cancelled : Bool

pub data Event : Type 0 where
  run_started : RunStarted → Event
  scenario_started : ScenarioStarted → Event
  batch_started : BatchStarted → Event
  entry_running : EntryRunning → Event
  step_finished : StepFinished → Event
  scenario_finished : ScenarioFinished → Event
  run_finished : RunFinished → Event
