-- ===== src/Records/Carried.antt =====
-- crates/proef-cli/src/record.rs: `carried_outcomes`, what a rerun takes over from its base record.
pub mod Kept
use proef.Base.{
  ℕ, Bool, true, false, not, Option, none, some, List, [], ◌∷◌, ◌++◌, any, filter, is_some, ◌&&◌,
  if◌then◌else◌,
}
use proef.Base.Texts.{text_eq}
use proef.Base.Keyed.{find, put, erase}
use proef.Runner.{StepOutcome, ScenarioOutcome}
use proef.Records.{Key, key_order, keys, is_empty_text}
use proef.Records.Events.{
  Event, run_started, scenario_started, batch_started, entry_running, step_finished,
  scenario_finished, run_finished, StepFinished, ScenarioFinished,
}

abbrev pub Steps : Type 0
Steps = List (Key × List StepOutcome)

abbrev pub or_default : Option (List StepOutcome) → List StepOutcome
or_default none = []
or_default (some steps) = steps

abbrev pub outcome_of : StepFinished → StepOutcome
outcome_of e = record {
  step = e.step;
  status = e.status;
  attempts = e.attempts;
  duration = e.duration_ms;
  detail = e.detail;
  attempt_details = e.attempt_details;
  reproduce_hint = e.reproduce_hint;
  fragment = e.fragment;
  label = e.label;
}

unfoldable pub push_step : StepFinished → Steps → Steps
unfolding find put
push_step e steps =
    let key : Key = (e.step.file, e.scenario) in
    put key_order key (or_default (find key_order key steps) ++ (outcome_of e ∷ [])) steps

abbrev pub one_named : Key → List Key → Key
one_named key (only ∷ []) = (only.0, key.1)
one_named key ks = key

-- The key of a scenario: an empty file is that of the only steps under its name.
unfoldable pub carried_key : Steps → Key → Key
unfolding find text_eq
carried_key steps key =
    if is_empty_text key.0 && not (is_some (find key_order key steps))
    then one_named key (filter (λ (k : Key). text_eq k.1 key.1) (keys steps))
    else key

unfoldable pub is_excluded : List Key → Key → Bool
is_excluded exclude key = any (key_order.eq key) exclude

abbrev pub carried : ScenarioFinished → Steps → ScenarioOutcome
carried e steps = record {
  file = e.file;
  name = e.scenario;
  line = 0;
  status = e.status;
  reason = e.reason;
  tags = e.tags;
  steps = or_default (find key_order (carried_key steps (e.file, e.scenario)) steps);
  fault = none;
  artifact_slug = none;
}

abbrev pub without : Steps → Key → Steps
without steps key = erase key_order (carried_key steps key) steps

unfoldable pub carried_from : List Key → Steps → List Event → List ScenarioOutcome
unfolding push_step carried_key is_excluded erase find
carried_from exclude steps [] = []
carried_from exclude steps (step_finished e ∷ events) =
    carried_from exclude (push_step e steps) events
carried_from exclude steps (scenario_finished e ∷ events) =
    let key : Key = (e.file, e.scenario) in
    let taken = carried_from exclude (without steps key) events in
    let passed_over = carried_from exclude steps events in
    if is_some e.phase
    then passed_over
    else if is_excluded exclude (carried_key steps key)
    then taken
    else carried e steps ∷ taken
carried_from exclude steps (run_started e ∷ events) = carried_from exclude steps events
carried_from exclude steps (scenario_started e ∷ events) = carried_from exclude steps events
carried_from exclude steps (batch_started e ∷ events) = carried_from exclude steps events
carried_from exclude steps (entry_running e ∷ events) = carried_from exclude steps events
carried_from exclude steps (run_finished e ∷ events) = carried_from exclude steps events

unfoldable pub carried_outcomes : List Event → List Key → List ScenarioOutcome
unfolding carried_from
carried_outcomes events exclude = carried_from exclude [] events
