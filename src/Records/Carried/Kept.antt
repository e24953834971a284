-- ===== src/Records/Carried/Kept.antt =====
-- crates/proef-cli/src/record.rs: which scenarios are carried over.
use proef.Base.{
  ◌≡◌, refl, ap, false, not, List, [], ◌∷◌, is_some, if◌then◌else◌, All, map, filter, Bool-cases,
  inl, inr,
}
use proef.Runner.{ScenarioOutcome}
use proef.Base.Keyed.{erase}
use proef.Records.{Key, key_order, is_empty_text}
use proef.Records.Carried.{
  Steps, push_step, carried_key, is_excluded, carried_from, carried_outcomes,
}
use proef.Records.Events.{
  Event, run_started, scenario_started, batch_started, entry_running, step_finished,
  scenario_finished, run_finished, ScenarioFinished,
}

-- The suite scenarios that end, in the order of their events.
abbrev pub add_ended : ScenarioFinished → List Key → List Key
add_ended e later = if is_some e.phase then later else (e.file, e.scenario) ∷ later

abbrev pub ended : List Event → List Key
ended [] = []
ended (scenario_finished e ∷ events) = add_ended e (ended events)
ended (_ ∷ events) = ended events

-- The record is of a version that writes the file of a scenario.
abbrev pub HasFile : Event → Type 0
HasFile (scenario_finished e) = is_empty_text e.file ≡ false
HasFile _ = Unit

abbrev pub key_of : ScenarioOutcome → Key
key_of o = (o.file, o.name)

abbrev pub kept : List Key → List Key → List Key
kept exclude ks = filter (λ k. not (is_excluded exclude k)) ks

carried_key-file :
    (steps : Steps) (key : Key) → is_empty_text key.0 ≡ false → carried_key steps key ≡ key
unfolding carried_key
carried_key-file steps key h = rw h refl

carried_from-keys :
    (exclude : List Key) (steps : Steps) (events : List Event)
    → All HasFile events
    → map key_of (carried_from exclude steps events) ≡ kept exclude (ended events)
unfolding carried_from
carried_from-keys exclude steps [] h = refl
carried_from-keys exclude steps (step_finished e ∷ events) h =
    carried_from-keys exclude (push_step e steps) events h.1
carried_from-keys exclude steps (scenario_finished e ∷ events) h =
    let same = carried_key-file steps (e.file, e.scenario) h.0 in
    let taken = carried_from-keys exclude (erase key_order (e.file, e.scenario) steps) events h.1 in
    let over = carried_from-keys exclude steps events h.1 in
    elim (Bool-cases (is_some e.phase)) [
      | inl p ↦ rw p over
      | inr p ↦ elim (Bool-cases (is_excluded exclude (e.file, e.scenario))) [
        | inl x ↦ rw (p, same, x) taken
        | inr x ↦ rw (p, same, x) (ap (λ l. (e.file, e.scenario) ∷ l) taken)
      ]
    ]
carried_from-keys exclude steps (run_started e ∷ events) h =
    carried_from-keys exclude steps events h.1
carried_from-keys exclude steps (scenario_started e ∷ events) h =
    carried_from-keys exclude steps events h.1
carried_from-keys exclude steps (batch_started e ∷ events) h =
    carried_from-keys exclude steps events h.1
carried_from-keys exclude steps (entry_running e ∷ events) h =
    carried_from-keys exclude steps events h.1
carried_from-keys exclude steps (run_finished e ∷ events) h =
    carried_from-keys exclude steps events h.1

-- If every scenario's end in the base record names its file, then the outcomes that are carried over
-- are those of the suite scenarios that ended there and are not excluded, each as often as it ended,
-- in the order of the record.
pub carried_outcomes-keys :
    (events : List Event) (exclude : List Key)
    → All HasFile events
    → map key_of (carried_outcomes events exclude) ≡ kept exclude (ended events)
unfolding carried_outcomes
carried_outcomes-keys events exclude h = carried_from-keys exclude [] events h
