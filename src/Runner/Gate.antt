-- ===== src/Runner/Gate.antt =====
-- crates/proef-core/src/runner.rs: `RecordGate`, which decides what reaches the record. Every
-- operation runs under one lock, so what the threads do is a sequence of calls.
pub mod Record
mod Late
mod Tests
use proef.Base.{Bool, true, false, not, List, [], ◌∷◌, any, ◌&&◌, ◌||◌, if◌then◌else◌}
use proef.Base.Texts.{Text, text_eq}

-- File and scenario name.
abbrev pub ScenarioId : Type 0
ScenarioId = Text × Text

unfoldable pub id_eq : ScenarioId → ScenarioId → Bool
unfolding text_eq
id_eq a b = text_eq a.0 b.0 && text_eq a.1 b.1

-- The gate's state with the sink that it wraps, as what the sink has got, newest first.
pub record Gate (Event : Type 0) : Type 0 where
  pub closed : List ScenarioId
  pub run_closed : Bool
  pub written : List Event

module _ {Event : Type 0} where
  unfoldable pub new : Gate Event
  new = record { closed = []; run_closed = false; written = [] }

  abbrev pub emit : Event → Gate Event → Gate Event
  emit e g = record { closed = g.closed; run_closed = g.run_closed; written = e ∷ g.written }

  -- What the sink of one scenario does with an event.
  unfoldable pub scenario_sink : ScenarioId → Event → Gate Event → Gate Event
  unfolding id_eq
  scenario_sink id e g = if g.run_closed || any (id_eq id) g.closed then g else emit e g

  unfoldable pub finish_scenario : Event → ScenarioId → Gate Event → Gate Event
  finish_scenario e id g =
      let g' = if not g.run_closed then emit e g else g in
      record { closed = id ∷ g'.closed; run_closed = g'.run_closed; written = g'.written }

  unfoldable pub emit_run_level : Event → Gate Event → Gate Event
  emit_run_level e g = if not g.run_closed then emit e g else g

  unfoldable pub close_run : Gate Event → Gate Event
  close_run g = record { closed = g.closed; run_closed = true; written = g.written }
