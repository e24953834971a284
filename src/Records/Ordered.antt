-- ===== src/Records/Ordered.antt =====
-- crates/proef-cli/src/record.rs: the scenarios of a record are a map.
use proef.Base.{List, [], ◌∷◌}
use proef.Base.Keyed.{IsOrdered, put-IsOrdered}
use proef.Records.Events.{
  Event, run_started, scenario_started, batch_started, entry_running, step_finished,
  scenario_finished, run_finished,
}
use proef.Records.{key_order, Fold, take_pending_steps, on_event, fold_events, start, parse_record}

abbrev HasMap : Fold → Type 0
HasMap f = IsOrdered key_order f.scenarios

on_event-HasMap : (e : Event) (f : Fold) → HasMap f → HasMap (on_event e f)
unfolding on_event
on_event-HasMap (scenario_finished e) f h =
    put-IsOrdered key_order (take_pending_steps f.pending (e.file, e.scenario)).1.0 _ f.scenarios h
on_event-HasMap (run_started e) f h = h
on_event-HasMap (scenario_started e) f h = h
on_event-HasMap (batch_started e) f h = h
on_event-HasMap (entry_running e) f h = h
on_event-HasMap (step_finished e) f h = h
on_event-HasMap (run_finished e) f h = h

fold_events-HasMap : (events : List Event) (f : Fold) → HasMap f → HasMap (fold_events events f)
unfolding fold_events
fold_events-HasMap [] f h = h
fold_events-HasMap (e ∷ events) f h =
    fold_events-HasMap events (on_event e f) (on_event-HasMap e f h)

pub parse_record-IsOrdered :
    (events : List Event) → IsOrdered key_order (parse_record events).scenarios
unfolding parse_record
parse_record-IsOrdered events = fold_events-HasMap events start tt
