-- ===== src/Runner/Gate/Record.antt =====
-- crates/proef-core/src/runner.rs: the calls of `RecordGate` and the record that they write.
use proef.Base.{
  ◌≡◌, refl, Bool, true, false, List, [], ◌∷◌, ◌++◌, reverse, reverse-cons, append_assoc,
  append-nil, subst, any, ◌||◌, if◌then◌else◌, arith,
}
use proef.Runner.Gate.{
  ScenarioId, id_eq, Gate, new, scenario_sink, finish_scenario, emit_run_level, close_run,
}

-- A call of the gate: by a worker for its scenario, or by the dispatcher.
pub data Call (Event : Type 0) : Type 0 where
  from_worker finished : ScenarioId → Event → Call Event
  run_level : Event → Call Event
  closing : Call Event

module _ {Event : Type 0} where
  abbrev pub apply_call : Call Event → Gate Event → Gate Event
  apply_call (from_worker id e) g = scenario_sink id e g
  apply_call (finished id e) g = finish_scenario e id g
  apply_call (run_level e) g = emit_run_level e g
  apply_call closing g = close_run g

  abbrev pub apply_calls : List (Call Event) → Gate Event → Gate Event
  apply_calls [] g = g
  apply_calls (c ∷ cs) g = apply_calls cs (apply_call c g)

  abbrev pub is_closing : Call Event → Bool
  is_closing closing = true
  is_closing (from_worker id e) = false
  is_closing (finished id e) = false
  is_closing (run_level e) = false

  abbrev pub is_end_of : ScenarioId → Call Event → Bool
  is_end_of id (finished j e) = id_eq id j
  is_end_of id (from_worker j e) = false
  is_end_of id (run_level e) = false
  is_end_of id closing = false

  -- The entry of a call whose past is `past`, in front of those that are there.
  abbrev pub entry : List (Call Event) → Call Event → List Event → List Event
  entry past (from_worker id e) log =
      if any is_closing past || any (is_end_of id) past then log else e ∷ log
  entry past (finished id e) log = if any is_closing past then log else e ∷ log
  entry past (run_level e) log = if any is_closing past then log else e ∷ log
  entry past closing log = log

  -- The record of some calls, newest first both.
  abbrev pub record_of : List (Call Event) → List Event
  record_of [] = []
  record_of (c ∷ past) = entry past c (record_of past)

  record Follows (past : List (Call Event)) (g : Gate Event) : Type 0 where
    run_closed : g.run_closed ≡ any is_closing past
    closed : (id : ScenarioId) → any (id_eq id) g.closed ≡ any (is_end_of id) past
    written : g.written ≡ record_of past

  Follows-apply_call :
      (c : Call Event) (past : List (Call Event)) (g : Gate Event)
      → Follows past g
      → Follows (c ∷ past) (apply_call c g)
  unfolding scenario_sink finish_scenario emit_run_level close_run
  Follows-apply_call (from_worker id e) past g f =
      let known = f.closed id in
      record {
        run_closed = ground (arith, f.run_closed);
        closed = λ j. ground (arith, f.closed j);
        written = ground (arith, f.run_closed, f.written, known);
      }
  Follows-apply_call (finished id e) past g f = record {
    run_closed = ground (arith, f.run_closed);
    closed = λ j. ground (arith, f.closed j);
    written = ground (arith, f.run_closed, f.written);
  }
  Follows-apply_call (run_level e) past g f = record {
    run_closed = ground (arith, f.run_closed);
    closed = λ j. ground (arith, f.closed j);
    written = ground (arith, f.run_closed, f.written);
  }
  Follows-apply_call closing past g f = record {
    run_closed = refl;
    closed = f.closed;
    written = f.written;
  }

  Follows-apply_calls :
      (cs past : List (Call Event)) (g : Gate Event)
      → Follows past g
      → Follows (reverse cs ++ past) (apply_calls cs g)
  Follows-apply_calls [] past g f = f
  Follows-apply_calls (c ∷ cs) past g f =
      rw (reverse-cons, append_assoc)
        (Follows-apply_calls cs (c ∷ past) (apply_call c g) (Follows-apply_call c past g f))

  Follows-new : Follows [] new
  unfolding new
  Follows-new = record { run_closed = refl; closed = λ id. refl; written = refl }

-- Whatever calls the threads make, in whatever order, the record holds the event of each call but of
-- those after the run was closed and those of a worker after its scenario was finished, in the order
-- of the calls.
pub apply_calls-record_of :
    {Event : Type 0} (cs : List (Call Event))
    → (apply_calls cs new).written ≡ record_of (reverse cs)
apply_calls-record_of cs =
    subst (λ past. (apply_calls cs new).written ≡ record_of past) (append-nil (reverse cs))
      (Follows-apply_calls cs [] new Follows-new).written
