-- ===== src/Runner/Gate/Late.antt =====
-- Calls that come too late.
use proef.Base.{
  ◌≡◌, ◌↔◌, refl, ◌∙◌, true, List, [], ◌∷◌, ◌++◌, any, if◌then◌else◌, arith, Bool-cases, inl, inr,
}
use proef.Base.Texts.{text_eq_iff}
use proef.Runner.Gate.{
  ScenarioId, id_eq, Gate, new, scenario_sink, finish_scenario, emit_run_level, close_run,
}
use proef.Runner.Gate.Record.{
  Call, from_worker, finished, run_level, closing, apply_call, apply_calls,
}

id_eq_iff : (a b : ScenarioId) → (id_eq a b ≡ true) ↔ (a ≡ b)
unfolding id_eq
id_eq_iff a b = ground (arith, text_eq_iff a.0 b.0, text_eq_iff a.1 b.1)

module _ {Event : Type 0} where
  -- The calls of the other scenarios' workers and of the dispatcher.
  abbrev pub without : ScenarioId → List (Call Event) → List (Call Event)
  without id [] = []
  without id (from_worker j e ∷ cs) =
      if id_eq j id then without id cs else from_worker j e ∷ without id cs
  without id (finished j e ∷ cs) = finished j e ∷ without id cs
  without id (run_level e ∷ cs) = run_level e ∷ without id cs
  without id (closing ∷ cs) = closing ∷ without id cs

  IsEnded : ScenarioId → Gate Event → Type 0
  IsEnded id g = any (id_eq id) g.closed ≡ true

  IsEnded-apply_call :
      (id : ScenarioId) (c : Call Event) (g : Gate Event)
      → IsEnded id g
      → IsEnded id (apply_call c g)
  unfolding IsEnded scenario_sink finish_scenario emit_run_level close_run
  IsEnded-apply_call id (from_worker j e) g h = ground arith
  IsEnded-apply_call id (finished j e) g h = ground arith
  IsEnded-apply_call id (run_level e) g h = ground arith
  IsEnded-apply_call id closing g h = h

  scenario_sink-ended :
      (id j : ScenarioId) (e : Event) (g : Gate Event)
      → IsEnded id g
      → j ≡ id
      → scenario_sink j e g ≡ g
  unfolding scenario_sink IsEnded
  scenario_sink-ended id j e g h same =
      let ended : any (id_eq j) g.closed ≡ true = rw same h in ground arith

  apply_calls-without :
      (id : ScenarioId) (cs : List (Call Event)) (g : Gate Event)
      → IsEnded id g
      → apply_calls cs g ≡ apply_calls (without id cs) g
  unfolding scenario_sink
  apply_calls-without id [] g h = refl
  apply_calls-without id (from_worker j e ∷ cs) g h = elim (Bool-cases (id_eq j id)) [
    | inl same ↦
        rw (same, scenario_sink-ended id j e g h ((id_eq_iff j id).0 same))
          (apply_calls-without id cs g h)
    | inr other ↦ rw other (
        apply_calls-without id cs (scenario_sink j e g)
          (IsEnded-apply_call id (from_worker j e) g h))
  ]
  apply_calls-without id (finished j e ∷ cs) g h =
      apply_calls-without id cs (finish_scenario e j g) (IsEnded-apply_call id (finished j e) g h)
  apply_calls-without id (run_level e ∷ cs) g h =
      apply_calls-without id cs (emit_run_level e g) (IsEnded-apply_call id (run_level e) g h)
  apply_calls-without id (closing ∷ cs) g h =
      apply_calls-without id cs (close_run g) (IsEnded-apply_call id closing g h)

  IsEnded-finish_scenario :
      (id : ScenarioId) (e : Event) (g : Gate Event) → IsEnded id (finish_scenario e id g)
  unfolding IsEnded finish_scenario
  IsEnded-finish_scenario id e g = ground (arith, (id_eq_iff id id).1 refl)

  apply_calls-append :
      (xs ys : List (Call Event)) (g : Gate Event)
      → apply_calls (xs ++ ys) g ≡ apply_calls ys (apply_calls xs g)
  apply_calls-append [] ys g = refl
  apply_calls-append (c ∷ xs) ys g = apply_calls-append xs ys (apply_call c g)

  written-closed :
      (cs : List (Call Event)) (g : Gate Event)
      → g.run_closed ≡ true
      → (apply_calls cs g).written ≡ g.written
  unfolding scenario_sink finish_scenario emit_run_level close_run
  written-closed [] g h = refl
  written-closed (from_worker id e ∷ cs) g h =
      written-closed cs (scenario_sink id e g) (ground arith) ∙ ground arith
  written-closed (finished id e ∷ cs) g h =
      written-closed cs (finish_scenario e id g) (ground arith) ∙ ground arith
  written-closed (run_level e ∷ cs) g h =
      written-closed cs (emit_run_level e g) (ground arith) ∙ ground arith
  written-closed (closing ∷ cs) g h = written-closed cs (close_run g) refl

-- After a scenario has been finished, its workers' calls change nothing: the gate is as if they had
-- not been made. After the run has been closed, nothing is written by any call.
apply_calls_late :
    {Event : Type 0} (before after : List (Call Event)) (id : ScenarioId) (e : Event)
    → (apply_calls (before ++ finished id e ∷ after) new
        ≡ apply_calls (before ++ finished id e ∷ without id after) new)
      × ((apply_calls (before ++ closing ∷ after) new).written ≡ (apply_calls before new).written)
unfolding close_run
apply_calls_late before after id e =
    let g = apply_calls before new in
    (
      rw
          (
            apply_calls-append before (finished id e ∷ after) new,
            apply_calls-append before (finished id e ∷ without id after) new,
          )
          (apply_calls-without id after (finish_scenario e id g) (IsEnded-finish_scenario id e g)),
      rw (apply_calls-append before (closing ∷ after) new)
          (written-closed after (close_run g) refl),
    )
