-- ===== src/Runner/Scenario/Secrets.antt =====
-- crates/proef-core/src/runner.rs: the shared store after `run_scenario`.
use proef.Base.{
  ℕ, ◌≡◌, refl, sym, ◌∙◌, ap, subst, Bool, true, false, Option, none, some, List, [], ◌∷◌, ◌++◌,
}
use proef.Base.Texts.{Text}
use proef.Base.Maps.{Map}
use proef.Redaction.{Redactions}
use proef.World.{Value, World, new, guard_secrets, merge_back}
use proef.World.Clean.{Write, apply_write, apply_writes, IsClean, merge_back-IsClean}
use proef.Runner.Pool.{ScenarioSpec}
use proef.Runner.Scenario.{
  LoweredStep, StepBatch, EngineError, Opening, opened, unopened, Engines, Prepare, ready, refused,
  Progress, settle, fail_with, find_session, skip, unreached_reason,
}
use proef.Runner.Scenario.Life.{
  start, dispatch_batch, open_and_dispatch, run_in, run_batches, report_steps, report_unreached,
  run_prepared, conclude_scenario, run_ready, run_scenario,
}
use proef.Runner.Scenario.Steps.{break-cases}

apply_writes-append :
    {Float : Type 0} (w : World Float) (xs ys : List (Write Float))
    → apply_writes w (xs ++ ys) ≡ apply_writes (apply_writes w xs) ys
apply_writes-append w [] ys = refl
apply_writes-append w (op ∷ xs) ys = apply_writes-append (apply_write w op) xs ys

module _ {Float Session : Type 0} where
  -- The world is the first one after some writes.
  abbrev Traced : World Float → Progress Float Session → Type 0
  Traced w p = (ops : List (Write Float)) × (p.world ≡ apply_writes w ops)

  world-settle :
      (c : Bool) (e : Option EngineError) (p : Progress Float Session)
      → (settle c e p).world ≡ p.world
  unfolding settle
  world-settle c none p = refl
  world-settle true (some e) p = refl
  world-settle false (some e) p = refl

module _ {Float Session Payload : Type 0} where
  -- The engines write to the world through its operations.
  abbrev pub WritesOnly : Engines Float Session Payload → Type 0
  WritesOnly engines =
      (batch : StepBatch Payload) (session : Session) (world : World Float)
      → (ops : List (Write Float)) × ((engines.run_batch batch session world).1.0
          ≡ apply_writes world ops)

  Traced-dispatch_batch :
      (engines : Engines Float Session Payload) (w : World Float) (batch : StepBatch Payload)
      (session : Session) (p : Progress Float Session)
      → WritesOnly engines
      → Traced w p
      → Traced w (dispatch_batch engines batch session p)
  unfolding dispatch_batch
  Traced-dispatch_batch engines w batch session p writes (before, same) =
      let (ops, wrote) = writes batch session p.world in
      (
        before ++ ops,
        world-settle _ _ _
            ∙ wrote
            ∙ ap (λ v. apply_writes v ops) same
            ∙ sym (apply_writes-append w before ops),
      )

  Traced-open_and_dispatch :
      (engines : Engines Float Session Payload) (w : World Float) (batch : StepBatch Payload)
      (p : Progress Float Session) (o : Option (Opening Session))
      → WritesOnly engines
      → Traced w p
      → Traced w (open_and_dispatch engines batch p o)
  unfolding open_and_dispatch fail_with
  Traced-open_and_dispatch engines w batch p none writes h = h
  Traced-open_and_dispatch engines w batch p (some (unopened message)) writes h = h
  Traced-open_and_dispatch engines w batch p (some (opened session)) writes h =
      Traced-dispatch_batch engines w batch session _ writes h

  Traced-run_in :
      (engines : Engines Float Session Payload) (w : World Float) (batch : StepBatch Payload)
      (p : Progress Float Session) (session : Option Session)
      → WritesOnly engines
      → Traced w p
      → Traced w (run_in engines batch p session)
  unfolding run_in
  Traced-run_in engines w batch p (some session) writes h =
      Traced-dispatch_batch engines w batch session p writes h
  Traced-run_in engines w batch p none writes h =
      Traced-open_and_dispatch engines w batch p (engines.open_session batch.engine) writes h

  Traced-run_batches :
      (engines : Engines Float Session Payload) (cancelled : ℕ → Bool) (w : World Float)
      (batches : List (StepBatch Payload)) (p : Progress Float Session)
      → WritesOnly engines
      → Traced w p
      → Traced w (run_batches engines cancelled batches p)
  unfolding run_batches
  Traced-run_batches engines cancelled w [] p writes h = h
  Traced-run_batches engines cancelled w (b ∷ batches) p writes h =
      let p' = run_in engines b p (find_session b.engine p.sessions) in
      break-cases (Traced w) p (record p { interrupted = true })
        (run_batches engines cancelled batches p') p.failed (cancelled p.processed) (λ e. h) h
        (Traced-run_batches engines cancelled w batches p' writes
          (Traced-run_in engines w b p (find_session b.engine p.sessions) writes h))

  world-report_steps :
      (reason engine : Text) (ss : List (LoweredStep Payload)) (p : Progress Float Session)
      → (report_steps reason engine ss p).world ≡ p.world
  unfolding report_steps
  world-report_steps reason engine [] p = refl
  world-report_steps reason engine (s ∷ ss) p = world-report_steps reason engine ss _

  world-report_unreached :
      (reason : Text) (batches : List (StepBatch Payload)) (p : Progress Float Session)
      → (report_unreached reason batches p).world ≡ p.world
  unfolding report_unreached
  world-report_unreached reason [] p = refl
  world-report_unreached reason (b ∷ batches) p =
      world-report_unreached reason batches _ ∙ world-report_steps reason b.engine b.steps p

  run_ready-IsClean :
      (engines : Engines Float Session Payload) (cancelled : ℕ → Bool) (needles : Redactions)
      (spec : ScenarioSpec) (snapshot store : Map (Value Float)) (prepare : Prepare Payload)
      → WritesOnly engines
      → IsClean needles store
      → IsClean needles
          (run_ready engines cancelled spec (guard_secrets needles (new snapshot)) store prepare).1
  unfolding run_ready conclude_scenario run_prepared
  run_ready-IsClean engines cancelled needles spec snapshot store (refused messages) writes clean =
      clean
  run_ready-IsClean engines cancelled needles spec snapshot store (ready prepared) writes clean =
      let w = guard_secrets needles (new snapshot) in
      let ran = run_batches engines cancelled prepared.batches (start w spec.exclusive) in
      let (ops, same) =
        Traced-run_batches engines cancelled w prepared.batches (start w spec.exclusive) writes
          ([], refl) in
      let last =
        world-report_unreached (unreached_reason ran.interrupted)
          (skip ran.processed prepared.batches) ran
        ∙ same in
      subst (λ v. IsClean needles (merge_back v store)) (sym last)
        (merge_back-IsClean needles snapshot store ops clean)

-- If the engines write to the world only through `set` and `set_global`, and no string in the shared
-- store carries a guarded value when a scenario ends, then none does after the scenario's promotions
-- have gone back, however the scenario ran and whatever its snapshot held.
pub run_scenario-IsClean :
    {Float Session Payload : Type 0} (engines : Engines Float Session Payload)
    (cancelled : ℕ → Bool) (needles : Redactions) (prepare : World Float → Prepare Payload)
    (spec : ScenarioSpec) (snapshot store : Map (Value Float))
    → WritesOnly engines
    → IsClean needles store
    → IsClean needles (run_scenario engines cancelled needles prepare spec snapshot store).1
unfolding run_scenario
run_scenario-IsClean engines cancelled needles prepare spec snapshot store writes clean =
    run_ready-IsClean engines cancelled needles spec snapshot store
      (prepare (guard_secrets needles (new snapshot))) writes clean
