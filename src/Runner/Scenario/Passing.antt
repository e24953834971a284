-- ===== src/Runner/Scenario/Passing.antt =====
-- crates/proef-core/src/runner.rs: `run_scenario` with the status `passed`.
use proef.Base.{
  ℕ, suc, ◌+◌, ◌≡◌, ◌⊎◌, refl, sym, ◌∙◌, ap, Bool, true, false, Option, none, some, List, [], ◌∷◌,
  length, any, All, inl, inr, arith,
}
use proef.Base.Texts.{Text}
use proef.Base.Maps.{Map}
use proef.Redaction.{Redactions}
use proef.World.{Value, World, new, guard_secrets}
use proef.Runner.{Status, passed, failed, skipped, warned, StepOutcome}
use proef.Runner.Exit.{is_failed}
use proef.Runner.Pool.{ScenarioSpec}
use proef.Runner.Scenario.{
  LoweredStep, StepBatch, Opening, opened, unopened, Engines, Prepared, Prepare, ready, refused,
  Progress, fail_with, find_session, skip, unreached_reason, status_of, is_warned, outcome_with,
}
use proef.Runner.Scenario.Life.{
  start, dispatch_batch, open_and_dispatch, run_in, run_batches, report_steps, report_unreached,
  run_prepared, conclude_scenario, run_ready, run_scenario,
}
use proef.Runner.Scenario.Steps.{break-cases, settle-steps, run_batches-failed}

module _ {Float Session : Type 0} where
  -- Where nothing failed or was interrupted, all the batches were processed.
  abbrev Completed : ℕ → Progress Float Session → Type 0
  Completed n p = p.failed ≡ false → p.interrupted ≡ false → p.processed ≡ n

module _ {Payload : Type 0} where
  skip-length : (batches : List (StepBatch Payload)) → skip (length batches) batches ≡ []
  skip-length [] = refl
  skip-length (b ∷ batches) = skip-length batches

module _ {Float Session Payload : Type 0} where
  -- A turn processes its batch or fails.
  open_processed :
      (engines : Engines Float Session Payload) (batch : StepBatch Payload)
      (p : Progress Float Session) (o : Option (Opening Session))
      → ((open_and_dispatch engines batch p o).processed ≡ suc p.processed)
        ⊎ ((open_and_dispatch engines batch p o).failed ≡ true)
  unfolding open_and_dispatch dispatch_batch fail_with
  open_processed engines batch p none = inr refl
  open_processed engines batch p (some (unopened message)) = inr refl
  open_processed engines batch p (some (opened session)) = inl (settle-steps _ _ _).1

  run_in-processed :
      (engines : Engines Float Session Payload) (batch : StepBatch Payload)
      (p : Progress Float Session) (session : Option Session)
      → ((run_in engines batch p session).processed ≡ suc p.processed)
        ⊎ ((run_in engines batch p session).failed ≡ true)
  unfolding run_in dispatch_batch
  run_in-processed engines batch p (some session) = inl (settle-steps _ _ _).1
  run_in-processed engines batch p none =
      open_processed engines batch p (engines.open_session batch.engine)

  run_batches-Completed :
      (engines : Engines Float Session Payload) (cancelled : ℕ → Bool)
      (batches : List (StepBatch Payload)) (p : Progress Float Session) (n : ℕ)
      → p.processed + length batches ≡ n
      → Completed n (run_batches engines cancelled batches p)
  unfolding run_batches
  run_batches-Completed engines cancelled [] p n h = λ a b. omega arith
  run_batches-Completed engines cancelled (b ∷ batches) p n h =
      let p' = run_in engines b p (find_session b.engine p.sessions) in
      let goes : Completed n (run_batches engines cancelled batches p') =
        elim (run_in-processed engines b p (find_session b.engine p.sessions)) [
          | inl one_more ↦ run_batches-Completed engines cancelled batches p' n (omega arith)
          | inr fails ↦
              rw (run_batches-failed engines cancelled batches p' fails)
                (λ a c. absurd (ground arith))
        ] in
      break-cases (Completed n) p (record p { interrupted = true })
        (run_batches engines cancelled batches p') p.failed (cancelled p.processed)
        (λ e a c. absurd (ground arith)) (λ a c. absurd (ground arith)) goes

  -- Reporting what was not reached sets only the steps and the events.
  flags-report_steps :
      (reason engine : Text) (ss : List (LoweredStep Payload)) (p : Progress Float Session)
      → ((report_steps reason engine ss p).failed ≡ p.failed)
        × ((report_steps reason engine ss p).interrupted ≡ p.interrupted)
  unfolding report_steps
  flags-report_steps reason engine [] p = (refl, refl)
  flags-report_steps reason engine (s ∷ ss) p = flags-report_steps reason engine ss _

  flags-report_unreached :
      (reason : Text) (batches : List (StepBatch Payload)) (p : Progress Float Session)
      → ((report_unreached reason batches p).failed ≡ p.failed)
        × ((report_unreached reason batches p).interrupted ≡ p.interrupted)
  unfolding report_unreached
  flags-report_unreached reason [] p = (refl, refl)
  flags-report_unreached reason (b ∷ batches) p =
      let rest = flags-report_unreached reason batches (report_steps reason b.engine b.steps p) in
      let first = flags-report_steps reason b.engine b.steps p in
      (rest.0 ∙ first.0, rest.1 ∙ first.1)

none_of :
    (f : Status → Bool) (os : List StepOutcome)
    → any (λ (o : StepOutcome). f o.status) os ≡ false
    → All (λ o. f o.status ≡ false) os
none_of f [] h = tt
none_of f (o ∷ os) h = (ground arith, none_of f os (ground arith))

fine_status :
    (s : Status) → is_failed s ≡ false → is_warned s ≡ false → (s ≡ passed) ⊎ (s ≡ skipped)
unfolding is_failed is_warned
fine_status passed a b = inl refl
fine_status skipped a b = inr refl
fine_status failed a b = absurd (ground arith)
fine_status warned a b = absurd (ground arith)

fine_steps :
    (os : List StepOutcome)
    → All (λ o. is_failed o.status ≡ false) os
    → All (λ o. is_warned o.status ≡ false) os
    → All (λ o. (o.status ≡ passed) ⊎ (o.status ≡ skipped)) os
fine_steps [] a b = tt
fine_steps (o ∷ os) (a, rest_a) (b, rest_b) =
    (fine_status o.status a b, fine_steps os rest_a rest_b)

status_of-eq-passed :
    (f i : Bool) (os : List StepOutcome)
    → status_of f i os ≡ passed
    → (f ≡ false) × ((i ≡ false) × All (λ o. (o.status ≡ passed) ⊎ (o.status ≡ skipped)) os)
unfolding status_of
status_of-eq-passed f i os h = (
  ground arith,
  (
    ground arith,
    fine_steps os (none_of is_failed os (ground arith)) (none_of is_warned os (ground arith)),
  ),
)

module _ {Float Session Payload : Type 0} where
  -- All batches went through the engines, and their steps passed or were skipped by them.
  abbrev pub Ran :
      Engines Float Session Payload
      → (ℕ → Bool)
      → List (StepBatch Payload)
      → Progress Float Session
      → List StepOutcome
      → Type 0
  Ran engines cancelled batches p steps =
      ((run_batches engines cancelled batches p).processed ≡ length batches)
      × ((steps ≡ (run_batches engines cancelled batches p).steps)
          × All (λ o. (o.status ≡ passed) ⊎ (o.status ≡ skipped)) steps)

  run_prepared-Ran :
      (engines : Engines Float Session Payload) (cancelled : ℕ → Bool)
      (batches : List (StepBatch Payload)) (world : World Float) (exclusive : Bool)
      → status_of
          (run_prepared engines cancelled batches (start world exclusive)).failed
          (run_prepared engines cancelled batches (start world exclusive)).interrupted
          (run_prepared engines cancelled batches (start world exclusive)).steps
        ≡ passed
      → Ran engines cancelled batches
          (start world exclusive)
          (run_prepared engines cancelled batches (start world exclusive)).steps
  unfolding run_prepared report_unreached
  run_prepared-Ran engines cancelled batches world exclusive h =
      let p = start world exclusive in
      let ran = run_batches engines cancelled batches p in
      let flags =
        flags-report_unreached (unreached_reason ran.interrupted) (skip ran.processed batches)
          ran in
      let (unfailed, (unbroken, fine)) = status_of-eq-passed _ _ _ h in
      let all_processed =
        run_batches-Completed engines cancelled batches p (length batches) (omega arith)
          (sym flags.0 ∙ unfailed) (sym flags.1 ∙ unbroken) in
      let nothing_left : skip ran.processed batches ≡ [] = rw all_processed (skip-length batches) in
      (
        all_processed,
        (
          ap (λ l. (report_unreached (unreached_reason ran.interrupted) l ran).steps) nothing_left,
          fine,
        ),
      )

  run_ready-Ran :
      (engines : Engines Float Session Payload) (cancelled : ℕ → Bool) (spec : ScenarioSpec)
      (world : World Float) (store : Map (Value Float)) (prepare : Prepare Payload)
      → (run_ready engines cancelled spec world store prepare).0.status ≡ passed
      → (prepared : Prepared Payload) × ((prepare ≡ ready prepared)
          × Ran engines cancelled prepared.batches
              (start world spec.exclusive)
              (run_ready engines cancelled spec world store prepare).0.steps)
  unfolding run_ready conclude_scenario outcome_with
  run_ready-Ran engines cancelled spec world store (refused messages) h = absurd (ground arith)
  run_ready-Ran engines cancelled spec world store (ready prepared) h =
      (prepared, (refl, run_prepared-Ran engines cancelled prepared.batches world spec.exclusive h))

-- A scenario whose outcome is `passed` was prepared, all its batches were processed without an
-- interrupt, the steps of its outcome are those that the engines reported, none added as not reached,
-- and each of them passed or was skipped by its engine.
pub run_scenario-Ran :
    {Float Session Payload : Type 0} (engines : Engines Float Session Payload)
    (cancelled : ℕ → Bool) (needles : Redactions) (prepare : World Float → Prepare Payload)
    (spec : ScenarioSpec) (snapshot store : Map (Value Float))
    → (run_scenario engines cancelled needles prepare spec snapshot store).0.status ≡ passed
    → (prepared : Prepared Payload) × ((prepare (guard_secrets needles (new snapshot))
          ≡ ready prepared)
        × Ran engines cancelled prepared.batches
            (start (guard_secrets needles (new snapshot)) spec.exclusive)
            (run_scenario engines cancelled needles prepare spec snapshot store).0.steps)
unfolding run_scenario
run_scenario-Ran engines cancelled needles prepare spec snapshot store h =
    run_ready-Ran engines cancelled spec (guard_secrets needles (new snapshot)) store
      (prepare (guard_secrets needles (new snapshot))) h
