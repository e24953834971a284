-- ===== src/Runner/Scenario/Steps.antt =====
-- crates/proef-core/src/runner.rs: the steps of the outcome of `run_scenario`.
use proef.Base.{
  subst, ℕ, zero, suc, ◌≡◌, refl, sym, ◌∙◌, ap, Bool, true, false, Option, none, some, List, [],
  ◌∷◌, ◌++◌, append-nil, append_assoc, cons-injective, map, all, ◌&&◌, if◌then◌else◌, Bool-cases,
  inl, inr, arith, ◌⊎◌,
}
use proef.Base.Texts.{Text}
use proef.Base.Maps.{Map}
use proef.Redaction.{Redactions}
use proef.World.{Value, World, new, guard_secrets}
use proef.Runner.{StepRef, StepOutcome}
use proef.Runner.Exit.{is_failed}
use proef.Runner.Pool.{ScenarioSpec}
use proef.Runner.Scenario.{
  LoweredStep, StepBatch, EngineError, Opening, opened, unopened, Engines, Prepared, Prepare, ready,
  Progress, soften, settle, fail_with, find_session, unreached, skip, unreached_reason,
  outcome_with,
}
use proef.Runner.Scenario.Life.{
  start, dispatch_batch, open_and_dispatch, run_in, run_batches, report_steps, report_unreached,
  run_prepared, conclude_scenario, run_ready, run_scenario,
}

abbrev pub refs : List StepOutcome → List StepRef
refs os = map (λ (o : StepOutcome). o.step) os

module _ {Payload : Type 0} where
  abbrev pub step_refs : List (LoweredStep Payload) → List StepRef
  step_refs ss = map (λ (s : LoweredStep Payload). s.step) ss

  abbrev pub authored : List (StepBatch Payload) → List StepRef
  authored [] = []
  authored (b ∷ batches) = step_refs b.steps ++ authored batches

refs-append : (xs ys : List StepOutcome) → refs (xs ++ ys) ≡ refs xs ++ refs ys
refs-append [] ys = refl
refs-append (x ∷ xs) ys = ap (λ l. x.step ∷ l) (refs-append xs ys)

step-soften : (c : Bool) (o : StepOutcome) → (soften c o).step ≡ o.step
unfolding soften
step-soften c o = elim (Bool-cases (is_failed o.status && c)) [
  | inl e ↦ rw e refl
  | inr e ↦ rw e refl
]

refs-soften : (c : Bool) (os : List StepOutcome) → refs (map (soften c) os) ≡ refs os
refs-soften c [] = refl
refs-soften c (o ∷ os) = rw (step-soften c o, refs-soften c os) refl

module _ {Payload : Type 0} where
  skip-nil : (n : ℕ) → skip {Payload = Payload} n [] ≡ []
  skip-nil zero = refl
  skip-nil (suc n) = refl

  skip-suc :
      (n : ℕ) (batches rest : List (StepBatch Payload)) (b : StepBatch Payload)
      → skip n batches ≡ b ∷ rest
      → skip (suc n) batches ≡ rest
  skip-suc n [] rest b h = absurd (ground (arith, skip-nil n))
  skip-suc zero (y ∷ batches) rest b h = (cons-injective h).1
  skip-suc (suc n) (y ∷ batches) rest b h = skip-suc n batches rest b h

-- The two ways out of the loop.
pub break-cases {ℓ} :
    {A : Type ℓ} (P : A → Type 0) (x y z : A) (a b : Bool)
    → (a ≡ true → P x)
    → P y
    → P z
    → P (if a then x else if b then y else z)
break-cases P x y z true b hx hy hz = hx refl
break-cases P x y z false true hx hy hz = hy
break-cases P x y z false false hx hy hz = hz

module _ {Float Session : Type 0} where
  -- The engine could not be had.
  abbrev pub Stuck : Progress Float Session → Progress Float Session → Type 0
  Stuck p p' = (p'.steps ≡ p.steps) × ((p'.processed ≡ p.processed) × (p'.failed ≡ true))

  pub settle-steps :
      (c : Bool) (e : Option EngineError) (p : Progress Float Session)
      → ((settle c e p).steps ≡ p.steps) × ((settle c e p).processed ≡ suc p.processed)
  unfolding settle
  settle-steps c none p = (refl, refl)
  settle-steps true (some e) p = (refl, refl)
  settle-steps false (some e) p = (refl, refl)

module _ {Float Session Payload : Type 0} where
  -- Every batch result has one outcome for every step of the batch, in order.
  abbrev pub Reports : Engines Float Session Payload → Type 0
  Reports engines =
      (batch : StepBatch Payload) (session : Session) (world : World Float)
      → refs (engines.run_batch batch session world).1.1.steps ≡ step_refs batch.steps

  refs-report_steps :
      (reason engine : Text) (ss : List (LoweredStep Payload)) (p : Progress Float Session)
      → refs (report_steps reason engine ss p).steps ≡ refs p.steps ++ step_refs ss
  unfolding report_steps unreached
  refs-report_steps reason engine [] p = sym (append-nil (refs p.steps))
  refs-report_steps reason engine (s ∷ ss) p =
      rw
        (
          refs-report_steps reason engine ss,
          refs-append p.steps (unreached reason s ∷ []),
          append_assoc,
        )
        refl

  refs-report_unreached :
      (reason : Text) (batches : List (StepBatch Payload)) (p : Progress Float Session)
      → refs (report_unreached reason batches p).steps ≡ refs p.steps ++ authored batches
  unfolding report_unreached
  refs-report_unreached reason [] p = sym (append-nil (refs p.steps))
  refs-report_unreached reason (b ∷ batches) p =
      rw
        (
          refs-report_unreached reason batches,
          refs-report_steps reason b.engine b.steps p,
          append_assoc,
        )
        refl

  -- What has an outcome, and what remains, are what was authored.
  abbrev Accounted : List (StepBatch Payload) → Progress Float Session → Type 0
  Accounted batches p = refs p.steps ++ authored (skip p.processed batches) ≡ authored batches

  -- The batch was dispatched.
  abbrev pub Advanced : StepBatch Payload → Progress Float Session → Progress Float Session → Type 0
  Advanced batch p p' =
      (refs p'.steps ≡ refs p.steps ++ step_refs batch.steps) × (p'.processed ≡ suc p.processed)

  dispatch_batch-Advanced :
      (engines : Engines Float Session Payload) (batch : StepBatch Payload) (session : Session)
      (p : Progress Float Session)
      → Reports engines
      → Advanced batch p (dispatch_batch engines batch session p)
  unfolding dispatch_batch
  dispatch_batch-Advanced engines batch session p reports =
      let result = (engines.run_batch batch session p.world).1.1 in
      let c = all (λ (s : LoweredStep Payload). s.optional) batch.steps in
      (
        rw
            (
              (settle-steps c result.error _).0,
              refs-append p.steps (map (soften c) result.steps),
              refs-soften c result.steps,
              reports batch session p.world,
            )
            refl,
        (settle-steps c result.error _).1,
      )

  opening-cases :
      (engines : Engines Float Session Payload) (batch : StepBatch Payload)
      (p : Progress Float Session) (o : Option (Opening Session))
      → Reports engines
      → Advanced batch p (open_and_dispatch engines batch p o)
        ⊎ Stuck p (open_and_dispatch engines batch p o)
  unfolding open_and_dispatch fail_with
  opening-cases engines batch p none reports = inr (refl, (refl, refl))
  opening-cases engines batch p (some (unopened message)) reports = inr (refl, (refl, refl))
  opening-cases engines batch p (some (opened session)) reports =
      inl (dispatch_batch-Advanced engines batch session _ reports)

  pub run_in-cases :
      (engines : Engines Float Session Payload) (batch : StepBatch Payload)
      (p : Progress Float Session) (session : Option Session)
      → Reports engines
      → Advanced batch p (run_in engines batch p session) ⊎ Stuck p (run_in engines batch p session)
  unfolding run_in
  run_in-cases engines batch p (some session) reports =
      inl (dispatch_batch-Advanced engines batch session p reports)
  run_in-cases engines batch p none reports =
      opening-cases engines batch p (engines.open_session batch.engine) reports

  pub run_batches-failed :
      (engines : Engines Float Session Payload) (cancelled : ℕ → Bool)
      (batches : List (StepBatch Payload)) (p : Progress Float Session)
      → p.failed ≡ true
      → run_batches engines cancelled batches p ≡ p
  unfolding run_batches
  run_batches-failed engines cancelled [] p h = refl
  run_batches-failed engines cancelled (b ∷ batches) p h = rw h refl

  run_batches-Accounted :
      (engines : Engines Float Session Payload) (cancelled : ℕ → Bool)
      (everything batches : List (StepBatch Payload)) (p : Progress Float Session)
      → Reports engines
      → skip p.processed everything ≡ batches
      → Accounted everything p
      → Accounted everything (run_batches engines cancelled batches p)
  unfolding run_batches
  run_batches-Accounted engines cancelled everything [] p reports left h = h
  run_batches-Accounted engines cancelled everything (b ∷ batches) p reports left h =
      let p' = run_in engines b p (find_session b.engine p.sessions) in
      let goes : Accounted everything (run_batches engines cancelled batches p') =
        elim (run_in-cases engines b p (find_session b.engine p.sessions) reports) [
          | inl (steps, one_more) ↦
              let left' : skip p'.processed everything ≡ batches =
                rw one_more (skip-suc p.processed everything batches b left) in
              run_batches-Accounted engines cancelled everything batches p' reports left' (
                rw (steps, left', append_assoc)
                  (subst (λ l. refs p.steps ++ authored l ≡ authored everything) left h))
          | inr (steps, (same, fails)) ↦
              rw (run_batches-failed engines cancelled batches p' fails, steps, same) h
        ] in
      break-cases (Accounted everything) p (record p { interrupted = true })
        (run_batches engines cancelled batches p') p.failed (cancelled p.processed) (λ e. h) h goes

  run_prepared-refs :
      (engines : Engines Float Session Payload) (cancelled : ℕ → Bool)
      (batches : List (StepBatch Payload)) (world : World Float) (exclusive : Bool)
      → Reports engines
      → refs (run_prepared engines cancelled batches (start world exclusive)).steps
        ≡ authored batches
  unfolding run_prepared
  run_prepared-refs engines cancelled batches world exclusive reports =
      let p = run_batches engines cancelled batches (start world exclusive) in
      refs-report_unreached (unreached_reason p.interrupted) (skip p.processed batches) p
      ∙ run_batches-Accounted engines cancelled batches batches (start world exclusive) reports refl
          refl

  run_ready-refs :
      (engines : Engines Float Session Payload) (cancelled : ℕ → Bool) (spec : ScenarioSpec)
      (world : World Float) (store : Map (Value Float)) (prepared : Prepared Payload)
      (prepare : Prepare Payload)
      → Reports engines
      → prepare ≡ ready prepared
      → refs (run_ready engines cancelled spec world store prepare).0.steps
        ≡ authored prepared.batches
  unfolding run_ready conclude_scenario outcome_with
  run_ready-refs engines cancelled spec world store prepared prepare reports h =
      rw h (run_prepared-refs engines cancelled prepared.batches world spec.exclusive reports)

-- If every batch result has one outcome for every step of its batch in order, then the outcome of a
-- prepared scenario has one for every authored step of all its batches in order, wherever the scenario
-- fails, is interrupted, or cannot open an engine.
pub run_scenario-refs :
    {Float Session Payload : Type 0} (engines : Engines Float Session Payload)
    (cancelled : ℕ → Bool) (needles : Redactions) (prepare : World Float → Prepare Payload)
    (spec : ScenarioSpec) (snapshot store : Map (Value Float)) (prepared : Prepared Payload)
    → Reports engines
    → prepare (guard_secrets needles (new snapshot)) ≡ ready prepared
    → refs (run_scenario engines cancelled needles prepare spec snapshot store).0.steps
      ≡ authored prepared.batches
unfolding run_scenario
run_scenario-refs engines cancelled needles prepare spec snapshot store prepared reports h =
    run_ready-refs engines cancelled spec (guard_secrets needles (new snapshot)) store prepared
      (prepare (guard_secrets needles (new snapshot))) reports h
