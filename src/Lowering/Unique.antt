-- ===== src/Lowering/Unique.antt =====
-- crates/proef-core/src/lower.rs: the batches are the only ones that are as long as they can be.
use proef.Base.{
  ℕ, suc, ◌≡◌, refl, sym, ap, subst, ◌∙◌, ◌↔◌, true, false, List, [], ◌∷◌, ◌++◌, append_assoc,
  append-nil,
}
use proef.Base.Texts.{Text}
use proef.Base.Maps.{Map}
use proef.Runner.Scenario.{StepBatch}
use proef.Lowering.{Step, Batch, Work, last_or, starts_new, fresh, segment_from, segment}
use proef.Lowering.Segmented.{
  steps_of, IsRun, IsBatch, CutBefore, IsSegmented, starts_new_lem, last_or-snoc,
  segment_from-IsSegmented, steps_of-segment_from,
}

module _ (kinds : Map Text) where
  segment_from-absorb :
      (len index : ℕ) (engine : Text) (steps ss more : List Step)
      → IsRun kinds engine (last_or false steps) ss
      → segment_from kinds len (index, record { engine = engine; steps = steps }) (ss ++ more)
        ≡ segment_from kinds len (index, record { engine = engine; steps = steps ++ ss }) more
  unfolding segment_from
  segment_from-absorb len index engine steps [] more h = rw (append-nil steps) refl
  segment_from-absorb len index engine steps (s ∷ ss) more h =
      let b : StepBatch Work = record { engine = engine; steps = steps } in
      let e : starts_new kinds b s ≡ false = rw (starts_new_lem kinds b s, h.0) refl in
      rw (e, sym (append_assoc steps (s ∷ []) ss))
        (segment_from-absorb len index engine (steps ++ (s ∷ [])) ss more
          (rw (last_or-snoc kinds false steps s) h.1))

  abbrev made : Text → List Step → StepBatch Work
  made engine steps = record { engine = engine; steps = steps }

  segment_from-IsBatch :
      (len index : ℕ) (engine : Text) (s : Step) (ss more : List Step)
      → IsBatch kinds engine (s ∷ ss)
      → segment_from kinds len (fresh kinds index s) (ss ++ more)
        ≡ segment_from kinds len (index, made engine (s ∷ ss)) more
  segment_from-IsBatch len index engine s ss more h =
      rw (sym h.0) (segment_from-absorb len index engine (s ∷ []) ss more h.1)

  segment_from-Cut :
      (n : ℕ) (b : StepBatch Work) (engine : Text) (ss : List Step) (bs : List Batch)
      → IsBatch kinds engine ss
      → CutBefore kinds b ss
      → segment_from kinds (suc (suc n)) (suc n, made engine ss) (steps_of bs)
        ≡ (suc n, made engine ss) ∷ bs
      → segment_from kinds (suc n) (n, b) (ss ++ steps_of bs)
        ≡ (n, b) ∷ (suc n, made engine ss) ∷ bs
  unfolding segment_from
  segment_from-Cut n b engine [] bs h cut later = elim h [ ]
  segment_from-Cut n b engine (s ∷ ss) bs h cut later =
      let e : starts_new kinds b s ≡ true = rw (starts_new_lem kinds b s, cut) refl in
      rw e (
        ap (λ l. (n, b) ∷ l)
          (segment_from-IsBatch (suc (suc n)) (suc n) engine s ss (steps_of bs) h ∙ later))

  segment_from-steps_of :
      (n : ℕ) (b : StepBatch Work) (bs : List Batch)
      → IsSegmented kinds n ((n, b) ∷ bs)
      → segment_from kinds (suc n) (n, b) (steps_of bs) ≡ (n, b) ∷ bs
  unfolding segment_from
  segment_from-steps_of n b [] h = refl
  segment_from-steps_of n b ((i, c) ∷ bs) h =
      let later = segment_from-steps_of (suc n) c bs (refl, h.3.1, h.3.2, h.3.3) in
      rw h.3.0 (segment_from-Cut n b c.engine c.steps bs h.3.1 h.2 later)

  segment-opened :
      (engine : Text) (ss : List Step) (bs : List Batch)
      → IsSegmented kinds 0 ((0, made engine ss) ∷ bs)
      → segment kinds (ss ++ steps_of bs) ≡ (0, made engine ss) ∷ bs
  unfolding segment
  segment-opened engine [] bs h = elim (h.1) [ ]
  segment-opened engine (s ∷ ss) bs h =
      segment_from-IsBatch 1 0 engine s ss (steps_of bs) h.1
      ∙ segment_from-steps_of 0 (made engine (s ∷ ss)) bs h

  segment-steps_of :
      (out : List Batch) → IsSegmented kinds 0 out → segment kinds (steps_of out) ≡ out
  unfolding segment
  segment-steps_of [] h = refl
  segment-steps_of ((i, b) ∷ bs) h =
      rw (h.0) (segment-opened b.engine b.steps bs (refl, h.1, h.2, h.3))

  pub steps_of-segment : (steps : List Step) → steps_of (segment kinds steps) ≡ steps
  unfolding segment
  steps_of-segment [] = refl
  steps_of-segment (s ∷ steps) = steps_of-segment_from kinds 1 (fresh kinds 0 s) steps

  segment-IsSegmented : (steps : List Step) → IsSegmented kinds 0 (segment kinds steps)
  unfolding segment
  segment-IsSegmented [] = tt
  segment-IsSegmented (s ∷ steps) =
      segment_from-IsSegmented kinds 1 (fresh kinds 0 s) steps refl (refl, tt)

-- The batches of the steps are the only list of batches that holds the steps in their order, is
-- numbered from 0, and in which every batch has a first step, runs on its engine, and goes on exactly
-- as long as the next step joins it: because it is merged into the one before, or because it runs on
-- the same engine and neither it nor the step before is optional.
pub segment_iff :
    (kinds : Map Text) (steps : List Step) (out : List Batch)
    → (segment kinds steps ≡ out) ↔ (steps_of out ≡ steps) × IsSegmented kinds 0 out
segment_iff kinds steps out = (
  λ e. (
    ap steps_of (sym e) ∙ steps_of-segment kinds steps,
    subst (IsSegmented kinds 0) e (segment-IsSegmented kinds steps),
  ),
  λ h. ap (segment kinds) (sym h.0) ∙ segment-steps_of kinds out h.1,
)
