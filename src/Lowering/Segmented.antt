-- ===== src/Lowering/Segmented.antt =====
-- crates/proef-core/src/lower.rs: what the batches of a scenario are.
use proef.Base.{
  ℕ, suc, ◌≡◌, refl, sym, subst, Bool, true, false, not, List, [], ◌∷◌, ◌++◌, ◌&&◌, ◌||◌,
  append_assoc, inl, inr, Bool-cases, arith,
}
use proef.Base.Texts.{Text, text_eq}
use proef.Base.Maps.{Map}
use proef.Runner.Scenario.{StepBatch}
use proef.Lowering.{
  Step, Batch, Work, engine_of, is_merged, last_or, starts_new, fresh, push, segment_from,
}

abbrev pub steps_of : List Batch → List Step
steps_of [] = []
steps_of ((_, b) ∷ bs) = b.steps ++ steps_of bs

module _ (kinds : Map Text) where
  -- A step that stays in the batch of the engine, behind a step that is optional or not.
  abbrev pub joins : Text → Bool → Step → Bool
  joins engine o s =
      is_merged s.payload.payload
      || (text_eq engine (engine_of kinds s) && (not s.optional && not o))

  abbrev pub IsRun : Text → Bool → List Step → Type 0
  IsRun engine o [] = Unit
  IsRun engine o (s ∷ ss) = (joins engine o s ≡ true) × IsRun engine s.optional ss

  -- A batch has a first step, whose engine it runs on, and the others join it.
  abbrev pub IsBatch : Text → List Step → Type 0
  IsBatch engine [] = ⊥
  IsBatch engine (s ∷ ss) = (engine ≡ engine_of kinds s) × IsRun engine s.optional ss

  -- The next batch begins with a step that does not join this one.
  abbrev pub CutBefore : StepBatch Work → List Step → Type 0
  CutBefore b [] = ⊥
  CutBefore b (s ∷ _) = joins b.engine (last_or false b.steps) s ≡ false

  abbrev pub Cut : StepBatch Work → List Batch → Type 0
  Cut b [] = Unit
  Cut b ((_, c) ∷ _) = CutBefore b c.steps

  -- Batches with indices from `n` on, each as long as it can be.
  abbrev pub IsSegmented : ℕ → List Batch → Type 0
  IsSegmented n [] = Unit
  IsSegmented n ((index, b) ∷ bs) =
      (index ≡ n) × IsBatch b.engine b.steps × Cut b bs × IsSegmented (suc n) bs

  pub starts_new_lem :
      (b : StepBatch Work) (s : Step)
      → starts_new kinds b s ≡ not (joins b.engine (last_or false b.steps) s)
  starts_new_lem b s = ground arith

  pub last_or-snoc :
      (o : Bool) (ss : List Step) (s : Step) → last_or o (ss ++ (s ∷ [])) ≡ s.optional
  last_or-snoc o [] s = refl
  last_or-snoc o (t ∷ ss) s = last_or-snoc t.optional ss s

  IsRun-snoc :
      (engine : Text) (o : Bool) (ss : List Step) (s : Step)
      → IsRun engine o ss
      → joins engine (last_or o ss) s ≡ true
      → IsRun engine o (ss ++ (s ∷ []))
  IsRun-snoc engine o [] s h j = (j, tt)
  IsRun-snoc engine o (t ∷ ss) s h j = (h.0, IsRun-snoc engine t.optional ss s h.1 j)

  IsBatch-snoc :
      (engine : Text) (ss : List Step) (s : Step)
      → IsBatch engine ss
      → joins engine (last_or false ss) s ≡ true
      → IsBatch engine (ss ++ (s ∷ []))
  IsBatch-snoc engine [] s h j = elim h [ ]
  IsBatch-snoc engine (t ∷ ss) s h j = (h.0, IsRun-snoc engine t.optional ss s h.1 j)

  CutBefore-snoc :
      (b : StepBatch Work) (ss more : List Step) → CutBefore b ss → CutBefore b (ss ++ more)
  CutBefore-snoc b [] more h = elim h [ ]
  CutBefore-snoc b (s ∷ ss) more h = h

  Cut-segment_from :
      (b : StepBatch Work) (len : ℕ) (c : Batch) (steps : List Step)
      → CutBefore b c.1.steps
      → Cut b (segment_from kinds len c steps)
  unfolding segment_from
  Cut-segment_from b len c [] h = h
  Cut-segment_from b len c (s ∷ steps) h = elim (Bool-cases (starts_new kinds c.1 s)) [
    | inl e ↦ rw e h
    | inr e ↦ rw e (Cut-segment_from b len (push c s) steps (CutBefore-snoc b c.1.steps (s ∷ []) h))
  ]

  pub segment_from-IsSegmented :
      (len : ℕ) (last : Batch) (steps : List Step)
      → suc last.0 ≡ len
      → IsBatch last.1.engine last.1.steps
      → IsSegmented last.0 (segment_from kinds len last steps)
  unfolding segment_from
  segment_from-IsSegmented len last [] e h = (refl, h, tt, tt)
  segment_from-IsSegmented len last (s ∷ steps) e h =
      elim (Bool-cases (starts_new kinds last.1 s)) [
        | inl new ↦ rw new (
          refl,
          h,
          Cut-segment_from last.1 (suc len) (fresh kinds len s) steps
              (let l = starts_new_lem last.1 s in ground arith),
          subst (λ n. IsSegmented n (segment_from kinds (suc len) (fresh kinds len s) steps))
              (sym e)
              (segment_from-IsSegmented (suc len) (fresh kinds len s) steps refl (refl, tt)),
        )
        | inr same ↦ rw same (
            segment_from-IsSegmented len (push last s) steps e (
              IsBatch-snoc last.1.engine last.1.steps s h
                (let l = starts_new_lem last.1 s in ground arith)))
      ]

  pub steps_of-segment_from :
      (len : ℕ) (last : Batch) (steps : List Step)
      → steps_of (segment_from kinds len last steps) ≡ last.1.steps ++ steps
  unfolding segment_from
  steps_of-segment_from len last [] = refl
  steps_of-segment_from len last (s ∷ steps) = elim (Bool-cases (starts_new kinds last.1 s)) [
    | inl e ↦ rw (e, steps_of-segment_from (suc len) (fresh kinds len s) steps) refl
    | inr e ↦
        rw (e, steps_of-segment_from len (push last s) steps)
          (append_assoc last.1.steps (s ∷ []) steps)
  ]
