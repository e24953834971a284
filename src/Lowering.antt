-- ===== src/Lowering.antt =====
-- crates/proef-core/src/lower.rs: the batches that the lowered steps of a scenario make.
mod Segmented
mod Unique
mod Reported
mod Options
mod Expansion
mod Binds
mod Quoted
mod Tests
use proef.Base.{
  ℕ, zero, suc, ◌+◌, ◌≡◌, Bool, true, false, not, Option, none, some, List, [], ◌∷◌, ◌++◌, ◌&&◌,
  ◌||◌, if◌then◌else◌,
}
use proef.Base.Texts.{Text, text_eq}
use proef.Base.Maps.{Map, lookup}
use proef.Runner.Scenario.{LoweredStep, StepBatch}

-- `Structured` keeps a JSON text.
pub data StepPayload : Type 0 where
  hurl_entries : Text → StepPayload
  merged_asserts : ℕ → StepPayload
  structured : Text → StepPayload

-- The fields of a lowered step that only the engine reads.
pub record Work : Type 0 where
  pub kind : Text
  pub payload : StepPayload

abbrev pub Step : Type 0
Step = LoweredStep Work

-- A batch with its index.
abbrev pub Batch : Type 0
Batch = ℕ × StepBatch Work

-- The kind stands for the engine where it has none.
unfoldable pub engine_of : Map Text → Step → Text
unfolding lookup
engine_of kinds step = elim (lookup step.payload.kind kinds) [
  | none ↦ step.payload.kind
  | some engine ↦ engine
]

abbrev pub is_merged : StepPayload → Bool
is_merged (hurl_entries _) = false
is_merged (merged_asserts _) = true
is_merged (structured _) = false

-- `optional` of the last step, `o` where there is none.
abbrev pub last_or : Bool → List Step → Bool
last_or o [] = o
last_or o (s ∷ ss) = last_or s.optional ss

abbrev pub starts_new : Map Text → StepBatch Work → Step → Bool
starts_new kinds last step =
    not (is_merged step.payload.payload)
    && (not (text_eq last.engine (engine_of kinds step))
        || (step.optional || last_or false last.steps))

abbrev pub fresh : Map Text → ℕ → Step → Batch
fresh kinds len step = (len, record { engine = engine_of kinds step; steps = step ∷ [] })

abbrev pub push : Batch → Step → Batch
push (index, last) step =
    (index, record { engine = last.engine; steps = last.steps ++ (step ∷ []) })

-- The loop once there is a last batch, the only one that still grows: `len` is the number of
-- batches with it.
unfoldable pub segment_from : Map Text → (len : ℕ) → (last : Batch) → List Step → List Batch
unfolding engine_of text_eq
segment_from kinds len last [] = last ∷ []
segment_from kinds len last (step ∷ steps) =
    let new = segment_from kinds (suc len) (fresh kinds len step) steps in
    let same = segment_from kinds len (push last step) steps in
    if starts_new kinds last.1 step then last ∷ new else same

unfoldable pub segment : Map Text → List Step → List Batch
unfolding segment_from engine_of
segment kinds [] = []
segment kinds (step ∷ steps) = segment_from kinds 1 (fresh kinds 0 step) steps
