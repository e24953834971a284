-- ===== src/Lowering/Reported.antt =====
-- crates/proef-core/src/lower.rs and runner.rs: a run reports the lowered steps, batch by batch.
use proef.Base.{List, [], ◌∷◌}
use proef.World.{World}
use proef.Runner.Scenario.{StepBatch}
use proef.Lowering.{Batch, Work}

abbrev pub dispatched : List Batch → List (StepBatch Work)
dispatched [] = []
dispatched ((_, b) ∷ bs) = b ∷ dispatched bs
