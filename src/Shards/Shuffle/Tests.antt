-- ===== src/Shards/Shuffle/Tests.antt =====
-- crates/proef-cli/src/exec.rs: the frozen order of the program's own test.
use proef.Base.{ℕ, ◌≡◌, refl, [], ◌∷◌}
use proef.Base.Texts.{codes}
use proef.Shards.Shuffle.{shuffle_specs}

pinned_seed :
    shuffle_specs {A = ℕ} (1 ∷ 2 ∷ 3 ∷ 4 ∷ 5 ∷ 6 ∷ []) (codes "pinned-seed")
    ≡ 3 ∷ 6 ∷ 1 ∷ 2 ∷ 4 ∷ 5 ∷ []
unfolding shuffle_specs
pinned_seed = refl
