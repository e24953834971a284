-- ===== src/Shards/Partition.antt =====
-- crates/proef-cli/src/exec.rs: the shards of a run are a partition of what it selects.
use proef.Base.{
  ℕ, zero, suc, ◌+◌, ◌<◌, ◌≡◌, refl, Option-cases, Bool, Option, none, some, List, [], ◌∷◌, ◌++◌,
  ◌&&◌, ◌==◌, ltb, count_p, count_p-append, if◌then◌else◌, inl, inr, arith,
}
use proef.Shards.{Identity, Weights, place_of, shard_bucket, placement, bucket, is_kept, retain}
use proef.Shards.Range.{assign-lt, to_u32-le}
use mathlib.Core.Option.{none-ne-some}
use native.Mathlib.Nat.{mod-lt}

placed-lt :
    (weights : Option Weights) (count b : ℕ) (i : Identity)
    → 0 < count
    → place_of i (placement weights count) ≡ some b
    → b < count
unfolding place_of
placed-lt none count b i pos e = absurd (none-ne-some b e)
placed-lt (some weights) count b i pos e = omega (arith, assign-lt weights count b i e)

pub bucket-lt :
    (weights : Option Weights) (count : ℕ) (i : Identity)
    → 0 < count
    → bucket weights count i < count
unfolding bucket
bucket-lt weights count (file, name) pos =
    elim (Option-cases (place_of (file, name) (placement weights count))) [
      | inl e ↦ rw e (unfold shard_bucket in omega (arith, to_u32-le _, mod-lt _ pos))
      | inr (b, e) ↦ rw e (placed-lt weights count b (file, name) pos e)
    ]

module _ {Spec : Type 0} (identity_of : Spec → Identity) (weights : Option Weights)
    (count : ℕ) where
  -- What the shards 1 to n of the matrix run, together.
  abbrev pub matrix : ℕ → List Spec → List Spec
  matrix zero specs = []
  matrix (suc n) specs = matrix n specs ++ retain identity_of weights (suc n) count specs

  abbrev one_if : Bool → ℕ
  one_if b = if b then 1 else 0

  count_p-retain :
      (p : Spec → Bool) (n : ℕ) (s : Spec) (specs : List Spec)
      → count_p p (retain identity_of weights (suc n) count (s ∷ specs))
        ≡ one_if (p s && bucket weights count (identity_of s) == n)
          + count_p p (retain identity_of weights (suc n) count specs)
  unfolding retain is_kept
  count_p-retain p n s specs = ground arith

  count_p-matrix_cons :
      (p : Spec → Bool) (n : ℕ) (s : Spec) (specs : List Spec)
      → count_p p (matrix n (s ∷ specs))
        ≡ one_if (p s && ltb (bucket weights count (identity_of s)) n) + count_p p (matrix n specs)
  count_p-matrix_cons p zero s specs = ground arith
  count_p-matrix_cons p (suc n) s specs =
      let front = matrix n specs in
      let shard = λ (l : List Spec). retain identity_of weights (suc n) count l in
      ground (
        arith,
        count_p-append p (matrix n (s ∷ specs)) (shard (s ∷ specs)),
        count_p-append p front (shard specs),
        count_p-retain p n s specs,
        count_p-matrix_cons p n s specs,
      )

  matrix-nil : (n : ℕ) → matrix n [] ≡ []
  unfolding retain
  matrix-nil zero = refl
  matrix-nil (suc n) = rw (matrix-nil n)

  -- Whatever weights are given, the shards 1 to N of a matrix of N > 0 jobs run together what one
  -- job without `--shard` selects: every kind of scenario as often, so each scenario exactly once.
  pub count_p-matrix :
      (p : Spec → Bool) (specs : List Spec)
      → 0 < count
      → count_p p (matrix count specs) ≡ count_p p specs
  count_p-matrix p [] pos = rw (matrix-nil count)
  count_p-matrix p (s ∷ specs) pos = ground (
    arith,
    count_p-matrix_cons p count s specs,
    bucket-lt weights count (identity_of s) pos,
    count_p-matrix p specs pos,
  )
