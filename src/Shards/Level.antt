-- ===== src/Shards/Level.antt =====
-- crates/proef-cli/src/timings.rs: the loads of the shards while `assign` deals the weights.
use proef.Base.{
  ◌⊎◌, ℕ, zero, suc, ◌+◌, ◌≤◌, ◌<◌, min, ◌≡◌, refl, sym, subst, Bool-cases, List, [], ◌∷◌, length,
  All, inl, inr, arith,
}
use proef.Shards.{
  Identity, Weights, Bucket, is_lighter, lightest_from, lightest, u64_max, put_on, Placement,
  to_u32, deal, empty_buckets,
}
use proef.Shards.Range.{lightest-lt, length-put_on}

abbrev pub load_at : List Bucket → ℕ → ℕ
load_at [] i = 0
load_at (b ∷ buckets) zero = b.load
load_at (b ∷ buckets) (suc i) = load_at buckets i

-- Every bucket is at least as heavy as a number.
abbrev pub AtLeast : ℕ → List Bucket → Type 0
AtLeast n buckets = All (λ (b : Bucket). n ≤ b.load) buckets

AtLeast-le : (m n : ℕ) (buckets : List Bucket) → m ≤ n → AtLeast n buckets → AtLeast m buckets
AtLeast-le m n [] le h = tt
AtLeast-le m n (b ∷ buckets) le h = (omega arith, AtLeast-le m n buckets le h.1)

-- What the scan of the buckets finds: a least load, at the index that it gives.
abbrev Found : ℕ → Bucket → ℕ → List Bucket → ℕ → Type 0
Found best b i buckets r =
    ((r ≡ best) × AtLeast b.load buckets)
    ⊎ ((k : ℕ) × (r ≡ i + k) × (k < length buckets) × AtLeast (load_at buckets k) (b ∷ buckets))

lightest_from-Found :
    (best i : ℕ) (b : Bucket) (buckets : List Bucket)
    → Found best b i buckets (lightest_from best b i buckets)
unfolding lightest_from
lightest_from-Found best i b [] = inl (refl, tt)
lightest_from-Found best i b (c ∷ buckets) = elim (Bool-cases (is_lighter c b)) [
  | inl e ↦
      let lighter : c.load ≤ b.load = unfold is_lighter in ground arith in
      rw e (elim (lightest_from-Found i (suc i) c buckets) [
        | inl (same, h) ↦ inr (0, omega arith, omega arith, (lighter, (omega arith, h)))
        | inr (k, at, lt, h) ↦ inr (suc k, omega arith, omega arith, (omega arith, h))
      ])
  | inr e ↦
      let heavier : b.load ≤ c.load = unfold is_lighter in ground arith in
      rw e (elim (lightest_from-Found best (suc i) b buckets) [
        | inl (same, h) ↦ inl (same, (heavier, h))
        | inr (k, at, lt, h) ↦ inr (suc k, omega arith, omega arith, (h.0, (omega arith, h.1)))
      ])
]

lightest-AtLeast : (buckets : List Bucket) → AtLeast (load_at buckets (lightest buckets)) buckets
unfolding lightest
lightest-AtLeast [] = tt
lightest-AtLeast (b ∷ buckets) =
    let all = b ∷ buckets in
    elim (lightest_from-Found 0 1 b buckets) [
      | inl (same, h) ↦ subst (λ r. AtLeast (load_at all r) all) (sym same) (omega arith, h)
      | inr (k, at, lt, h) ↦
          let next : suc k ≡ lightest_from 0 b 1 buckets = omega arith in
          subst (λ r. AtLeast (load_at all r) all) next h
    ]

abbrev pub AtMost : ℕ → List Bucket → Type 0
AtMost n buckets = All (λ (b : Bucket). b.load ≤ n) buckets

AtMost-le : (m n : ℕ) (buckets : List Bucket) → m ≤ n → AtMost m buckets → AtMost n buckets
AtMost-le m n [] le h = tt
AtMost-le m n (b ∷ buckets) le h = (omega arith, AtMost-le m n buckets le h.1)

-- No load exceeds another by more than the given weight.
pub record IsLevel (heavy : ℕ) (buckets : List Bucket) : Type 0 where
  pub least : ℕ
  pub above : AtLeast least buckets
  pub below : AtMost (least + heavy) buckets
  pub bounded : AtMost u64_max buckets

AtLeast-put_on :
    (n target ms : ℕ) (buckets : List Bucket)
    → n ≤ u64_max
    → AtLeast n buckets
    → AtLeast n (put_on target ms buckets)
unfolding put_on
AtLeast-put_on n target ms [] le h = tt
AtLeast-put_on n zero ms (b ∷ buckets) le h = (omega arith, h.1)
AtLeast-put_on n (suc target) ms (b ∷ buckets) le h =
    (h.0, AtLeast-put_on n target ms buckets le h.1)

AtMost-put_on :
    (n target ms : ℕ) (buckets : List Bucket)
    → min u64_max (load_at buckets target + ms) ≤ n
    → AtMost n buckets
    → AtMost n (put_on target ms buckets)
unfolding put_on
AtMost-put_on n target ms [] le h = tt
AtMost-put_on n zero ms (b ∷ buckets) le h = (le, h.1)
AtMost-put_on n (suc target) ms (b ∷ buckets) le h = (h.0, AtMost-put_on n target ms buckets le h.1)

load_at-AtLeast :
    (n i : ℕ) (buckets : List Bucket)
    → i < length buckets
    → AtLeast n buckets
    → n ≤ load_at buckets i
load_at-AtLeast n i [] lt h = absurd (omega arith)
load_at-AtLeast n zero (b ∷ buckets) lt h = h.0
load_at-AtLeast n (suc i) (b ∷ buckets) lt h = load_at-AtLeast n i buckets (omega arith) h.1

load_at-AtMost : (n i : ℕ) (buckets : List Bucket) → AtMost n buckets → load_at buckets i ≤ n
load_at-AtMost n i [] h = omega arith
load_at-AtMost n zero (b ∷ buckets) h = h.0
load_at-AtMost n (suc i) (b ∷ buckets) h = load_at-AtMost n i buckets h.1

put_on-IsLevel :
    (heavy ms : ℕ) (buckets : List Bucket)
    → 0 < length buckets
    → ms ≤ heavy
    → IsLevel heavy buckets
    → IsLevel heavy (put_on (lightest buckets) ms buckets)
put_on-IsLevel heavy ms buckets pos le level =
    let t = lightest buckets in
    let l = load_at buckets t in
    let risen = load_at-AtLeast level.least t buckets (lightest-lt buckets pos) level.above in
    let fits = load_at-AtMost u64_max t buckets level.bounded in
    record {
      least = l;
      above = AtLeast-put_on l t ms buckets fits (lightest-AtLeast buckets);
      below =
          AtMost-put_on (l + heavy) t ms buckets (omega arith)
            (AtMost-le (level.least + heavy) (l + heavy) buckets (omega arith) level.below);
      bounded = AtMost-put_on u64_max t ms buckets (omega arith) level.bounded;
    }

pub deal-IsLevel :
    (heavy : ℕ) (ws : Weights) (buckets : List Bucket) (placed : Placement)
    → 0 < length buckets
    → All (λ (w : Identity × ℕ). w.1 ≤ heavy) ws
    → IsLevel heavy buckets
    → IsLevel heavy (deal ws buckets placed).0
unfolding deal
deal-IsLevel heavy [] buckets placed pos light level = level
deal-IsLevel heavy ((i, ms) ∷ ws) buckets placed pos light level =
    let t = lightest buckets in
    deal-IsLevel heavy ws (put_on t ms buckets) ((i, to_u32 t) ∷ placed)
      (omega (arith, length-put_on t ms buckets)) light.1
      (put_on-IsLevel heavy ms buckets pos light.0 level)

pub IsLevel-le :
    (heavy i j : ℕ) (buckets : List Bucket)
    → j < length buckets
    → IsLevel heavy buckets
    → load_at buckets i ≤ load_at buckets j + heavy
IsLevel-le heavy i j buckets lt level = omega (
  arith,
  load_at-AtMost (level.least + heavy) i buckets level.below,
  load_at-AtLeast level.least j buckets lt level.above,
)

empty-AtLeast : (n : ℕ) → AtLeast 0 (empty_buckets n)
empty-AtLeast zero = tt
empty-AtLeast (suc n) = (omega arith, empty-AtLeast n)

empty-AtMost : (m n : ℕ) → AtMost m (empty_buckets n)
empty-AtMost m zero = tt
empty-AtMost m (suc n) = (omega arith, empty-AtMost m n)

pub empty-IsLevel : (heavy n : ℕ) → IsLevel heavy (empty_buckets n)
empty-IsLevel heavy n = record {
  least = 0;
  above = empty-AtLeast n;
  below = empty-AtMost (0 + heavy) n;
  bounded = empty-AtMost u64_max n;
}
