-- ===== src/Shards/Range.antt =====
-- crates/proef-cli/src/timings.rs: the shards that `assign` gives are in range.
use proef.Base.{
  ℕ, zero, suc, ◌+◌, ◌≤◌, ◌<◌, max, ◌≡◌, refl, sym, subst, some, List, [], ◌∷◌, length, All, arith,
}
use proef.Shards.{
  Identity, Weights, Bucket, lightest_from, lightest, put_on, Placement, place_of, to_u32, deal,
  empty_buckets, ordered, assign,
}

lightest_from-lt :
    (best i : ℕ) (b : Bucket) (buckets : List Bucket)
    → best < i
    → lightest_from best b i buckets < i + length buckets
unfolding lightest_from
lightest_from-lt best i b [] h = omega arith
lightest_from-lt best i b (c ∷ buckets) h =
    ground (arith, lightest_from-lt i (suc i) c buckets, lightest_from-lt best (suc i) b buckets)

pub lightest-lt : (buckets : List Bucket) → 0 < length buckets → lightest buckets < length buckets
unfolding lightest
lightest-lt [] h = absurd (omega arith)
lightest-lt (b ∷ buckets) h = omega (arith, lightest_from-lt 0 1 b buckets (omega arith))

pub length-put_on :
    (target ms : ℕ) (buckets : List Bucket) → length (put_on target ms buckets) ≡ length buckets
unfolding put_on
length-put_on target ms [] = refl
length-put_on zero ms (b ∷ buckets) = refl
length-put_on (suc target) ms (b ∷ buckets) = omega (arith, length-put_on target ms buckets)

pub length-empty_buckets : (n : ℕ) → length (empty_buckets n) ≡ n
length-empty_buckets zero = refl
length-empty_buckets (suc n) = omega (arith, length-empty_buckets n)

pub to_u32-le : (n : ℕ) → to_u32 n ≤ n
to_u32-le n = ground arith

abbrev IsBelow : ℕ → Placement → Type 0
IsBelow n placed = All (λ (e : Identity × ℕ). e.1 < n) placed

deal-IsBelow :
    (ws : Weights) (buckets : List Bucket) (placed : Placement)
    → 0 < length buckets
    → IsBelow (length buckets) placed
    → IsBelow (length buckets) (deal ws buckets placed).1
unfolding deal
deal-IsBelow [] buckets placed pos h = h
deal-IsBelow ((i, ms) ∷ ws) buckets placed pos h =
    let t = lightest buckets in
    let e = length-put_on t ms buckets in
    let entry : to_u32 t < length buckets = omega (arith, to_u32-le t, lightest-lt buckets pos) in
    subst (λ n. IsBelow n (deal ws (put_on t ms buckets) ((i, to_u32 t) ∷ placed)).1) e
      (deal-IsBelow ws (put_on t ms buckets) ((i, to_u32 t) ∷ placed) (omega arith)
        (subst (λ n. IsBelow n ((i, to_u32 t) ∷ placed)) (sym e) (entry, h)))

place_of-lt :
    (n b : ℕ) (i : Identity) (placed : Placement)
    → IsBelow n placed
    → place_of i placed ≡ some b
    → b < n
unfolding place_of
place_of-lt n b i [] h e = cc
place_of-lt n b i ((j, c) ∷ placed) (hc, h) e = ground (arith, place_of-lt n b i placed h)

pub assign-lt :
    (weights : Weights) (count b : ℕ) (i : Identity)
    → place_of i (assign weights count) ≡ some b
    → b < max count 1
unfolding assign
assign-lt weights count b i e =
    let buckets = empty_buckets (max count 1) in
    let size = length-empty_buckets (max count 1) in
    subst (λ n. b < n) size
      (place_of-lt (length buckets) b i (deal (ordered weights) buckets []).1
        (deal-IsBelow (ordered weights) buckets [] (omega arith) tt) e)
