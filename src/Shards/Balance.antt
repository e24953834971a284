-- ===== src/Shards/Balance.antt =====
-- crates/proef-cli/src/timings.rs: how evenly `assign` splits the weights.
use proef.Base.{
  ℕ, zero, suc, ◌+◌, ◌≤◌, ◌<◌, ◌^◌, max, ◌≡◌, refl, Bool, true, false, Bool-cases, Option, none,
  some, List, [], ◌∷◌, ◌==◌, length, All, count_p, if◌then◌else◌, inl, inr, arith,
}
use proef.Base.Texts.{text_eq_refl}
use proef.Shards.{
  Identity, identity_eq, Weights, goes_before, insert_ordered, ordered, Bucket, lightest, u64_max,
  put_on, Placement, place_of, to_u32, deal, empty_buckets, assign,
}
use proef.Shards.Range.{lightest-lt, length-put_on, length-empty_buckets}
use proef.Shards.Level.{load_at, deal-IsLevel, IsLevel-le, empty-IsLevel}

abbrev is_in : Option ℕ → ℕ → Bool
is_in none b = false
is_in (some c) b = c == b

-- The milliseconds of the identities that a shard has.
abbrev pub share : Weights → Placement → ℕ → ℕ
share [] placed b = 0
share ((i, ms) ∷ ws) placed b = (if is_in (place_of i placed) b then ms else 0) + share ws placed b

abbrev pub total : Weights → ℕ
total [] = 0
total ((_, ms) ∷ ws) = ms + total ws

-- No identity stands twice, as in a map.
abbrev pub Distinct : Weights → Type 0
Distinct ws = (i : Identity) → count_p (λ (w : Identity × ℕ). identity_eq i w.0) ws ≤ 1

share-le-total : (ws : Weights) (placed : Placement) (b : ℕ) → share ws placed b ≤ total ws
share-le-total [] placed b = omega arith
share-le-total ((i, ms) ∷ ws) placed b = ground (arith, share-le-total ws placed b)

identity_eq_refl : (i : Identity) → identity_eq i i ≡ true
unfolding identity_eq
identity_eq_refl (file, name) = rw (text_eq_refl file, text_eq_refl name)

-- The order in which the weights are dealt does not matter for what is counted.
count_p-insert_ordered :
    (p : Identity × ℕ → Bool) (w : Identity × ℕ) (ws : Weights)
    → count_p p (insert_ordered w ws) ≡ count_p p (w ∷ ws)
unfolding insert_ordered
count_p-insert_ordered p w [] = refl
count_p-insert_ordered p w (v ∷ ws) = ground (arith, count_p-insert_ordered p w ws)

count_p-ordered : (p : Identity × ℕ → Bool) (ws : Weights) → count_p p (ordered ws) ≡ count_p p ws
unfolding ordered
count_p-ordered p [] = refl
count_p-ordered p (w ∷ ws) =
    ground (arith, count_p-insert_ordered p w (ordered ws), count_p-ordered p ws)

share-insert_ordered :
    (w : Identity × ℕ) (ws : Weights) (placed : Placement) (b : ℕ)
    → share (insert_ordered w ws) placed b ≡ share (w ∷ ws) placed b
unfolding insert_ordered
share-insert_ordered w [] placed b = refl
share-insert_ordered (i, ms) ((j, n) ∷ ws) placed b =
    ground (arith, share-insert_ordered (i, ms) ws placed b)

share-ordered :
    (ws : Weights) (placed : Placement) (b : ℕ) → share (ordered ws) placed b ≡ share ws placed b
unfolding ordered
share-ordered [] placed b = refl
share-ordered ((i, ms) ∷ ws) placed b =
    omega (arith, share-insert_ordered (i, ms) (ordered ws) placed b, share-ordered ws placed b)

total-insert_ordered :
    (w : Identity × ℕ) (ws : Weights) → total (insert_ordered w ws) ≡ w.1 + total ws
unfolding insert_ordered
total-insert_ordered w [] = refl
total-insert_ordered (i, ms) ((j, n) ∷ ws) = ground (arith, total-insert_ordered (i, ms) ws)

total-ordered : (ws : Weights) → total (ordered ws) ≡ total ws
unfolding ordered
total-ordered [] = refl
total-ordered ((i, ms) ∷ ws) =
    omega (arith, total-insert_ordered (i, ms) (ordered ws), total-ordered ws)

All-insert_ordered :
    (P : Identity × ℕ → Type 0) (w : Identity × ℕ) (ws : Weights)
    → P w
    → All P ws
    → All P (insert_ordered w ws)
unfolding insert_ordered
All-insert_ordered P w [] hw h = (hw, tt)
All-insert_ordered P w (v ∷ ws) hw h = elim (Bool-cases (goes_before w v)) [
  | inl e ↦ rw e (hw, h)
  | inr e ↦ rw e (h.0, All-insert_ordered P w ws hw h.1)
]

All-ordered : (P : Identity × ℕ → Type 0) (ws : Weights) → All P ws → All P (ordered ws)
unfolding ordered
All-ordered P [] h = tt
All-ordered P (w ∷ ws) h = All-insert_ordered P w (ordered ws) h.0 (All-ordered P ws h.1)

-- What is dealt, the latest first.
abbrev dealt : Weights → Weights → Weights
dealt [] past = past
dealt (w ∷ ws) past = dealt ws (w ∷ past)

count_p-dealt :
    (p : Identity × ℕ → Bool) (ws past : Weights)
    → count_p p (dealt ws past) ≡ count_p p ws + count_p p past
count_p-dealt p [] past = omega arith
count_p-dealt p (w ∷ ws) past = ground (arith, count_p-dealt p ws (w ∷ past))

share-dealt :
    (ws past : Weights) (placed : Placement) (b : ℕ)
    → share (dealt ws past) placed b ≡ share ws placed b + share past placed b
share-dealt [] past placed b = omega arith
share-dealt ((i, ms) ∷ ws) past placed b = omega (arith, share-dealt ws ((i, ms) ∷ past) placed b)

-- A new identity does not change what the others count for.
share_fresh :
    (i : Identity) (t b : ℕ) (past : Weights) (placed : Placement)
    → count_p (λ (w : Identity × ℕ). identity_eq i w.0) past ≡ 0
    → share past ((i, t) ∷ placed) b ≡ share past placed b
unfolding place_of
share_fresh i t b [] placed fresh = refl
share_fresh i t b ((j, ms) ∷ past) placed fresh = elim (Bool-cases (identity_eq i j)) [
  | inl e ↦ absurd (ground arith)
  | inr e ↦ rw e (omega (arith, share_fresh i t b past placed (ground arith)))
]

load_at-put_on :
    (t ms b : ℕ) (buckets : List Bucket)
    → t < length buckets
    → load_at buckets t + ms ≤ u64_max
    → load_at (put_on t ms buckets) b ≡ (if t == b then ms else 0) + load_at buckets b
unfolding put_on
load_at-put_on t ms b [] lt fits = absurd (omega arith)
load_at-put_on zero ms zero (c ∷ buckets) lt fits = omega arith
load_at-put_on zero ms (suc b) (c ∷ buckets) lt fits = ground arith
load_at-put_on (suc t) ms zero (c ∷ buckets) lt fits = ground arith
load_at-put_on (suc t) ms (suc b) (c ∷ buckets) lt fits =
    ground (arith, load_at-put_on t ms b buckets)

-- The loads are the shares of what was dealt.
abbrev Books : Weights → List Bucket → Placement → Type 0
Books past buckets placed = (b : ℕ) → load_at buckets b ≡ share past placed b

place-Books :
    (i : Identity) (ms : ℕ) (past : Weights) (buckets : List Bucket) (placed : Placement)
    → 0 < length buckets
    → length buckets ≤ 2 ^ 32
    → ms + total past ≤ u64_max
    → count_p (λ (w : Identity × ℕ). identity_eq i w.0) past ≡ 0
    → Books past buckets placed
    → Books
        ((i, ms) ∷ past)
        (put_on (lightest buckets) ms buckets)
        ((i, to_u32 (lightest buckets)) ∷ placed)
unfolding place_of
place-Books i ms past buckets placed pos small fits fresh books b =
    let t = lightest buckets in
    let lt = lightest-lt buckets pos in
    let whole : to_u32 t ≡ t = ground arith in
    rw (whole, identity_eq_refl i)
      (omega (
        arith,
        load_at-put_on t ms b buckets lt (omega (arith, books t, share-le-total past placed t)),
        books b,
        share_fresh i t b past placed fresh,
      ))

deal-Books :
    (ws past : Weights) (buckets : List Bucket) (placed : Placement)
    → 0 < length buckets
    → length buckets ≤ 2 ^ 32
    → total ws + total past ≤ u64_max
    → Distinct (dealt ws past)
    → Books past buckets placed
    → Books (dealt ws past) (deal ws buckets placed).0 (deal ws buckets placed).1
unfolding deal
deal-Books [] past buckets placed pos small fits distinct books = books
deal-Books ((i, ms) ∷ ws) past buckets placed pos small fits distinct books =
    let t = lightest buckets in
    let size = length-put_on t ms buckets in
    let here = λ (w : Identity × ℕ). identity_eq i w.0 in
    let fresh : count_p here past ≡ 0 =
      ground (arith, distinct i, count_p-dealt here ws ((i, ms) ∷ past), identity_eq_refl i) in
    deal-Books ws ((i, ms) ∷ past) (put_on t ms buckets) ((i, to_u32 t) ∷ placed) (omega arith)
      (omega arith) (omega arith) distinct
      (place-Books i ms past buckets placed pos small (omega arith) fresh books)

empty-Books : (n : ℕ) → Books [] (empty_buckets n) []
empty-Books zero b = refl
empty-Books (suc n) zero = refl
empty-Books (suc n) (suc b) = empty-Books n b

length-deal :
    (ws : Weights) (buckets : List Bucket) (placed : Placement)
    → length (deal ws buckets placed).0 ≡ length buckets
unfolding deal
length-deal [] buckets placed = refl
length-deal ((i, ms) ∷ ws) buckets placed =
    let t = lightest buckets in
    omega (
      arith,
      length-deal ws (put_on t ms buckets) ((i, to_u32 t) ∷ placed),
      length-put_on t ms buckets,
    )

-- Let no identity be weighed twice, the sum of the weights fit in a `u64` and the number of shards
-- in a `u32`, and no weight exceed `heavy`. Then the milliseconds that `assign` gives to a shard
-- exceed those of no shard in range by more than `heavy`.
pub assign_balanced :
    (weights : Weights) (count heavy b c : ℕ)
    → Distinct weights
    → total weights ≤ u64_max
    → count < 2 ^ 32
    → All (λ (w : Identity × ℕ). w.1 ≤ heavy) weights
    → c < max count 1
    → share weights (assign weights count) b ≤ share weights (assign weights count) c + heavy
unfolding assign
assign_balanced weights count heavy b c distinct fits small light lt =
    let ws = ordered weights in
    let n = max count 1 in
    let size = length-empty_buckets n in
    let ended = deal ws (empty_buckets n) [] in
    let apart : Distinct (dealt ws []) = λ i.
      let here = λ (w : Identity × ℕ). identity_eq i w.0 in
      omega (arith, distinct i, count_p-dealt here ws [], count_p-ordered here weights) in
    let books =
      deal-Books ws [] (empty_buckets n) [] (omega arith) (omega arith)
        (omega (arith, total-ordered weights)) apart (empty-Books n) in
    let level =
      deal-IsLevel heavy ws (empty_buckets n) [] (omega arith)
        (All-ordered (λ (w : Identity × ℕ). w.1 ≤ heavy) weights light) (empty-IsLevel heavy n) in
    omega (
      arith,
      books b,
      books c,
      share-dealt ws [] ended.1 b,
      share-dealt ws [] ended.1 c,
      share-ordered weights ended.1 b,
      share-ordered weights ended.1 c,
      IsLevel-le heavy b c ended.0 (omega (arith, length-deal ws (empty_buckets n) [])) level,
    )
