-- ===== src/Shards.antt =====
-- crates/proef-cli/src/timings.rs and exec.rs: which scenarios a shard runs.
pub mod Balance
mod Range
mod Level
pub mod Argument
pub mod Partition
pub mod Shuffle
mod Tests
use Prim.Native.Nat.{bit_xor}
use proef.Base.{
  ℕ, zero, suc, ◌+◌, ◌-◌, ◌*◌, ◌/◌, ◌%◌, ◌^◌, min, max, Bool, true, false, Option, none, some, List,
  [], ◌∷◌, ◌++◌, ◌&&◌, ◌||◌, ◌==◌, ltb, filter, if◌then◌else◌,
}
use proef.Base.Texts.{Text, text_eq, text_lt}
use proef.Base.Words.{wrapping_mul}
use proef.Base.Printing.{bytes}

-- File and name of a scenario.
abbrev pub Identity : Type 0
Identity = Text × Text

unfoldable pub identity_eq : Identity → Identity → Bool
unfolding text_eq
identity_eq (file, name) (other_file, other_name) =
    text_eq file other_file && text_eq name other_name

-- The order of a pair of strings.
unfoldable pub identity_lt : Identity → Identity → Bool
unfolding text_eq text_lt
identity_lt (file, name) (other_file, other_name) =
    text_lt file other_file || (text_eq file other_file && text_lt name other_name)

-- The milliseconds of each identity, in the order of the `BTreeMap`.
abbrev pub Weights : Type 0
Weights = List (Identity × ℕ)

-- Heaviest first, then by identity.
unfoldable pub goes_before : Identity × ℕ → Identity × ℕ → Bool
unfolding identity_lt
goes_before (i, ms) (j, other_ms) = ltb other_ms ms || (ms == other_ms && identity_lt i j)

unfoldable pub insert_ordered : Identity × ℕ → Weights → Weights
unfolding goes_before
insert_ordered w [] = w ∷ []
insert_ordered w (v ∷ ws) = if goes_before w v then w ∷ v ∷ ws else v ∷ insert_ordered w ws

-- `sort_by`
unfoldable pub ordered : Weights → Weights
unfolding insert_ordered
ordered [] = []
ordered (w ∷ ws) = insert_ordered w (ordered ws)

-- An element of `load` and of `taken`.
pub record Bucket : Type 0 where
  pub load : ℕ
  pub taken : ℕ

unfoldable pub is_lighter : Bucket → Bucket → Bool
is_lighter a b = ltb a.load b.load || (a.load == b.load && ltb a.taken b.taken)

-- `min_by_key` over the indices: the best so far, and the buckets from an index on.
unfoldable pub lightest_from : ℕ → Bucket → ℕ → List Bucket → ℕ
unfolding is_lighter
lightest_from best b i [] = best
lightest_from best b i (c ∷ buckets) =
    if is_lighter c b
    then lightest_from i c (suc i) buckets
    else lightest_from best b (suc i) buckets

unfoldable pub lightest : List Bucket → ℕ
unfolding lightest_from
lightest [] = 0
lightest (b ∷ buckets) = lightest_from 0 b 1 buckets

abbrev pub u64_max : ℕ
u64_max = 2 ^ 64 - 1

-- `load[target].saturating_add(ms)` and `taken[target] += 1`
unfoldable pub put_on : ℕ → ℕ → List Bucket → List Bucket
put_on target ms [] = []
put_on zero ms (b ∷ buckets) =
    record { load = min u64_max (b.load + ms); taken = suc b.taken } ∷ buckets
put_on (suc target) ms (b ∷ buckets) = b ∷ put_on target ms buckets

-- The shard of each identity, the latest first.
abbrev pub Placement : Type 0
Placement = List (Identity × ℕ)

unfoldable pub place_of : Identity → Placement → Option ℕ
unfolding identity_eq
place_of i [] = none
place_of i ((j, b) ∷ placed) = if identity_eq j i then some b else place_of i placed

-- `u32::try_from(n).unwrap_or(0)`
abbrev pub to_u32 : ℕ → ℕ
to_u32 n = if ltb n (2 ^ 32) then n else 0

unfoldable pub deal : Weights → List Bucket → Placement → List Bucket × Placement
unfolding lightest put_on
deal [] buckets placed = (buckets, placed)
deal ((identity, ms) ∷ ws) buckets placed =
    let target = lightest buckets in
    deal ws (put_on target ms buckets) ((identity, to_u32 target) ∷ placed)

abbrev pub empty_bucket : Bucket
empty_bucket = record { load = 0; taken = 0 }

abbrev pub empty_buckets : ℕ → List Bucket
empty_buckets zero = []
empty_buckets (suc n) = empty_bucket ∷ empty_buckets n

unfoldable pub assign : Weights → ℕ → Placement
unfolding ordered deal
assign weights count = (deal (ordered weights) (empty_buckets (max count 1)) []).1

-- The loop over the bytes of `shard_bucket`.
unfoldable pub hashed : List ℕ → ℕ → ℕ
hashed [] hash = hash
hashed (byte ∷ bs) hash = hashed bs (wrapping_mul (bit_xor hash byte) 0x100000001b3)

-- `hash ^= hash >> 33`
abbrev pub fold_high : ℕ → ℕ
fold_high hash = bit_xor hash (hash / 2 ^ 33)

unfoldable pub finalize : ℕ → ℕ
finalize hash =
    let first = wrapping_mul (fold_high hash) 0xff51afd7ed558ccd in
    let second = wrapping_mul (fold_high first) 0xc4ceb9fe1a85ec53 in fold_high second

unfoldable pub shard_bucket : Text → Text → ℕ → ℕ
unfolding bytes hashed finalize
shard_bucket file name count =
    to_u32 (finalize (hashed (bytes file ++ (0 ∷ bytes name)) 0xcbf29ce484222325) % count)

-- The shard of a scenario, from 0 on: by the weights where they have it, else by the hash.
abbrev pub bucket_from : Option ℕ → Identity → ℕ → ℕ
bucket_from (some b) identity count = b
bucket_from none (file, name) count = shard_bucket file name count

abbrev pub placement : Option Weights → ℕ → Placement
placement none count = []
placement (some weights) count = assign weights count

unfoldable pub bucket : Option Weights → ℕ → Identity → ℕ
unfolding place_of assign shard_bucket
bucket weights count identity =
    bucket_from (place_of identity (placement weights count)) identity count

-- The filter of `--shard index/count`.
unfoldable pub is_kept : Option Weights → ℕ → ℕ → Identity → Bool
unfolding bucket
is_kept weights index count identity = bucket weights count identity == index - 1

module _ {Spec : Type 0} (identity_of : Spec → Identity) where
  unfoldable pub retain : Option Weights → ℕ → ℕ → List Spec → List Spec
  unfolding is_kept
  retain weights index count specs = filter (λ s. is_kept weights index count (identity_of s)) specs
