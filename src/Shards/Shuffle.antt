-- ===== src/Shards/Shuffle.antt =====
-- crates/proef-cli/src/exec.rs: the order of `--shuffle`.
mod Perm
mod Tests
use Prim.Native.Nat.{bit_xor}
use proef.Base.{
  ℕ, zero, suc, ◌+◌, ◌-◌, ◌/◌, ◌%◌, ◌^◌, Option, none, some, List, [], ◌∷◌, length, get_elem?,
}
use proef.Base.Texts.{Text}
use proef.Base.Words.{wrapping_add, wrapping_mul}
use proef.Base.Printing.{bytes}

-- The seed of a run id: the loop over its bytes.
unfoldable pub seeded : List ℕ → ℕ → ℕ
seeded [] seed = seed
seeded (byte ∷ bs) seed = seeded bs (wrapping_mul (bit_xor seed byte) 0x100000001b3)

-- What `next` returns for a seed that it has advanced.
unfoldable pub next_of : ℕ → ℕ
next_of seed =
    let z = wrapping_mul (bit_xor seed (seed / 2 ^ 30)) 0xbf58476d1ce4e5b9 in
    let z' = wrapping_mul (bit_xor z (z / 2 ^ 27)) 0x94d049bb133111eb in bit_xor z' (z' / 2 ^ 31)

module _ {ℓ} {A : Type ℓ} where
  abbrev pub set : List A → ℕ → A → List A
  set [] i v = []
  set (x ∷ xs) zero v = v ∷ xs
  set (x ∷ xs) (suc i) v = x ∷ set xs i v

  abbrev pub swap_by : ℕ → ℕ → Option A → Option A → List A → List A
  swap_by i j (some a) (some b) xs = set (set xs i b) j a
  swap_by i j _ _ xs = xs

  -- `slice::swap`, of two indices in bounds.
  unfoldable pub swap : ℕ → ℕ → List A → List A
  swap i j xs = swap_by i j (get_elem? xs i) (get_elem? xs j) xs

  -- The loop over the indices from `i` down to 1.
  unfoldable pub shuffle_from : ℕ → ℕ → List A → List A
  unfolding next_of swap
  shuffle_from zero seed xs = xs
  shuffle_from (suc i) seed xs =
      let advanced = wrapping_add seed 0x9e3779b97f4a7c15 in
      shuffle_from i advanced (swap (suc i) (next_of advanced % (suc i + 1)) xs)

  unfoldable pub shuffle_specs : List A → Text → List A
  unfolding shuffle_from seeded bytes
  shuffle_specs specs run_id =
      shuffle_from (length specs - 1) (seeded (bytes run_id) 0xcbf29ce484222325) specs
