-- ===== src/Records/Sla/Rank.antt =====
-- crates/proef-cli/src/sla.rs: the rank of a percentile.
use proef.Base.{
  ℕ, zero, suc, ◌+◌, ◌-◌, ◌*◌, ◌/◌, ◌≤◌, ◌<◌, min, max, ◌≡◌, refl, ◌∙◌, Bool-cases, some, List, [],
  ◌∷◌, length, get_elem?, All, count_p, ltb, leb, inl, inr, arith,
}
use proef.Records.Sla.{percentile, last}

abbrev pub IsSorted : List ℕ → Type 0
IsSorted [] = Unit
IsSorted (x ∷ xs) = All (λ y. x ≤ y) xs × IsSorted xs

abbrev pub within : ℕ → List ℕ → ℕ
within b xs = count_p (λ x. leb x b) xs

none_within : (x b : ℕ) (xs : List ℕ) → b < x → All (λ y. x ≤ y) xs → within b xs ≡ 0
none_within x b [] lt h = refl
none_within x b (y ∷ xs) lt (hy, h) = ground (arith, none_within x b xs lt h)

get-le : (x i v : ℕ) (xs : List ℕ) → All (λ y. x ≤ y) xs → get_elem? xs i ≡ some v → x ≤ v
get-le x i v [] h e = absurd (ground arith)
get-le x zero v (y ∷ xs) (hy, h) e = ground arith
get-le x (suc i) v (y ∷ xs) (hy, h) e = get-le x i v xs h e

get_present : (i : ℕ) (xs : List ℕ) → i < length xs → (v : ℕ) × (get_elem? xs i ≡ some v)
get_present i [] lt = absurd (omega arith)
get_present zero (x ∷ xs) lt = (x, refl)
get_present (suc i) (x ∷ xs) lt = get_present i xs (omega arith)

-- In an ascending list so many elements are at most a bound as stand before the first above it.
at_most :
    (i v b : ℕ) (xs : List ℕ) → IsSorted xs → get_elem? xs i ≡ some v → v ≤ b → suc i ≤ within b xs
at_most i v b [] h e le = absurd (ground arith)
at_most zero v b (x ∷ xs) (hx, h) e le = ground arith
at_most (suc i) v b (x ∷ xs) (hx, h) e le =
    ground (arith, at_most i v b xs h e le, get-le x i v xs hx e)

above : (i v b : ℕ) (xs : List ℕ) → IsSorted xs → get_elem? xs i ≡ some v → b < v → within b xs ≤ i
above i v b [] h e lt = absurd (ground arith)
above zero v b (x ∷ xs) (hx, h) e lt = ground (arith, none_within x b xs)
above (suc i) v b (x ∷ xs) (hx, h) e lt = ground (arith, above i v b xs h e lt)

-- A percentile exceeds a bound exactly if too few elements are within it.
pub percentile-exceeds :
    (b x : ℕ) (xs : List ℕ)
    → IsSorted (x ∷ xs)
    → (v : ℕ) × (percentile (x ∷ xs) 95 ≡ some v)
      × (ltb b v ≡ ltb (100 * within b (x ∷ xs)) (95 * length (x ∷ xs)))
unfolding percentile
percentile-exceeds b x xs h =
    let all = x ∷ xs in
    let n = length all in
    let i = min (max ((95 * n + 99) / 100) 1 - 1) (n - 1) in
    let (v, e) = get_present i all (omega arith) in
    (
      v,
      e,
      elim (Bool-cases (ltb b v)) [
        | inl over ↦ rw over (ground (arith, above i v b all h e))
        | inr fits ↦ rw fits (ground (arith, at_most i v b all h e))
      ],
    )

within-le : (b : ℕ) (xs : List ℕ) → within b xs ≤ length xs
within-le b [] = omega arith
within-le b (x ∷ xs) = ground (arith, within-le b xs)

extended :
    (b x y : ℕ) (xs : List ℕ)
    → All (λ z. x ≤ z) (y ∷ xs)
    → ltb (within b (y ∷ xs)) (length (y ∷ xs)) ≡ ltb (within b (x ∷ y ∷ xs)) (length (x ∷ y ∷ xs))
extended b x y xs h = elim (Bool-cases (leb x b)) [
  | inl e ↦ rw e (ground arith)
  | inr e ↦
      let lt : b < x = ground arith in
      let zero' = none_within x b (y ∷ xs) lt h in rw (e, zero') (ground arith)
]

-- So does the last element.
pub last-exceeds :
    (b x : ℕ) (xs : List ℕ)
    → IsSorted (x ∷ xs)
    → (v : ℕ) × (last (x ∷ xs) ≡ some v) × (ltb b v ≡ ltb (within b (x ∷ xs)) (length (x ∷ xs)))
unfolding last
last-exceeds b x [] h = (x, refl, ground arith)
last-exceeds b x (y ∷ xs) (hx, h) =
    let (v, e, same) = last-exceeds b y xs h in (v, e, same ∙ extended b x y xs hx)
