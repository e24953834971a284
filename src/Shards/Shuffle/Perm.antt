-- ===== src/Shards/Shuffle/Perm.antt =====
-- crates/proef-cli/src/exec.rs: a shuffle rearranges.
use proef.Base.{
  ℕ, zero, suc, ◌+◌, ◌-◌, ◌%◌, ◌≡◌, refl, Bool, some, List, [], ◌∷◌, length, get_elem?, count_p,
  if◌then◌else◌, Option-cases, ◌∙◌, inl, inr, arith,
}
use proef.Base.Texts.{Text}
use proef.Base.Words.{wrapping_add}
use proef.Base.Printing.{bytes}
use proef.Shards.Shuffle.{seeded, next_of, set, swap, shuffle_from, shuffle_specs}

abbrev one_if : Bool → ℕ
one_if b = if b then 1 else 0

module _ {ℓ} {A : Type ℓ} where
  count_p-set :
      (p : A → Bool) (xs : List A) (i : ℕ) (old new : A)
      → get_elem? xs i ≡ some old
      → count_p p (set xs i new) + one_if (p old) ≡ count_p p xs + one_if (p new)
  count_p-set p [] i old new at_i = absurd (ground arith)
  count_p-set p (x ∷ xs) zero old new at_i = ground arith
  count_p-set p (x ∷ xs) (suc i) old new at_i = ground (arith, count_p-set p xs i old new at_i)

  -- What stands at an index stands there after a write of the same value.
  get_elem?-set :
      (xs : List A) (i j : ℕ) (a : A) → get_elem? xs j ≡ some a → get_elem? (set xs i a) j ≡ some a
  get_elem?-set [] i j a at_j = at_j
  get_elem?-set (x ∷ xs) zero zero a at_j = refl
  get_elem?-set (x ∷ xs) zero (suc j) a at_j = at_j
  get_elem?-set (x ∷ xs) (suc i) zero a at_j = at_j
  get_elem?-set (x ∷ xs) (suc i) (suc j) a at_j = get_elem?-set xs i j a at_j

  count_p-swap : (p : A → Bool) (i j : ℕ) (xs : List A) → count_p p (swap i j xs) ≡ count_p p xs
  unfolding swap
  count_p-swap p i j xs = elim (Option-cases (get_elem? xs i)) [
    | inl e ↦ rw e refl
    | inr (a, at_i) ↦ elim (Option-cases (get_elem? xs j)) [
      | inl e ↦ rw (at_i, e) refl
      | inr (b, at_j) ↦
          rw (at_i, at_j)
            (omega (
              arith,
              count_p-set p xs i a b at_i,
              count_p-set p (set xs i b) j b a (get_elem?-set xs i j b at_j),
            ))
    ]
  ]

  count_p-shuffle_from :
      (p : A → Bool) (i seed : ℕ) (xs : List A) → count_p p (shuffle_from i seed xs) ≡ count_p p xs
  unfolding shuffle_from
  count_p-shuffle_from p zero seed xs = refl
  count_p-shuffle_from p (suc i) seed xs =
      let advanced = wrapping_add seed 0x9e3779b97f4a7c15 in
      let j = next_of advanced % (suc i + 1) in
      count_p-shuffle_from p i advanced (swap (suc i) j xs) ∙ count_p-swap p (suc i) j xs

  -- For every run id the shuffled scenarios are the selected ones, each as often: whatever one
  -- counts, there is as much of it.
  pub count_p-shuffle_specs :
      (p : A → Bool) (specs : List A) (run_id : Text)
      → count_p p (shuffle_specs specs run_id) ≡ count_p p specs
  unfolding shuffle_specs
  count_p-shuffle_specs p specs run_id =
      count_p-shuffle_from p (length specs - 1) (seeded (bytes run_id) 0xcbf29ce484222325) specs
