-- ===== src/Base/Lists.antt =====
-- Lists measured by native numbers, and predicates on lists by recursion.
use proef.Base.Tests.{if◌then◌else◌}
use Prim.Native.Nat.{ℕ, zero, suc, ◌+◌}
use mathlib.Core.Path.{◌≡◌, refl, subst}
use mathlib.Core.Bool.{Bool, true, false, ◌&&◌, ◌||◌}
use mathlib.Core.List.{List, [], ◌∷◌, ◌++◌}
use mathlib.Core.Option.{Option, none, some}
use mathlib.Core.Logic.{◌⊎◌, inl, inr}
use native.Mathlib.Omega.{arith}

module _ {ℓ} {A : Type ℓ} where
  abbrev pub length : List A → ℕ
  length [] = 0
  length (x ∷ xs) = suc (length xs)

  pub length-append : (xs ys : List A) → length (xs ++ ys) ≡ length xs + length ys
  length-append [] ys = omega arith
  length-append (x ∷ xs) ys = omega (arith, length-append xs ys)

  abbrev pub get_elem? : List A → ℕ → Option A
  get_elem? [] n = none
  get_elem? (x ∷ xs) zero = some x
  get_elem? (x ∷ xs) (suc n) = get_elem? xs n

  -- The library's `any` and `all` do not unfold; these run in tests.
  abbrev pub any : (A → Bool) → List A → Bool
  any p [] = false
  any p (x ∷ xs) = p x || any p xs

  abbrev pub all : (A → Bool) → List A → Bool
  all p [] = true
  all p (x ∷ xs) = p x && all p xs

  pub any-append : (p : A → Bool) (xs ys : List A) → any p (xs ++ ys) ≡ (any p xs || any p ys)
  any-append p [] ys = refl
  any-append p (x ∷ xs) ys = ground (arith, any-append p xs ys)

  abbrev pub All {κ} : (A → Type κ) → List A → Type κ
  All P [] = Unit
  All P (x ∷ xs) = P x × All P xs

  abbrev pub Any : (A → Type 0) → List A → Type 0
  Any P [] = ⊥
  Any P (x ∷ xs) = P x ⊎ Any P xs

  pub All-append {κ} : (P : A → Type κ) (xs ys : List A) → All P xs → All P ys → All P (xs ++ ys)
  All-append P [] ys hx hy = hy
  All-append P (x ∷ xs) ys hx hy = (hx.0, All-append P xs ys hx.1 hy)

  pub All-map {κ μ} :
      {P : A → Type κ} {Q : A → Type μ}
      → ((x : A) → P x → Q x)
      → (xs : List A) → All P xs
      → All Q xs
  All-map f [] h = tt
  All-map f (x ∷ xs) h = (f x h.0, All-map f xs h.1)

  pub Any-map : (P Q : A → Type 0) → ((x : A) → P x → Q x) → (xs : List A) → Any P xs → Any Q xs
  Any-map P Q f [] h = elim h [ ]
  Any-map P Q f (x ∷ xs) (inl h) = inl (f x h)
  Any-map P Q f (x ∷ xs) (inr h) = inr (Any-map P Q f xs h)

  pub Any-either : (P Q : A → Type 0) (xs : List A) → Any (λ x. P x ⊎ Q x) xs → Any P xs ⊎ Any Q xs
  Any-either P Q [] h = elim h [ ]
  Any-either P Q (x ∷ xs) (inl (inl h)) = inl (inl h)
  Any-either P Q (x ∷ xs) (inl (inr h)) = inr (inl h)
  Any-either P Q (x ∷ xs) (inr h) = elim (Any-either P Q xs h) [
    | inl a ↦ inl (inr a)
    | inr a ↦ inr (inr a)
  ]

  pub Any-absurd : (P : A → Type 0) (xs : List A) → All (λ x. ¬ P x) xs → Any P xs → ⊥
  Any-absurd P [] n h = h
  Any-absurd P (x ∷ xs) (n, ns) (inl h) = n h
  Any-absurd P (x ∷ xs) (n, ns) (inr h) = Any-absurd P xs ns h

  pub not-Any : (P : A → Type 0) (xs : List A) → ¬ Any P xs → All (λ x. ¬ P x) xs
  not-Any P [] n = tt
  not-Any P (x ∷ xs) n = (λ h. n (inl h), not-Any P xs (λ h. n (inr h)))

  pub cons-injective : {x y : A} {xs ys : List A} → x ∷ xs ≡ y ∷ ys → (x ≡ y) × (xs ≡ ys)
  cons-injective h = (cc, cc)

  -- How many elements pass a test.
  abbrev pub count_p : (A → Bool) → List A → ℕ
  count_p p [] = 0
  count_p p (x ∷ xs) = if p x then suc (count_p p xs) else count_p p xs

  pub count_p-append :
      (p : A → Bool) (xs ys : List A) → count_p p (xs ++ ys) ≡ count_p p xs + count_p p ys
  count_p-append p [] ys = omega arith
  count_p-append p (x ∷ xs) ys = ground (arith, count_p-append p xs ys)

  -- `Vec::retain`
  abbrev pub filter : (A → Bool) → List A → List A
  filter p [] = []
  filter p (x ∷ xs) = if p x then x ∷ filter p xs else filter p xs

  pub List-cases : (l : List A) → (l ≡ []) ⊎ ((x : A) × (xs : List A) × (l ≡ x ∷ xs))
  List-cases [] = inl refl
  List-cases (x ∷ xs) = inr (x, xs, refl)

pub Any-All :
    {A : Type 0} (P : A → Type 0) (m : A) (ms : List A) → Any (λ t. t ≡ m) ms → All P ms → P m
Any-All P m [] a h = elim a [ ]
Any-All P m (x ∷ ms) (inl e) h = subst P e h.0
Any-All P m (x ∷ ms) (inr a) h = Any-All P m ms a h.1
