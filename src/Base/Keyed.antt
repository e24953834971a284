-- ===== src/Base/Keyed.antt =====
-- `BTreeMap` and `BTreeSet` with keys of any ordered type, as lists in key order.
use proef.Base.Tests.{ltb, ◌==◌, if◌then◌else◌, Bool-cases}
use proef.Base.Lists.{All}
use proef.Base.Texts.{Text, text_eq, text_eq_iff, text_lt}
use proef.Base.Ordered.{text_lt_irrefl, text_lt_trans, text_lt_total}
use Prim.Native.Nat.{ℕ}
use mathlib.Core.Path.{◌≡◌, refl, ap, subst}
use mathlib.Core.Logic.{◌↔◌, inl, inr}
use mathlib.Core.Bool.{Bool, true, false, ◌&&◌, ◌||◌}
use mathlib.Core.Option.{Option, none, some}
use mathlib.Core.List.{List, [], ◌∷◌}
use native.Mathlib.Omega.{arith}

pub record Order (K : Type 0) : Type 0 where
  pub eq : K → K → Bool
  pub lt : K → K → Bool
  pub eq_iff : (a b : K) → (eq a b ≡ true) ↔ (a ≡ b)
  pub lt_irrefl : (a : K) → lt a a ≡ false
  pub lt_trans : (a b c : K) → lt a b ≡ true → lt b c ≡ true → lt a c ≡ true
  pub lt_total : (a b : K) → eq a b ≡ false → lt a b ≡ false → lt b a ≡ true

abbrev pub text_order : Order Text
text_order = record {
  eq = text_eq;
  lt = text_lt;
  eq_iff = text_eq_iff;
  lt_irrefl = text_lt_irrefl;
  lt_trans = text_lt_trans;
  lt_total = text_lt_total;
}

pub ltb_trans : (a b c : ℕ) → ltb a b ≡ true → ltb b c ≡ true → ltb a c ≡ true
ltb_trans a b c h k = ground arith

pub ltb_total : (a b : ℕ) → (a == b) ≡ false → ltb a b ≡ false → ltb b a ≡ true
ltb_total a b h k = ground arith

pub nat_eq_iff : (a b : ℕ) → ((a == b) ≡ true) ↔ (a ≡ b)
nat_eq_iff a b = ground arith

pub ltb_irrefl : (a : ℕ) → ltb a a ≡ false
ltb_irrefl a = ground arith

abbrev pub nat_order : Order ℕ
nat_order = record {
  eq = ◌==◌;
  lt = ltb;
  eq_iff = nat_eq_iff;
  lt_irrefl = ltb_irrefl;
  lt_trans = ltb_trans;
  lt_total = ltb_total;
}

-- The order of pairs: by the first component, then by the second.
module _ {A B : Type 0} (a : Order A) (b : Order B) where
  abbrev pub pair_eq : A × B → A × B → Bool
  pair_eq x y = a.eq x.0 y.0 && b.eq x.1 y.1

  abbrev pub pair_lt : A × B → A × B → Bool
  pair_lt x y = a.lt x.0 y.0 || (a.eq x.0 y.0 && b.lt x.1 y.1)

  pub pair_eq_to : (x y : A × B) → pair_eq x y ≡ true → x ≡ y
  pair_eq_to x y h =
      let p : x.0 ≡ y.0 = (a.eq_iff x.0 y.0).0 (ground arith) in
      let q : x.1 ≡ y.1 = (b.eq_iff x.1 y.1).0 (ground arith) in λ i. (p i, q i)

  pub pair_eq_from : (x y : A × B) → x ≡ y → pair_eq x y ≡ true
  pair_eq_from x y h =
      rw
        (
          (a.eq_iff x.0 y.0).1 (ap (λ (z : A × B). z.0) h),
          (b.eq_iff x.1 y.1).1 (ap (λ (z : A × B). z.1) h),
        )
        refl

  pub pair_lt_irrefl : (x : A × B) → pair_lt x x ≡ false
  pair_lt_irrefl x = ground (arith, a.lt_irrefl x.0, b.lt_irrefl x.1)

  pub pair_lt_trans : (x y z : A × B) → pair_lt x y ≡ true → pair_lt y z ≡ true → pair_lt x z ≡ true
  pair_lt_trans x y z h k = ground (
    arith,
    a.lt_trans x.0 y.0 z.0,
    b.lt_trans x.1 y.1 z.1,
    a.eq_iff x.0 y.0,
    a.eq_iff y.0 z.0,
    a.eq_iff x.0 z.0,
  )

  pub pair_lt_total : (x y : A × B) → pair_eq x y ≡ false → pair_lt x y ≡ false → pair_lt y x ≡ true
  pair_lt_total x y h k =
      ground (arith, a.lt_total x.0 y.0, b.lt_total x.1 y.1, a.eq_iff x.0 y.0, a.eq_iff y.0 x.0)

  abbrev pub pair_order : Order (A × B)
  pair_order = record {
    eq = pair_eq;
    lt = pair_lt;
    eq_iff = λ x y. (pair_eq_to x y, pair_eq_from x y);
    lt_irrefl = pair_lt_irrefl;
    lt_trans = pair_lt_trans;
    lt_total = pair_lt_total;
  }

eq-sym : {K : Type 0} (o : Order K) (a b : K) → o.eq a b ≡ false → o.eq b a ≡ false
eq-sym o a b h = ground (arith, o.eq_iff a b, o.eq_iff b a)

module _ {K V : Type 0} (o : Order K) where
  unfoldable pub find : K → List (K × V) → Option V
  find k [] = none
  find k ((j, v) ∷ m) = if o.eq j k then some v else find k m

  unfoldable pub put : K → V → List (K × V) → List (K × V)
  put k v [] = (k, v) ∷ []
  put k v ((j, w) ∷ m) =
      if o.eq j k then (k, v) ∷ m else if o.lt k j then (k, v) ∷ (j, w) ∷ m else (j, w) ∷ put k v m

  -- `BTreeMap::remove`
  unfoldable pub erase : K → List (K × V) → List (K × V)
  erase k [] = []
  erase k ((j, w) ∷ m) = if o.eq j k then m else (j, w) ∷ erase k m

  pub find-put :
      (k j : K) (v : V) (m : List (K × V))
      → find j (put k v m) ≡ (if o.eq k j then some v else find j m)
  unfolding find put
  find-put k j v [] = refl
  find-put k j v ((i, w) ∷ m) =
      ground (arith, o.eq_iff k j, o.eq_iff i k, o.eq_iff i j, find-put k j v m)

  -- Every key of the map is greater.
  abbrev pub Above : K → List (K × V) → Type 0
  Above k m = All (λ (e : K × V). o.lt k e.0 ≡ true) m

  abbrev pub IsOrdered : List (K × V) → Type 0
  IsOrdered [] = Unit
  IsOrdered ((k, _) ∷ m) = Above k m × IsOrdered m

  Above-trans : (j k : K) (m : List (K × V)) → o.lt j k ≡ true → Above k m → Above j m
  Above-trans j k [] h a = tt
  Above-trans j k ((i, _) ∷ m) h (b, a) = (o.lt_trans j k i h b, Above-trans j k m h a)

  Above-put :
      (j k : K) (v : V) (m : List (K × V)) → o.lt j k ≡ true → Above j m → Above j (put k v m)
  unfolding put
  Above-put j k v [] h a = (h, tt)
  Above-put j k v ((i, w) ∷ m) h (b, a) = ground (arith, Above-put j k v m h a)

  pub put-IsOrdered : (k : K) (v : V) (m : List (K × V)) → IsOrdered m → IsOrdered (put k v m)
  unfolding put
  put-IsOrdered k v [] h = (tt, tt)
  put-IsOrdered k v ((j, w) ∷ m) (a, h) = elim (Bool-cases (o.eq j k)) [
    | inl e ↦ rw e (subst (λ i. Above i m) ((o.eq_iff j k).0 e) a, h)
    | inr ne ↦ elim (Bool-cases (o.lt k j)) [
      | inl lt ↦ rw (ne, lt) ((lt, Above-trans k j m lt a), (a, h))
      | inr ge ↦
          rw (ne, ge)
            (Above-put j k v m (o.lt_total k j (eq-sym o j k ne) ge) a, put-IsOrdered k v m h)
    ]
  ]

  -- A key that all keys of the map exceed is not in it.
  pub find-Above : (k : K) (m : List (K × V)) → Above k m → find k m ≡ none
  unfolding find
  find-Above k [] a = refl
  find-Above k ((j, w) ∷ m) (b, a) = ground (arith, o.eq_iff j k, o.lt_irrefl k, find-Above k m a)
