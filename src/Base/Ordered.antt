-- ===== src/Base/Ordered.antt =====
-- Maps in key order: what makes a list the content of a `BTreeMap`.
use proef.Base.Tests.{Bool-cases}
use proef.Base.Texts.{Text, text_eq, text_eq_iff, text_eq_refl, text_lt}
use proef.Base.Maps.{Map, lookup, insert}
use mathlib.Core.Path.{◌≡◌, refl, sym, ap₂, subst, ◌∙◌}
use mathlib.Core.Logic.{inl, inr}
use mathlib.Core.Bool.{true, false}
use mathlib.Core.Option.{none, some, none-ne-some}
use mathlib.Core.List.{[], ◌∷◌}
use native.Mathlib.Omega.{arith}

pub text_lt_irrefl : (s : Text) → text_lt s s ≡ false
unfolding text_lt
text_lt_irrefl [] = refl
text_lt_irrefl (a ∷ s) = ground (arith, text_lt_irrefl s)

pub text_lt_trans : (s t u : Text) → text_lt s t ≡ true → text_lt t u ≡ true → text_lt s u ≡ true
unfolding text_lt
text_lt_trans [] [] u h k = cc
text_lt_trans [] (b ∷ t) [] h k = cc
text_lt_trans [] (b ∷ t) (c ∷ u) h k = refl
text_lt_trans (a ∷ s) [] u h k = cc
text_lt_trans (a ∷ s) (b ∷ t) [] h k = cc
text_lt_trans (a ∷ s) (b ∷ t) (c ∷ u) h k = ground (arith, text_lt_trans s t u)

-- Of two different texts one is the lesser.
pub text_lt_total : (s t : Text) → text_eq s t ≡ false → text_lt s t ≡ false → text_lt t s ≡ true
unfolding text_lt text_eq
text_lt_total [] [] h k = cc
text_lt_total [] (b ∷ t) h k = cc
text_lt_total (a ∷ s) [] h k = refl
text_lt_total (a ∷ s) (b ∷ t) h k = ground (arith, text_lt_total s t)

text_eq-sym : (s t : Text) → text_eq s t ≡ false → text_eq t s ≡ false
text_eq-sym s t h = ground (arith, text_eq_iff s t, text_eq_iff t s)

module _ {ℓ} {V : Type ℓ} where
  -- Every key of the map is greater.
  abbrev pub Above : Text → Map V → Type ℓ
  Above k [] = Unit
  Above k ((j, _) ∷ m) = (text_lt k j ≡ true) × Above k m

  abbrev pub IsOrdered : Map V → Type ℓ
  IsOrdered [] = Unit
  IsOrdered ((k, _) ∷ m) = Above k m × IsOrdered m

module _ {V : Type 0} where
  Above-trans : (j k : Text) (m : Map V) → text_lt j k ≡ true → Above k m → Above j m
  Above-trans j k [] h a = tt
  Above-trans j k ((i, _) ∷ m) h (b, a) = (text_lt_trans j k i h b, Above-trans j k m h a)

  Above-insert :
      (j k : Text) (v : V) (m : Map V) → text_lt j k ≡ true → Above j m → Above j (insert k v m)
  unfolding insert
  Above-insert j k v [] h a = (h, tt)
  Above-insert j k v ((i, w) ∷ m) h (b, a) = ground (arith, Above-insert j k v m h a)

  pub insert-IsOrdered : (k : Text) (v : V) (m : Map V) → IsOrdered m → IsOrdered (insert k v m)
  unfolding insert
  insert-IsOrdered k v [] h = (tt, tt)
  insert-IsOrdered k v ((j, w) ∷ m) (a, h) = elim (Bool-cases (text_eq j k)) [
    | inl e ↦ rw e (subst (λ i. Above i m) ((text_eq_iff j k).0 e) a, h)
    | inr ne ↦ elim (Bool-cases (text_lt k j)) [
      | inl lt ↦ rw (ne, lt) ((lt, Above-trans k j m lt a), (a, h))
      | inr ge ↦
          rw (ne, ge)
            (
              Above-insert j k v m (text_lt_total k j (text_eq-sym j k ne) ge) a,
              insert-IsOrdered k v m h,
            )
    ]
  ]

  -- A key below all others is not in the map.
  pub lookup-Above : (k : Text) (m : Map V) → Above k m → lookup k m ≡ none
  unfolding lookup
  lookup-Above k [] a = refl
  lookup-Above k ((j, w) ∷ m) (b, a) =
      ground (arith, text_eq_iff j k, text_lt_irrefl k, lookup-Above k m a)

  lookup-nil : (k : Text) → lookup {V = V} k [] ≡ none
  unfolding lookup
  lookup-nil k = refl

  lookup_head : (k : Text) (v : V) (m : Map V) → lookup k ((k, v) ∷ m) ≡ some v
  unfolding lookup
  lookup_head k v m = rw (text_eq_refl k)

  lookup-skip_eq :
      (i k : Text) (w : V) (m : Map V) → text_eq k i ≡ true → lookup k ((i, w) ∷ m) ≡ some w
  unfolding lookup
  lookup-skip_eq i k w m e = ground (arith, text_eq_iff k i, text_eq_iff i k)

  tails-same :
      (j i : Text) (v w : V) (m n : Map V) (k : Text)
      → Above j m
      → Above i n
      → text_eq j i ≡ true
      → lookup k ((j, v) ∷ m) ≡ lookup k ((i, w) ∷ n)
      → lookup k m ≡ lookup k n
  unfolding lookup
  tails-same j i v w m n k am an e same = elim (Bool-cases (text_eq j k)) [
    | inl h ↦
        let at_j = (text_eq_iff j k).0 h in
        let at_i = sym ((text_eq_iff j i).0 e) ∙ at_j in
        lookup-Above k m (subst (λ x. Above x m) at_j am)
        ∙ sym (lookup-Above k n (subst (λ x. Above x n) at_i an))
    | inr h ↦ ground (arith, text_eq_iff j i, text_eq_iff i k, text_eq_iff j k)
  ]

  -- Two maps in key order with the same content are the same list.
  pub Map_ext :
      (m n : Map V) → IsOrdered m → IsOrdered n → ((k : Text) → lookup k m ≡ lookup k n) → m ≡ n
  Map_ext [] [] hm hn same = refl
  Map_ext [] ((i, w) ∷ n) hm hn same =
      absurd (none-ne-some w (sym (lookup-nil i) ∙ same i ∙ lookup_head i w n))
  Map_ext ((j, v) ∷ m) [] hm hn same =
      absurd (none-ne-some v (sym (lookup-nil j) ∙ sym (same j) ∙ lookup_head j v m))
  Map_ext ((j, v) ∷ m) ((i, w) ∷ n) (am, hm) (an, hn) same = elim (Bool-cases (text_eq j i)) [
    | inl e ↦
        let keys = (text_eq_iff j i).0 e in
        let values : v ≡ w = cc (lookup_head j v m, same j, lookup-skip_eq i j w n e) in
        let heads : ◌≡◌ {A = Text × V} (j, v) (i, w) = λ t. (keys t, values t) in
        ap₂ ◌∷◌ heads (Map_ext m n hm hn (λ k. tails-same j i v w m n k am an e (same k)))
    | inr ne ↦ elim (Bool-cases (text_lt j i)) [
      | inl lt ↦ absurd (
          none-ne-some v (
            sym (same j ∙ lookup-Above j ((i, w) ∷ n) (lt, Above-trans j i n lt an))
            ∙ lookup_head j v m))
      | inr ge ↦
          let lt = text_lt_total j i ne ge in
          absurd (
            none-ne-some w (
              sym (sym (same i) ∙ lookup-Above i ((j, v) ∷ m) (lt, Above-trans i j m lt am))
              ∙ lookup_head i w n))
    ]
  ]
