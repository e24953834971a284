-- ===== src/World/Promotions.antt =====
-- The write set goes back into the shared store without losing another scenario's writes.
use proef.Base.{◌≡◌, refl, true, false, List, [], ◌∷◌, arith, if◌then◌else◌, inl, inr, Option-cases}
use proef.Base.Texts.{Text, text_eq_iff}
use proef.Base.Maps.{Map, TextSet, lookup, insert, lookup-insert, contains}
use proef.Base.Ordered.{IsOrdered, insert-IsOrdered, Map_ext}
use proef.World.{Value, World, or_else, promotions_of, promotions, insert_all, merge_back}

module _ {Float : Type 0} where
  lookup-promotions_of :
      (k : Text) (global : Map (Value Float)) (ks : TextSet) (store : Map (Value Float))
      → lookup k (insert_all (promotions_of global ks) store)
        ≡ (if contains k ks then or_else (lookup k global) (lookup k store) else lookup k store)
  unfolding promotions_of insert_all contains
  lookup-promotions_of k global [] store = refl
  lookup-promotions_of k global (i ∷ ks) store = elim (Option-cases (lookup i global)) [
    | inl e ↦
        rw (e, promotions_of)
          (rw (lookup-promotions_of k global ks store) (ground (arith, text_eq_iff i k)))
    | inr (v, e) ↦
        rw (e, promotions_of)
          (rw (lookup-promotions_of k global ks (insert i v store), lookup-insert i k v store)
            (ground (arith, text_eq_iff i k)))
  ]

  insert_all-IsOrdered :
      (kvs : List (Text × Value Float)) (m : Map (Value Float))
      → IsOrdered m
      → IsOrdered (insert_all kvs m)
  unfolding insert_all
  insert_all-IsOrdered [] m h = h
  insert_all-IsOrdered ((k, v) ∷ kvs) m h =
      insert_all-IsOrdered kvs (insert k v m) (insert-IsOrdered k v m h)

-- The store holds, for each key that the scenario promoted, the scenario's value of it, and for
-- every other key what it held before, whatever the scenario's snapshot said of that key.
pub lookup-merge_back :
    {Float : Type 0} (k : Text) (w : World Float) (store : Map (Value Float))
    → lookup k (merge_back w store) ≡ (
        if contains k w.promoted
        then or_else (lookup k w.global) (lookup k store)
        else lookup k store)
unfolding merge_back
lookup-merge_back k w store = lookup-promotions_of k w.global w.promoted store

pub merge_back-IsOrdered :
    {Float : Type 0} (w : World Float) (store : Map (Value Float))
    → IsOrdered store
    → IsOrdered (merge_back w store)
unfolding merge_back
merge_back-IsOrdered w store h = insert_all-IsOrdered (promotions w) store h

-- Two scenarios that promote no key in common leave the same store in whichever order they end.
merge_back_comm :
    {Float : Type 0} (a b : World Float) (store : Map (Value Float))
    → IsOrdered store
    → ((k : Text) → contains k a.promoted ≡ true → contains k b.promoted ≡ false)
    → merge_back b (merge_back a store) ≡ merge_back a (merge_back b store)
merge_back_comm a b store h apart =
    Map_ext (merge_back b (merge_back a store)) (merge_back a (merge_back b store))
      (merge_back-IsOrdered b (merge_back a store) (merge_back-IsOrdered a store h))
      (merge_back-IsOrdered a (merge_back b store) (merge_back-IsOrdered b store h))
      (λ k.
        rw
          (
            lookup-merge_back k b (merge_back a store),
            lookup-merge_back k a store,
            lookup-merge_back k a (merge_back b store),
            lookup-merge_back k b store,
          )
          (ground (arith, apart k)))
