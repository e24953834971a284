-- ===== src/World/Scopes.antt =====
-- crates/proef-core/src/world.rs: `merged` and `get`.
use proef.Base.{◌≡◌, refl, subst, [], ◌∷◌, Bool-cases, inl, inr}
use proef.Base.Texts.{Text, text_eq, text_eq_iff}
use proef.Base.Maps.{Map, lookup, insert, lookup-insert}
use proef.Base.Ordered.{IsOrdered, Above, lookup-Above}
use proef.World.{Value, World, or_else, get, insert_all, merged}

module _ {Float : Type 0} where
  -- Later entries win; in a map in key order a key comes once.
  pub lookup-insert_all :
      (k : Text) (kvs m : Map (Value Float))
      → IsOrdered kvs
      → lookup k (insert_all kvs m) ≡ or_else (lookup k kvs) (lookup k m)
  unfolding lookup insert_all
  lookup-insert_all k [] m h = refl
  lookup-insert_all k ((j, v) ∷ kvs) m (a, h) = elim (Bool-cases (text_eq j k)) [
    | inl e ↦
        let gone = lookup-Above k kvs (subst (λ i. Above i kvs) ((text_eq_iff j k).0 e) a) in
        rw (lookup-insert_all k kvs (insert j v m) h, lookup-insert j k v m) (rw (gone, e))
    | inr ne ↦ rw (lookup-insert_all k kvs (insert j v m) h, lookup-insert j k v m) (rw ne)
  ]

-- What an engine is handed for a name is what `get` reads: the scenario's value, else the global.
pub lookup-merged :
    {Float : Type 0} (k : Text) (w : World Float)
    → IsOrdered w.scenario
    → lookup k (merged w) ≡ get k w
unfolding merged get
lookup-merged k w h = lookup-insert_all k w.scenario w.global h
