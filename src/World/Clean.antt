-- ===== src/World/Clean.antt =====
-- crates/proef-core/src/world.rs: `set_global` and the guarded secrets.
use proef.Base.{◌≡◌, refl, true, false, some, List, [], ◌∷◌, arith, Bool-cases, inl, inr}
use proef.Base.Texts.{Text}
use proef.Base.Maps.{Map, lookup, lookup-insert, contains, contains-set_insert}
use proef.World.{
  Value, World, Redactions, is_tainted, new, guard_secrets, set, set_global, merge_back,
}
use proef.World.Promotions.{lookup-merge_back}

-- What an engine does to the scopes during a scenario.
pub data Write (Float : Type 0) : Type 0 where
  scenario_value : Text → Value Float → Write Float
  promotion : Text → Value Float → Write Float

module _ {Float : Type 0} where
  abbrev pub apply_write : World Float → Write Float → World Float
  apply_write w (scenario_value name v) = set name v w
  apply_write w (promotion name v) = (set_global name v w).0

  abbrev pub apply_writes : World Float → List (Write Float) → World Float
  apply_writes w [] = w
  apply_writes w (op ∷ ops) = apply_writes (apply_write w op) ops

  -- No entry of the store is a string that carries a guarded value.
  abbrev pub IsClean : Redactions → Map (Value Float) → Type 0
  IsClean needles m =
      (k : Text) (v : Value Float) → lookup k m ≡ some v → is_tainted needles v ≡ false

  record Guarded (needles : Redactions) (w : World Float) : Type 0 where
    armed : w.secret_guard ≡ needles
    clean :
        (k : Text) (v : Value Float)
        → contains k w.promoted ≡ true
        → lookup k w.global ≡ some v
        → is_tainted needles v ≡ false

  Guarded-set_global :
      (needles : Redactions) (name : Text) (v : Value Float) (w : World Float)
      → Guarded needles w
      → Guarded needles (set_global name v w).0
  unfolding set_global
  Guarded-set_global needles name v w g = elim (Bool-cases (is_tainted w.secret_guard v)) [
    | inl h ↦ rw h g
    | inr h ↦ rw h (record {
      armed = g.armed;
      clean = λ k u p q. ground (
        arith,
        g.clean k u,
        g.armed,
        contains-set_insert name k w.promoted,
        lookup-insert name k v w.global,
      );
    })
  ]

  Guarded-apply_writes :
      (needles : Redactions) (w : World Float) (ops : List (Write Float))
      → Guarded needles w
      → Guarded needles (apply_writes w ops)
  unfolding set
  Guarded-apply_writes needles w [] g = g
  Guarded-apply_writes needles w (scenario_value name v ∷ ops) g =
      Guarded-apply_writes needles (set name v w) ops (record { armed = g.armed; clean = g.clean })
  Guarded-apply_writes needles w (promotion name v ∷ ops) g =
      Guarded-apply_writes needles (set_global name v w).0 ops
        (Guarded-set_global needles name v w g)

  Guarded-start :
      (needles : Redactions) (snapshot : Map (Value Float))
      → Guarded needles (guard_secrets needles (new snapshot))
  unfolding guard_secrets contains
  Guarded-start needles snapshot = record { armed = refl; clean = λ k v p q. cc }

-- A scenario starts on a snapshot of the shared store with its guard armed, and writes as it likes.
-- If no string in the shared store carries a guarded value when it ends, none does after its
-- promotions have gone back, whatever the snapshot held.
pub merge_back-IsClean :
    {Float : Type 0} (needles : Redactions) (snapshot store : Map (Value Float))
    (ops : List (Write Float))
    → IsClean needles store
    → IsClean needles (merge_back (apply_writes (guard_secrets needles (new snapshot)) ops) store)
merge_back-IsClean needles snapshot store ops clean k v h =
    let w = apply_writes (guard_secrets needles (new snapshot)) ops in
    let g =
      Guarded-apply_writes needles (guard_secrets needles (new snapshot)) ops
        (Guarded-start needles snapshot) in
    ground (arith, lookup-merge_back k w store, g.clean k v, clean k v)
