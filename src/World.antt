-- ===== src/World.antt =====
-- crates/proef-core/src/world.rs: the variable scopes and the write set of promotions. A
-- float is a parameter.
pub mod Promotions
pub mod Clean
mod Scopes
mod Tests
use proef.Base.{ℕ, Bool, true, false, Option, none, some, List, [], ◌∷◌, any, if◌then◌else◌}
use proef.Base.Texts.{Text, split_at_find}
use proef.Redaction.{Redactions, taints}
use proef.Base.Maps.{Map, TextSet, lookup, insert, set_insert}

pub data ℤ : Type 0 where
  pos : ℕ → ℤ
  negsuc : ℕ → ℤ

pub data Value (Float : Type 0) : Type 0 where
  null : Value Float
  bool : Bool → Value Float
  int : ℤ → Value Float
  float : Float → Value Float
  string : Text → Value Float

module _ {Float : Type 0} where
  -- The value is a string that carries a guarded secret.
  pub is_tainted : Redactions → Value Float → Bool
  unfolding taints
  is_tainted guard (string t) = taints guard t
  is_tainted guard null = false
  is_tainted guard (bool _) = false
  is_tainted guard (int _) = false
  is_tainted guard (float _) = false

-- `Option::or_else`
abbrev pub or_else {ℓ} : {A : Type ℓ} → Option A → Option A → Option A
or_else (some a) other = some a
or_else none other = other

pub record World (Float : Type 0) : Type 0 where
  pub scenario : Map (Value Float)
  pub global : Map (Value Float)
  pub promoted : TextSet
  pub secret_guard : Redactions

module _ {Float : Type 0} where
  -- `World::new`
  abbrev pub new : Map (Value Float) → World Float
  new global = record { scenario = []; global = global; promoted = []; secret_guard = [] }

  -- `World::guard_secrets`, with the needles that `Redactions::new` derives.
  unfoldable pub guard_secrets : Redactions → World Float → World Float
  guard_secrets needles w = record w { secret_guard = needles }

  -- `World::get`
  unfoldable pub get : Text → World Float → Option (Value Float)
  unfolding lookup
  get name w = or_else (lookup name w.scenario) (lookup name w.global)

  unfoldable pub set : Text → Value Float → World Float → World Float
  unfolding insert
  set name value w = record w { scenario = insert name value w.scenario }

  -- `false` is a refused promotion.
  unfoldable pub set_global : Text → Value Float → World Float → World Float × Bool
  unfolding is_tainted insert set_insert
  set_global name value w = if is_tainted w.secret_guard value then (w, false) else (
    record w { promoted = set_insert name w.promoted; global = insert name value w.global },
    true,
  )

  promotions_of : Map (Value Float) → TextSet → List (Text × Value Float)
  unfolding lookup
  promotions_of global [] = []
  promotions_of global (k ∷ ks) = elim (lookup k global) [
    | none ↦ promotions_of global ks
    | some v ↦ (k, v) ∷ promotions_of global ks
  ]

  -- `World::promotions`
  unfoldable pub promotions : World Float → List (Text × Value Float)
  unfolding promotions_of
  promotions w = promotions_of w.global w.promoted

  -- Insert the entries one after the other: the loop of `merged`, and that of the orchestrator
  -- over the promotions.
  unfoldable pub insert_all : List (Text × Value Float) → Map (Value Float) → Map (Value Float)
  unfolding insert
  insert_all [] m = m
  insert_all ((k, v) ∷ kvs) m = insert_all kvs (insert k v m)

  -- `World::merged`
  unfoldable pub merged : World Float → Map (Value Float)
  unfolding insert_all
  merged w = insert_all w.scenario w.global

  -- The end of `run_scenario`: the write set goes back into the shared store.
  unfoldable pub merge_back : World Float → Map (Value Float) → Map (Value Float)
  unfolding promotions insert_all
  merge_back w store = insert_all (promotions w) store
