-- ===== src/Base/Maps.antt =====
-- `BTreeMap` and `BTreeSet` with text keys, as lists in key order.
use proef.Base.Tests.{if◌then◌else◌}
use proef.Base.Texts.{Text, text_eq, text_eq_iff, text_lt}
use mathlib.Core.Path.{◌≡◌, refl}
use mathlib.Core.Bool.{Bool, true, false}
use mathlib.Core.Option.{Option, none, some}
use mathlib.Core.List.{List, [], ◌∷◌}
use native.Mathlib.Omega.{arith}

abbrev pub Map {ℓ} : Type ℓ → Type ℓ
Map V = List (Text × V)

module _ {ℓ} {V : Type ℓ} where
  unfoldable pub lookup : Text → Map V → Option V
  unfolding text_eq
  lookup k [] = none
  lookup k ((j, v) ∷ m) = if text_eq j k then some v else lookup k m

  unfoldable pub insert : Text → V → Map V → Map V
  unfolding text_eq text_lt
  insert k v [] = (k, v) ∷ []
  insert k v ((j, w) ∷ m) =
      if text_eq j k
      then (k, v) ∷ m
      else if text_lt k j
      then (k, v) ∷ (j, w) ∷ m
      else (j, w) ∷ insert k v m

  pub lookup-insert :
      (k j : Text) (v : V) (m : Map V)
      → lookup j (insert k v m) ≡ (if text_eq k j then some v else lookup j m)
  unfolding lookup insert
  lookup-insert k j v [] = refl
  lookup-insert k j v ((i, w) ∷ m) =
      ground (arith, text_eq_iff k j, text_eq_iff i k, text_eq_iff i j, lookup-insert k j v m)

-- A set of texts.
abbrev pub TextSet : Type 0
TextSet = List Text

unfoldable pub contains : Text → TextSet → Bool
unfolding text_eq
contains k [] = false
contains k (j ∷ s) = if text_eq j k then true else contains k s

unfoldable pub set_insert : Text → TextSet → TextSet
unfolding text_eq text_lt
set_insert k [] = k ∷ []
set_insert k (j ∷ s) =
    if text_eq j k then j ∷ s else if text_lt k j then k ∷ j ∷ s else j ∷ set_insert k s

pub contains-set_insert :
    (k j : Text) (s : TextSet)
    → contains j (set_insert k s) ≡ (if text_eq k j then true else contains j s)
unfolding contains set_insert
contains-set_insert k j [] = refl
contains-set_insert k j (i ∷ s) =
    ground (arith, text_eq_iff k j, text_eq_iff i k, text_eq_iff i j, contains-set_insert k j s)
