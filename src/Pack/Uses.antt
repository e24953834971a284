-- ===== src/Pack/Uses.antt =====
-- crates/proef-core/src/pack/validate.rs: the pass over the graph of `use:`, its cycles and its depth.
pub mod Deep
pub mod Walks
mod Refused
mod Tests
use proef.Base.{
  ℕ, zero, suc, Bool, Option, none, some, List, [], ◌∷◌, ◌++◌, reverse, length, any, leb, ltb,
  if◌then◌else◌,
}
use proef.Base.Texts.{text_eq}
use proef.Base.Maps.{Map, lookup}
use proef.Pack.{PackMacro, PackSet}
use proef.Pack.Visit.{UseDiag, use_too_deep, Walk, blank, names, use_targets, visit_all}

abbrev pub max_use_depth : ℕ
max_use_depth = 32

abbrev pub or_one : Option ℕ → ℕ
or_one none = 1
or_one (some c) = c

-- `max_by_key`, the last of several greatest ones, over the targets that are not on the path.
abbrev pub keep_longer : Map ℕ → PackMacro → Option PackMacro → Option PackMacro
keep_longer chains m none = some m
keep_longer chains m (some n) =
    if ltb (or_one (lookup n.name chains)) (or_one (lookup m.name chains)) then some m else some n

unfoldable pub longest_target : Map ℕ → List PackMacro → List PackMacro → Option PackMacro
unfolding lookup text_eq
longest_target chains path [] = none
longest_target chains path (m ∷ ms) =
    let rest = longest_target chains path ms in
    if any (λ (p : PackMacro). text_eq p.name m.name) path then rest else keep_longer chains m rest

-- A path with a macro past the limit; with none, the depth is that of a cycle.
abbrev pub too_deep : List PackMacro → List UseDiag
too_deep path = if ltb max_use_depth (length path) then use_too_deep (names path) ∷ [] else []

module _ (set : PackSet) where
  -- The path, its last macro first. The fuel is what it lacks of the length that is too deep.
  unfoldable pub longest_from : ℕ → Map ℕ → List PackMacro → PackMacro → List PackMacro
  unfolding longest_target use_targets
  longest_from zero chains before cur = cur ∷ before
  longest_from (suc fuel) chains before cur =
      elim (longest_target chains (cur ∷ before) (use_targets set cur)) [
        | none ↦ cur ∷ before
        | some next ↦ longest_from fuel chains (cur ∷ before) next
      ]

  unfoldable pub longest_use_path : PackMacro → Map ℕ → List PackMacro
  unfolding longest_from
  longest_use_path from chains = reverse (longest_from max_use_depth chains [] from)

  unfoldable pub check_depth : Map ℕ → PackMacro → List UseDiag
  unfolding lookup longest_use_path names
  check_depth chains m =
      if leb (or_one (lookup m.name chains)) max_use_depth
      then []
      else too_deep (longest_use_path m chains)

  unfoldable pub check_depths : Map ℕ → PackSet → List UseDiag
  unfolding check_depth
  check_depths chains [] = []
  check_depths chains ((_, m) ∷ ms) = check_depth chains m ++ check_depths chains ms

unfoldable pub use_graph_passes : PackSet → List UseDiag
unfolding visit_all check_depths
use_graph_passes set = let w = visit_all set set blank in w.diags ++ check_depths set w.chains set
