-- ===== src/Pack/Visit.antt =====
-- crates/proef-core/src/pack/validate.rs: the walk over the graph of `use:`. A diagnostic is
-- the names that it shows.
pub mod Known
pub mod Chains
pub mod Trails
pub mod Waiting
mod Ranked
pub mod Cycles
mod Kept
pub mod Ended
pub mod Visited
use proef.Base.{
  ℕ, zero, suc, ◌+◌, Bool, true, false, not, Option, none, some, List, [], ◌∷◌, ◌++◌, map, reverse,
  length, max, ◌&&◌, if◌then◌else◌, is_some,
}
use proef.Base.Texts.{Text, text_eq, text_lt}
use proef.Base.Maps.{Map, lookup, insert}
use proef.Pack.{
  MacroStep, MacroStepKind, payload, use_macro, ref, MacroBody, steps, expect, PackMacro, PackSet,
  find_use_target,
}

pub data Color : Type 0 where
  gray black : Color

pub data Frame : Type 0 where
  enter leave : PackMacro → Frame

pub data UseDiag : Type 0 where
  use_cycle use_too_deep : List Text → UseDiag

abbrev pub target_of : PackSet → MacroStepKind → Option PackMacro
target_of set (use_macro target args) = find_use_target set target
target_of set (payload k p) = none
target_of set (ref target) = none

abbrev pub add_some : Option PackMacro → List PackMacro → List PackMacro
add_some none later = later
add_some (some m) later = m ∷ later

unfoldable pub step_targets : PackSet → List MacroStep → List PackMacro
unfolding find_use_target
step_targets set [] = []
step_targets set (s ∷ ss) = add_some (target_of set s.kind) (step_targets set ss)

abbrev pub body_targets : PackSet → MacroBody → List PackMacro
body_targets set (steps ss) = step_targets set ss
body_targets set (expect items) = []

unfoldable pub use_targets : PackSet → PackMacro → List PackMacro
unfolding step_targets
use_targets set m = body_targets set m.body

-- The path and the work are stacks, their tops first.
pub record Walk : Type 0 where
  pub colors : Map Color
  pub chains : Map ℕ
  pub path : List PackMacro
  pub work : List Frame
  pub diags : List UseDiag

unfoldable pub names : List PackMacro → List Text
names ms = map (λ (m : PackMacro). m.name) ms

-- The list from the first occurrence of a name on, and what stands before it.
unfoldable pub from_name : Text → List Text → List Text
unfolding text_eq
from_name n [] = []
from_name n (x ∷ xs) = if text_eq x n then x ∷ xs else from_name n xs

unfoldable pub before_name : Text → List Text → List Text
unfolding text_eq
before_name n [] = []
before_name n (x ∷ xs) = if text_eq x n then [] else x ∷ before_name n xs

least : Text → List Text → Text
unfolding text_lt
least n [] = n
least n (x ∷ xs) = least (if text_lt x n then x else n) xs

-- The ring with its least name first.
rotated : List Text → List Text
unfolding least from_name before_name
rotated [] = []
rotated (x ∷ xs) = let n = least x xs in from_name n (x ∷ xs) ++ before_name n (x ∷ xs)

unfoldable pub report_use_cycle : List PackMacro → PackMacro → UseDiag
unfolding rotated names
report_use_cycle path next = use_cycle (rotated (from_name next.name (reverse (names path))))

-- What the targets of an entered macro put on the work, and what they report.
abbrev pub push_target : Option Color → PackMacro → List Frame → List Frame
push_target none m later = enter m ∷ later
push_target (some c) m later = later

unfoldable pub push_targets : Map Color → List PackMacro → List Frame → List Frame
unfolding lookup
push_targets colors [] work = work
push_targets colors (m ∷ ms) work =
    push_target (lookup m.name colors) m (push_targets colors ms work)

abbrev pub note_target : Option Color → List PackMacro → PackMacro → List UseDiag → List UseDiag
note_target (some gray) path m later = report_use_cycle path m ∷ later
note_target (some black) path m later = later
note_target none path m later = later

unfoldable pub note_targets : Map Color → List PackMacro → List PackMacro → List UseDiag
unfolding lookup report_use_cycle
note_targets colors path [] = []
note_targets colors path (m ∷ ms) =
    note_target (lookup m.name colors) path m (note_targets colors path ms)

abbrev pub chain_or : Option ℕ → ℕ → ℕ
chain_or none later = later
chain_or (some c) later = max c later

-- The greatest chain of the targets, 0 where there is none.
unfoldable pub max_chain : Map ℕ → List PackMacro → ℕ
unfolding lookup
max_chain chains [] = 0
max_chain chains (m ∷ ms) = chain_or (lookup m.name chains) (max_chain chains ms)

abbrev pub blank : Walk
blank = record { colors = []; chains = []; path = []; work = []; diags = [] }

abbrev pub pop : List PackMacro → List PackMacro
pop [] = []
pop (m ∷ ms) = ms

module _ (set : PackSet) where
  unfoldable pub enter_new : PackMacro → List Frame → Walk → Walk
  unfolding insert use_targets push_targets note_targets
  enter_new m work w =
      let colors = insert m.name gray w.colors in
      let targets = use_targets set m in
      record w {
        colors = colors;
        path = m ∷ w.path;
        work = push_targets colors targets (leave m ∷ work);
        diags = w.diags ++ note_targets colors (m ∷ w.path) (reverse targets);
      }

  abbrev pub enter_by : PackMacro → List Frame → Walk → Option Color → Walk
  enter_by m work w (some c) = record w { work = work }
  enter_by m work w none = enter_new m work w

  unfoldable pub leave_macro : PackMacro → List Frame → Walk → Walk
  unfolding insert max_chain use_targets
  leave_macro m work w = record w {
    colors = insert m.name black w.colors;
    chains = insert m.name (suc (max_chain w.chains (use_targets set m))) w.chains;
    path = pop w.path;
    work = work;
  }

  abbrev pub turn : Frame → List Frame → Walk → Walk
  turn (enter m) work w = enter_by m work w (lookup m.name w.colors)
  turn (leave m) work w = leave_macro m work w

  -- The `while let`, one frame a turn.
  unfoldable pub run_frames : ℕ → Walk → Walk
  unfolding enter_new leave_macro lookup
  run_frames zero w = w
  run_frames (suc fuel) w = elim (w.work) [ [] ↦ w | f ∷ work ↦ run_frames fuel (turn f work w) ]

  -- How many turns the macros that have no color can take.
  abbrev pub weight_by : Option Color → PackMacro → ℕ
  weight_by none m = suc (length (use_targets set m))
  weight_by (some c) m = 0

  unfoldable pub weight : Map Color → PackSet → ℕ
  unfolding lookup use_targets
  weight colors [] = 0
  weight colors ((_, m) ∷ ms) = weight_by (lookup m.name colors) m + weight colors ms

  abbrev pub visit_by : PackMacro → Walk → Option Color → Walk
  visit_by root w (some c) = w
  visit_by root w none =
      run_frames (suc (weight w.colors set)) (record w { path = []; work = enter root ∷ [] })

  -- The fuel is as many turns as the work can take.
  unfoldable pub visit_uses : PackMacro → Walk → Walk
  unfolding run_frames weight lookup
  visit_uses root w = visit_by root w (lookup root.name w.colors)

  unfoldable pub visit_all : PackSet → Walk → Walk
  unfolding visit_uses
  visit_all [] w = w
  visit_all ((_, m) ∷ ms) w = visit_all ms (visit_uses m w)
