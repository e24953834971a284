-- ===== src/Pack/Visit/Ended.antt =====
-- crates/proef-core/src/pack/validate.rs: the walk ends.
use proef.Base.{
  ℕ, zero, suc, ◌+◌, ◌≤◌, ◌≡◌, refl, ap, subst, none, some, List, [], ◌∷◌, length, inl, inr, ◌⊎◌,
  Option-cases, Bool-cases, List-cases, arith,
}
use proef.Base.Texts.{Text, text_eq, text_eq_refl}
use proef.Base.Maps.{Map, lookup, insert, lookup-insert}
use proef.Pack.{PackMacro, PackSet}
use proef.Pack.Visit.{
  Frame, enter, leave, Color, gray, black, Walk, use_targets, push_targets, enter_new, leave_macro,
  turn, run_frames, weight,
}
use proef.Pack.Visit.Known.{IsPackSet, Known, KnownFrame, turn-Known}
use proef.Pack.Visit.Kept.{AllKnown}

module _ (set : PackSet) where
  -- Coloring a macro takes its weight off.
  weight-insert :
      (colors : Map Color) (m : PackMacro) (c : Color) (ms : PackSet)
      → weight set (insert m.name c colors) ms ≤ weight set colors ms
  unfolding weight
  weight-insert colors m c [] = omega arith
  weight-insert colors m c ((k, n) ∷ ms) =
      ground (arith, weight-insert colors m c ms, lookup-insert m.name n.name c colors)

  weight-color :
      (colors : Map Color) (m : PackMacro) (c : Color) (ms : PackSet) (k : Text)
      → lookup m.name colors ≡ none
      → lookup k ms ≡ some m
      → weight set (insert m.name c colors) ms + suc (length (use_targets set m))
        ≤ weight set colors ms
  unfolding weight lookup
  weight-color colors m c [] k e h = ground arith
  weight-color colors m c ((j, n) ∷ ms) k e h = elim (Bool-cases (text_eq j k)) [
    | inl same ↦
        let eq : n ≡ m = ground arith in
        rw (eq, lookup-insert m.name m.name c colors, text_eq_refl m.name, e)
          (omega (arith, weight-insert colors m c ms))
    | inr other ↦
        let ih = weight-color colors m c ms k e (ground arith) in
        ground (arith, lookup-insert m.name n.name c colors)
  ]

  length-push_targets :
      (colors : Map Color) (ms : List PackMacro) (work : List Frame)
      → length (push_targets colors ms work) ≤ length ms + length work
  unfolding push_targets
  length-push_targets colors [] work = omega arith
  length-push_targets colors (m ∷ ms) work = elim (Option-cases (lookup m.name colors)) [
    | inl e ↦ rw e (omega (arith, length-push_targets colors ms work))
    | inr (c, e) ↦ rw e (omega (arith, length-push_targets colors ms work))
  ]

  abbrev pub pending : Walk → ℕ
  pending w = length w.work + weight set w.colors set

  -- A turn takes off what is pending.
  turn-pending :
      (f : Frame) (work : List Frame) (w : Walk)
      → (m : PackMacro) → (f ≡ enter m) ⊎ (f ≡ leave m)
      → Known set m
      → suc (pending (turn set f work w)) ≤ suc (length work) + weight set w.colors set
  unfolding enter_new leave_macro
  turn-pending f work w m (inr e) k = rw e (omega (arith, weight-insert w.colors m black set))
  turn-pending f work w m (inl e) k = elim (Option-cases (lookup m.name w.colors)) [
    | inl o ↦
        rw (e, o)
          (omega (
            arith,
            weight-color w.colors m gray set m.name o k,
            length-push_targets (insert m.name gray w.colors) (use_targets set m) (leave m ∷ work),
          ))
    | inr (c, o) ↦ rw (e, o) (omega arith)
  ]

  pub run_frames_ends :
      (known : IsPackSet set) (fuel : ℕ) (w : Walk)
      → AllKnown set known w.work
      → pending w ≤ fuel
      → (run_frames set fuel w).work ≡ []
  unfolding run_frames
  run_frames_ends known zero w k h = elim (List-cases w.work) [
    | inl e ↦ e
    | inr (f, work, e) ↦ ground arith
  ]
  run_frames_ends known (suc fuel) w k h = elim (List-cases w.work) [
    | inl e ↦ rw (e, run_frames) e
    | inr (f, work, e) ↦
        let k' : AllKnown set known (f ∷ work) = subst (AllKnown set known) e k in
        rw (e, run_frames)
          (run_frames_ends known fuel (turn set f work w) (turn-Known set known f work w k')
            (let t = turn-pending-frame f work w k'.0 in omega (arith, ap length e)))
  ]
    where
      turn-pending-frame :
          (f : Frame) (work : List Frame) (w : Walk)
          → KnownFrame set known f
          → suc (pending (turn set f work w)) ≤ suc (length work) + weight set w.colors set
      turn-pending-frame (enter m) work w k = turn-pending (enter m) work w m (inl refl) k
      turn-pending-frame (leave m) work w k = turn-pending (leave m) work w m (inr refl) k
