-- ===== src/Pack/Visit/Kept.antt =====
-- crates/proef-core/src/pack/validate.rs: the invariant of the walk, frame by frame.
use proef.Base.{
  ℕ, zero, suc, ◌≡◌, refl, subst, false, List, [], ◌∷◌, ◌++◌, All, reverse, reverse-cons, inl, inr,
  Option-cases, List-cases, arith,
}
use proef.Base.Maps.{lookup, insert}
use proef.Pack.{PackMacro, PackSet}
use proef.Pack.Visit.{
  Frame, enter, leave, gray, Walk, use_targets, enter_new, leave_macro, turn, run_frames,
}
use proef.Pack.Visit.Known.{IsPackSet, KnownFrame, turn-Known}
use proef.Pack.Visit.Waiting.{is_gray, note_targets-AreClear}
use proef.Pack.Visit.Ranked.{Good, Good-entered, Good-entering, Good-leaving}

All-split : {A : Type 0} (P : A → Type 0) (xs ys : List A) → All P (xs ++ ys) → All P xs × All P ys
All-split P [] ys h = (tt, h)
All-split P (x ∷ xs) ys h = let r = All-split P xs ys h.1 in ((h.0, r.0), r.1)

All-unreverse : {A : Type 0} (P : A → Type 0) (xs : List A) → All P (reverse xs) → All P xs
All-unreverse P [] h = tt
All-unreverse P (x ∷ xs) h =
    let r = All-split P (reverse xs) (x ∷ []) (subst (All P) (reverse-cons x xs) h) in
    (r.1.0, All-unreverse P xs r.0)

append-eq-nil : {A : Type 0} (xs ys : List A) → xs ++ ys ≡ [] → (xs ≡ []) × (ys ≡ [])
append-eq-nil [] ys h = (refl, h)
append-eq-nil (x ∷ xs) ys h = ground arith

module _ (set : PackSet) where
  turn-diags :
      (f : Frame) (work : List Frame) (w : Walk) → (turn set f work w).diags ≡ [] → w.diags ≡ []
  unfolding enter_new leave_macro
  turn-diags (leave m) work w h = h
  turn-diags (enter m) work w h = elim (Option-cases (lookup m.name w.colors)) [
    | inl e ↦ (append-eq-nil w.diags _ (rw e at h)).0
    | inr (c, e) ↦ rw e at h
  ]

  pub run_frames-diags : (fuel : ℕ) (w : Walk) → (run_frames set fuel w).diags ≡ [] → w.diags ≡ []
  unfolding run_frames
  run_frames-diags zero w h = h
  run_frames-diags (suc fuel) w h = elim (List-cases w.work) [
    | inl e ↦ rw (e, run_frames) at h
    | inr (f, work, e) ↦
        turn-diags f work w (run_frames-diags fuel (turn set f work w) (rw (e, run_frames) at h))
  ]

  abbrev pub GoodWalk : Walk → Type 0
  GoodWalk w = Good set w.colors w.chains w.work

  module _ (known : IsPackSet set) where
    abbrev pub AllKnown : List Frame → Type 0
    AllKnown work = All (KnownFrame set known) work

    turn-Good :
        (f : Frame) (work : List Frame) (w : Walk)
        → AllKnown (f ∷ work)
        → Good set w.colors w.chains (f ∷ work)
        → (turn set f work w).diags ≡ []
        → GoodWalk (turn set f work w)
    unfolding enter_new leave_macro
    turn-Good (leave m) work w k g h = Good-leaving set w.colors w.chains m work k.0 g
    turn-Good (enter m) work w k g h = elim (Option-cases (lookup m.name w.colors)) [
      | inl e ↦ rw e (
          Good-entering set w.colors w.chains m work e
            (All-unreverse
              (λ (t : PackMacro). is_gray (lookup t.name (insert m.name gray w.colors)) ≡ false)
              (use_targets set m)
              (note_targets-AreClear (insert m.name gray w.colors) (m ∷ w.path)
                (reverse (use_targets set m)) (append-eq-nil w.diags _ (rw e at h)).1))
            g)
      | inr (c, e) ↦ rw e (Good-entered set w.colors w.chains m work c e g)
    ]

    pub run_frames-Good :
        (fuel : ℕ) (w : Walk)
        → AllKnown w.work
        → GoodWalk w
        → (run_frames set fuel w).diags ≡ []
        → GoodWalk (run_frames set fuel w)
    unfolding run_frames
    run_frames-Good zero w k g h = g
    run_frames-Good (suc fuel) w k g h = elim (List-cases w.work) [
      | inl e ↦ rw (e, run_frames) g
      | inr (f, work, e) ↦
          let k' : AllKnown (f ∷ work) = subst AllKnown e k in
          let g' = subst (λ l. Good set w.colors w.chains l) e g in
          let h' : (run_frames set fuel (turn set f work w)).diags ≡ [] = rw (e, run_frames) at h in
          rw (e, run_frames)
            (run_frames-Good fuel (turn set f work w) (turn-Known set known f work w k')
              (turn-Good f work w k' g' (run_frames-diags fuel (turn set f work w) h')) h')
    ]
