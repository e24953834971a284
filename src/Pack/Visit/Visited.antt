-- ===== src/Pack/Visit/Visited.antt =====
-- crates/proef-core/src/pack/validate.rs: the walk has been at every macro.
use proef.Base.{
  ℕ, zero, suc, ◌≡◌, refl, sym, ap, subst, true, Option, none, some, List, [], ◌∷◌, All, is_some,
  inl, inr, Option-cases, Bool-cases, List-cases, arith,
}
use proef.Base.Texts.{Text, text_eq, text_eq_refl}
use proef.Base.Maps.{Map, lookup, lookup-insert}
use proef.Pack.{PackMacro, PackSet}
use proef.Pack.Visit.{
  Frame, enter, leave, Color, gray, black, Walk, use_targets, max_chain, enter_new, leave_macro,
  turn, run_frames, weight, visit_uses, visit_all, blank,
}
use proef.Pack.Visit.Known.{IsPackSet, Known}
use proef.Pack.Visit.Waiting.{leaves}
use proef.Pack.Visit.Kept.{GoodWalk, run_frames-diags, run_frames-Good}
use proef.Pack.Visit.Ended.{run_frames_ends}

abbrev Colored : Text → Walk → Type 0
Colored n w = is_some (lookup n w.colors) ≡ true

module _ (set : PackSet) where
  turn-Colored :
      (f : Frame) (work : List Frame) (w : Walk) (n : Text)
      → Colored n w
      → Colored n (turn set f work w)
  unfolding enter_new leave_macro
  turn-Colored (leave m) work w n h = ground (arith, lookup-insert m.name n black w.colors)
  turn-Colored (enter m) work w n h = elim (Option-cases (lookup m.name w.colors)) [
    | inl e ↦ rw e (ground (arith, lookup-insert m.name n gray w.colors))
    | inr (c, e) ↦ rw e h
  ]

  run_frames-Colored :
      (fuel : ℕ) (w : Walk) (n : Text) → Colored n w → Colored n (run_frames set fuel w)
  unfolding run_frames
  run_frames-Colored zero w n h = h
  run_frames-Colored (suc fuel) w n h = elim (List-cases w.work) [
    | inl e ↦ rw (e, run_frames) h
    | inr (f, work, e) ↦
        rw (e, run_frames)
          (run_frames-Colored fuel (turn set f work w) n (turn-Colored f work w n h))
  ]

  -- Between two roots.
  record Rests (w : Walk) : Type 0 where
    good : GoodWalk set w
    still : w.work ≡ []

  visit_uses-diags : (m : PackMacro) (w : Walk) → (visit_uses set m w).diags ≡ [] → w.diags ≡ []
  unfolding visit_uses
  visit_uses-diags m w h = elim (Option-cases (lookup m.name w.colors)) [
    | inl e ↦
        run_frames-diags set (suc (weight set w.colors set))
          (record w { path = []; work = enter m ∷ [] }) (rw e at h)
    | inr (c, e) ↦ rw e at h
  ]

  visit_all-diags : (ms : PackSet) (w : Walk) → (visit_all set ms w).diags ≡ [] → w.diags ≡ []
  unfolding visit_all
  visit_all-diags [] w h = h
  visit_all-diags ((k, m) ∷ ms) w h =
      visit_uses-diags m w (visit_all-diags ms (visit_uses set m w) h)

  visit_uses-Colored :
      (m : PackMacro) (w : Walk) (n : Text) → Colored n w → Colored n (visit_uses set m w)
  unfolding visit_uses
  visit_uses-Colored m w n h = elim (Option-cases (lookup m.name w.colors)) [
    | inl e ↦ rw e (
        run_frames-Colored (suc (weight set w.colors set))
          (record w { path = []; work = enter m ∷ [] }) n h)
    | inr (c, e) ↦ rw e h
  ]

  visit_all-Colored :
      (ms : PackSet) (w : Walk) (n : Text) → Colored n w → Colored n (visit_all set ms w)
  unfolding visit_all
  visit_all-Colored [] w n h = h
  visit_all-Colored ((k, m) ∷ ms) w n h =
      visit_all-Colored ms (visit_uses set m w) n (visit_uses-Colored m w n h)

  visit_uses-root : (m : PackMacro) (w : Walk) → Colored m.name (visit_uses set m w)
  unfolding visit_uses run_frames enter_new
  visit_uses-root m w = elim (Option-cases (lookup m.name w.colors)) [
    | inl e ↦
        rw (e, run_frames, e)
          (run_frames-Colored (weight set w.colors set)
            (enter_new set m [] (record w { path = []; work = enter m ∷ [] })) m.name
            (rw (lookup-insert m.name m.name gray w.colors, text_eq_refl m.name) refl))
    | inr (c, e) ↦ rw (e, e) refl
  ]

  module _ (known : IsPackSet set) where
    visit_uses-Rests :
        (m : PackMacro) (w : Walk)
        → Known set m
        → Rests w
        → (visit_uses set m w).diags ≡ []
        → Rests (visit_uses set m w)
    unfolding visit_uses
    visit_uses-Rests m w k r h = elim (Option-cases (lookup m.name w.colors)) [
      | inr (c, e) ↦ rw e r
      | inl e ↦
          let w0 : Walk = record w { path = []; work = enter m ∷ [] } in
          let g : GoodWalk set w = r.good in
          rw e (record {
            good =
                run_frames-Good set known (suc (weight set w.colors set)) w0 (k, tt)
                  (record {
                    waits = tt;
                    grays = λ n c. let l = g.grays n c in ground (arith, ap (leaves n) r.still);
                    done = g.done;
                  })
                  (rw e at h);
            still =
                run_frames_ends set known (suc (weight set w.colors set)) w0 (k, tt) (omega arith);
          })
    ]

    visit_all-Rests :
        (ms : PackSet) (w : Walk)
        → All (λ (e : Text × PackMacro). (e.1.name ≡ e.0) × (lookup e.0 set ≡ some e.1)) ms
        → Rests w
        → (visit_all set ms w).diags ≡ []
        → Rests (visit_all set ms w)
          × All (λ (e : Text × PackMacro). Colored e.1.name (visit_all set ms w)) ms
    unfolding visit_all
    visit_all-Rests [] w k r h = (r, tt)
    visit_all-Rests ((j, m) ∷ ms) w k r h =
        let known_m : Known set m = subst (λ n. lookup n set ≡ some m) (sym k.0.0) k.0.1 in
        let here = visit_uses-Rests m w known_m r (visit_all-diags ms (visit_uses set m w) h) in
        let rest = visit_all-Rests ms (visit_uses set m w) k.1 here h in
        (rest.0, (visit_all-Colored ms (visit_uses set m w) m.name (visit_uses-root m w), rest.1))

-- The chain of every macro is one more than the greatest of its targets'.
abbrev pub IsRanked : PackSet → Map ℕ → Type 0
IsRanked set chains =
    (u : PackMacro)
    → Known set u
    → lookup u.name chains ≡ some (suc (max_chain chains (use_targets set u)))

lookup-All :
    (P : PackMacro → Type 0) (ms : PackSet) (k : Text) (u : PackMacro)
    → All (λ (e : Text × PackMacro). P e.1) ms
    → lookup k ms ≡ some u
    → P u
unfolding lookup
lookup-All P [] k u h e = ground arith
lookup-All P ((j, m) ∷ ms) k u h e = elim (Bool-cases (text_eq j k)) [
  | inl same ↦ let eq : m ≡ u = ground arith in subst P eq h.0
  | inr other ↦ lookup-All P ms k u h.1 (ground arith)
]

is_black_now : (o : Option Color) → is_some o ≡ true → (o ≡ some gray → ⊥) → o ≡ some black
is_black_now none h n = ground arith
is_black_now (some gray) h n = elim (n refl) [ ]
is_black_now (some black) h n = refl

pub visit_all-IsRanked :
    (set : PackSet)
    → IsPackSet set
    → (visit_all set set blank).diags ≡ []
    → IsRanked set (visit_all set set blank).chains
unfolding lookup
visit_all-IsRanked set known h u k =
    let r =
      visit_all-Rests set known set blank known
        (record {
          good = record { waits = tt; grays = λ n g. ground arith; done = λ v kv b. ground arith };
          still = refl;
        })
        h in
    let w : Walk = visit_all set set blank in
    let g : GoodWalk set w = r.0.good in
    let colored =
      lookup-All (λ (m : PackMacro). is_some (lookup m.name w.colors) ≡ true) set u.name u r.1 k in
    (g.done u k (
      is_black_now (lookup u.name w.colors) colored
        (λ gr. let l = g.grays u.name gr in ground (arith, ap (leaves u.name) r.0.still)))).1
