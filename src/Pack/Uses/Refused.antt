-- ===== src/Pack/Uses/Refused.antt =====
-- crates/proef-core/src/pack/validate.rs: what is reported is a chain that is too long.
use proef.Base.{
  ℕ, zero, suc, ◌<◌, ◌≡◌, ◌≢◌, refl, sym, ap, subst, Option, none, some, List, [], ◌∷◌, ◌++◌, All,
  Any, any, Any-All, reverse, length, leb, ltb, inl, inr, ◌⊎◌, Option-cases, Bool-cases, List-cases,
  arith,
}
use proef.Base.Texts.{Text, text_eq}
use proef.Base.Maps.{Map, lookup}
use proef.Pack.{PackMacro, PackSet}
use proef.Pack.Visit.{Walk, enter, UseDiag, use_targets, weight, visit_uses, visit_all, blank}
use proef.Pack.Visit.Known.{IsPackSet, Known, use_targets-Known}
use proef.Pack.Visit.Chains.{IsTrail, TooLong, IsTrail-TooLong}
use proef.Pack.Visit.Waiting.{leaves}
use proef.Pack.Visit.Trails.{Trails}
use proef.Pack.Visit.Ended.{run_frames_ends}
use proef.Pack.Visit.Cycles.{TrailsOf, run_frames-TooLong, run_frames-Trails}
use proef.Pack.Uses.{
  max_use_depth, keep_longer, longest_target, longest_from, longest_use_path, too_deep, check_depth,
  check_depths, use_graph_passes, or_one,
}
use proef.Pack.Uses.Deep.{length-reverse}

module _ (set : PackSet) (known : IsPackSet set) where
  keep_longer-one :
      (chains : Map ℕ) (m next : PackMacro) (o : Option PackMacro)
      → keep_longer chains m o ≡ some next
      → (m ≡ next) ⊎ (o ≡ some next)
  keep_longer-one chains m next none h = inl (ground arith)
  keep_longer-one chains m next (some n) h =
      elim (Bool-cases (ltb (or_one (lookup n.name chains)) (or_one (lookup m.name chains)))) [
        | inl e ↦ inl (ground arith)
        | inr e ↦ inr (rw e at h)
      ]

  -- The best target is one of the targets.
  longest_target-one :
      (chains : Map ℕ) (path ms : List PackMacro) (next : PackMacro)
      → longest_target chains path ms ≡ some next
      → Any (λ (t : PackMacro). t ≡ next) ms
  unfolding longest_target
  longest_target-one chains path [] next h = ground arith
  longest_target-one chains path (m ∷ ms) next h =
      elim (Bool-cases (any (λ (p : PackMacro). text_eq p.name m.name) path)) [
        | inl e ↦ inr (longest_target-one chains path ms next (rw e at h))
        | inr e ↦ elim (keep_longer-one chains m next (longest_target chains path ms) (rw e at h)) [
          | inl here ↦ inl here
          | inr later ↦ inr (longest_target-one chains path ms next later)
        ]
      ]

  longest_from-IsTrail :
      (fuel : ℕ) (chains : Map ℕ) (before : List PackMacro) (cur : PackMacro)
      → IsTrail set (cur ∷ before)
      → IsTrail set (longest_from set fuel chains before cur)
  unfolding longest_from
  longest_from-IsTrail zero chains before cur t = t
  longest_from-IsTrail (suc fuel) chains before cur t =
      elim (Option-cases (longest_target chains (cur ∷ before) (use_targets set cur))) [
        | inl e ↦ rw (e, longest_from) t
        | inr (next, e) ↦
            let one = longest_target-one chains (cur ∷ before) (use_targets set cur) next e in
            rw (e, longest_from)
              (longest_from-IsTrail fuel chains (cur ∷ before) next (
                Any-All (Known set) next (use_targets set cur) one
                    (use_targets-Known set known cur),
                one,
                t,
              ))
      ]

  too_deep-ne-nil : (path : List PackMacro) → too_deep path ≢ [] → 32 < length path
  too_deep-ne-nil path n = elim (Bool-cases (ltb max_use_depth (length path))) [
    | inl e ↦ ground arith
    | inr e ↦ absurd (n (rw e refl))
  ]

  check_depth-TooLong :
      (chains : Map ℕ) (m : PackMacro) → Known set m → check_depth set chains m ≢ [] → TooLong set
  unfolding check_depth longest_use_path
  check_depth-TooLong chains m k n =
      elim (Bool-cases (leb (or_one (lookup m.name chains)) max_use_depth)) [
        | inl e ↦ absurd (n (rw e refl))
        | inr e ↦
            let path = longest_from set max_use_depth chains [] m in
            let long = too_deep-ne-nil (reverse path) (rw e at n) in
            IsTrail-TooLong set path (longest_from-IsTrail max_use_depth chains [] m k)
              (omega (arith, length-reverse path, long))
      ]

  append-ne-nil : (xs ys : List UseDiag) → xs ++ ys ≢ [] → (xs ≢ []) ⊎ ((xs ≡ []) × (ys ≢ []))
  append-ne-nil [] ys n = inr (refl, n)
  append-ne-nil (x ∷ xs) ys n = inl (λ h. ground arith)

  check_depths-TooLong :
      (chains : Map ℕ) (ms : PackSet)
      → All (λ (e : Text × PackMacro). (e.1.name ≡ e.0) × (lookup e.0 set ≡ some e.1)) ms
      → check_depths set chains ms ≢ []
      → TooLong set
  unfolding check_depths
  check_depths-TooLong chains [] k n = absurd (n refl)
  check_depths-TooLong chains ((j, m) ∷ ms) k n =
      elim (append-ne-nil (check_depth set chains m) (check_depths set chains ms) n) [
        | inl here ↦
            check_depth-TooLong chains m (subst (λ x. lookup x set ≡ some m) (sym k.0.0) k.0.1) here
        | inr (_, later) ↦ check_depths-TooLong chains ms k.1 later
      ]

  -- Between two roots.
  record Idle (w : Walk) : Type 0 where
    trails : TrailsOf set known w
    still : w.work ≡ []

  started : PackMacro → Walk → Walk
  started m w = record w { path = []; work = enter m ∷ [] }

  Trails-started :
      (m : PackMacro) (w : Walk) → Known set m → Idle w → Trails set w.colors [] (enter m ∷ [])
  Trails-started m w k r =
      let t : TrailsOf set known w = r.trails in
      record {
        trail = tt;
        linked = (k, tt, tt);
        grays = λ n g. let l = t.grays n g in ground (arith, ap (leaves n) r.still);
      }

  visit_uses-Idle : (m : PackMacro) (w : Walk) → Known set m → Idle w → Idle (visit_uses set m w)
  unfolding visit_uses started
  visit_uses-Idle m w k r = elim (Option-cases (lookup m.name w.colors)) [
    | inr (c, e) ↦ rw e r
    | inl e ↦ rw e (record {
      trails =
          run_frames-Trails set known (suc (weight set w.colors set)) (started m w)
            (Trails-started m w k r);
      still =
          run_frames_ends set known (suc (weight set w.colors set)) (started m w) (k, tt)
            (omega arith);
    })
  ]

  visit_uses-TooLong :
      (m : PackMacro) (w : Walk)
      → Known set m
      → Idle w
      → w.diags ≡ []
      → (visit_uses set m w).diags ≢ []
      → TooLong set
  unfolding visit_uses started
  visit_uses-TooLong m w k r d n = elim (Option-cases (lookup m.name w.colors)) [
    | inr (c, e) ↦ absurd (n (rw e d))
    | inl e ↦
        run_frames-TooLong set known (suc (weight set w.colors set)) (started m w)
          (Trails-started m w k r) d (rw e at n)
  ]

  visit_all-TooLong :
      (ms : PackSet) (w : Walk)
      → All (λ (e : Text × PackMacro). (e.1.name ≡ e.0) × (lookup e.0 set ≡ some e.1)) ms
      → Idle w
      → w.diags ≡ []
      → (visit_all set ms w).diags ≢ []
      → TooLong set
  unfolding visit_all
  visit_all-TooLong [] w k r d n = absurd (n d)
  visit_all-TooLong ((j, m) ∷ ms) w k r d n =
      let known_m = subst (λ x. lookup x set ≡ some m) (sym k.0.0) k.0.1 in
      elim (List-cases (visit_uses set m w).diags) [
        | inl clean ↦
            visit_all-TooLong ms (visit_uses set m w) k.1 (visit_uses-Idle m w known_m r) clean n
        | inr (x, xs, noted) ↦ visit_uses-TooLong m w known_m r d (λ clean. ground arith)
      ]

-- If the macros of the packs are kept under their names and the pass over `use:` reports anything, a
-- cycle or a depth, then there is a chain of more than 32 macros of the packs, each using the next.
pub use_graph_passes-TooLong :
    (set : PackSet) → IsPackSet set → use_graph_passes set ≢ [] → TooLong set
unfolding use_graph_passes lookup
use_graph_passes-TooLong set known n =
    let w : Walk = visit_all set set blank in
    elim (append-ne-nil set known w.diags (check_depths set w.chains set) n) [
      | inl cycle ↦
          visit_all-TooLong set known set blank known
            (record {
              trails = record { trail = tt; linked = tt; grays = λ k g. ground arith };
              still = refl;
            })
            refl cycle
      | inr (_, deep) ↦ check_depths-TooLong set known w.chains set known deep
    ]
