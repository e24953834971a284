-- ===== src/Pack/Visit/Known.antt =====
-- crates/proef-core/src/pack/validate.rs: every macro on the walk is what its name stands for.
use proef.Base.{
  ◌≡◌, sym, subst, Option, none, some, List, [], ◌∷◌, All, inl, inr, Option-cases, arith,
}
use proef.Base.Texts.{Text, text_eq_iff}
use proef.Base.Maps.{Map, lookup, insert}
use proef.Pack.{
  MacroStep, MacroStepKind, MacroBody, payload, use_macro, ref, steps, expect, PackMacro, PackSet,
  split_qualified, matching, find_use_target,
}
use proef.Pack.Visit.{
  Frame, enter, leave, Color, gray, Walk, body_targets, target_of, step_targets, use_targets,
  push_targets, turn, enter_new, leave_macro,
}

-- A map of macros by their names.
abbrev pub IsPackSet : PackSet → Type 0
IsPackSet set = All (λ (e : Text × PackMacro). (e.1.name ≡ e.0) × (lookup e.0 set ≡ some e.1)) set

abbrev pub Known : PackSet → PackMacro → Type 0
Known set m = lookup m.name set ≡ some m

pub Known-unique :
    (set : PackSet) (m n : PackMacro) → Known set m → Known set n → m.name ≡ n.name → m ≡ n
Known-unique set m n h k e = cc

lookup-name :
    (set rest : PackSet) (k : Text) (m : PackMacro)
    → All (λ (e : Text × PackMacro). (e.1.name ≡ e.0) × (lookup e.0 set ≡ some e.1)) rest
    → lookup k rest ≡ some m
    → m.name ≡ k
unfolding lookup
lookup-name set [] k m h e = ground arith
lookup-name set ((j, n) ∷ rest) k m h e =
    ground (arith, text_eq_iff j k, lookup-name set rest k m h.1)

lookup-Known :
    (set : PackSet) (k : Text) (m : PackMacro) → IsPackSet set → lookup k set ≡ some m → Known set m
lookup-Known set k m h e = subst (λ j. lookup j set ≡ some m) (sym (lookup-name set set k m h e)) e

matching-eq-some :
    (q : Option Text) (o : Option PackMacro) (m : PackMacro) → matching q o ≡ some m → o ≡ some m
matching-eq-some none none m h = ground arith
matching-eq-some (some r) none m h = ground arith
matching-eq-some none (some n) m h = h
matching-eq-some (some r) (some n) m h = ground arith

module _ (set : PackSet) (h : IsPackSet set) where
  find_use_target-Known : (t : Text) (m : PackMacro) → find_use_target set t ≡ some m → Known set m
  unfolding find_use_target
  find_use_target-Known t m e =
      let q = split_qualified t in
      lookup-Known set q.1 m h (matching-eq-some q.0 (lookup q.1 set) m e)

  step_targets-Known : (ss : List MacroStep) → All (Known set) (step_targets set ss)
  unfolding step_targets
  step_targets-Known [] = tt
  step_targets-Known (s ∷ ss) = elim (Option-cases (target_of set s.kind)) [
    | inl e ↦ rw e (step_targets-Known ss)
    | inr (m, e) ↦ rw e (target_of-Known s m e, step_targets-Known ss)
  ]
    where
      target_of-Known :
          (s : MacroStep) (m : PackMacro) → target_of set s.kind ≡ some m → Known set m
      target_of-Known s m e = of_kind s.kind e
        where
          of_kind : (k : MacroStepKind) → target_of set k ≡ some m → Known set m
          of_kind (use_macro t args) e = find_use_target-Known t m e
          of_kind (payload k p) e = ground arith
          of_kind (ref t) e = ground arith

  pub use_targets-Known : (m : PackMacro) → All (Known set) (use_targets set m)
  unfolding use_targets
  use_targets-Known m = of_body m.body
    where
      of_body : (b : MacroBody) → All (Known set) (body_targets set b)
      of_body (steps ss) = step_targets-Known ss
      of_body (expect items) = tt

  abbrev pub KnownFrame : Frame → Type 0
  KnownFrame (enter m) = Known set m
  KnownFrame (leave m) = Known set m

  push_targets-Known :
      (colors : Map Color) (ms : List PackMacro) (work : List Frame)
      → All (Known set) ms
      → All KnownFrame work
      → All KnownFrame (push_targets colors ms work)
  unfolding push_targets
  push_targets-Known colors [] work k w = w
  push_targets-Known colors (m ∷ ms) work k w = elim (Option-cases (lookup m.name colors)) [
    | inl e ↦ rw e (k.0, push_targets-Known colors ms work k.1 w)
    | inr (c, e) ↦ rw e (push_targets-Known colors ms work k.1 w)
  ]

  pub turn-Known :
      (f : Frame) (work : List Frame) (w : Walk)
      → All KnownFrame (f ∷ work)
      → All KnownFrame (turn set f work w).work
  unfolding enter_new leave_macro
  turn-Known (leave m) work w k = k.1
  turn-Known (enter m) work w k = elim (Option-cases (lookup m.name w.colors)) [
    | inl e ↦ rw e (
        push_targets-Known (insert m.name gray w.colors) (use_targets set m) (leave m ∷ work)
          (use_targets-Known m) k)
    | inr (c, e) ↦ rw e k.1
  ]
