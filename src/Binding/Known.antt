-- ===== src/Binding/Known.antt =====
-- crates/proef-core/src/bind.rs: every candidate is a macro of the packs.
use proef.Base.{◌≡◌, refl, true, [], ◌∷◌, is_some, All, All-map, inl, inr, Option-cases, arith}
use proef.Base.Texts.{Text, text_eq}
use proef.Base.Maps.{lookup}
use proef.Matcher.{match_pattern}
use proef.Binding.{Macro, Macros, Defs, Candidate, step_defs, candidates}

-- Every macro is kept under its name.
abbrev pub IsNamed : Macros → Type 0
IsNamed macros = All (λ (e : Text × Macro). text_eq e.0 e.1.name ≡ true) macros

module _ (P : Text → Type 0) where
  step_defs-All :
      (macros : Macros)
      → All (λ (e : Text × Macro). P e.1.name) macros
      → All (λ (d : Text × Text). P d.1) (step_defs macros)
  unfolding step_defs
  step_defs-All [] h = tt
  step_defs-All ((_, m) ∷ macros) h = elim (Option-cases m.pattern) [
    | inl e ↦ rw e (step_defs-All macros h.1)
    | inr (p, e) ↦ rw e (h.0, step_defs-All macros h.1)
  ]

  candidates-All :
      (defs : Defs) (text : Text)
      → All (λ (d : Text × Text). P d.1) defs
      → All (λ (c : Candidate). P c.1.0) (candidates defs text)
  unfolding candidates
  candidates-All [] text h = tt
  candidates-All ((pattern, name) ∷ defs) text h =
      elim (Option-cases (match_pattern pattern text)) [
        | inl e ↦ rw (candidates, e) (candidates-All defs text h.1)
        | inr (args, e) ↦ rw (candidates, e) (h.0, candidates-All defs text h.1)
      ]

lookup-known :
    (macros : Macros)
    → IsNamed macros
    → All (λ (e : Text × Macro). is_some (lookup e.1.name macros) ≡ true) macros
unfolding lookup
lookup-known [] h = tt
lookup-known ((j, w) ∷ macros) h = (
  rw h.0 refl,
  All-map {P = λ (e : Text × Macro). is_some (lookup e.1.name macros) ≡ true}
      (λ (e : Text × Macro) k. ground arith) macros (lookup-known macros h.1),
)

-- The macro of a candidate is found.
pub candidates-known :
    (macros : Macros) (text : Text)
    → IsNamed macros
    → All
        (λ (c : Candidate). is_some (lookup c.1.0 macros) ≡ true)
        (candidates (step_defs macros) text)
candidates-known macros text h =
    let P : Text → Type 0 = λ k. is_some (lookup k macros) ≡ true in
    candidates-All P (step_defs macros) text (step_defs-All P macros (lookup-known macros h))
