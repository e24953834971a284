-- ===== src/Pack/Visit/Trails.antt =====
-- crates/proef-core/src/pack/validate.rs: the path is the macros that are gray.
use proef.Base.{
  ◌≡◌, ◌≢◌, refl, ap, ◌∙◌, true, some, List, [], ◌∷◌, All, Any, inl, inr, Option-cases, Bool-cases,
  arith,
}
use proef.Base.Texts.{Text, text_eq, text_eq_iff}
use proef.Base.Maps.{Map, lookup}
use proef.Pack.{PackMacro, PackSet}
use proef.Pack.Visit.{Frame, enter, leave, Color, gray, black, push_targets, note_targets}
use proef.Pack.Visit.Known.{Known}
use proef.Pack.Visit.Chains.{Uses, IsTrail}
use proef.Pack.Visit.Waiting.{leaves}

module _ (set : PackSet) where
  -- A macro to be entered is used by the last one on the path.
  abbrev pub Entered : List PackMacro → PackMacro → Type 0
  Entered [] t = Unit
  Entered (p ∷ path) t = Uses set p t

  -- The macros to be left are those of the path.
  abbrev pub Linked : List PackMacro → List Frame → Type 0
  Linked path [] = Unit
  Linked path (enter t ∷ work) = Known set t × Entered path t × Linked path work
  Linked [] (leave m ∷ work) = ⊥
  Linked (p ∷ path) (leave m ∷ work) = (p ≡ m) × Linked path work

  pub record Trails (colors : Map Color) (path : List PackMacro) (work : List Frame) : Type 0 where
    pub trail : IsTrail set path
    pub linked : Linked path work
    pub grays : (n : Text) → lookup n colors ≡ some gray → leaves n work ≡ true

  -- A macro that is to be left is on the path.
  pub leaves-path :
      (n : Text) (path : List PackMacro) (work : List Frame)
      → Linked path work
      → leaves n work ≡ true
      → Any (λ (q : PackMacro). q.name ≡ n) path
  leaves-path n path [] h l = ground arith
  leaves-path n path (enter t ∷ work) h l = leaves-path n path work h.2 l
  leaves-path n [] (leave m ∷ work) h l = elim h [ ]
  leaves-path n (p ∷ path) (leave m ∷ work) h l = elim (Bool-cases (text_eq m.name n)) [
    | inl e ↦ inl (ap (λ (q : PackMacro). q.name) h.0 ∙ (text_eq_iff m.name n).0 e)
    | inr e ↦ inr (leaves-path n path work h.1 (ground arith))
  ]

  pub Linked-push_targets :
      (colors : Map Color) (m : PackMacro) (path ts : List PackMacro) (work : List Frame)
      → All (Known set) ts
      → All (Uses set m) ts
      → Linked (m ∷ path) work
      → Linked (m ∷ path) (push_targets colors ts work)
  unfolding push_targets
  Linked-push_targets colors m path [] work k u h = h
  Linked-push_targets colors m path (t ∷ ts) work k u h =
      elim (Option-cases (lookup t.name colors)) [
        | inl e ↦ rw e (k.0, u.0, Linked-push_targets colors m path ts work k.1 u.1 h)
        | inr (c, e) ↦ rw e (Linked-push_targets colors m path ts work k.1 u.1 h)
      ]

  -- What is reported is a macro that is gray.
  pub note_targets-gray :
      (colors : Map Color) (path ts : List PackMacro)
      → note_targets colors path ts ≢ []
      → Any (λ (t : PackMacro). lookup t.name colors ≡ some gray) ts
  unfolding note_targets
  note_targets-gray colors path [] h = absurd (h refl)
  note_targets-gray colors path (t ∷ ts) h = elim (Option-cases (lookup t.name colors)) [
    | inl e ↦ inr (note_targets-gray colors path ts (rw e at h))
    | inr (gray, e) ↦ inl e
    | inr (black, e) ↦ inr (note_targets-gray colors path ts (rw e at h))
  ]
