-- ===== src/Lowering/Expansion/Shallow.antt =====
-- crates/proef-core/src/lower.rs and pack/validate.rs: packs that are accepted are not too deep.
use proef.Base.{
  ℕ, zero, suc, ◌≤◌, ◌≡◌, refl, ap, subst, ◌∙◌, Option, none, some, List, [], ◌∷◌, All,
  Option-cases, inl, inr, arith,
}
use proef.Base.Texts.{Text}
use proef.Base.Maps.{Map, lookup}
use proef.Pack.{
  MacroStep, MacroStepKind, payload, use_macro, ref, MacroBody, steps, expect, PackMacro, PackSet,
  find_use_target,
}
use proef.Pack.Visit.{use_targets, step_targets, body_targets, target_of, visit_all, blank}
use proef.Pack.Visit.Known.{IsPackSet, Known, use_targets-Known}
use proef.Pack.Visit.Visited.{IsRanked}
use proef.Pack.Uses.{use_graph_passes}
use proef.Pack.Uses.Deep.{rank, rank-max_chain, rank-use_targets}
use proef.Pack.Uses.Walks.{use_graph_passes-IsShallow, rank-le}
use proef.Lowering.Expansion.{
  Leaves, resolve_args, expand_use, expand_kind, expand_steps, expand_body, expand_macro,
  max_expansion_depth,
}
use proef.Lowering.Binds.{Bindings, Outputs, scope_bindings}

All-zip :
    {A : Type 0} {P Q R : A → Type 0}
    → ((x : A) → P x → Q x → R x)
    → (xs : List A) → All P xs
    → All Q xs
    → All R xs
All-zip f [] p q = tt
All-zip f (x ∷ xs) p q = (f x p.0 q.0, All-zip f xs p.1 q.1)

module _ {Emit : Type 0} (leaves : Leaves Emit) (set : PackSet) (binds : Map (Map Text)) where
  -- Two ways to go deeper that agree on a macro.
  abbrev Agrees : (d d' : PackMacro → Map Text → Outputs Emit → Outputs Emit) → PackMacro → Type 0
  Agrees d d' t = (args : Map Text) (e : Outputs Emit) → d t args e ≡ d' t args e

  module _ (d d' : PackMacro → Map Text → Outputs Emit → Outputs Emit) where
    expand_kind-Agrees :
        (m : PackMacro) (args : Map Text) (scoped : Bindings) (s : MacroStep) (e : Outputs Emit)
        (k : MacroStepKind)
        → ((t : PackMacro) → target_of set k ≡ some t → Agrees d d' t)
        → expand_kind leaves set binds d m args scoped s k e
          ≡ expand_kind leaves set binds d' m args scoped s k e
    expand_kind-Agrees m args scoped s e (payload k p) h = refl
    expand_kind-Agrees m args scoped s e (ref t) h = refl
    expand_kind-Agrees m args scoped s e (use_macro t with_args) h =
        of_target (find_use_target set t) refl
      where
        of_target :
            (o : Option PackMacro)
            → find_use_target set t ≡ o
            → expand_use leaves set binds d m args with_args (find_use_target set t) e
              ≡ expand_use leaves set binds d' m args with_args (find_use_target set t) e
        of_target none f = rw f refl
        of_target (some n) f =
            let r = resolve_args leaves set binds m args with_args [] e in rw f (h n f r.0 r.1)

    expand_steps-Agrees :
        (m : PackMacro) (args : Map Text) (scoped : Bindings) (ss : List MacroStep)
        (e : Outputs Emit)
        → All (Agrees d d') (step_targets set ss)
        → expand_steps leaves set binds d m args scoped ss e
          ≡ expand_steps leaves set binds d' m args scoped ss e
    unfolding expand_steps step_targets
    expand_steps-Agrees m args scoped [] e h = refl
    expand_steps-Agrees m args scoped (s ∷ ss) e h = elim (Option-cases (target_of set s.kind)) [
      | inl here ↦
          ap (expand_steps leaves set binds d m args scoped ss)
            (expand_kind-Agrees m args scoped s e s.kind (λ t f. absurd (ground arith)))
          ∙ expand_steps-Agrees m args scoped ss
              (expand_kind leaves set binds d' m args scoped s s.kind e) (rw here at h)
      | inr (t, here) ↦
          let both : Agrees d d' t × All (Agrees d d') (step_targets set ss) = rw here at h in
          ap (expand_steps leaves set binds d m args scoped ss) (
            expand_kind-Agrees m args scoped s e s.kind
              (λ u f. let same : t ≡ u = ground arith in subst (Agrees d d') same both.0))
          ∙ expand_steps-Agrees m args scoped ss
              (expand_kind leaves set binds d' m args scoped s s.kind e) both.1
    ]

    expand_body-Agrees :
        (m : PackMacro) (args : Map Text) (b : MacroBody) (scoped : Bindings) (e : Outputs Emit)
        → All (Agrees d d') (body_targets set b)
        → expand_body leaves set binds d m args b scoped e
          ≡ expand_body leaves set binds d' m args b scoped e
    expand_body-Agrees m args (expect items) scoped e h = refl
    expand_body-Agrees m args (steps ss) scoped e h = expand_steps-Agrees m args scoped ss e h

  expand_macro-Agrees :
      (report report' : PackMacro → Outputs Emit → Outputs Emit) (chains : Map ℕ)
      (known : IsPackSet set)
      → IsRanked set chains
      → (levels : ℕ) (m : PackMacro) (args : Map Text) (e : Outputs Emit) → Known set m
      → rank chains m ≤ levels
      → expand_macro leaves set binds report levels m args e
        ≡ expand_macro leaves set binds report' levels m args e
  unfolding expand_macro use_targets
  expand_macro-Agrees report report' chains known ranked zero m args e k le =
      let r = rank-max_chain set chains known ranked m k in absurd (ground arith)
  expand_macro-Agrees report report' chains known ranked (suc levels) m args e k le =
      let r = scope_bindings leaves.resolve binds m args e in
      expand_body-Agrees (expand_macro leaves set binds report levels)
        (expand_macro leaves set binds report' levels) m args m.body r.0 r.1
        (All-zip
          (λ (t : PackMacro) kt lt. λ (args' : Map Text) (e' : Outputs Emit).
            expand_macro-Agrees report report' chains known ranked levels t args' e' kt
              (omega (arith, lt)))
          (use_targets set m) (use_targets-Known set known m)
          (rank-use_targets set chains known ranked m k))

-- If the macros of the packs are kept under their names and the pass over `use:` reports nothing, then
-- the expansion of no macro of the packs reaches its limit: what is done there makes no difference.
pub expand_macro-report :
    {Emit : Type 0} (leaves : Leaves Emit) (set : PackSet) (binds : Map (Map Text))
    (report report' : PackMacro → Outputs Emit → Outputs Emit) (m : PackMacro) (args : Map Text)
    (e : Outputs Emit)
    → IsPackSet set
    → use_graph_passes set ≡ []
    → lookup m.name set ≡ some m
    → expand_macro leaves set binds report (suc max_expansion_depth) m args e
      ≡ expand_macro leaves set binds report' (suc max_expansion_depth) m args e
expand_macro-report leaves set binds report report' m args e known h k =
    let r = use_graph_passes-IsShallow set known h in
    let chains = (visit_all set set blank).chains in
    let le = rank-le set known chains set m.name m r.1 k in
    expand_macro-Agrees leaves set binds report report' chains known r.0 (suc max_expansion_depth) m
      args e k (omega (arith, le))
