-- ===== src/Pack/Uses/Walks.antt =====
-- crates/proef-core/src/pack/validate.rs: what a set of packs without a report is.
use proef.Base.{
  ℕ, ◌≤◌, ◌<◌, ◌≡◌, refl, sym, subst, some, List, [], ◌∷◌, ◌++◌, All, length, Any-All, Bool-cases,
  inl, inr, arith,
}
use proef.Base.Texts.{Text, text_eq}
use proef.Base.Maps.{Map, lookup}
use proef.Pack.{PackMacro, PackSet}
use proef.Pack.Visit.{Walk, use_targets, blank, visit_all}
use proef.Pack.Visit.Known.{IsPackSet}
use proef.Pack.Visit.Chains.{IsChain, IsChain-Known}
use proef.Pack.Visit.Visited.{IsRanked, visit_all-IsRanked}
use proef.Pack.Uses.{check_depth, check_depths, use_graph_passes}
use proef.Pack.Uses.Deep.{rank, rank-use_targets, check_depth-le}

append-eq-nil : {A : Type 0} (xs ys : List A) → xs ++ ys ≡ [] → (xs ≡ []) × (ys ≡ [])
append-eq-nil [] ys h = (refl, h)
append-eq-nil (x ∷ xs) ys h = ground arith

-- Every macro of the set has a chain of at most 32.
abbrev pub IsShallow : PackSet → Map ℕ → Type 0
IsShallow set chains = All (λ (e : Text × PackMacro). rank chains e.1 ≤ 32) set

module _ (set : PackSet) (known : IsPackSet set) where
  check_depths-le :
      (chains : Map ℕ) (ranked : IsRanked set chains) (ms : PackSet)
      → All (λ (e : Text × PackMacro). (e.1.name ≡ e.0) × (lookup e.0 set ≡ some e.1)) ms
      → check_depths set chains ms ≡ []
      → All (λ (e : Text × PackMacro). rank chains e.1 ≤ 32) ms
  unfolding check_depths
  check_depths-le chains ranked [] k h = tt
  check_depths-le chains ranked ((j, m) ∷ ms) k h =
      let both = append-eq-nil (check_depth set chains m) (check_depths set chains ms) h in
      let known_m = subst (λ n. lookup n set ≡ some m) (sym k.0.0) k.0.1 in
      (
        check_depth-le set chains known ranked m known_m both.0,
        check_depths-le chains ranked ms k.1 both.1,
      )

  -- Chains that fall along every `use:` and are at most 32.
  pub use_graph_passes-IsShallow :
      use_graph_passes set ≡ []
      → IsRanked set (visit_all set set blank).chains
        × IsShallow set (visit_all set set blank).chains
  unfolding use_graph_passes
  use_graph_passes-IsShallow h =
      let w : Walk = visit_all set set blank in
      let both = append-eq-nil w.diags (check_depths set w.chains set) h in
      let ranked = visit_all-IsRanked set known both.0 in
      (ranked, check_depths-le w.chains ranked set known both.1)

  pub rank-le :
      (chains : Map ℕ) (ms : PackSet) (k : Text) (m : PackMacro)
      → All (λ (e : Text × PackMacro). rank chains e.1 ≤ 32) ms
      → lookup k ms ≡ some m
      → rank chains m ≤ 32
  unfolding lookup
  rank-le chains [] k m h e = ground arith
  rank-le chains ((j, n) ∷ ms) k m h e = elim (Bool-cases (text_eq j k)) [
    | inl same ↦
        let eq : n ≡ m = ground arith in subst (λ (p : PackMacro). rank chains p ≤ 32) eq h.0
    | inr other ↦ rank-le chains ms k m h.1 (ground arith)
  ]

  length-IsChain :
      (chains : Map ℕ) (ranked : IsRanked set chains) (m : PackMacro) (ms : List PackMacro)
      → IsChain set (m ∷ ms)
      → length (m ∷ ms) ≤ rank chains m
  length-IsChain chains ranked m [] c = rw (ranked m c) (omega arith)
  length-IsChain chains ranked m (n ∷ ms) c =
      let lt =
        Any-All (λ (t : PackMacro). rank chains t < rank chains m) n (use_targets set m) c.1
          (rank-use_targets set chains known ranked m c.0) in
      omega (arith, length-IsChain chains ranked n ms c.2, lt)

-- If the macros of the packs are kept under their names and the pass over `use:` reports nothing, then
-- no chain of macros, each using the next, has more than 32 of them.
pub use_graph_passes-IsChain :
    (set : PackSet) (m : PackMacro) (ms : List PackMacro)
    → IsPackSet set
    → use_graph_passes set ≡ []
    → IsChain set (m ∷ ms)
    → length (m ∷ ms) ≤ 32
use_graph_passes-IsChain set m ms known h c =
    let r = use_graph_passes-IsShallow set known h in
    let chains = (visit_all set set blank).chains in
    let le = rank-le set known chains set m.name m r.1 (IsChain-Known set m ms c) in
    omega (arith, length-IsChain set known chains r.0 m ms c, le)
