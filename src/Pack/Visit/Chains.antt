-- ===== src/Pack/Visit/Chains.antt =====
-- crates/proef-core/src/pack/validate.rs: chains of macros, each using the next.
use proef.Base.{
  ℕ, zero, suc, ◌+◌, ◌≤◌, ◌<◌, ◌≡◌, sym, subst, List, [], ◌∷◌, ◌++◌, Any, length, length-append,
  inl, inr, arith,
}
use proef.Pack.{PackMacro, PackSet}
use proef.Pack.Visit.{use_targets}
use proef.Pack.Visit.Known.{Known, Known-unique}

module _ (set : PackSet) where
  abbrev pub Uses : PackMacro → PackMacro → Type 0
  Uses m n = Any (λ (t : PackMacro). t ≡ n) (use_targets set m)

  -- Macros of the set, each using the next.
  abbrev pub IsChain : List PackMacro → Type 0
  IsChain [] = Unit
  IsChain (m ∷ []) = Known set m
  IsChain (m ∷ n ∷ ms) = Known set m × Uses m n × IsChain (n ∷ ms)

  -- Macros of the set, each used by the next.
  abbrev pub IsTrail : List PackMacro → Type 0
  IsTrail [] = Unit
  IsTrail (m ∷ []) = Known set m
  IsTrail (n ∷ m ∷ ms) = Known set n × Uses m n × IsTrail (m ∷ ms)

  pub IsChain-Known : (m : PackMacro) (ms : List PackMacro) → IsChain (m ∷ ms) → Known set m
  IsChain-Known m [] c = c
  IsChain-Known m (n ∷ ms) c = c.0

  pub IsTrail-Known : (m : PackMacro) (ms : List PackMacro) → IsTrail (m ∷ ms) → Known set m
  IsTrail-Known m [] c = c
  IsTrail-Known m (n ∷ ms) c = c.0

  pub IsTrail-tail : (m : PackMacro) (ms : List PackMacro) → IsTrail (m ∷ ms) → IsTrail ms
  IsTrail-tail m [] c = tt
  IsTrail-tail m (n ∷ ms) c = c.2

  abbrev turned : List PackMacro → List PackMacro → List PackMacro
  turned [] later = later
  turned (m ∷ ms) later = turned ms (m ∷ later)

  turned-IsChain :
      (m : PackMacro) (before later : List PackMacro)
      → IsTrail (m ∷ before)
      → IsChain (m ∷ later)
      → IsChain (turned before (m ∷ later))
  turned-IsChain m [] later t c = c
  turned-IsChain m (p ∷ before) later t c =
      turned-IsChain p before (m ∷ later) t.2 (IsTrail-Known p before t.2, t.1, c)

  length-turned : (ms later : List PackMacro) → length (turned ms later) ≡ length ms + length later
  length-turned [] later = omega arith
  length-turned (m ∷ ms) later = omega (arith, length-turned ms (m ∷ later))

  -- A chain of more than 32 macros.
  abbrev pub TooLong : Type 0
  TooLong = (ms : List PackMacro) × IsChain ms × (32 < length ms)

  pub IsTrail-TooLong : (ms : List PackMacro) → IsTrail ms → 32 < length ms → TooLong
  IsTrail-TooLong [] t l = absurd (ground arith)
  IsTrail-TooLong (m ∷ ms) t l = (
    turned ms (m ∷ []),
    turned-IsChain m ms [] t (IsTrail-Known m ms t),
    omega (arith, length-turned ms (m ∷ [])),
  )

  -- The trail from its first macro to one that it closes back to.
  module _ (m t : PackMacro) (closes : Uses m t) where
    loop_to :
        (p : PackMacro) (ps : List PackMacro)
        → Known set t
        → IsTrail (p ∷ ps)
        → Any (λ (q : PackMacro). q.name ≡ t.name) (p ∷ ps)
        → (qs : List PackMacro) × ((more : List PackMacro)
            → IsTrail (m ∷ more)
            → IsTrail ((p ∷ qs) ++ (m ∷ more)))
    loop_to p ps k c (inl e) =
        let here : p ≡ t = Known-unique set p t (IsTrail-Known p ps c) k e in
        ([], λ more d. (IsTrail-Known p ps c, subst (Uses m) (sym here) closes, d))
    loop_to p [] k c (inr a) = elim a [ ]
    loop_to p (q ∷ ps) k c (inr a) =
        let r = loop_to q ps k c.2 a in (q ∷ r.0, λ more d. (c.0, c.1, r.1 more d))

  -- Going round as often as it takes.
  pub loop-TooLong :
      (m t : PackMacro) (ps : List PackMacro)
      → Uses m t
      → Known set t
      → IsTrail (m ∷ ps)
      → Any (λ (q : PackMacro). q.name ≡ t.name) (m ∷ ps)
      → TooLong
  loop-TooLong m t ps closes k c a =
      let r = loop_to m t closes m ps k c a in
      let far = rounds 33 r.0 r.1 in IsTrail-TooLong (m ∷ far.0) far.1 (omega (arith, far.2))
    where
      rounds :
          (n : ℕ) (qs : List PackMacro)
          → ((more : List PackMacro) → IsTrail (m ∷ more) → IsTrail ((m ∷ qs) ++ (m ∷ more)))
          → (more : List PackMacro) × IsTrail (m ∷ more) × (n ≤ length more)
      rounds zero qs step = ([], IsTrail-Known m ps c, omega arith)
      rounds (suc n) qs step =
          let r = rounds n qs step in
          (qs ++ (m ∷ r.0), step r.0 r.1, omega (arith, length-append qs (m ∷ r.0), r.2))
