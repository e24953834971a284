-- ===== src/Pack/Uses/Deep.antt =====
-- crates/proef-core/src/pack/validate.rs: a chain that is too deep is reported.
use proef.Base.{
  ℕ, zero, suc, ◌+◌, ◌≤◌, ◌<◌, ◌≡◌, refl, sym, ap, subst, ◌∙◌, false, Option, some, List, [], ◌∷◌,
  All, All-map, Any, any, reverse, reverse-cons, length, length-append, leb, ltb, max, inl, inr,
  Any-All, Bool-cases, List-cases, arith,
}
use proef.Base.Texts.{text_eq, text_eq_iff}
use proef.Base.Maps.{Map, lookup}
use proef.Pack.{PackMacro, PackSet}
use proef.Pack.Visit.{use_targets, max_chain}
use proef.Pack.Visit.Known.{IsPackSet, Known, use_targets-Known}
use proef.Pack.Visit.Visited.{IsRanked}
use proef.Pack.Uses.{
  max_use_depth, or_one, longest_target, longest_from, longest_use_path, check_depth,
}

abbrev pub rank : Map ℕ → PackMacro → ℕ
rank chains m = or_one (lookup m.name chains)

pub length-reverse : (xs : List PackMacro) → length (reverse xs) ≡ length xs
length-reverse [] = refl
length-reverse (x ∷ xs) =
    ap length (reverse-cons x xs)
    ∙ length-append (reverse xs) (x ∷ [])
    ∙ omega (arith, length-reverse xs)

module _ (set : PackSet) (chains : Map ℕ) (known : IsPackSet set)
    (ranked : IsRanked set chains) where
  pub rank-max_chain :
      (m : PackMacro) → Known set m → rank chains m ≡ suc (max_chain chains (use_targets set m))
  rank-max_chain m k = ap or_one (ranked m k)

  rank-le-max_chain :
      (ms : List PackMacro)
      → All (Known set) ms
      → All (λ (t : PackMacro). rank chains t ≤ max_chain chains ms) ms
  unfolding max_chain
  rank-le-max_chain [] k = tt
  rank-le-max_chain (m ∷ ms) k =
      let e = ranked m k.0 in
      (
        (rw e (omega arith)),
        All-map (λ (t : PackMacro) h. rw e (omega (arith, h))) ms (rank-le-max_chain ms k.1),
      )

  -- A target's chain is shorter.
  pub rank-use_targets :
      (m : PackMacro)
      → Known set m
      → All (λ (t : PackMacro). rank chains t < rank chains m) (use_targets set m)
  rank-use_targets m k =
      All-map (λ (t : PackMacro) h. omega (arith, h, rank-max_chain m k)) (use_targets set m)
        (rank-le-max_chain (use_targets set m) (use_targets-Known set known m))

  abbrev Higher : ℕ → List PackMacro → Type 0
  Higher n path = All (λ (p : PackMacro). n < rank chains p) path

  -- A macro of a smaller chain is not on the path.
  not_on_path :
      (m : PackMacro) (path : List PackMacro)
      → Higher (rank chains m) path
      → any (λ (p : PackMacro). text_eq p.name m.name) path ≡ false
  not_on_path m [] h = refl
  not_on_path m (p ∷ path) h = elim (Bool-cases (text_eq p.name m.name)) [
    | inl e ↦
        let same = ap (λ n. or_one (lookup n chains)) ((text_eq_iff p.name m.name).0 e) in
        let lt = h.0 in ground arith
    | inr e ↦ rw e (not_on_path m path h.1)
  ]

  -- The best target is one of those whose chain is greatest.
  record Best (ms : List PackMacro) (o : Option PackMacro) : Type 0 where
    next : PackMacro
    found : o ≡ some next
    greatest : max_chain chains ms ≤ rank chains next
    one : Any (λ (t : PackMacro). t ≡ next) ms

  longest_target-Best :
      (path : List PackMacro) (m : PackMacro) (ms : List PackMacro)
      → All (Known set) (m ∷ ms)
      → All (λ (t : PackMacro). Higher (rank chains t) path) (m ∷ ms)
      → Best (m ∷ ms) (longest_target chains path (m ∷ ms))
  unfolding longest_target max_chain
  longest_target-Best path m [] k h =
      let off = not_on_path m path h.0 in
      record {
        next = m;
        found = rw off refl;
        greatest = rw (ranked m k.0) (omega arith);
        one = inl refl;
      }
  longest_target-Best path m (n ∷ ms) k h =
      let off = not_on_path m path h.0 in
      let b = longest_target-Best path n ms k.1 h.1 in
      let least = b.greatest in
      let best : max_chain chains (m ∷ n ∷ ms) ≡ max (rank chains m) (max_chain chains (n ∷ ms)) =
        rw (ranked m k.0) refl in
      elim (Bool-cases (ltb (rank chains b.next) (rank chains m))) [
        | inl lt ↦ record {
          next = m;
          found = rw (off, b.found, lt) refl;
          greatest = rw best (ground arith);
          one = inl refl;
        }
        | inr ge ↦ record {
          next = b.next;
          found = rw (off, b.found, ge) refl;
          greatest = rw best (ground arith);
          one = inr b.one;
        }
      ]

  Higher-targets :
      (n : ℕ) (path ms : List PackMacro)
      → All (λ (p : PackMacro). n ≤ rank chains p) path
      → All (λ (t : PackMacro). rank chains t < n) ms
      → All (λ (t : PackMacro). Higher (rank chains t) path) ms
  Higher-targets n path [] h t = tt
  Higher-targets n path (m ∷ ms) h t = (
    All-map (λ (p : PackMacro) a. (let b = t.0 in omega (arith, a))) path h,
    Higher-targets n path ms h t.1,
  )

  -- From a macro whose chain is long enough, the path is as long as it may be.
  length-longest_from :
      (fuel : ℕ) (before : List PackMacro) (cur : PackMacro)
      → Known set cur
      → All (λ (p : PackMacro). rank chains cur ≤ rank chains p) before
      → fuel < rank chains cur
      → length (longest_from set fuel chains before cur) ≡ suc (length before) + fuel
  unfolding longest_from max_chain
  length-longest_from zero before cur k h lt = omega arith
  length-longest_from (suc fuel) before cur k h lt = elim (List-cases (use_targets set cur)) [
    | inl e ↦
        let r : rank chains cur ≡ suc (max_chain chains []) = rw e at (rank-max_chain cur k) in
        absurd (ground arith)
    | inr (t, ts, e) ↦
        let ks = subst (All (Known set)) e (use_targets-Known set known cur) in
        let lower =
          subst (All (λ (t : PackMacro). rank chains t < rank chains cur)) e
            (rank-use_targets cur k) in
        let b =
          longest_target-Best (cur ∷ before) t ts ks
            (Higher-targets (rank chains cur) (cur ∷ before) (t ∷ ts) (omega arith, h) lower) in
        let kb = Any-All (Known set) b.next (t ∷ ts) b.one ks in
        let lb : rank chains b.next < rank chains cur =
          Any-All (λ (t : PackMacro). rank chains t < rank chains cur) b.next (t ∷ ts) b.one
            lower in
        let m : max_chain chains (t ∷ ts) ≤ rank chains b.next = b.greatest in
        let r : rank chains cur ≡ suc (max_chain chains (t ∷ ts)) =
          rw e at (rank-max_chain cur k) in
        let longer =
          length-longest_from fuel (cur ∷ before) b.next kb
            (omega arith, All-map (λ (p : PackMacro) a. omega (arith, a, lb)) before h)
            (omega (arith, m, r)) in
        let found : longest_target chains (cur ∷ before) (use_targets set cur) ≡ some b.next =
          subst (λ l. longest_target chains (cur ∷ before) l ≡ some b.next) (sym e) b.found in
        rw (found, longest_from) (omega (arith, longer))
  ]

  pub check_depth-le :
      (m : PackMacro) → Known set m → check_depth set chains m ≡ [] → rank chains m ≤ 32
  unfolding check_depth longest_use_path
  check_depth-le m k h = elim (Bool-cases (leb (rank chains m) max_use_depth)) [
    | inl le ↦ ground arith
    | inr gt ↦
        let l = length-longest_from max_use_depth [] m k tt (ground arith) in
        let r = length-reverse (longest_from set max_use_depth chains [] m) in ground (arith)
  ]
