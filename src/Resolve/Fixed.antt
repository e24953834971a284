-- ===== src/Resolve/Fixed.antt =====
-- crates/proef-core/src/resolve.rs: the text after the passes of `resolve`.
use proef.Base.{
  ℕ, zero, suc, ◌+◌, ◌≤◌, ◌<◌, ◌≡◌, refl, ap, subst, true, false, Option, none, some, ◌∷◌, ◌++◌,
  length, length-append, is_some, sym, arith, Option-cases, inl, inr,
}
use proef.Base.Texts.{Text, codes}
use proef.Resolve.{
  Reference, first_reference, unescape, Resolved, ok, failed, depth_exceeded, Passed, went, stopped,
  Lookup, found, missing, put_before, pass_from, resolve_pass, give_up, resolve_within, resolve,
}
use proef.Resolve.References.{
  IsFirst, NoReference, IsFirst-first_reference, first_reference-IsFirst, first_reference-none,
}
use proef.Resolve.Scanning.{Splits, first_reference-Splits}

is_some-none : {A : Type 0} (o : Option A) → is_some o ≡ false → o ≡ none
is_some-none none h = refl
is_some-none (some a) h = absurd (ground arith)

some_IsFirst : (t : Text) → is_some (first_reference t) ≡ true → (r : Reference) × IsFirst t r
some_IsFirst t h = elim (Option-cases (first_reference t)) [
  | inl e ↦ absurd (ground arith)
  | inr (r, e) ↦ (r, first_reference-IsFirst t r e)
]

-- What is left after a reference is shorter.
shorter :
    (t before name after : Text)
    → first_reference t ≡ some (before, (name, after))
    → length after + 3 ≤ length t
shorter t before name after e =
    let (same, free) = subst (Splits t) e (first_reference-Splits t) in
    rw same (
      omega (
        arith,
        length-append (before ++ codes "${" ++ name) (125 ∷ after),
        length-append (before ++ codes "${") name,
        length-append before (codes "${"),
      ))

module _ {State Error : Type 0} (lookup : Text → State → Lookup State Error) where
  -- One pass: every reference of the text, from left to right, gives way to what its name stands for.
  pub data Replaced : Text → State → Text → State → Type 0 where
    none_left : {t : Text} {s : State} → NoReference t → Replaced t s t s
    replaced :
        {t before name after value rest : Text} {s s' s'' : State}
        → IsFirst t (before, (name, after))
        → lookup name s ≡ found value s'
        → Replaced after s' rest s''
        → Replaced t s ((before ++ value) ++ rest) s''

  -- A pass that comes to a name which stands for nothing.
  pub data Stops : Text → State → Error → Type 0 where
    unknown :
        {t before name after : Text} {s : State} {e : Error}
        → IsFirst t (before, (name, after))
        → lookup name s ≡ missing e
        → Stops t s e
    later :
        {t before name after value : Text} {s s' : State} {e : Error}
        → IsFirst t (before, (name, after))
        → lookup name s ≡ found value s'
        → Stops after s' e
        → Stops t s e

  -- So many passes, each over a text with a reference.
  abbrev pub Passes : ℕ → Text → State → Text → State → Type 0
  Passes zero t s u s' = (t ≡ u) × (s ≡ s')
  Passes (suc k) t s u s' =
      (v : Text) × (s1 : State) × (((r : Reference) × IsFirst t r)
        × (Replaced t s v s1 × Passes k v s1 u s'))

  -- What the passes make of a text: a text without a reference, whose escapes are then taken off; the
  -- error of a name; or, after all the passes, a text in which there is a reference.
  abbrev pub Resolves : ℕ → Text → State → Resolved State Error → Type 0
  Resolves passes t s (ok text s') =
      (k : ℕ) × (u : Text) × ((k ≤ passes)
        × (Passes k t s u s' × (NoReference u × (text ≡ unescape u))))
  Resolves passes t s (failed e) =
      (k : ℕ) × (u : Text) × (s' : State) × ((k < passes) × (Passes k t s u s' × Stops u s' e))
  Resolves passes t s (depth_exceeded name) =
      (u : Text) × (s' : State) × (r : Reference) × (Passes passes t s u s'
        × (IsFirst u r × (r.1.0 ≡ name)))

  -- What the loop of a pass gives.
  abbrev PassesTo : Text → State → Passed State Error → Type 0
  PassesTo t s (went u b s') = Replaced t s u s' × (b ≡ is_some (first_reference t))
  PassesTo t s (stopped e) = Stops t s e

  after_found :
      (t before name after value : Text) (s s' : State) (r : Passed State Error)
      → first_reference t ≡ some (before, (name, after))
      → lookup name s ≡ found value s'
      → PassesTo after s' r
      → PassesTo t s (put_before (before ++ value) r)
  after_found t before name after value s s' (went u b s'') e f (all, _) =
      (replaced (first_reference-IsFirst t (before, (name, after)) e) f all, rw e refl)
  after_found t before name after value s s' (stopped x) e f h =
      later (first_reference-IsFirst t (before, (name, after)) e) f h

  looked :
      (fuel : ℕ) (t before name after : Text) (s : State)
      → first_reference t ≡ some (before, (name, after))
      → ((s' : State) → PassesTo after s' (pass_from fuel lookup after s'))
      → (l : Lookup State Error) → lookup name s ≡ l
      → PassesTo t s (elim l [
        | missing x ↦ stopped x
        | found v s' ↦ put_before (before ++ v) (pass_from fuel lookup after s')
      ])
  looked fuel t before name after s e go_on (missing x) f =
      unknown (first_reference-IsFirst t (before, (name, after)) e) f
  looked fuel t before name after s e go_on (found v s') f =
      after_found t before name after v s s' (pass_from fuel lookup after s') e f (go_on s')

  pass_from-PassesTo :
      (fuel : ℕ) (t : Text) (s : State) → length t < fuel → PassesTo t s (pass_from fuel lookup t s)
  unfolding pass_from
  pass_from-PassesTo zero t s h = absurd (omega arith)
  pass_from-PassesTo (suc fuel) t s h = elim (Option-cases (first_reference t)) [
    | inl e ↦ rw (pass_from, e) (none_left (first_reference-none t e), sym (ap is_some e))
    | inr ((before, (name, after)), e) ↦
        rw (pass_from, e)
          (looked fuel t before name after s e
            (λ s'.
              pass_from-PassesTo fuel after s'
                (let less = shorter t before name after e in omega (arith, less)))
            (lookup name s) refl)
  ]

  -- One pass more, in front.
  Resolves-suc :
      (n : ℕ) (t v : Text) (s s1 : State) (r : Resolved State Error)
      → (r' : Reference) × IsFirst t r'
      → Replaced t s v s1
      → Resolves n v s1 r
      → Resolves (suc n) t s r
  Resolves-suc n t v s s1 (ok text s') some_left all (k, u, (le, (ps, rest))) =
      (suc k, u, (omega arith, ((v, s1, (some_left, (all, ps))), rest)))
  Resolves-suc n t v s s1 (failed e) some_left all (k, u, s', (lt, (ps, stops))) =
      (suc k, u, s', (omega arith, ((v, s1, (some_left, (all, ps))), stops)))
  Resolves-suc n t v s s1 (depth_exceeded name) some_left all (u, s', r, (ps, rest)) =
      (u, s', r, ((v, s1, (some_left, (all, ps))), rest))

  give_up-Resolves :
      (t : Text) (s : State) (o : Option Reference)
      → first_reference t ≡ o
      → Resolves zero t s (give_up t s o)
  give_up-Resolves t s none e =
      (0, t, (omega arith, ((refl, refl), (first_reference-none t e, refl))))
  give_up-Resolves t s (some (before, (name, after))) e = (
    t,
    s,
    (before, (name, after)),
    ((refl, refl), (first_reference-IsFirst t (before, (name, after)) e, refl)),
  )

  -- A pass that replaced nothing left its text.
  unchanged :
      {t u : Text} {s s' : State}
      → Replaced t s u s'
      → first_reference t ≡ none
      → (t ≡ u) × (s ≡ s')
  unchanged (none_left e) h = (refl, refl)
  unchanged (replaced e f all) h = let g = IsFirst-first_reference e in absurd (ground arith)

  next-Resolves :
      (n : ℕ) (t : Text) (s : State)
      → ((u : Text) (s' : State) → Resolves n u s' (resolve_within n lookup u s'))
      → (r : Passed State Error) → PassesTo t s r
      → Resolves (suc n) t s (elim r [
        | stopped e ↦ failed e
        | went u true s' ↦ resolve_within n lookup u s'
        | went u false s' ↦ ok (unescape u) s'
      ])
  next-Resolves n t s all (stopped e) h = (0, t, s, (omega arith, ((refl, refl), h)))
  next-Resolves n t s all (went u true s') (whole, some_left) =
      Resolves-suc n t u s s' (resolve_within n lookup u s') (some_IsFirst t (sym some_left)) whole
        (all u s')
  next-Resolves n t s all (went u false s') (whole, none_there) =
      let free = is_some-none (first_reference t) (sym none_there) in
      let (same, kept) = unchanged whole free in
      (
        0,
        u,
        (omega arith, ((same, kept), (subst NoReference same (first_reference-none t free), refl))),
      )

  resolve_within-Resolves :
      (n : ℕ) (t : Text) (s : State) → Resolves n t s (resolve_within n lookup t s)
  unfolding resolve_within resolve_pass
  resolve_within-Resolves zero t s = give_up-Resolves t s (first_reference t) refl
  resolve_within-Resolves (suc n) t s =
      next-Resolves n t s (resolve_within-Resolves n) (resolve_pass lookup t s)
        (pass_from-PassesTo (suc (length t)) t s (omega arith))

-- Whatever a name stands for, `resolve` does what its passes do, where a pass puts in the place of every
-- reference of the text, from left to right, what its name stands for. The text that it gives comes
-- from at most eight passes, each over a text with a reference, and from taking the escapes off the
-- first text without one; its error is that of the first name, within the passes, which stands for
-- nothing; and where it complains of the depth, the name is that of the first reference of the text
-- after eight passes.
pub resolve-Resolves :
    {State Error : Type 0} (lookup : Text → State → Lookup State Error) (t : Text) (s : State)
    → Resolves lookup 8 t s (resolve lookup t s)
unfolding resolve
resolve-Resolves lookup t s = resolve_within-Resolves lookup 8 t s

module _ {State Error : Type 0} where
  agree :
      (front : Text) (l : Lookup State Error) (p q : State → Passed State Error)
      → ((s : State) → p s ≡ q s)
      → (elim l as (λ x. Passed State Error) [
        | missing x ↦ stopped x
        | found v s ↦ put_before (front ++ v) (p s)
      ])
        ≡ (elim l as (λ x. Passed State Error) [
          | missing x ↦ stopped x
          | found v s ↦ put_before (front ++ v) (q s)
        ])
  agree front (missing x) p q h = refl
  agree front (found v s) p q h = ap (put_before (front ++ v)) (h s)

  pass_from-agree :
      (lookup : Text → State → Lookup State Error) (f g : ℕ) (t : Text) (s : State)
      → length t < f
      → length t < g
      → pass_from f lookup t s ≡ pass_from g lookup t s
  unfolding pass_from
  pass_from-agree lookup zero g t s hf hg = absurd (omega arith)
  pass_from-agree lookup (suc f) zero t s hf hg = absurd (omega arith)
  pass_from-agree lookup (suc f) (suc g) t s hf hg = elim (Option-cases (first_reference t)) [
    | inl e ↦ rw (pass_from, e) refl
    | inr ((before, (name, after)), e) ↦
        let less = shorter t before name after e in
        rw (pass_from, e)
          (agree before (lookup name s) (pass_from f lookup after) (pass_from g lookup after)
            (λ s'. pass_from-agree lookup f g after s' (omega arith) (omega arith)))
  ]

-- The fuel of a pass is enough: a pass with more of it gives the same.
pub pass_from-resolve_pass :
    {State Error : Type 0} (lookup : Text → State → Lookup State Error) (fuel : ℕ) (t : Text)
    (s : State)
    → length t < fuel
    → pass_from fuel lookup t s ≡ resolve_pass lookup t s
unfolding resolve_pass
pass_from-resolve_pass lookup fuel t s h =
    pass_from-agree lookup fuel (suc (length t)) t s h (omega arith)
