-- ===== src/Matcher/Problems/Sound.antt =====
-- crates/proef-core/src/matcher.rs: the patterns in which `pattern_problems` finds nothing.
use mathlib.Core.Bool.{true≢false}
use proef.Base.{
  sym, ◌∙◌, ◌||◌, ◌≡◌, ◌≢◌, ◌↔◌, refl, Bool, true, false, List, [], ◌∷◌, ◌++◌, any, All, Any, arith,
  if◌then◌else◌, Bool-cases, inl, inr,
}
use proef.Base.Texts.{Text, text_eq, text_eq_iff, trim}
use proef.Base.Maps.{TextSet, contains, set_insert, contains-set_insert}
use proef.Matcher.{Token, literal, capture, is_empty, tokenize, open_brace, close_brace}
use proef.Matcher.Problems.{
  PatternProblem, no_anchor, duplicate_capture, is_anchor, adjacent_at, adjacent, note_duplicate,
  duplicates, has_char, token_problem, token_problems, pattern_problems,
}

abbrev pub captures : List Token → List Text
captures [] = []
captures (literal _ ∷ ts) = captures ts
captures (capture name ∷ ts) = name ∷ captures ts

abbrev pub Distinct : List Text → Type 0
Distinct [] = Unit
Distinct (n ∷ ns) = All (λ m. m ≢ n) ns × Distinct ns

-- A literal with text that is not all spaces.
abbrev pub IsAnchor : Token → Type 0
IsAnchor (literal lit) = trim lit ≢ []
IsAnchor (capture _) = ⊥

abbrev pub Apart : Token → List Token → Type 0
Apart (capture _) (capture _ ∷ _) = ⊥
Apart _ _ = Unit

abbrev pub AllApart : List Token → Type 0
AllApart [] = Unit
AllApart (t ∷ ts) = Apart t ts × AllApart ts

-- A literal without braces; a capture that names a parameter.
abbrev pub IsKnown : List Text → Token → Type 0
IsKnown params (literal lit) = All (λ c. (c ≢ open_brace) × (c ≢ close_brace)) lit
IsKnown params (capture name) = (name ≢ []) × Any (λ p. p ≡ name) params

pub record IsSound (params : List Text) (ts : List Token) : Type 0 where
  pub anchored : Any IsAnchor ts
  pub apart : AllApart ts
  pub distinct : Distinct (captures ts)
  pub known : All (IsKnown params) ts

any_iff {ℓ} :
    {A : Type ℓ} (p : A → Bool) (P : A → Type 0) (xs : List A)
    → ((x : A) → (p x ≡ true) ↔ P x)
    → (any p xs ≡ true) ↔ Any P xs
any_iff p P [] h = ground arith
any_iff p P (x ∷ xs) h = ground (arith, h x, any_iff p P xs h)

append-eq-nil : (xs ys : List PatternProblem) → (xs ++ ys ≡ []) ↔ ((xs ≡ []) × (ys ≡ []))
append-eq-nil [] ys = ground arith
append-eq-nil (x ∷ xs) ys = ground arith

is_empty_iff : (s : Text) → (is_empty s ≡ true) ↔ (s ≡ [])
unfolding is_empty
is_empty_iff [] = ground arith
is_empty_iff (c ∷ s) = ground arith

is_anchor_iff : (t : Token) → (is_anchor t ≡ true) ↔ IsAnchor t
unfolding is_anchor
is_anchor_iff (literal lit) = ground (arith, is_empty_iff (trim lit))
is_anchor_iff (capture n) = ground arith

adjacent_at_iff : (t : Token) (ts : List Token) → (adjacent_at t ts ≡ []) ↔ Apart t ts
unfolding adjacent_at
adjacent_at_iff (capture a) (capture b ∷ ts) = ground arith
adjacent_at_iff (capture a) (literal b ∷ ts) = ground arith
adjacent_at_iff (capture a) [] = ground arith
adjacent_at_iff (literal a) ts = ground arith

adjacent_iff : (ts : List Token) → (adjacent ts ≡ []) ↔ AllApart ts
unfolding adjacent
adjacent_iff [] = ground arith
adjacent_iff (t ∷ ts) =
    ground
      (arith, append-eq-nil (adjacent_at t ts) (adjacent ts), adjacent_at_iff t ts, adjacent_iff ts)

-- No name is among those seen, and none comes twice.
abbrev Fresh : TextSet → List Text → Type 0
Fresh seen [] = Unit
Fresh seen (n ∷ ns) = (contains n seen ≡ false) × Fresh (set_insert n seen) ns

note_duplicate-ne-nil :
    (seen : TextSet) (p : PatternProblem) (ps : List PatternProblem) (n : Text)
    → note_duplicate seen (p ∷ ps) n ≢ []
unfolding note_duplicate
note_duplicate-ne-nil seen p ps n = ground arith

duplicates-ne-nil :
    (seen : TextSet) (ps : List PatternProblem) (ts : List Token)
    → ps ≢ []
    → duplicates seen ps ts ≢ []
unfolding duplicates
duplicates-ne-nil seen ps [] h = h
duplicates-ne-nil seen ps (literal _ ∷ ts) h = duplicates-ne-nil seen ps ts h
duplicates-ne-nil seen [] (capture n ∷ ts) h = absurd (h refl)
duplicates-ne-nil seen (p ∷ ps) (capture n ∷ ts) h =
    duplicates-ne-nil (set_insert n seen) (note_duplicate seen (p ∷ ps) n) ts
      (note_duplicate-ne-nil seen p ps n)

note_duplicate-nil :
    (seen : TextSet) (n : Text)
    → note_duplicate seen [] n ≡ (if contains n seen then duplicate_capture n ∷ [] else [])
unfolding note_duplicate
note_duplicate-nil seen n = ground arith

duplicates_iff :
    (seen : TextSet) (ts : List Token) → (duplicates seen [] ts ≡ []) ↔ Fresh seen (captures ts)
unfolding duplicates
duplicates_iff seen [] = ground arith
duplicates_iff seen (literal _ ∷ ts) = duplicates_iff seen ts
duplicates_iff seen (capture n ∷ ts) = elim (Bool-cases (contains n seen)) [
  | inl h ↦
      rw (note_duplicate-nil seen n, h)
        (
          (λ e.
              absurd
                (duplicates-ne-nil (set_insert n seen) (duplicate_capture n ∷ []) ts (λ q. cc) e)),
          λ e. cc,
        )
  | inr h ↦
      rw (note_duplicate-nil seen n, h)
        (
          λ e. (refl, (duplicates_iff (set_insert n seen) ts).0 e),
          λ (_, f). (duplicates_iff (set_insert n seen) ts).1 f,
        )
]

unseen_iff :
    (seen : TextSet) (n : Text) (ns : List Text)
    → All (λ m. contains m (set_insert n seen) ≡ false) ns
      ↔ (All (λ m. contains m seen ≡ false) ns × All (λ m. m ≢ n) ns)
unseen_iff seen n [] = ((λ _. (tt, tt)), λ _. tt)
unseen_iff seen n (m ∷ ns) =
    ground (arith, contains-set_insert n m seen, text_eq_iff n m, unseen_iff seen n ns)

Fresh-iff :
    (seen : TextSet) (ns : List Text)
    → Fresh seen ns ↔ (All (λ n. contains n seen ≡ false) ns × Distinct ns)
Fresh-iff seen [] = ((λ _. (tt, tt)), λ _. tt)
Fresh-iff seen (n ∷ ns) = ground (arith, Fresh-iff (set_insert n seen) ns, unseen_iff seen n ns)

no_brace_iff :
    (s : Text)
    → ((has_char open_brace s || has_char close_brace s) ≡ false)
      ↔ All (λ c. (c ≢ open_brace) × (c ≢ close_brace)) s
unfolding has_char
no_brace_iff [] = ((λ _. tt), λ _. refl)
no_brace_iff (c ∷ s) = ground (arith, no_brace_iff s)

token_problem_iff :
    (params : List Text) (t : Token) → (token_problem params t ≡ []) ↔ IsKnown params t
unfolding token_problem
token_problem_iff params (literal lit) =
    elim (Bool-cases (has_char open_brace lit || has_char close_brace lit)) [
      | inl h ↦ rw h ((λ e. cc), λ a. absurd (true≢false (sym h ∙ (no_brace_iff lit).1 a)))
      | inr h ↦ rw h ((λ _. (no_brace_iff lit).0 h), λ _. refl)
    ]
token_problem_iff params (capture name) = ground (
  arith,
  is_empty_iff name,
  any_iff (λ p. text_eq p name) (λ p. p ≡ name) params (λ p. text_eq_iff p name),
)

token_problems_iff :
    (params : List Text) (ts : List Token)
    → (token_problems params ts ≡ []) ↔ All (IsKnown params) ts
unfolding token_problems
token_problems_iff params [] = ((λ _. tt), λ _. refl)
token_problems_iff params (t ∷ ts) = ground (
  arith,
  append-eq-nil (token_problem params t) (token_problems params ts),
  token_problem_iff params t,
  token_problems_iff params ts,
)

duplicates-eq-nil :
    (ps : List PatternProblem) (ts : List Token)
    → (duplicates [] ps ts ≡ []) ↔ ((ps ≡ []) × Fresh [] (captures ts))
duplicates-eq-nil [] ts =
    ((λ e. (refl, (duplicates_iff [] ts).0 e)), λ (_, f). (duplicates_iff [] ts).1 f)
duplicates-eq-nil (p ∷ ps) ts =
    ((λ e. absurd (duplicates-ne-nil [] (p ∷ ps) ts (λ q. cc) e)), λ (q, _). cc)

unseen-nil : (ns : List Text) → All (λ n. contains n [] ≡ false) ns
unfolding contains
unseen-nil [] = tt
unseen-nil (n ∷ ns) = (refl, unseen-nil ns)

anchored_iff :
    (ts : List Token) → ((if any is_anchor ts then [] else no_anchor ∷ []) ≡ []) ↔ Any IsAnchor ts
anchored_iff ts = ground (arith, any_iff is_anchor IsAnchor ts is_anchor_iff)

-- A pattern has no problems exactly when some literal of it has text other than spaces, no two
-- captures stand side by side, no capture comes twice, no literal holds a brace, and every capture
-- has a name that is a declared parameter.
pub pattern_problems-eq-nil_iff :
    (pattern : Text) (params : List Text)
    → (pattern_problems pattern params ≡ []) ↔ IsSound params (tokenize pattern)
unfolding pattern_problems
pattern_problems-eq-nil_iff pattern params =
    let ts = tokenize pattern in
    let start : List PatternProblem = if any is_anchor ts then [] else no_anchor ∷ [] in
    (
      λ e.
          let (d, k) = (append-eq-nil (duplicates [] (start ++ adjacent ts) ts) _).0 e in
          let (n, f) = (duplicates-eq-nil (start ++ adjacent ts) ts).0 d in
          let (a, s) = (append-eq-nil start (adjacent ts)).0 n in
          record {
            anchored = (anchored_iff ts).0 a;
            apart = (adjacent_iff ts).0 s;
            distinct = ((Fresh-iff [] (captures ts)).0 f).1;
            known = (token_problems_iff params ts).0 k;
          },
      λ sound.
          let n =
            (append-eq-nil start (adjacent ts)).1
              ((anchored_iff ts).1 sound.anchored, (adjacent_iff ts).1 sound.apart) in
          let f = (Fresh-iff [] (captures ts)).1 (unseen-nil (captures ts), sound.distinct) in
          (append-eq-nil (duplicates [] (start ++ adjacent ts) ts) _).1 (
            (duplicates-eq-nil (start ++ adjacent ts) ts).1 (n, f),
            (token_problems_iff params ts).1 sound.known,
          ),
    )
