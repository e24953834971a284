-- ===== src/Tags/Grammar.antt =====
-- crates/proef-core/src/tags.rs: the grammar of tag expressions.
use proef.Base.{
  ℕ, zero, suc, ◌≡◌, refl, sym, ap, subst, ◌∙◌, List, [], ◌∷◌, ◌++◌, length, append_assoc,
}
use proef.Base.Texts.{Text}
use proef.Tags.{
  TagExpr, tag, negation, conjunction, disjunction, Tok, and, or, not_, left_paren, right_paren,
  word, ok, err, ◌>>=◌, Parsed, close_paren, primary, and_rest, or_rest, conjunctions, disjunctions,
  parse_not,
}

-- The token lists of an expression, with `not` before `and` before `or`, both joining to the left;
-- `levels` bounds how deep `not` and parentheses nest.
mutual
  pub data Disjunction : ℕ → List Tok → TagExpr → Type 0 where
    one : {l : ℕ} {ts : List Tok} {e : TagExpr} → Conjunction l ts e → Disjunction l ts e
    either :
        {l : ℕ} {ts us : List Tok} {a b : TagExpr}
        → Disjunction l ts a
        → Conjunction l us b
        → Disjunction l (ts ++ or ∷ us) (disjunction a b)

  pub data Conjunction : ℕ → List Tok → TagExpr → Type 0 where
    single : {l : ℕ} {ts : List Tok} {e : TagExpr} → Operand l ts e → Conjunction l ts e
    both :
        {l : ℕ} {ts us : List Tok} {a b : TagExpr}
        → Conjunction l ts a
        → Operand l us b
        → Conjunction l (ts ++ and ∷ us) (conjunction a b)

  pub data Operand : ℕ → List Tok → TagExpr → Type 0 where
    atom : {l : ℕ} (c : ℕ) (s : Text) → Operand (suc l) (word (c ∷ s) ∷ []) (tag (c ∷ s))
    negated :
        {l : ℕ} {ts : List Tok} {e : TagExpr}
        → Operand l ts e
        → Operand (suc l) (not_ ∷ ts) (negation e)
    grouped :
        {l : ℕ} {ts : List Tok} {e : TagExpr}
        → Disjunction l ts e
        → Operand (suc l) (left_paren ∷ (ts ++ right_paren ∷ [])) e

-- The parser took a reading by `G` off the front of `ts`.
abbrev pub Took : (List Tok → TagExpr → Type 0) → List Tok → TagExpr → List Tok → Type 0
Took G ts e rest = (us : List Tok) × (ts ≡ us ++ rest) × G us e

abbrev pub Sound : (List Tok → TagExpr → Type 0) → (List Tok → Parsed) → Type 0
Sound G p = (ts : List Tok) (e : TagExpr) (rest : List Tok) → p ts ≡ ok (e, rest) → Took G ts e rest

pub >>=-eq-ok :
    (r : Parsed) (k : TagExpr × List Tok → Parsed) {p : TagExpr × List Tok}
    → (r >>= k) ≡ ok p
    → (e : TagExpr) × (rest : List Tok) × (r ≡ ok (e, rest)) × (k (e, rest) ≡ ok p)
>>=-eq-ok (ok (e, rest)) k h = (e, rest, refl, h)
>>=-eq-ok (err e) k h = cc

Took-stop :
    (G : List Tok → TagExpr → Type 0) (us ts : List Tok) (left e : TagExpr) (rest : List Tok)
    → G us left
    → ◌≡◌ {A = Parsed} (ok (left, ts)) (ok (e, rest))
    → Took G (us ++ ts) e rest
Took-stop G us ts left e rest g h =
    let same : left ≡ e = cc in
    let left_over : ts ≡ rest = cc in (us, ap (λ t. us ++ t) left_over, subst (G us) same g)

module _ (l : ℕ) (operand : List Tok → Parsed) where
  and_rest-Sound :
      Sound (Operand l) operand
      → (f : ℕ) (us : List Tok) (left : TagExpr) (ts : List Tok) (e : TagExpr) (rest : List Tok)
      → Conjunction l us left
      → and_rest f operand (left, ts) ≡ ok (e, rest)
      → Took (Conjunction l) (us ++ ts) e rest
  unfolding and_rest
  and_rest-Sound sound zero us left ts e rest g h = cc
  and_rest-Sound sound (suc f) us left (and ∷ ts) e rest g h =
      let (right, rest', q, h') = >>=-eq-ok (operand ts) _ h in
      let (vs, split, g') = sound ts right rest' q in
      let (ws, split', g'') =
        and_rest-Sound sound f (us ++ and ∷ vs) (conjunction left right) rest' e rest (both g g')
          h' in
      (ws, rw split ((sym (append_assoc us (and ∷ vs) rest')) ∙ split'), g'')
  and_rest-Sound sound (suc f) us left ts e rest g h =
      Took-stop (Conjunction l) us ts left e rest g h

  or_rest-Sound :
      Sound (Conjunction l) operand
      → (f : ℕ) (us : List Tok) (left : TagExpr) (ts : List Tok) (e : TagExpr) (rest : List Tok)
      → Disjunction l us left
      → or_rest f operand (left, ts) ≡ ok (e, rest)
      → Took (Disjunction l) (us ++ ts) e rest
  unfolding or_rest
  or_rest-Sound sound zero us left ts e rest g h = cc
  or_rest-Sound sound (suc f) us left (or ∷ ts) e rest g h =
      let (right, rest', q, h') = >>=-eq-ok (operand ts) _ h in
      let (vs, split, g') = sound ts right rest' q in
      let (ws, split', g'') =
        or_rest-Sound sound f (us ++ or ∷ vs) (disjunction left right) rest' e rest (either g g')
          h' in
      (ws, rw split ((sym (append_assoc us (or ∷ vs) rest')) ∙ split'), g'')
  or_rest-Sound sound (suc f) us left ts e rest g h =
      Took-stop (Disjunction l) us ts left e rest g h

conjunctions-Sound :
    (l : ℕ) (operand : List Tok → Parsed)
    → Sound (Operand l) operand
    → Sound (Conjunction l) (conjunctions operand)
unfolding conjunctions
conjunctions-Sound l operand sound ts e rest h =
    let (a, rest', q, h') = >>=-eq-ok (operand ts) _ h in
    let (us, split, g) = sound ts a rest' q in
    rw split (and_rest-Sound l operand sound (suc (length ts)) us a rest' e rest (single g) h')

pub disjunctions-Sound :
    (l : ℕ) (operand : List Tok → Parsed)
    → Sound (Operand l) operand
    → Sound (Disjunction l) (disjunctions operand)
unfolding disjunctions
disjunctions-Sound l operand sound ts e rest h =
    let sound' = conjunctions-Sound l operand sound in
    let (a, rest', q, h') = >>=-eq-ok (conjunctions operand ts) _ h in
    let (us, split, g) = sound' ts a rest' q in
    rw split
      (or_rest-Sound l (conjunctions operand) sound' (suc (length ts)) us a rest' e rest (one g) h')

close_paren-eq-ok :
    (a e : TagExpr) (ts rest : List Tok)
    → close_paren (a, ts) ≡ ok (e, rest)
    → (a ≡ e) × (ts ≡ right_paren ∷ rest)
unfolding close_paren
close_paren-eq-ok a e [] rest h = cc
close_paren-eq-ok a e (right_paren ∷ ts) rest h = (cc, cc)
close_paren-eq-ok a e (_ ∷ ts) rest h = cc

primary-Sound :
    (l : ℕ) (inner : List Tok → Parsed)
    → Sound (Disjunction l) inner
    → Sound (Operand (suc l)) (primary inner)
unfolding primary
primary-Sound l inner sound [] e rest h = cc
primary-Sound l inner sound (left_paren ∷ ts) e rest h =
    let (a, rest', q, h') = >>=-eq-ok (inner ts) close_paren h in
    let (us, split, g) = sound ts a rest' q in
    let (same, closed) = close_paren-eq-ok a e rest' rest h' in
    (
      left_paren ∷ (us ++ right_paren ∷ []),
      ap (λ t. left_paren ∷ t)
          (split ∙ ap (λ t. us ++ t) closed ∙ sym (append_assoc us (right_paren ∷ []) rest)),
      subst (Operand (suc l) _) same (grouped g),
    )
primary-Sound l inner sound (word [] ∷ ts) e rest h = cc
primary-Sound l inner sound (word (c ∷ s) ∷ ts) e rest h =
    Took-stop (Operand (suc l)) (word (c ∷ s) ∷ []) ts (tag (c ∷ s)) e rest (atom c s) h
primary-Sound l inner sound (_ ∷ ts) e rest h = cc

pub parse_not-Sound : (l : ℕ) → Sound (Operand l) (parse_not l)
unfolding parse_not
parse_not-Sound zero ts e rest h = cc
parse_not-Sound (suc l) (not_ ∷ ts) e rest h =
    let (a, rest', q, h') = >>=-eq-ok (parse_not l ts) _ h in
    let (us, split, g) = parse_not-Sound l ts a rest' q in
    rw split (Took-stop (Operand (suc l)) (not_ ∷ us) rest' (negation a) e rest (negated g) h')
parse_not-Sound (suc l) ts e rest h =
    primary-Sound l (disjunctions (parse_not l))
      (disjunctions-Sound l (parse_not l) (parse_not-Sound l)) ts e rest h
