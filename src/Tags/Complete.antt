-- ===== src/Tags/Complete.antt =====
-- crates/proef-core/src/tags.rs: the sentences of the grammar and `parse_or`.
use proef.Base.{
  ℕ, zero, suc, ◌+◌, ◌≤◌, ◌<◌, ◌≡◌, refl, subst, append-nil, ap, ◌∙◌, List, [], ◌∷◌, ◌++◌, length,
  length-append, arith, append_assoc,
}
use proef.Tags.{
  TagExpr, conjunction, disjunction, Tok, and, or, right_paren, ok, err, ◌>>=◌, Parsed, close_paren,
  primary, and_rest, or_rest, conjunctions, disjunctions, parse_not, parse_or,
}
use proef.Tags.Bounds.{size, size-pos, Fits, AllFit, parse_not-Fits, conjunctions-Fits}
use proef.Tags.Grammar.{
  Disjunction, one, either, Conjunction, single, both, Operand, atom, negated, grouped,
}

>>=-ext :
    (n : ℕ) (r : Parsed) (k k' : TagExpr × List Tok → Parsed)
    → Fits n r
    → ((e : TagExpr) (rest : List Tok) → size e + length rest ≤ n → k (e, rest) ≡ k' (e, rest))
    → (r >>= k) ≡ (r >>= k')
>>=-ext n (ok (e, rest)) k k' h f = f e rest h
>>=-ext n (err e) k k' h f = refl

-- The loops do the same on any fuel that covers the tokens.
module _ (operand : List Tok → Parsed) (fit : AllFit operand) where
  and_rest-fuel :
      (f g : ℕ) (left : TagExpr) (ts : List Tok)
      → length ts < f
      → length ts < g
      → and_rest f operand (left, ts) ≡ and_rest g operand (left, ts)
  unfolding and_rest
  and_rest-fuel zero g left ts hf hg = absurd (omega arith)
  and_rest-fuel (suc f) zero left ts hf hg = absurd (omega arith)
  and_rest-fuel (suc f) (suc g) left (and ∷ ts) hf hg =
      >>=-ext (length ts) (operand ts) _ _ (fit ts) (λ right rest h.
        and_rest-fuel f g (conjunction left right) rest (omega (arith, size-pos right))
          (omega (arith, size-pos right)))
  and_rest-fuel (suc f) (suc g) left ts hf hg = refl

  or_rest-fuel :
      (f g : ℕ) (left : TagExpr) (ts : List Tok)
      → length ts < f
      → length ts < g
      → or_rest f operand (left, ts) ≡ or_rest g operand (left, ts)
  unfolding or_rest
  or_rest-fuel zero g left ts hf hg = absurd (omega arith)
  or_rest-fuel (suc f) zero left ts hf hg = absurd (omega arith)
  or_rest-fuel (suc f) (suc g) left (or ∷ ts) hf hg =
      >>=-ext (length ts) (operand ts) _ _ (fit ts) (λ right rest h.
        or_rest-fuel f g (disjunction left right) rest (omega (arith, size-pos right))
          (omega (arith, size-pos right)))
  or_rest-fuel (suc f) (suc g) left ts hf hg = refl

abbrev NoAnd : List Tok → Type 0
NoAnd (and ∷ _) = ⊥
NoAnd _ = Unit

abbrev NoOr : List Tok → Type 0
NoOr (or ∷ _) = ⊥
NoOr _ = Unit

module _ (operand : List Tok → Parsed) (e : TagExpr) where
  and_rest-stop : (f : ℕ) (ts : List Tok) → NoAnd ts → and_rest (suc f) operand (e, ts) ≡ ok (e, ts)
  unfolding and_rest
  and_rest-stop f [] h = refl
  and_rest-stop f (and ∷ ts) h = absurd h
  and_rest-stop f (_ ∷ ts) h = refl

  or_rest-stop : (f : ℕ) (ts : List Tok) → NoOr ts → or_rest (suc f) operand (e, ts) ≡ ok (e, ts)
  unfolding or_rest
  or_rest-stop f [] h = refl
  or_rest-stop f (or ∷ ts) h = absurd h
  or_rest-stop f (_ ∷ ts) h = refl

mutual
  unfolding parse_not conjunctions disjunctions primary close_paren and_rest or_rest

  Operand-complete :
      {l : ℕ} {ts : List Tok} {e : TagExpr}
      → Operand l ts e
      → (rest : List Tok) → parse_not l (ts ++ rest) ≡ ok (e, rest)
  Operand-complete (atom c s) rest = refl
  Operand-complete (negated g) rest = rw (Operand-complete g rest)
  Operand-complete (grouped {l = l} {ts = ts} {e = e} g) rest =
      rw (append_assoc ts (right_paren ∷ []) rest) (
        ap (λ (r : Parsed). r >>= close_paren)
          (Disjunction-complete g (right_paren ∷ rest) (suc (length (ts ++ right_paren ∷ rest)))
            (omega arith) tt))

  Conjunction-complete :
      {l : ℕ} {ts : List Tok} {e : TagExpr}
      → Conjunction l ts e
      → (rest : List Tok) (f : ℕ) → length (ts ++ rest) < f
      → (parse_not l (ts ++ rest) >>= and_rest f (parse_not l)) ≡ and_rest f (parse_not l) (e, rest)
  Conjunction-complete (single g) rest f lt = rw (Operand-complete g rest)
  Conjunction-complete (both {l = l} {ts = ts} {us = us} {a = a} {b = b} g h) rest zero lt =
      absurd (omega arith)
  Conjunction-complete (both {l = l} {ts = ts} {us = us} {a = a} {b = b} g h) rest (suc f) lt =
      rw (append_assoc ts (and ∷ us) rest) (
        Conjunction-complete g (and ∷ (us ++ rest)) (suc f)
          (rw (append_assoc ts (and ∷ us) rest) at lt)
        ∙ rw (Operand-complete h rest) (
            and_rest-fuel (parse_not l) (parse_not-Fits l) f (suc f) (conjunction a b) rest
              (omega (arith, length-append (ts ++ and ∷ us) rest, length-append ts (and ∷ us)))
              (omega (arith, length-append (ts ++ and ∷ us) rest))))

  Disjunction-complete :
      {l : ℕ} {ts : List Tok} {e : TagExpr}
      → Disjunction l ts e
      → (rest : List Tok) (f : ℕ) → length (ts ++ rest) < f
      → NoAnd rest
      → (conjunctions (parse_not l) (ts ++ rest) >>= or_rest f (conjunctions (parse_not l)))
        ≡ or_rest f (conjunctions (parse_not l)) (e, rest)
  Disjunction-complete (one {l = l} {ts = ts} {e = e} g) rest f lt stop = rw (
    Conjunction-complete g rest (suc (length (ts ++ rest))) (omega arith),
    and_rest-stop (parse_not l) e (length (ts ++ rest)) rest stop,
  )
  Disjunction-complete (either {l = l} {ts = ts} {us = us} {a = a} {b = b} g h) rest zero lt stop =
      absurd (omega arith)
  Disjunction-complete (either {l = l} {ts = ts} {us = us} {a = a} {b = b} g h) rest (suc f) lt
        stop =
      rw (append_assoc ts (or ∷ us) rest) (
        Disjunction-complete g (or ∷ (us ++ rest)) (suc f)
          (rw (append_assoc ts (or ∷ us) rest) at lt) tt
        ∙ rw
            (
              Conjunction-complete h rest (suc (length (us ++ rest))) (omega arith),
              and_rest-stop (parse_not l) b (length (us ++ rest)) rest stop,
            )
            (or_rest-fuel (conjunctions (parse_not l))
              (conjunctions-Fits (parse_not l) (parse_not-Fits l)) f (suc f) (disjunction a b) rest
              (omega (arith, length-append (ts ++ or ∷ us) rest, length-append ts (or ∷ us)))
              (omega (arith, length-append (ts ++ or ∷ us) rest))))

-- A sentence is read whole.
pub parse_or-Disjunction :
    (l : ℕ) (ts : List Tok) (e : TagExpr) → Disjunction l ts e → parse_or l ts ≡ ok (e, [])
unfolding parse_or disjunctions or_rest
parse_or-Disjunction l ts e g =
    subst (λ us. disjunctions (parse_not l) us ≡ ok (e, [])) (append-nil ts)
      (Disjunction-complete g [] (suc (length (ts ++ []))) (omega arith) tt)
