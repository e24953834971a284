-- ===== src/Tags/Bounds.antt =====
-- crates/proef-core/src/tags.rs: the size of what `parse` builds.
use proef.Base.{
  Bool-cases, inl, inr, ℕ, zero, suc, ◌+◌, ◌≤◌, ◌<◌, ◌≢◌, max, List, [], ◌∷◌, length, arith, ltb,
}
use proef.Base.Texts.{Text}
use proef.Tags.{
  TagExpr, tag, negation, conjunction, disjunction, max_tokens, max_depth, Tok, and, or, not_,
  left_paren, right_paren, word, out_of_fuel, Result, ok, err, ◌>>=◌, Parsed, close_paren, primary,
  and_rest, or_rest, conjunctions, disjunctions, parse_not, parse_or, finish, parse_tokens,
  tokenize, parse,
}

abbrev pub size : TagExpr → ℕ
size (tag _) = 1
size (negation e) = suc (size e)
size (conjunction a b) = suc (size a + size b)
size (disjunction a b) = suc (size a + size b)

-- How deep `eval` recurs.
abbrev pub depth : TagExpr → ℕ
depth (tag _) = 1
depth (negation e) = suc (depth e)
depth (conjunction a b) = suc (max (depth a) (depth b))
depth (disjunction a b) = suc (max (depth a) (depth b))

depth-le-size : (e : TagExpr) → depth e ≤ size e
depth-le-size (tag _) = omega arith
depth-le-size (negation e) = omega (arith, depth-le-size e)
depth-le-size (conjunction a b) = omega (arith, depth-le-size a, depth-le-size b)
depth-le-size (disjunction a b) = omega (arith, depth-le-size a, depth-le-size b)

-- A result that leaves room: the tree and the tokens left are at most `n` together.
abbrev pub Fits : ℕ → Parsed → Type 0
Fits n (ok (e, rest)) = size e + length rest ≤ n
Fits n (err e) = e ≢ out_of_fuel

abbrev pub AllFit : (List Tok → Parsed) → Type 0
AllFit operand = (ts : List Tok) → Fits (length ts) (operand ts)

Fits-bind :
    (m n : ℕ) (r : Parsed) (k : TagExpr × List Tok → Parsed)
    → Fits m r
    → ((e : TagExpr) (rest : List Tok) → size e + length rest ≤ m → Fits n (k (e, rest)))
    → Fits n (r >>= k)
Fits-bind m n (ok (e, rest)) k h f = f e rest h
Fits-bind m n (err e) k h f = h

module _ (operand : List Tok → Parsed) (fit : AllFit operand) where
  and_rest-Fits :
      (n f : ℕ) (left : TagExpr) (ts : List Tok)
      → length ts < f
      → size left + length ts ≤ n
      → Fits n (and_rest f operand (left, ts))
  unfolding and_rest
  and_rest-Fits n zero left ts lt h = absurd (omega arith)
  and_rest-Fits n (suc f) left (and ∷ ts) lt h =
      Fits-bind (length ts) n (operand ts) _ (fit ts) (λ right rest h'.
        and_rest-Fits n f (conjunction left right) rest (omega arith) (omega arith))
  and_rest-Fits n (suc f) left ts lt h = h

  or_rest-Fits :
      (n f : ℕ) (left : TagExpr) (ts : List Tok)
      → length ts < f
      → size left + length ts ≤ n
      → Fits n (or_rest f operand (left, ts))
  unfolding or_rest
  or_rest-Fits n zero left ts lt h = absurd (omega arith)
  or_rest-Fits n (suc f) left (or ∷ ts) lt h =
      Fits-bind (length ts) n (operand ts) _ (fit ts) (λ right rest h'.
        or_rest-Fits n f (disjunction left right) rest (omega arith) (omega arith))
  or_rest-Fits n (suc f) left ts lt h = h

pub size-pos : (e : TagExpr) → 0 < size e
size-pos (tag _) = omega arith
size-pos (negation e) = omega arith
size-pos (conjunction a b) = omega arith
size-pos (disjunction a b) = omega arith

pub conjunctions-Fits :
    (operand : List Tok → Parsed) → AllFit operand → AllFit (conjunctions operand)
unfolding conjunctions
conjunctions-Fits operand fit ts =
    Fits-bind (length ts) (length ts) (operand ts) _ (fit ts) (λ e rest h.
      and_rest-Fits operand fit (length ts) (suc (length ts)) e rest (omega (arith, size-pos e)) h)

disjunctions-Fits : (operand : List Tok → Parsed) → AllFit operand → AllFit (disjunctions operand)
unfolding disjunctions
disjunctions-Fits operand fit ts =
    let fit' = conjunctions-Fits operand fit in
    Fits-bind (length ts) (length ts) (conjunctions operand ts) _ (fit' ts) (λ e rest h.
      or_rest-Fits (conjunctions operand) fit' (length ts) (suc (length ts)) e rest
        (omega (arith, size-pos e)) h)

close_paren-Fits :
    (n : ℕ) (e : TagExpr) (ts : List Tok) → size e + length ts ≤ n → Fits n (close_paren (e, ts))
unfolding close_paren
close_paren-Fits n e [] h = λ q. cc
close_paren-Fits n e (right_paren ∷ ts) h = omega arith
close_paren-Fits n e (_ ∷ ts) h = λ q. cc

primary-Fits : (inner : List Tok → Parsed) → AllFit inner → AllFit (primary inner)
unfolding primary
primary-Fits inner fit [] = λ q. cc
primary-Fits inner fit (left_paren ∷ ts) =
    Fits-bind (length ts) (suc (length ts)) (inner ts) close_paren (fit ts)
      (λ e rest h. close_paren-Fits _ e rest (omega arith))
primary-Fits inner fit (word [] ∷ ts) = λ q. cc
primary-Fits inner fit (word (c ∷ s) ∷ ts) = omega arith
primary-Fits inner fit (_ ∷ ts) = λ q. cc

pub parse_not-Fits : (levels : ℕ) → AllFit (parse_not levels)
unfolding parse_not
parse_not-Fits zero ts = λ q. cc
parse_not-Fits (suc levels) (not_ ∷ ts) =
    Fits-bind (length ts) (suc (length ts)) (parse_not levels ts) _ (parse_not-Fits levels ts)
      (λ e rest h. omega arith)
parse_not-Fits (suc levels) ts =
    primary-Fits (disjunctions (parse_not levels))
      (disjunctions-Fits (parse_not levels) (parse_not-Fits levels)) ts

pub parse_or-Fits : (levels : ℕ) → AllFit (parse_or levels)
unfolding parse_or
parse_or-Fits levels = disjunctions-Fits (parse_not levels) (parse_not-Fits levels)

-- What `parse` promises: a tree of at most `max_tokens` nodes, which `eval` walks at most that deep,
-- or one of the messages of the code.
abbrev pub IsBounded : Result TagExpr → Type 0
IsBounded (ok e) = (size e ≤ max_tokens) × (depth e ≤ max_tokens)
IsBounded (err e) = e ≢ out_of_fuel

finish-IsBounded : (r : Parsed) → Fits max_tokens r → IsBounded (r >>= finish)
unfolding finish
finish-IsBounded (err e) h = h
finish-IsBounded (ok (e, [])) h = omega (arith, depth-le-size e)
finish-IsBounded (ok (e, _ ∷ _)) h = λ q. cc

Fits-le : (m n : ℕ) (r : Parsed) → m ≤ n → Fits m r → Fits n r
Fits-le m n (ok (e, rest)) le h = omega arith
Fits-le m n (err e) le h = h

parse_tokens-IsBounded : (ts : List Tok) → IsBounded (parse_tokens ts)
unfolding parse_tokens
parse_tokens-IsBounded [] = λ q. cc
parse_tokens-IsBounded (t ∷ ts) = elim (Bool-cases (ltb max_tokens (length (t ∷ ts)))) [
  | inl h ↦ rw h (λ q. cc)
  | inr h ↦ rw h (
      finish-IsBounded (parse_or (suc max_depth) (t ∷ ts)) (
        Fits-le (length (t ∷ ts)) max_tokens _ (ground arith)
          (parse_or-Fits (suc max_depth) (t ∷ ts))))
]

-- For every input the parser ends with an answer of the code: an expression whose tree has at most
-- 512 nodes and is at most 512 deep, or an error message.
pub parse-IsBounded : (input : Text) → IsBounded (parse input)
unfolding parse
parse-IsBounded input = parse_tokens-IsBounded (tokenize input)
