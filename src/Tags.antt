-- ===== src/Tags.antt =====
-- crates/proef-core/src/tags.rs: the `--tags` expressions. The user-facing messages of `parse` are
-- constructors of `TagError`; the parser's position is the list of the tokens that are left.
pub mod Glob
mod Grammar
mod Complete
mod Reading
mod Bounds
mod Tests
use proef.Base.{
  ℕ, zero, suc, ◌+◌, ◌*◌, ◌≡◌, Bool, true, false, not, List, [], ◌∷◌, ◌++◌, length, any, ltb, ◌==◌,
  ◌&&◌, ◌||◌, if◌then◌else◌,
}
use proef.Base.Texts.{Text, codes, text_eq, is_whitespace}
use proef.Tags.Glob.{atom_matches}

pub data TagExpr : Type 0 where
  tag : Text → TagExpr
  negation : TagExpr → TagExpr
  conjunction : TagExpr → TagExpr → TagExpr
  disjunction : TagExpr → TagExpr → TagExpr

-- `TagExpr::eval`
unfoldable pub eval : TagExpr → List Text → Bool
unfolding atom_matches
eval (tag want) tags = any (λ t. atom_matches want t) tags
eval (negation inner) tags = not (eval inner tags)
eval (conjunction left right) tags = eval left tags && eval right tags
eval (disjunction left right) tags = eval left tags || eval right tags

abbrev pub max_depth : ℕ
max_depth = 64

abbrev pub max_tokens : ℕ
max_tokens = 512

pub data Tok : Type 0 where
  and or not_ left_paren right_paren : Tok
  word : Text → Tok

-- `out_of_fuel` belongs to the model only.
pub data TagError : Type 0 where
  empty_expression trailing_tokens too_deep unclosed empty_atom : TagError
  binary_operator misplaced_not unexpected_paren unexpected_end out_of_fuel : TagError
  too_large : ℕ → TagError

pub data Result {ℓ} (A : Type ℓ) : Type ℓ where
  ok : A → Result A
  err : TagError → Result A

infixl 5 ◌>>=◌
abbrev pub ◌>>=◌ {ℓ κ} : {A : Type ℓ} {B : Type κ} → Result A → (A → Result B) → Result B
ok a >>= f = f a
err e >>= f = err e

trim_ats : Text → Text
trim_ats [] = []
trim_ats (c ∷ s) = let rest = trim_ats s in if c == b'@' then rest else c ∷ s

-- The keyword or the atom that a word is.
classify : Text → Tok
unfolding trim_ats text_eq
classify w =
    if text_eq w (codes "and")
    then and
    else if text_eq w (codes "or")
    then or
    else if text_eq w (codes "not")
    then not_
    else word (trim_ats w)

-- `flush`: the tokens with the word that has been read, if there is one.
flush : Text → List Tok → List Tok
unfolding classify
flush [] tokens = tokens
flush (c ∷ w) tokens = tokens ++ classify (c ∷ w) ∷ []

lex : Text → Text → List Tok → List Tok
unfolding flush is_whitespace
lex [] w tokens = flush w tokens
lex (ch ∷ s) w tokens =
    let opened = lex s [] (flush w tokens ++ left_paren ∷ []) in
    let closed = lex s [] (flush w tokens ++ right_paren ∷ []) in
    let spaced = lex s [] (flush w tokens) in
    let longer = lex s (w ++ ch ∷ []) tokens in
    if ch == b'('
    then opened
    else if ch == b')'
    then closed
    else if is_whitespace ch
    then spaced
    else longer

unfoldable pub tokenize : Text → List Tok
unfolding lex
tokenize input = lex input [] []

-- An expression and the tokens behind it.
abbrev pub Parsed : Type 0
Parsed = Result (TagExpr × List Tok)

-- `)` behind a parenthesised expression.
close_paren : TagExpr × List Tok → Parsed
close_paren (e, right_paren ∷ ts) = ok (e, ts)
close_paren (e, _) = err unclosed

-- `parse_primary`, given `parse_or` one level deeper.
primary : (List Tok → Parsed) → List Tok → Parsed
unfolding close_paren
primary inner [] = err unexpected_end
primary inner (left_paren ∷ ts) = inner ts >>= close_paren
primary inner (word [] ∷ ts) = err empty_atom
primary inner (word (c ∷ s) ∷ ts) = ok (tag (c ∷ s), ts)
primary inner (and ∷ ts) = err binary_operator
primary inner (or ∷ ts) = err binary_operator
primary inner (not_ ∷ ts) = err misplaced_not
primary inner (right_paren ∷ ts) = err unexpected_paren

-- The `while` loops: `operand` reads what stands behind the operator. Each round takes a token, so
-- the number of the tokens bounds the rounds.
and_rest : ℕ → (List Tok → Parsed) → TagExpr × List Tok → Parsed
and_rest zero operand p = err out_of_fuel
and_rest (suc f) operand (left, and ∷ ts) =
    operand ts >>= λ (right, rest). and_rest f operand (conjunction left right, rest)
and_rest (suc f) operand (left, ts) = ok (left, ts)

or_rest : ℕ → (List Tok → Parsed) → TagExpr × List Tok → Parsed
or_rest zero operand p = err out_of_fuel
or_rest (suc f) operand (left, or ∷ ts) =
    operand ts >>= λ (right, rest). or_rest f operand (disjunction left right, rest)
or_rest (suc f) operand (left, ts) = ok (left, ts)

-- `parse_and` and `parse_or`, given `parse_not` at the same depth.
pub conjunctions : (List Tok → Parsed) → List Tok → Parsed
unfolding and_rest
conjunctions operand ts = operand ts >>= and_rest (suc (length ts)) operand

pub disjunctions : (List Tok → Parsed) → List Tok → Parsed
unfolding or_rest conjunctions
disjunctions operand ts =
    conjunctions operand ts >>= or_rest (suc (length ts)) (conjunctions operand)

-- `parse_not` at the depth `max_depth + 1 - levels`: no level is left where the depth is over
-- `max_depth`. `parse_primary` tests the depth once more, at the same value.
pub parse_not : ℕ → List Tok → Parsed
unfolding primary disjunctions
parse_not zero ts = err too_deep
parse_not (suc levels) (not_ ∷ ts) = parse_not levels ts >>= λ (e, rest). ok (negation e, rest)
parse_not (suc levels) ts = primary (disjunctions (parse_not levels)) ts

unfoldable pub parse_or : ℕ → List Tok → Parsed
unfolding parse_not disjunctions
parse_or levels = disjunctions (parse_not levels)

-- No token may be left behind the expression.
finish : TagExpr × List Tok → Result TagExpr
finish (e, []) = ok e
finish (e, _ ∷ _) = err trailing_tokens

parse_tokens : List Tok → Result TagExpr
unfolding parse_or finish
parse_tokens [] = err empty_expression
parse_tokens (t ∷ ts) =
    if ltb max_tokens (length (t ∷ ts))
    then err (too_large (length (t ∷ ts)))
    else parse_or (suc max_depth) (t ∷ ts) >>= finish

unfoldable pub parse : Text → Result TagExpr
unfolding tokenize parse_tokens
parse input = parse_tokens (tokenize input)
