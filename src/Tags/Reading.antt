-- ===== src/Tags/Reading.antt =====
-- crates/proef-core/src/tags.rs: `parse` and the sentences of the grammar.
use proef.Base.{
  true, false, ℕ, zero, suc, ◌≤◌, ◌≡◌, ◌≢◌, ◌↔◌, refl, sym, subst, ap, ◌∙◌, List, [], ◌∷◌, ◌++◌,
  length, arith, append-nil, ltb, Bool-cases, inl, inr,
}
use proef.Base.Texts.{Text}
use proef.Tags.{
  TagExpr, max_tokens, max_depth, Tok, ok, err, ◌>>=◌, Parsed, parse_not, parse_or, finish,
  parse_tokens, tokenize, parse,
}
use proef.Tags.Grammar.{Disjunction, disjunctions-Sound, parse_not-Sound}
use proef.Tags.Complete.{parse_or-Disjunction}

finish-eq-ok : (a e : TagExpr) (ts : List Tok) → finish (a, ts) ≡ ok e → (a ≡ e) × (ts ≡ [])
unfolding finish
finish-eq-ok a e [] h = (cc, refl)
finish-eq-ok a e (_ ∷ ts) h = cc

bind-eq-ok :
    (r : Parsed) (e : TagExpr)
    → (r >>= finish) ≡ ok e
    → (a : TagExpr) × (rest : List Tok) × (r ≡ ok (a, rest)) × (finish (a, rest) ≡ ok e)
bind-eq-ok (ok (a, rest)) e h = (a, rest, refl, h)
bind-eq-ok (err x) e h = cc

parse_or_sound :
    (l : ℕ) (ts : List Tok) (e : TagExpr) → (parse_or l ts >>= finish) ≡ ok e → Disjunction l ts e
unfolding parse_or
parse_or_sound l ts e h =
    let (a, rest, q, h') = bind-eq-ok (parse_or l ts) e h in
    let (same, none_left) = finish-eq-ok a e rest h' in
    let (us, split, g) = disjunctions-Sound l (parse_not l) (parse_not-Sound l) ts a rest q in
    let whole : us ≡ ts = sym (append-nil us) ∙ sym (split ∙ ap (λ t. us ++ t) none_left) in
    subst (λ us. Disjunction l us e) whole (subst (Disjunction l us) same g)

parse_or_complete :
    (l : ℕ) (ts : List Tok) (e : TagExpr) → Disjunction l ts e → (parse_or l ts >>= finish) ≡ ok e
unfolding finish
parse_or_complete l ts e g = rw (parse_or-Disjunction l ts e g)

parse_or-nil : (l : ℕ) (e : TagExpr) → parse_or l [] ≢ ok (e, [])
unfolding parse_or
parse_or-nil zero e h = cc
parse_or-nil (suc l) e h = cc

not-empty : (l : ℕ) (ts : List Tok) (e : TagExpr) → Disjunction l ts e → ts ≢ []
not-empty l ts e g h =
    parse_or-nil l e (parse_or-Disjunction l [] e (subst (λ us. Disjunction l us e) h g))

not-ltb : (m n : ℕ) → ltb m n ≡ true → n ≤ m → ⊥
not-ltb m n h le = ground arith

le-ltb : (m n : ℕ) → ltb m n ≡ false → n ≤ m
le-ltb m n h = ground arith

parse_tokens_iff :
    (ts : List Tok) (e : TagExpr)
    → (parse_tokens ts ≡ ok e) ↔ ((length ts ≤ max_tokens) × Disjunction (suc max_depth) ts e)
unfolding parse_tokens
parse_tokens_iff [] e = ((λ h. cc), λ (_, g). absurd (not-empty (suc max_depth) [] e g refl))
parse_tokens_iff (t ∷ ts) e = elim (Bool-cases (ltb max_tokens (length (t ∷ ts)))) [
  | inl h ↦ rw h ((λ q. cc), λ (le, _). absurd (not-ltb max_tokens (length (t ∷ ts)) h le))
  | inr h ↦ rw h (
    λ q. (le-ltb max_tokens (length (t ∷ ts)) h, parse_or_sound (suc max_depth) (t ∷ ts) e q),
    λ (_, g). parse_or_complete (suc max_depth) (t ∷ ts) e g,
  )
]

-- `parse` gives an expression exactly when the input has at most 512 tokens, which are a sentence
-- of the grammar for that expression (`not` before `and` before `or`, both joining to the left)
-- with `not` and parentheses nested no deeper than the limit.
pub parse_iff :
    (input : Text) (e : TagExpr)
    → (parse input ≡ ok e)
      ↔ ((length (tokenize input) ≤ max_tokens) × Disjunction (suc max_depth) (tokenize input) e)
unfolding parse
parse_iff input e = parse_tokens_iff (tokenize input) e
