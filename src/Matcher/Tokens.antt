-- ===== src/Matcher/Tokens.antt =====
-- crates/proef-core/src/matcher.rs: `tokenize` and the writing of tokens.

use proef.Base.{
  ℕ, zero, suc, ◌<◌, ◌≡◌, ◌≢◌, refl, ap, none, some, List, [], ◌∷◌, ◌++◌, All, append-nil, length,
  length-append, arith,
}
use proef.Base.Texts.{Text, split_once_char, trim}
use proef.Matcher.{
  Token, literal, capture, open_brace, close_brace, push_literal, tokenize_from, tokenize,
}

-- A pattern's text.
abbrev pub render : List Token → Text
render [] = []
render (literal s ∷ ts) = s ++ render ts
render (capture name ∷ ts) = open_brace ∷ (name ++ close_brace ∷ render ts)

abbrev pub Lacks : ℕ → Text → Type 0
Lacks c s = All (λ x. x ≢ c) s

abbrev pub StartsWithCapture : List Token → Type 0
StartsWithCapture [] = Unit
StartsWithCapture (capture _ ∷ _) = Unit
StartsWithCapture (literal _ ∷ _) = ⊥

-- The ways to write a pattern without an unclosed brace: no empty literal, no two literals in a row, and
-- no brace that would end a token early.
abbrev pub IsCanonical : List Token → Type 0
IsCanonical [] = Unit
IsCanonical (literal s ∷ ts) = (s ≢ []) × Lacks open_brace s × StartsWithCapture ts × IsCanonical ts
IsCanonical (capture name ∷ ts) = Lacks close_brace name × IsCanonical ts

-- The spaces round a name do not count.
abbrev pub trimmed : List Token → List Token
trimmed [] = []
trimmed (literal s ∷ ts) = literal s ∷ trimmed ts
trimmed (capture name ∷ ts) = capture (trim name) ∷ trimmed ts

split_once_char-Lacks :
    (c : ℕ) (s r : Text) → Lacks c s → split_once_char c (s ++ c ∷ r) ≡ some (s, r)
unfolding split_once_char
split_once_char-Lacks c [] r h = ground arith
split_once_char-Lacks c (x ∷ s) r h = ground (arith, split_once_char-Lacks c s r h.1)

split_once_char-eq-none : (c : ℕ) (s : Text) → Lacks c s → split_once_char c s ≡ none
unfolding split_once_char
split_once_char-eq-none c [] h = refl
split_once_char-eq-none c (x ∷ s) h = ground (arith, split_once_char-eq-none c s h.1)

tokenize_from-capture :
    (f : ℕ) (s name : Text) (ts : List Token)
    → Lacks open_brace s
    → Lacks close_brace name
    → tokenize_from (suc f) (s ++ render (capture name ∷ ts))
      ≡ push_literal s (capture (trim name) ∷ tokenize_from f (render ts))
unfolding tokenize_from
tokenize_from-capture f s name ts hs hn =
    rw (split_once_char-Lacks open_brace s (name ++ close_brace ∷ render ts) hs, tokenize_from)
      (rw (split_once_char-Lacks close_brace name (render ts) hn))

push_literal-ne-nil : (s : Text) (ts : List Token) → s ≢ [] → push_literal s ts ≡ literal s ∷ ts
push_literal-ne-nil [] ts h = absurd (h refl)
push_literal-ne-nil (c ∷ s) ts h = refl

tokenize_from-render :
    (f : ℕ) (ts : List Token)
    → IsCanonical ts
    → length (render ts) < f
    → tokenize_from f (render ts) ≡ trimmed ts
unfolding tokenize_from split_once_char
tokenize_from-render zero ts h lt = elim lt [ ]
tokenize_from-render (suc f) [] h lt = refl
tokenize_from-render (suc f) (literal s ∷ []) (ne, hs, _, _) lt =
    rw append-nil
      (rw (split_once_char-eq-none open_brace s hs, tokenize_from) (push_literal-ne-nil s [] ne))
tokenize_from-render (suc f) (literal s ∷ literal _ ∷ ts) (_, _, h, _) lt = absurd h
tokenize_from-render (suc f) (literal s ∷ capture name ∷ ts) (ne, hs, _, (hn, h)) lt =
    rw (tokenize_from-capture f s name ts hs hn) (
      rw (push_literal-ne-nil s (capture (trim name) ∷ tokenize_from f (render ts)) ne) (
        ap (λ r. literal s ∷ capture (trim name) ∷ r)
          (tokenize_from-render f ts h (
            omega (
              arith,
              length-append s (render (capture name ∷ ts)),
              length-append name (close_brace ∷ render ts),
            )))))
tokenize_from-render (suc f) (capture name ∷ ts) (hn, h) lt =
    rw (tokenize_from-capture f [] name ts tt hn) (
      ap (λ r. capture (trim name) ∷ r)
        (tokenize_from-render f ts h (omega (arith, length-append name (close_brace ∷ render ts)))))

-- A pattern is read as the tokens that it is written from.
pub tokenize-render : (ts : List Token) → IsCanonical ts → tokenize (render ts) ≡ trimmed ts
unfolding tokenize
tokenize-render ts h = tokenize_from-render (suc (length (render ts))) ts h (omega arith)
