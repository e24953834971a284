-- ===== src/Tags/Tests.antt =====
-- crates/proef-core/src/tags.rs: tag expressions at work.
use proef.Base.{◌≡◌, ◌≤◌, ◌↔◌, refl, suc, true, false, [], ◌∷◌, length}
use proef.Base.Texts.{codes}
use proef.Tags.{
  tag, negation, conjunction, disjunction, eval, ok, err, unclosed, trailing_tokens, max_tokens,
  max_depth, tokenize, parse,
}
use proef.Tags.Glob.{atom_matches}
use proef.Tags.Glob.Meaning.{Globs, atom_matches_iff}
use proef.Tags.Grammar.{Disjunction}
use proef.Tags.Bounds.{IsBounded, parse-IsBounded}
use proef.Tags.Reading.{parse_iff}

precedence :
    parse (codes "@a or not b and (c or a)")
    ≡ ok (
        disjunction (tag (codes "a")) (
          conjunction
            (negation (tag (codes "b")))
            (disjunction (tag (codes "c")) (tag (codes "a")))))
unfolding parse
precedence = refl

left_joined :
    parse (codes "a or b or c")
    ≡ ok (disjunction (disjunction (tag (codes "a")) (tag (codes "b"))) (tag (codes "c")))
unfolding parse
left_joined = refl

open_paren : parse (codes "(a or b") ≡ err unclosed
unfolding parse
open_paren = refl

trailing : parse (codes "a b") ≡ err trailing_tokens
unfolding parse
trailing = refl

selected :
    eval (conjunction (tag (codes "FRD-*")) (negation (tag (codes "slow")))) (codes "FRD-12" ∷ [])
    ≡ true
unfolding eval
selected = refl

anchored : eval (tag (codes "FRD-*")) (codes "my-FRD-x" ∷ []) ≡ false
unfolding eval
anchored = refl

parse_iff_example :
    (parse (codes "a and b") ≡ ok (conjunction (tag (codes "a")) (tag (codes "b")))) ↔ (
      (length (tokenize (codes "a and b")) ≤ max_tokens)
      × Disjunction
          (suc max_depth)
          (tokenize (codes "a and b"))
          (conjunction (tag (codes "a")) (tag (codes "b"))))
parse_iff_example = parse_iff (codes "a and b") (conjunction (tag (codes "a")) (tag (codes "b")))

parse-IsBounded_example : IsBounded (parse (codes "not (a or b)"))
parse-IsBounded_example = parse-IsBounded (codes "not (a or b)")

atom_matches_iff_example :
    (atom_matches (codes "F*-?2") (codes "FRD-12") ≡ true) ↔ Globs (codes "F*-?2") (codes "FRD-12")
atom_matches_iff_example = atom_matches_iff (codes "F*-?2") (codes "FRD-12")
