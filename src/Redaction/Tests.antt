-- ===== src/Redaction/Tests.antt =====
-- crates/proef-core/src/report.rs: a token in a header, with its shorter form after it in the list.
use proef.Base.{◌≡◌, refl, false, [], ◌∷◌, filter, arith}
use proef.Base.Texts.{Text, codes}
use proef.Redaction.{Redactions, taints, apply}
use proef.Redaction.Masking.{is_starless, taints-apply}

abbrev needles : Redactions
needles = codes "aGk=" ∷ codes "aGk" ∷ codes "hi" ∷ []

abbrev header : Text
header = codes "x: aGk= hihi aGk"

hidden : apply needles header ≡ codes "x: *** ****** ***"
unfolding apply
hidden = refl

-- A needle with a star can be there after the masking, for the mask has stars.
starred : apply (codes "a*" ∷ []) (codes "aa*") ≡ codes "a***"
unfolding apply
starred = refl

taints-apply_example :
    taints (filter is_starless (codes "a*" ∷ needles)) (apply (codes "a*" ∷ needles) header) ≡ false
taints-apply_example =
    taints-apply (codes "a*" ∷ needles) header
      ((λ h. ground arith), ((λ h. ground arith), ((λ h. ground arith), ((λ h. ground arith), tt))))
