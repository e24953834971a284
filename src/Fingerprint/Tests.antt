-- ===== src/Fingerprint/Tests.antt =====
-- crates/proef-core/src/fingerprint.rs: parts with the same letters and other boundaries.
use proef.Base.{◌≡◌, refl, List, [], ◌∷◌, All, arith}
use proef.Base.Texts.{codes}
use proef.Fingerprint.{Bytes, fnv1a_with, fnv1a_offset_basis, of_parts}
use proef.Fingerprint.Framing.{IsShort, frame-injective}

-- A published value of the hash.
foobar : fnv1a_with (codes "foobar") fnv1a_offset_basis ≡ 9625390261332436968
unfolding fnv1a_with
foobar = refl

nothing : of_parts [] ≡ codes "cbf29ce4842223259e3779b97f4a7c15"
unfolding of_parts
nothing = refl

abbrev parts : List Bytes
parts = codes "ab" ∷ codes "c" ∷ []

short : All IsShort parts
short = (omega arith, (omega arith, tt))

frame-injective_example : parts ≡ codes "ab" ∷ codes "c" ∷ []
frame-injective_example = frame-injective parts (codes "ab" ∷ codes "c" ∷ []) short short refl
