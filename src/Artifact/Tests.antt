-- ===== src/Artifact/Tests.antt =====
-- crates/proef-core/src/emit.rs: names in the lower case of ASCII.
use proef.Base.{◌≡◌, refl, ◌+◌, ◌⊎◌, ◌≤◌, [], ◌∷◌, leb, ◌&&◌, ◌||◌, if◌then◌else◌, arith}
use proef.Base.Texts.{Text, codes, byte_len}
use proef.Matcher.{is_empty}
use proef.Artifact.{Casing, slugify, base_slug, full_slug, artifact_slug}
use proef.Artifact.Sizes.{byte_len-artifact_slug}
use proef.Artifact.Slugs.{LowersPlainly}
use proef.Artifact.Tags.{Clash, artifact_slug-injective}

abbrev ascii : Casing
ascii = record {
  is_alphanumeric =
      λ c. (leb 48 c && leb c 57) || (leb 65 c && leb c 90) || (leb 97 c && leb c 122);
  to_lowercase = λ c. if leb 65 c && leb c 90 then (c + 32) ∷ [] else c ∷ [];
}

named :
    artifact_slug ascii (codes "features/Sub/x") (codes "Adds (2) items!")
    ≡ codes "features-sub-x--adds-2-items"
unfolding artifact_slug
named = refl

abbrev long : Text
long =
    codes
      "0123456789012345678901234567890123456789012345678901234567890123456789012345678901234567890123456789012345678901234567890123456789"

cut : byte_len (artifact_slug ascii (codes "x") long) ≡ 120
unfolding artifact_slug byte_len
cut = refl

ascii-LowersPlainly : LowersPlainly ascii
unfolding is_empty
ascii-LowersPlainly c = ground arith

byte_len-artifact_slug_example : byte_len (artifact_slug ascii (codes "x") long) ≤ 120
byte_len-artifact_slug_example = byte_len-artifact_slug ascii (codes "x") long

artifact_slug-injective_example :
    ((base_slug ascii (codes "a/b") ≡ base_slug ascii (codes "a b"))
      × (slugify ascii (codes "One") ≡ slugify ascii (codes "one")))
    ⊎ Clash
        (full_slug ascii (codes "a/b") (codes "One"))
        (full_slug ascii (codes "a b") (codes "one"))
unfolding artifact_slug
artifact_slug-injective_example =
    artifact_slug-injective ascii (codes "a/b") (codes "a b") (codes "One") (codes "one")
      ascii-LowersPlainly refl
