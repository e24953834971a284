-- ===== src/Artifact.antt =====
-- crates/proef-core/src/emit.rs: the file name of a scenario's artifact.
mod Slugs
mod Tags
mod Sizes
mod Tests
use proef.Base.{ℕ, ◌+◌, ◌-◌, Bool, true, false, not, List, [], ◌∷◌, ◌++◌, leb, ◌&&◌, if◌then◌else◌}
use proef.Base.Texts.{Text, codes, char_len, byte_len}
use proef.Base.Printing.{bytes, hexadecimal}
use proef.Matcher.{is_empty}
use proef.Fake.{fnv1a}

-- `char::is_alphanumeric` and `char::to_lowercase`, whose tables are those of Unicode.
pub record Casing : Type 0 where
  pub is_alphanumeric : ℕ → Bool
  pub to_lowercase : ℕ → Text

abbrev pub dash : ℕ
dash = 45

abbrev pub max_slug_bytes : ℕ
max_slug_bytes = 120

abbrev pub spaced : Bool → Text → Text
spaced dash_pending slug = if dash_pending && not (is_empty slug) then slug ++ (dash ∷ []) else slug

-- The loop of `slugify`.
unfoldable pub slugify_from : Casing → (slug : Text) → (dash_pending : Bool) → Text → Text
unfolding is_empty
slugify_from casing slug dash_pending [] = slug
slugify_from casing slug dash_pending (c ∷ text) =
    let kept = slugify_from casing (spaced dash_pending slug ++ casing.to_lowercase c) false text in
    let dropped = slugify_from casing slug true text in
    if casing.is_alphanumeric c then kept else dropped

unfoldable pub slugify : Casing → Text → Text
unfolding slugify_from
slugify casing text = slugify_from casing [] false text

-- The slice up to the last character boundary at or below a byte offset.
unfoldable pub head_bytes : ℕ → Text → Text
unfolding char_len
head_bytes n [] = []
head_bytes n (c ∷ t) =
    let rest = head_bytes (n - char_len c) t in if leb (char_len c) n then c ∷ rest else []

unfoldable pub tag : Text → Text
unfolding hexadecimal fnv1a bytes
tag slug = dash ∷ hexadecimal 16 (fnv1a (bytes slug))

unfoldable pub cap_slug : Text → Text
unfolding byte_len head_bytes tag
cap_slug slug =
    if leb (byte_len slug) max_slug_bytes
    then slug
    else head_bytes (max_slug_bytes - byte_len (tag slug)) slug ++ tag slug

unfoldable pub base_slug : Casing → Text → Text
unfolding slugify is_empty
base_slug casing base =
    let slug = slugify casing base in if is_empty slug then codes "feature" else slug

unfoldable pub full_slug : Casing → Text → Text → Text
unfolding base_slug slugify
full_slug casing base scenario = base_slug casing base ++ (dash ∷ dash ∷ slugify casing scenario)

-- `artifact_slug` once the extension is off the path.
unfoldable pub artifact_slug : Casing → Text → Text → Text
unfolding full_slug cap_slug
artifact_slug casing base scenario = cap_slug (full_slug casing base scenario)
