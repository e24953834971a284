-- ===== src/Resolve/Tests.antt =====
-- crates/proef-core/src/resolve.rs: a variable that stands for another one, an escape, a cycle.
use proef.Base.{ℕ, suc, ◌≡◌, refl}
use proef.Base.Texts.{Text, codes, text_eq}
use proef.Base.{if◌then◌else◌}
use proef.Resolve.{Lookup, found, missing, ok, failed, depth_exceeded, resolve}
use proef.Resolve.Fixed.{Resolves, resolve-Resolves}

-- The state counts the lookups.
abbrev scope : Text → ℕ → Lookup ℕ Text
scope name n =
    if text_eq name (codes "user")
    then found (codes "${name}!") (suc n)
    else if text_eq name (codes "name")
    then found (codes "Ann") (suc n)
    else if text_eq name (codes "loop")
    then found (codes "${loop}") (suc n)
    else missing name

abbrev greeting : Text
greeting = codes "hi ${user}, $${kept} {{run}}"

replaced : resolve scope greeting 0 ≡ ok (codes "hi Ann!, ${kept} {{run}}") 2
unfolding resolve text_eq
replaced = refl

unknown : resolve scope (codes "${nobody}") 0 ≡ failed (codes "nobody")
unfolding resolve text_eq
unknown = refl

cycle : resolve scope (codes "${loop}") 0 ≡ depth_exceeded (codes "loop")
unfolding resolve text_eq
cycle = refl

resolve-Resolves_example : Resolves scope 8 greeting 0 (resolve scope greeting 0)
resolve-Resolves_example = resolve-Resolves scope greeting 0
