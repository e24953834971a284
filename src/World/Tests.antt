-- ===== src/World/Tests.antt =====
-- crates/proef-core/src/world.rs: scopes and promotions at work.
use proef.Base.{◌≡◌, refl, ℕ, false, some, [], ◌∷◌}
use proef.Base.Texts.{codes}
use proef.Base.Maps.{lookup}
use proef.World.{null, string, World, new, guard_secrets, get, set, set_global}
use proef.World.Clean.{IsClean}

abbrev fresh : World ℕ
fresh = guard_secrets (codes "s3cret" ∷ []) (new [])

abbrev a_wrote : World ℕ
a_wrote = (set_global (codes "a") (string (codes "1")) fresh).0

refused : (set_global (codes "t") (string (codes "Bearer s3cret")) fresh).1 ≡ false
unfolding set_global guard_secrets
refused = refl

shadowed : get (codes "a") (set (codes "a") null a_wrote) ≡ some null
unfolding get set set_global guard_secrets
shadowed = refl

empty_store-IsClean : IsClean {Float = ℕ} (codes "s3cret" ∷ []) []
unfolding lookup
empty_store-IsClean k v h = cc
