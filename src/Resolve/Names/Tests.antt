-- ===== src/Resolve/Names/Tests.antt =====
-- crates/proef-core/src/resolve.rs: references of each kind, and an instance.
use proef.Base.{◌≡◌, refl, [], ◌∷◌}
use proef.Base.Texts.{Text, codes}
use proef.World.{new}
use proef.Resolve.{ok, failed, Resolved}
use proef.Resolve.Names.{
  ResolveMode, strict, probe, ResolveCtx, Resolution, ResolveError, missing_env, fresh,
  resolve_text,
}

abbrev ctx : ResolveMode → ResolveCtx Text
ctx mode = record {
  args = (codes "user", codes "${vars:admin}") ∷ [];
  defaults = (codes "user", codes "guest") ∷ [];
  env = [];
  config_vars = (codes "vars:admin", codes "root") ∷ [];
  run_id = codes "run-1";
  world = new [];
  mode = mode;
}

abbrev show : Text → Text
show t = t

abbrev read : ResolveMode → Text → Resolved Resolution ResolveError
unfolding resolve_text
read mode text = resolve_text show (ctx mode) text 0

nested :
    read strict (codes "${user} $${x} ${ secret:KEY } ${env:HOST:-local}")
    ≡ ok
        (codes "root ${x} {{KEY}} local")
        (record { secrets = codes "KEY" ∷ []; globals = []; warnings = []; fakes = 0 })
unfolding resolve_text
nested = refl

unset : read strict (codes "${env:HOST}") ≡ failed (missing_env (codes "HOST"))
unfolding resolve_text
unset = refl

probed : read probe (codes "${env:HOST}") ≡ ok (codes "probe") (fresh 0)
unfolding resolve_text
probed = refl
