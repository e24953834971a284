-- ===== src/Lowering/Binds/Tests.antt =====
-- crates/proef-core/src/lower.rs: two macros of a pack with a table of bindings.
use proef.Base.{◌≡◌, refl, ℕ, Option, none, some, [], ◌∷◌}
use proef.Base.Texts.{Text, codes}
use proef.Base.Maps.{Map, lookup}
use proef.World.{new}
use proef.Resolve.{Resolved, ok, failed, depth_exceeded}
use proef.Resolve.Names.{strict, ResolveCtx, Resolution, ResolveError, resolve_text}
use proef.Pack.{MacroStep, PackMacro}
use proef.Pack.Samples.{referring, macro}
use proef.Lowering.Binds.{
  BindScope, in_pack, in_macro, secret_in_composite_bind, Outputs, scope_bindings, step_bindings,
  ref_bindings, literals_from, secrets_from,
}
use proef.Lowering.Binds.Again.{emitted, later_all, lookup-scope_bindings_again}

abbrev ctx : Map Text → Map Text → ResolveCtx Text
ctx args defaults = record {
  args = args;
  defaults = defaults;
  env = [];
  config_vars = (codes "url:api", codes "http://a") ∷ [];
  run_id = codes "run-1";
  world = new [];
  mode = strict;
}

abbrev scope_ctx : BindScope → ResolveCtx Text
scope_ctx (in_pack pack) = ctx [] []
scope_ctx (in_macro m args) = ctx args m.defaults

-- The text, and the occurrences of generators, which an error leaves alone here.
abbrev taken : ℕ → Resolved Resolution ResolveError → Option Text × ℕ
taken fakes (ok text r) = (some text, r.fakes)
taken fakes (failed err) = (none, fakes)
taken fakes (depth_exceeded name) = (none, fakes)

abbrev resolve : BindScope → Text → ℕ → Option Text × ℕ
unfolding resolve_text
resolve scope text fakes = taken fakes (resolve_text (λ t. t) (scope_ctx scope) text fakes)

abbrev first : PackMacro
first = record (macro (codes "first") (referring (codes "get") ∷ [])).1 {
  bind = (codes "user", codes "ann") ∷ [];
}

abbrev second : PackMacro
second = record (macro (codes "second") (referring (codes "put") ∷ [])).1 {
  bind = (codes "user", codes "${who}") ∷ [];
}

abbrev binds : Map (Map Text)
binds =
    (
      codes "a.yaml",
      (codes "base", codes "${url:api}")
          ∷ (codes "flag", codes "${fake:bool}")
          ∷ (codes "token", codes "${secret:KEY}")
          ∷ [],
    )
    ∷ []

abbrev start : Outputs ℕ
start = record { emit = 0; pack_bindings = []; errors = [] }

abbrev step : MacroStep
step = record (referring (codes "get")) {
  bind = (codes "auth", codes "Bearer ${secret:KEY}") ∷ (codes "user", codes "bob") ∷ [];
}

abbrev bound_first : Map Text × (Map Text × Outputs ℕ)
bound_first =
    let r = ref_bindings resolve binds first [] step start in
    (literals_from r.0 [], (secrets_from r.0 [], r.1))

split :
    (lookup (codes "base") bound_first.0 ≡ some (codes "http://a"))
    × ((lookup (codes "user") bound_first.0 ≡ some (codes "bob"))
        × ((bound_first.1.0 ≡ (codes "token", codes "KEY") ∷ [])
            × (bound_first.1.1.errors ≡ secret_in_composite_bind (codes "auth") ∷ [])))
unfolding scope_bindings step_bindings literals_from secrets_from lookup resolve
split = (refl, (refl, (refl, refl)))

lookup-scope_bindings_again_example :
    lookup
      (codes "flag")
      (scope_bindings resolve binds second ((codes "who", codes "eve") ∷ []) (
        later_all resolve binds (emitted 7 ∷ []) (scope_bindings resolve binds first [] start).1)).0
    ≡ lookup (codes "flag") (scope_bindings resolve binds first [] start).0
unfolding lookup
lookup-scope_bindings_again_example =
    lookup-scope_bindings_again resolve binds (codes "flag") first second []
      ((codes "who", codes "eve") ∷ []) (emitted 7 ∷ []) start refl refl refl refl refl
