-- ===== src/Lowering/Binds.antt =====
-- crates/proef-core/src/lower.rs: the bindings in scope of a `ref:` step. How a scope resolves a text
-- and what that leaves in the other outputs is a parameter.
mod Literal
mod Written
mod Shared
mod Again
mod Tests
use proef.Base.{
  ℕ, Bool, true, false, Option, none, some, List, [], ◌∷◌, ◌++◌, any, leb, ltb, ◌&&◌, ◌||◌, is_some,
  if◌then◌else◌,
}
use proef.Base.Texts.{Text}
use proef.Base.Maps.{Map, lookup, insert}
use proef.Pack.{
  MacroStep, MacroStepKind, payload, use_macro, ref, MacroBody, steps, expect, PackMacro,
}
use proef.Lowering.Options.{whole_secret, mentions_secret, variable_option_line}

pub data Bound : Type 0 where
  literal secret : Text → Bound

abbrev pub Bindings : Type 0
Bindings = Map Bound

-- A diagnostic is the name that is bound.
pub data BindDiag : Type 0 where
  secret_in_composite_bind multiline_bind : Text → BindDiag

-- The scope of a pack, and that of an invocation of a macro with its arguments.
pub data BindScope : Type 0 where
  in_pack : Text → BindScope
  in_macro : PackMacro → Map Text → BindScope

-- The outputs of the resolver, the tables of packs that are resolved already, and the errors.
pub record Outputs (Emit : Type 0) : Type 0 where
  pub emit : Emit
  pub pack_bindings : Map Bindings
  pub errors : List BindDiag

-- `char::is_control`
abbrev pub is_control : ℕ → Bool
is_control c = ltb c 32 || (leb 127 c && ltb c 160)

abbrev pub is_ref : MacroStepKind → Bool
is_ref (ref target) = true
is_ref (payload kind form) = false
is_ref (use_macro target args) = false

abbrev pub body_has_ref : MacroBody → Bool
body_has_ref (steps ss) = any (λ (s : MacroStep). is_ref s.kind) ss
body_has_ref (expect items) = false

abbrev pub macro_has_ref : PackMacro → Bool
macro_has_ref m = body_has_ref m.body

unfoldable pub extend {ℓ} : {V : Type ℓ} → Map V → Map V → Map V
unfolding insert
extend m [] = m
extend m ((k, v) ∷ kvs) = extend (insert k v m) kvs

module _ {Emit : Type 0} (resolve : BindScope → Text → Emit → Option Text × Emit) where
  abbrev pub keep_resolved :
      Text → Option Text × Emit → Bindings → Outputs Emit → Bindings × Outputs Emit
  keep_resolved name (none, e) out s = (out, record s { emit = e })
  keep_resolved name (some v, e) out s =
      if any is_control v
      then (out, record s { emit = e; errors = s.errors ++ multiline_bind name ∷ [] })
      else (insert name (literal v) out, record s { emit = e })

  abbrev pub resolve_binding :
      BindScope → Option Text → Text → Text → Bindings → Outputs Emit → Bindings × Outputs Emit
  resolve_binding scope (some x) name text out s = (insert name (secret x) out, s)
  resolve_binding scope none name text out s =
      if mentions_secret text
      then (out, record s { errors = s.errors ++ secret_in_composite_bind name ∷ [] })
      else keep_resolved name (resolve scope text s.emit) out s

  -- The loop of `resolve_bindings`, which starts with no binding.
  unfoldable pub resolve_each :
      BindScope → Map Text → Bindings → Outputs Emit → Bindings × Outputs Emit
  unfolding insert whole_secret mentions_secret
  resolve_each scope [] out s = (out, s)
  resolve_each scope ((name, text) ∷ table) out s =
      let r = resolve_binding scope (whole_secret text) name text out s in
      resolve_each scope table r.0 r.1

  unfoldable pub resolve_bindings : BindScope → Map Text → Outputs Emit → Bindings × Outputs Emit
  unfolding resolve_each
  resolve_bindings scope table s = resolve_each scope table [] s

  -- The table of a pack, resolved where it is needed first.
  abbrev pub cached_or : Text → Map Text → Option Bindings → Outputs Emit → Bindings × Outputs Emit
  cached_or pack table (some b) s = (b, s)
  cached_or pack table none s =
      let r = resolve_bindings (in_pack pack) table s in
      let kept = r.1.pack_bindings in (r.0, record r.1 { pack_bindings = insert pack r.0 kept })

  abbrev pub pack_scope : Text → Option (Map Text) → Outputs Emit → Bindings × Outputs Emit
  pack_scope pack none s = ([], s)
  pack_scope pack (some table) s = cached_or pack table (lookup pack s.pack_bindings) s

  abbrev pub with_macro : PackMacro → Map Text → Bindings × Outputs Emit → Bindings × Outputs Emit
  with_macro m args (scoped, s) =
      let r = resolve_bindings (in_macro m args) m.bind s in (extend scoped r.0, r.1)

  -- `binds` is the `bind` of the `PackSet`.
  unfoldable pub scope_bindings :
      Map (Map Text) → PackMacro → Map Text → Outputs Emit → Bindings × Outputs Emit
  unfolding resolve_bindings extend lookup insert
  scope_bindings binds m args s =
      if macro_has_ref m
      then with_macro m args (pack_scope m.pack (lookup m.pack binds) s)
      else ([], s)

  -- The bindings of one `ref:` step.
  unfoldable pub step_bindings :
      PackMacro → Map Text → Bindings → MacroStep → Outputs Emit → Bindings × Outputs Emit
  unfolding resolve_bindings extend
  step_bindings m args scoped step s =
      let r = resolve_bindings (in_macro m args) step.bind s in (extend scoped r.0, r.1)

  -- The bindings of a step of an invocation, from its three scopes.
  abbrev pub ref_bindings :
      Map (Map Text) → PackMacro → Map Text → MacroStep → Outputs Emit → Bindings × Outputs Emit
  ref_bindings binds m args step s =
      let r = scope_bindings binds m args s in step_bindings m args r.0 step r.1

abbrev pub add_literal : Text → Bound → Map Text → Map Text
add_literal name (literal v) literals = insert name v literals
add_literal name (secret x) literals = literals

-- The bindings that are written into the artifact.
unfoldable pub literals_from : Bindings → Map Text → Map Text
unfolding insert
literals_from [] literals = literals
literals_from ((name, b) ∷ bindings) literals = literals_from bindings (add_literal name b literals)

abbrev pub add_secret : Text → Bound → Map Text → Map Text
add_secret name (literal v) secrets = secrets
add_secret name (secret x) secrets = insert name x secrets

-- The names that the engine injects at run time.
unfoldable pub secrets_from : Bindings → Map Text → Map Text
unfolding insert
secrets_from [] secrets = secrets
secrets_from ((name, b) ∷ bindings) secrets = secrets_from bindings (add_secret name b secrets)

unfoldable pub option_lines : Map Text → List Text
unfolding variable_option_line
option_lines [] = []
option_lines ((name, v) ∷ literals) = variable_option_line name v ∷ option_lines literals
