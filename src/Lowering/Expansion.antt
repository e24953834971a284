-- ===== src/Lowering/Expansion.antt =====
-- crates/proef-core/src/lower.rs: the expansion of a macro. What its leaves do to the outputs of the
-- lowering is a parameter; the recursion through `use:`, its limit and the bindings in scope are here.
mod Shallow
mod Tests
use proef.Base.{ℕ, zero, suc, Option, none, some, List, [], ◌∷◌}
use proef.Base.Texts.{Text}
use proef.Base.Maps.{Map, insert}
use proef.Pack.{
  MacroStep, MacroStepKind, payload, use_macro, ref, PayloadForm, MacroBody, steps, expect,
  ExpectItem, PackMacro, PackSet, find_use_target,
}
use proef.Lowering.Binds.{Bindings, BindScope, in_macro, Outputs, scope_bindings}

abbrev pub max_expansion_depth : ℕ
max_expansion_depth = 32

-- `Emit` is the outputs of the resolver and the leaves.
pub record Leaves (Emit : Type 0) : Type 0 where
  pub resolve : BindScope → Text → Emit → Option Text × Emit
  pub expand_expect : PackMacro → Map Text → List ExpectItem → Outputs Emit → Outputs Emit
  pub expand_ref_step :
      PackMacro → Map Text → Bindings → Text → MacroStep → Outputs Emit → Outputs Emit
  pub expand_payload_step :
      PackMacro → Map Text → Text → PayloadForm → MacroStep → Outputs Emit → Outputs Emit

-- `binds` is the `bind` of the `PackSet`.
module _ {Emit : Type 0} (leaves : Leaves Emit) (set : PackSet) (binds : Map (Map Text)) where
  abbrev pub resolve_in : PackMacro → Map Text → Text → Outputs Emit → Option Text × Outputs Emit
  resolve_in m args text s =
      let r = leaves.resolve (in_macro m args) text s.emit in (r.0, record s { emit = r.1 })

  abbrev pub add_arg : Text → Option Text × Outputs Emit → Map Text → Map Text × Outputs Emit
  add_arg key (none, e) args = (args, e)
  add_arg key (some value, e) args = (insert key value args, e)

  -- The `with:` values, in the scope of the macro that uses the other.
  unfoldable pub resolve_args :
      PackMacro → Map Text → Map Text → Map Text → Outputs Emit → Map Text × Outputs Emit
  unfolding insert
  resolve_args m args [] out e = (out, e)
  resolve_args m args ((key, value) ∷ with_args) out e =
      let r = add_arg key (resolve_in m args value e) out in resolve_args m args with_args r.0 r.1

  -- How a macro is expanded one level down.
  abbrev pub Deeper : Type 0
  Deeper = PackMacro → Map Text → Outputs Emit → Outputs Emit

  abbrev pub expand_use :
      Deeper → PackMacro → Map Text → Map Text → Option PackMacro → Outputs Emit → Outputs Emit
  expand_use deeper m args with_args none e = e
  expand_use deeper m args with_args (some target) e =
      let r = resolve_args m args with_args [] e in deeper target r.0 r.1

  abbrev pub expand_kind :
      Deeper
      → PackMacro
      → Map Text
      → Bindings
      → MacroStep
      → MacroStepKind
      → Outputs Emit
      → Outputs Emit
  expand_kind deeper m args scoped s (ref target) e =
      leaves.expand_ref_step m args scoped target s e
  expand_kind deeper m args scoped s (use_macro target with_args) e =
      expand_use deeper m args with_args (find_use_target set target) e
  expand_kind deeper m args scoped s (payload kind text) e =
      leaves.expand_payload_step m args kind text s e

  unfoldable pub expand_steps :
      Deeper → PackMacro → Map Text → Bindings → List MacroStep → Outputs Emit → Outputs Emit
  unfolding resolve_args find_use_target
  expand_steps deeper m args scoped [] e = e
  expand_steps deeper m args scoped (s ∷ ss) e =
      expand_steps deeper m args scoped ss (expand_kind deeper m args scoped s s.kind e)

  abbrev pub expand_body :
      Deeper → PackMacro → Map Text → MacroBody → Bindings → Outputs Emit → Outputs Emit
  expand_body deeper m args (expect items) scoped e = leaves.expand_expect m args items e
  expand_body deeper m args (steps ss) scoped e = expand_steps deeper m args scoped ss e

  -- `expand_macro` at the depth `max_expansion_depth + 1 - levels`; past the limit it reports.
  unfoldable pub expand_macro :
      (expansion_too_deep : PackMacro → Outputs Emit → Outputs Emit) (levels : ℕ)
      → PackMacro
      → Map Text
      → Outputs Emit
      → Outputs Emit
  unfolding expand_steps scope_bindings
  expand_macro expansion_too_deep zero m args e = expansion_too_deep m e
  expand_macro expansion_too_deep (suc levels) m args e =
      let r = scope_bindings leaves.resolve binds m args e in
      expand_body (expand_macro expansion_too_deep levels) m args m.body r.0 r.1
