-- ===== src/Lowering/Binds/Again.antt =====
-- crates/proef-core/src/lower.rs: one binding of a pack is one value for the whole scenario.
use proef.Base.{
  ◌≡◌, refl, sym, ◌∙◌, ap, true, Option, none, some, List, [], ◌∷◌, Bool-cases, inl, inr,
}
use proef.Base.Texts.{Text}
use proef.Base.Maps.{Map, lookup}
use proef.Pack.{MacroStep, PackMacro}
use proef.Lowering.Binds.{
  Bindings, BindScope, in_macro, Outputs, pack_scope, scope_bindings, step_bindings, macro_has_ref,
}
use proef.Lowering.Binds.Shared.{
  pack_bindings-resolve_bindings, scope_bindings_unused, pack_bindings-scope_bindings,
  pack_scope_keeps, lookup-pack_scope, lookup-scope_bindings,
}

module _ {Emit : Type 0} (resolve : BindScope → Text → Emit → Option Text × Emit) where
  -- What happens between two invocations: another one, a `ref:` step, anything else.
  pub data Later : Type 0 where
    invoked : PackMacro → Map Text → Later
    bound : PackMacro → Map Text → MacroStep → Later
    emitted : Emit → Later

  abbrev pub later : Map (Map Text) → Later → Outputs Emit → Outputs Emit
  later binds (invoked m args) s = (scope_bindings resolve binds m args s).1
  later binds (bound m args step) s = (step_bindings resolve m args [] step s).1
  later binds (emitted e) s = record s { emit = e }

  abbrev pub later_all : Map (Map Text) → List Later → Outputs Emit → Outputs Emit
  later_all binds [] s = s
  later_all binds (l ∷ ls) s = later_all binds ls (later binds l s)

  later_keeps :
      (binds : Map (Map Text)) (p : Text) (b : Bindings) (l : Later) (s : Outputs Emit)
      → lookup p s.pack_bindings ≡ some b
      → lookup p (later binds l s).pack_bindings ≡ some b
  unfolding step_bindings
  later_keeps binds p b (emitted e) s h = h
  later_keeps binds p b (bound m args step) s h =
      ap (lookup p) (pack_bindings-resolve_bindings resolve (in_macro m args) step.bind s) ∙ h
  later_keeps binds p b (invoked m args) s h = elim (Bool-cases (macro_has_ref m)) [
    | inr e ↦
        ap (λ (o : Outputs Emit). lookup p o.pack_bindings)
          (scope_bindings_unused resolve binds m args s e)
        ∙ h
    | inl e ↦
        ap (lookup p) (pack_bindings-scope_bindings resolve binds m args s e)
        ∙ pack_scope_keeps resolve p b m.pack (lookup m.pack binds) s h
  ]

  later_all_keeps :
      (binds : Map (Map Text)) (p : Text) (b : Bindings) (ls : List Later) (s : Outputs Emit)
      → lookup p s.pack_bindings ≡ some b
      → lookup p (later_all binds ls s).pack_bindings ≡ some b
  later_all_keeps binds p b [] s h = h
  later_all_keeps binds p b (l ∷ ls) s h =
      later_all_keeps binds p b ls (later binds l s) (later_keeps binds p b l s h)

  pack_scope_kept :
      (pack : Text) (table : Map Text) (s : Outputs Emit) (b : Bindings)
      → lookup pack s.pack_bindings ≡ some b
      → (pack_scope resolve pack (some table) s).0 ≡ b
  pack_scope_kept pack table s b h = rw h refl

  -- The scope of a pack is the same in every later invocation.
  pack_scope_again :
      (binds : Map (Map Text)) (m : PackMacro) (args : Map Text) (ls : List Later)
      (s : Outputs Emit) (table : Option (Map Text))
      → macro_has_ref m ≡ true
      → lookup m.pack binds ≡ table
      → (pack_scope resolve m.pack table
          (later_all binds ls (scope_bindings resolve binds m args s).1)).0
        ≡ (pack_scope resolve m.pack table s).0
  pack_scope_again binds m args ls s none has e = refl
  pack_scope_again binds m args ls s (some table) has e =
      let t = (scope_bindings resolve binds m args s).1 in
      let b = (pack_scope resolve m.pack (some table) s).0 in
      let kept : lookup m.pack t.pack_bindings ≡ some b =
        ap (lookup m.pack) (
          pack_bindings-scope_bindings resolve binds m args s has
          ∙ ap (λ (o : Option (Map Text)). (pack_scope resolve m.pack o s).1.pack_bindings) e)
        ∙ lookup-pack_scope resolve m.pack table s in
      pack_scope_kept m.pack table (later_all binds ls t) b
        (later_all_keeps binds m.pack b ls t kept)

-- If two macros of one pack have a `ref:` step each and neither has a binding of its own for a name,
-- then the name is bound to the same value, or to the same secret, in an invocation of the first and in
-- any later invocation of the second, whatever a resolver leaves behind in between.
pub lookup-scope_bindings_again :
    {Emit : Type 0} (resolve : BindScope → Text → Emit → Option Text × Emit)
    (binds : Map (Map Text)) (k : Text) (m n : PackMacro) (args others : Map Text)
    (ls : List (Later resolve)) (s : Outputs Emit)
    → macro_has_ref m ≡ true
    → macro_has_ref n ≡ true
    → n.pack ≡ m.pack
    → lookup k m.bind ≡ none
    → lookup k n.bind ≡ none
    → lookup k
        (scope_bindings resolve binds n others
          (later_all resolve binds ls (scope_bindings resolve binds m args s).1)).0
      ≡ lookup k (scope_bindings resolve binds m args s).0
lookup-scope_bindings_again resolve binds k m n args others ls s hm hn same km kn =
    let t = later_all resolve binds ls (scope_bindings resolve binds m args s).1 in
    lookup-scope_bindings resolve binds k n others t hn kn
    ∙ ap (λ (p : Text). lookup k (pack_scope resolve p (lookup p binds) t).0) same
    ∙ ap (lookup k) (pack_scope_again resolve binds m args ls s (lookup m.pack binds) hm refl)
    ∙ sym (lookup-scope_bindings resolve binds k m args s hm km)
