-- ===== src/Lowering/Binds/Shared.antt =====
-- crates/proef-core/src/lower.rs: what the bindings in scope of a macro leave of the tables of the packs.
use proef.Base.{
  ◌≡◌, refl, ◌∙◌, ap, true, false, Option, none, some, [], ◌∷◌, any, Bool-cases, Option-cases, inl,
  inr, arith,
}
use proef.Base.Texts.{Text, text_eq, text_eq_iff, text_eq_refl}
use proef.Base.Maps.{Map, lookup, insert, lookup-insert}
use proef.Pack.{PackMacro}
use proef.Lowering.Options.{whole_secret, mentions_secret}
use proef.Lowering.Binds.{
  Bound, literal, secret, Bindings, BindScope, in_pack, in_macro, Outputs, is_control, extend,
  resolve_binding, resolve_each, resolve_bindings, pack_scope, scope_bindings, macro_has_ref,
}

lookup-extend :
    {V : Type 0} (k : Text) (m kvs : Map V)
    → lookup k kvs ≡ none
    → lookup k (extend m kvs) ≡ lookup k m
unfolding extend lookup
lookup-extend k m [] h = refl
lookup-extend k m ((j, v) ∷ kvs) h = elim (Bool-cases (text_eq j k)) [
  | inl e ↦ absurd (ground arith)
  | inr e ↦
      lookup-extend k (insert j v m) kvs (ground arith) ∙ ground (arith, lookup-insert j k v m)
]

abbrev put : Text → Option Bound → Bindings → Bindings
put name none out = out
put name (some b) out = insert name b out

lookup-put :
    (k name : Text) (b : Option Bound) (out : Bindings)
    → text_eq name k ≡ false
    → lookup k (put name b out) ≡ lookup k out
lookup-put k name none out other = refl
lookup-put k name (some b) out other = ground (arith, lookup-insert name k b out)

module _ {Emit : Type 0} (resolve : BindScope → Text → Emit → Option Text × Emit) where
  -- A name is bound to one thing, or to nothing, and the tables of the packs stay.
  abbrev Puts : Text → Bindings → Outputs Emit → Bindings × Outputs Emit → Type 0
  Puts name out s r =
      (b : Option Bound) × (r.0 ≡ put name b out) × (r.1.pack_bindings ≡ s.pack_bindings)

  resolve_binding-Puts :
      (scope : BindScope) (name text : Text) (out : Bindings) (s : Outputs Emit)
      → Puts name out s (resolve_binding resolve scope (whole_secret text) name text out s)
  resolve_binding-Puts scope name text out s = elim (Option-cases (whole_secret text)) [
    | inr (x, e) ↦ rw e (some (secret x), refl, refl)
    | inl e ↦ elim (Bool-cases (mentions_secret text)) [
      | inl m ↦ rw (e, m) (none, refl, refl)
      | inr m ↦
          rw (e, m)
            (elim (Option-cases (resolve scope text s.emit).0) [
              | inl o ↦ rw o (none, refl, refl)
              | inr (v, o) ↦ elim (Bool-cases (any is_control v)) [
                | inl c ↦ rw (o, c) (none, refl, refl)
                | inr c ↦ rw (o, c) (some (literal v), refl, refl)
              ]
            ])
    ]
  ]

  pack_bindings-resolve_each :
      (scope : BindScope) (table : Map Text) (out : Bindings) (s : Outputs Emit)
      → (resolve_each resolve scope table out s).1.pack_bindings ≡ s.pack_bindings
  unfolding resolve_each
  pack_bindings-resolve_each scope [] out s = refl
  pack_bindings-resolve_each scope ((name, text) ∷ table) out s =
      let r = resolve_binding resolve scope (whole_secret text) name text out s in
      let (b, bound, same) = resolve_binding-Puts scope name text out s in
      pack_bindings-resolve_each scope table r.0 r.1 ∙ same

  pub pack_bindings-resolve_bindings :
      (scope : BindScope) (table : Map Text) (s : Outputs Emit)
      → (resolve_bindings resolve scope table s).1.pack_bindings ≡ s.pack_bindings
  unfolding resolve_bindings
  pack_bindings-resolve_bindings scope table s = pack_bindings-resolve_each scope table [] s

  lookup-resolve_each :
      (k : Text) (scope : BindScope) (table : Map Text) (out : Bindings) (s : Outputs Emit)
      → lookup k table ≡ none
      → lookup k (resolve_each resolve scope table out s).0 ≡ lookup k out
  unfolding resolve_each lookup
  lookup-resolve_each k scope [] out s h = refl
  lookup-resolve_each k scope ((name, text) ∷ table) out s h = elim (Bool-cases (text_eq name k)) [
    | inl e ↦ absurd (ground arith)
    | inr e ↦
        let r = resolve_binding resolve scope (whole_secret text) name text out s in
        let (b, bound, same) = resolve_binding-Puts scope name text out s in
        lookup-resolve_each k scope table r.0 r.1 (ground arith)
        ∙ ap (lookup k) bound
        ∙ lookup-put k name b out e
  ]

  -- What a macro's own table does not name reads as in the scope of the pack.
  lookup-with_macro :
      (k : Text) (m : PackMacro) (args : Map Text) (scoped : Bindings) (s : Outputs Emit)
      → lookup k m.bind ≡ none
      → lookup k (extend scoped (resolve_bindings resolve (in_macro m args) m.bind s).0)
        ≡ lookup k scoped
  unfolding resolve_bindings lookup
  lookup-with_macro k m args scoped s h =
      lookup-extend k scoped (resolve_bindings resolve (in_macro m args) m.bind s).0
        (lookup-resolve_each k (in_macro m args) m.bind [] s h)

  -- The table of a pack is kept once it is resolved.
  pub lookup-pack_scope :
      (pack : Text) (table : Map Text) (s : Outputs Emit)
      → lookup pack (pack_scope resolve pack (some table) s).1.pack_bindings
        ≡ some (pack_scope resolve pack (some table) s).0
  unfolding resolve_bindings
  lookup-pack_scope pack table s = elim (Option-cases (lookup pack s.pack_bindings)) [
    | inr (b, e) ↦ rw e e
    | inl e ↦
        let r = resolve_bindings resolve (in_pack pack) table s in
        rw e (ground (arith, lookup-insert pack pack r.0 r.1.pack_bindings, text_eq_refl pack))
  ]

  -- No table that is kept changes.
  pub pack_scope_keeps :
      (p : Text) (b : Bindings) (pack : Text) (table : Option (Map Text)) (s : Outputs Emit)
      → lookup p s.pack_bindings ≡ some b
      → lookup p (pack_scope resolve pack table s).1.pack_bindings ≡ some b
  unfolding resolve_bindings
  pack_scope_keeps p b pack none s h = h
  pack_scope_keeps p b pack (some table) s h = elim (Option-cases (lookup pack s.pack_bindings)) [
    | inr (c, e) ↦ rw e h
    | inl e ↦
        let r = resolve_bindings resolve (in_pack pack) table s in
        let same = pack_bindings-resolve_bindings (in_pack pack) table s in
        rw e (
          ground (
            arith,
            lookup-insert pack p r.0 r.1.pack_bindings,
            text_eq_iff pack p,
            ap (lookup p) same,
          ))
  ]

  pub lookup-scope_bindings :
      (binds : Map (Map Text)) (k : Text) (m : PackMacro) (args : Map Text) (s : Outputs Emit)
      → macro_has_ref m ≡ true
      → lookup k m.bind ≡ none
      → lookup k (scope_bindings resolve binds m args s).0
        ≡ lookup k (pack_scope resolve m.pack (lookup m.pack binds) s).0
  unfolding scope_bindings
  lookup-scope_bindings binds k m args s has h =
      let r = pack_scope resolve m.pack (lookup m.pack binds) s in
      rw has (lookup-with_macro k m args r.0 r.1 h)

  pub scope_bindings_unused :
      (binds : Map (Map Text)) (m : PackMacro) (args : Map Text) (s : Outputs Emit)
      → macro_has_ref m ≡ false
      → (scope_bindings resolve binds m args s).1 ≡ s
  unfolding scope_bindings
  scope_bindings_unused binds m args s e = rw e refl

  pub pack_bindings-scope_bindings :
      (binds : Map (Map Text)) (m : PackMacro) (args : Map Text) (s : Outputs Emit)
      → macro_has_ref m ≡ true
      → (scope_bindings resolve binds m args s).1.pack_bindings
        ≡ (pack_scope resolve m.pack (lookup m.pack binds) s).1.pack_bindings
  unfolding scope_bindings
  pack_bindings-scope_bindings binds m args s e =
      let r = pack_scope resolve m.pack (lookup m.pack binds) s in
      rw e (pack_bindings-resolve_bindings (in_macro m args) m.bind r.1)
