-- ===== src/Lowering/Binds/Literal.antt =====
-- crates/proef-core/src/lower.rs: what a bound literal may be.
use proef.Base.{
  ◌≡◌, false, Option, none, some, [], ◌∷◌, any, Any, All, All-map, refl, Bool-cases, Option-cases,
  inl, inr, sym, subst, arith,
}
use proef.Base.Texts.{Text, text_eq, text_lt, text_eq_iff}
use proef.Base.Maps.{Map, lookup, insert}
use proef.Lowering.Options.{whole_secret, mentions_secret}
use proef.Lowering.Binds.{
  Bound, literal, secret, Bindings, BindScope, in_pack, Outputs, is_control, extend,
  resolve_binding, resolve_each, resolve_bindings, pack_scope, literals_from,
}
use proef.Lowering.Binds.Shared.{pack_bindings-resolve_bindings}

module _ {ℓ} {V : Type ℓ} (P : Text → V → Type 0) where
  -- Each name with what it stands for.
  abbrev pub Each : Map V → Type 0
  Each m = All (λ (e : Text × V). P e.0 e.1) m

  insert-Each : (k : Text) (v : V) (m : Map V) → P k v → Each m → Each (insert k v m)
  unfolding insert
  insert-Each k v [] p h = (p, tt)
  insert-Each k v ((j, w) ∷ m) p h = elim (Bool-cases (text_eq j k)) [
    | inl same ↦ rw same (p, h.1)
    | inr other ↦ elim (Bool-cases (text_lt k j)) [
      | inl lt ↦ rw (other, lt) (p, h)
      | inr ge ↦ rw (other, ge) (h.0, insert-Each k v m p h.1)
    ]
  ]

  pub extend-Each : (m kvs : Map V) → Each m → Each kvs → Each (extend m kvs)
  unfolding extend
  extend-Each m [] h hs = h
  extend-Each m ((k, v) ∷ kvs) h hs = extend-Each (insert k v m) kvs (insert-Each k v m hs.0 h) hs.1

  pub lookup-Each : (k : Text) (v : V) (m : Map V) → Each m → lookup k m ≡ some v → P k v
  unfolding lookup
  lookup-Each k v [] h e = ground arith
  lookup-Each k v ((j, w) ∷ m) h e = elim (Bool-cases (text_eq j k)) [
    | inl same ↦
        let key = (text_eq_iff j k).0 same in
        let val : w ≡ v = ground arith in subst (λ x. P x v) key (subst (P j) val h.0)
    | inr other ↦ lookup-Each k v m h.1 (ground arith)
  ]

-- The table has this text for the name.
abbrev pub Has : Map Text → Text → Text → Type 0
Has table name text = Any (λ (e : Text × Text). e ≡ (name, text)) table

module _ {Emit : Type 0} (resolve : BindScope → Text → Emit → Option Text × Emit) where
  -- A value on one line that comes from a text of the table without a secret.
  abbrev pub IsLiteral : BindScope → Map Text → Text → Text → Type 0
  IsLiteral scope table name v =
      (any is_control v ≡ false)
      × ((text : Text) × (e : Emit) × (Has table name text
            × ((mentions_secret text ≡ false) × ((resolve scope text e).0 ≡ some v))))

  abbrev pub IsFit : BindScope → Map Text → Text → Bound → Type 0
  IsFit scope table name (literal v) = IsLiteral scope table name v
  IsFit scope table name (secret x) =
      (text : Text) × Has table name text × (whole_secret text ≡ some x)

  -- Where the binding of a name comes from in the scope of a pack.
  abbrev pub IsPackFit : Map (Map Text) → Text → Text → Bound → Type 0
  IsPackFit binds pack name b =
      (table : Map Text) × (lookup pack binds ≡ some table) × IsFit (in_pack pack) table name b

  abbrev pub IsSound : Map (Map Text) → Outputs Emit → Type 0
  IsSound binds s = Each (λ pack b. Each (IsPackFit binds pack) b) s.pack_bindings

  resolve_binding-Fit :
      (scope : BindScope) (table : Map Text) (name text : Text) (out : Bindings) (s : Outputs Emit)
      → Has table name text
      → Each (IsFit scope table) out
      → Each
          (IsFit scope table)
          (resolve_binding resolve scope (whole_secret text) name text out s).0
  resolve_binding-Fit scope table name text out s has h = elim (Option-cases (whole_secret text)) [
    | inr (x, e) ↦ rw e (insert-Each (IsFit scope table) name (secret x) out (text, has, e) h)
    | inl e ↦ elim (Bool-cases (mentions_secret text)) [
      | inl m ↦ rw (e, m) h
      | inr m ↦
          rw (e, m)
            (elim (Option-cases (resolve scope text s.emit).0) [
              | inl o ↦ rw o h
              | inr (v, o) ↦ elim (Bool-cases (any is_control v)) [
                | inl c ↦ rw (o, c) h
                | inr c ↦
                    rw (o, c)
                      (insert-Each (IsFit scope table) name (literal v) out
                        (c, (text, s.emit, (has, (m, o)))) h)
              ]
            ])
    ]
  ]

  resolve_each-Fit :
      (scope : BindScope) (full table : Map Text) (out : Bindings) (s : Outputs Emit)
      → ((name text : Text) → Has table name text → Has full name text)
      → Each (IsFit scope full) out
      → Each (IsFit scope full) (resolve_each resolve scope table out s).0
  unfolding resolve_each
  resolve_each-Fit scope full [] out s sub h = h
  resolve_each-Fit scope full ((name, text) ∷ table) out s sub h =
      let r = resolve_binding resolve scope (whole_secret text) name text out s in
      resolve_each-Fit scope full table r.0 r.1 (λ n t a. sub n t (inr a))
        (resolve_binding-Fit scope full name text out s (sub name text (inl refl)) h)

  pub resolve_bindings-Fit :
      (scope : BindScope) (table : Map Text) (s : Outputs Emit)
      → Each (IsFit scope table) (resolve_bindings resolve scope table s).0
  unfolding resolve_bindings
  resolve_bindings-Fit scope table s = resolve_each-Fit scope table table [] s (λ n t a. a) tt

  pub IsSound-resolve_bindings :
      (binds : Map (Map Text)) (scope : BindScope) (table : Map Text) (s : Outputs Emit)
      → IsSound binds s
      → IsSound binds (resolve_bindings resolve scope table s).1
  IsSound-resolve_bindings binds scope table s k =
      subst (λ m. Each (λ p c. Each (IsPackFit binds p) c) m)
        (sym (pack_bindings-resolve_bindings resolve scope table s)) k

  pub pack_scope-Fit :
      (binds : Map (Map Text)) (pack : Text) (o : Option (Map Text)) (s : Outputs Emit)
      → lookup pack binds ≡ o
      → IsSound binds s
      → Each (IsPackFit binds pack) (pack_scope resolve pack o s).0
        × IsSound binds (pack_scope resolve pack o s).1
  unfolding resolve_bindings
  pack_scope-Fit binds pack none s e k = (tt, k)
  pack_scope-Fit binds pack (some table) s e k = elim (Option-cases (lookup pack s.pack_bindings)) [
    | inr (b, kept) ↦
        rw kept (lookup-Each (λ p c. Each (IsPackFit binds p) c) pack b s.pack_bindings k kept, k)
    | inl new ↦
        let r = resolve_bindings resolve (in_pack pack) table s in
        let fit =
          All-map (λ f h. (table, e, h)) r.0 (resolve_bindings-Fit (in_pack pack) table s) in
        rw new (
          fit,
          insert-Each (λ p c. Each (IsPackFit binds p) c) pack r.0 r.1.pack_bindings fit
              (IsSound-resolve_bindings binds (in_pack pack) table s k),
        )
  ]

-- What holds of the bindings holds of the literals among them.
pub literals_from-Each :
    (P : Text → Bound → Type 0) (bindings : Bindings) (literals : Map Text)
    → Each P bindings
    → Each (λ name v. P name (literal v)) literals
    → Each (λ name v. P name (literal v)) (literals_from bindings literals)
unfolding literals_from
literals_from-Each P [] literals h k = k
literals_from-Each P ((name, literal v) ∷ bindings) literals h k =
    literals_from-Each P bindings (insert name v literals) h.1
      (insert-Each (λ n w. P n (literal w)) name v literals h.0 k)
literals_from-Each P ((name, secret x) ∷ bindings) literals h k =
    literals_from-Each P bindings literals h.1 k
