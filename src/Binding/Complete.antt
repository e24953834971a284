-- ===== src/Binding/Complete.antt =====
-- crates/proef-core/src/bind.rs: when the arguments of a step are complete.
use proef.Base.{
  ◌≡◌, refl, sym, subst, ◌∙◌, ◌↔◌, true, false, Option, none, some, List, [], ◌∷◌, ◌++◌, any,
  any-append, is_some, All, arith,
}
use proef.Base.Texts.{Text, text_eq}
use proef.Base.Maps.{Map, lookup, insert, contains, lookup-insert}
use proef.Binding.{
  StepDefn, Macro, Filled, push, pair_row, table_rows, fill_table, fill_docstring, fill_defaults,
  fill_args, missing, is_error,
}
use proef.Binding.Reports.{
  Diag, bad_table, table_conflict, unknown_table_key, docstring_unused, missing_param,
}

abbrev pub IsFine : List Diag → Type 0
IsFine diags = any is_error diags ≡ false

pub IsFine-append : (xs ys : List Diag) → IsFine (xs ++ ys) ↔ IsFine xs × IsFine ys
IsFine-append xs ys = ground (arith, any-append is_error xs ys)

-- A row that the macro has a place for: a pair whose key is declared and not captured.
abbrev FitsRow : Macro → Map Text → List Text → Type 0
FitsRow m captures (key ∷ value ∷ []) =
    (lookup key captures ≡ none) × (contains key m.params ≡ true)
FitsRow m captures row = ⊥

abbrev Differs : Text → List Text → Type 0
Differs k (key ∷ value ∷ []) = text_eq k key ≡ false
Differs k row = Unit

abbrev DiffersFrom : List Text → List Text → Type 0
DiffersFrom (key ∷ value ∷ []) row = Differs key row
DiffersFrom other row = Unit

-- Every row fits, and no key stands twice.
abbrev Fits : Macro → Map Text → List (List Text) → Type 0
Fits m captures [] = Unit
Fits m captures (row ∷ rows) =
    FitsRow m captures row × (All (DiffersFrom row) rows × Fits m captures rows)

abbrev pub FitsTable : Macro → Map Text → Option (List (List Text)) → Type 0
FitsTable m captures none = Unit
FitsTable m captures (some rows) = Fits m captures rows

FitsRow-insert :
    (m : Macro) (args : Map Text) (k v : Text) (row : List Text)
    → FitsRow m (insert k v args) row ↔ FitsRow m args row × Differs k row
FitsRow-insert m args k v [] = (λ h. elim h [ ], λ h. h.0)
FitsRow-insert m args k v (a ∷ []) = (λ h. elim h [ ], λ h. h.0)
FitsRow-insert m args k v (a ∷ b ∷ []) = ground (arith, lookup-insert k a v args)
FitsRow-insert m args k v (a ∷ b ∷ c ∷ row) = (λ h. elim h [ ], λ h. h.0)

Fits-insert :
    (m : Macro) (args : Map Text) (k v : Text) (rows : List (List Text))
    → Fits m (insert k v args) rows ↔ Fits m args rows × All (Differs k) rows
Fits-insert m args k v [] = (λ h. (tt, tt), λ h. tt)
Fits-insert m args k v (row ∷ rows) =
    let here = FitsRow-insert m args k v row in
    let later = Fits-insert m args k v rows in
    (
      λ h. let a = here.0 h.0 in let b = later.0 h.1.1 in ((a.0, (h.1.0, b.0)), (a.1, b.1)),
      λ h. (here.1 (h.0.0, h.1.0), (h.0.1.0, later.1 (h.0.1.1, h.1.1))),
    )

-- What a row adds.
pair_row-IsFine :
    (step : StepDefn) (m : Macro) (key value : Text) (args : Map Text) (diags : List Diag)
    → IsFine (pair_row step m key value (args, diags)).1
    → IsFine diags
      × (FitsRow m args (key ∷ value ∷ [])
          × (pair_row step m key value (args, diags) ≡ (insert key value args, diags)))
unfolding table_conflict unknown_table_key
pair_row-IsFine step m key value args diags h = ground (
  arith,
  any-append is_error diags (table_conflict step.span key ∷ []),
  any-append is_error diags (unknown_table_key step.span key m.name m.params ∷ []),
)

pair_row-fitting :
    (step : StepDefn) (m : Macro) (key value : Text) (args : Map Text) (diags : List Diag)
    → FitsRow m args (key ∷ value ∷ [])
    → pair_row step m key value (args, diags) ≡ (insert key value args, diags)
pair_row-fitting step m key value args diags h = rw (h.0, h.1) refl

push-error :
    (d : Diag) (diags : List Diag) → is_error d ≡ true → any is_error (diags ++ (d ∷ [])) ≡ true
push-error d diags h = ground (arith, any-append is_error diags (d ∷ []))

-- A row that is reported whatever comes before it.
bad_row :
    (step : StepDefn) (row : List Text) (rest : Type 0) (diags : List Diag)
    → IsFine (diags ++ (bad_table step.span row ∷ []))
    → rest
unfolding bad_table
bad_row step row rest diags h =
    let e = push-error (bad_table step.span row) diags refl in ground arith

module _ (step : StepDefn) (m : Macro) where
  table_rows-pair :
      (key value : Text) (rows : List (List Text)) (f : Filled)
      → ((g : Filled) → IsFine (table_rows step m rows g).1 ↔ IsFine g.1 × Fits m g.0 rows)
      → IsFine (table_rows step m rows (pair_row step m key value f)).1
        ↔ IsFine f.1 × Fits m f.0 ((key ∷ value ∷ []) ∷ rows)
  table_rows-pair key value rows (args, diags) later = (
    λ h.
        let a = (later (pair_row step m key value (args, diags))).0 h in
        let b = pair_row-IsFine step m key value args diags a.0 in
        let c =
          (Fits-insert m args key value rows).0
            (subst (λ (g : Filled). Fits m g.0 rows) b.1.1 a.1) in
        (b.0, (b.1.0, (c.1, c.0))),
    λ h. rw (pair_row-fitting step m key value args diags h.1.0) (
        (later (insert key value args, diags)).1
          (h.0, (Fits-insert m args key value rows).1 (h.1.1.1, h.1.1.0))),
  )

  table_rows-bad :
      (row : List Text) (rows : List (List Text)) (f : Filled) (after : Type 0)
      → ((g : Filled) → IsFine (table_rows step m rows g).1 ↔ IsFine g.1 × Fits m g.0 rows)
      → IsFine (table_rows step m rows (push (bad_table step.span row) f)).1
      → after
  table_rows-bad row rows (args, diags) after later h =
      bad_row step row after diags ((later (push (bad_table step.span row) (args, diags))).0 h).0

  table_rows-IsFine :
      (rows : List (List Text)) (f : Filled)
      → IsFine (table_rows step m rows f).1 ↔ IsFine f.1 × Fits m f.0 rows
  unfolding table_rows
  table_rows-IsFine [] f = (λ h. (h, tt), λ h. h.0)
  table_rows-IsFine ((key ∷ value ∷ []) ∷ rows) f =
      table_rows-pair key value rows f (table_rows-IsFine rows)
  table_rows-IsFine ([] ∷ rows) f = (
    λ h. table_rows-bad [] rows f (IsFine f.1 × Fits m f.0 ([] ∷ rows)) (table_rows-IsFine rows) h,
    λ h. elim (h.1.0) [ ],
  )
  table_rows-IsFine ((a ∷ []) ∷ rows) f = (
    λ h.
        table_rows-bad (a ∷ []) rows f (IsFine f.1 × Fits m f.0 ((a ∷ []) ∷ rows))
          (table_rows-IsFine rows) h,
    λ h. elim (h.1.0) [ ],
  )
  table_rows-IsFine ((a ∷ b ∷ c ∷ row) ∷ rows) f = (
    λ h.
        table_rows-bad (a ∷ b ∷ c ∷ row) rows f (IsFine f.1 × Fits m f.0 ((a ∷ b ∷ c ∷ row) ∷ rows))
          (table_rows-IsFine rows) h,
    λ h. elim (h.1.0) [ ],
  )

  fill_table-IsFine :
      (table : Option (List (List Text))) (captures : Map Text)
      → IsFine (fill_table step m table (captures, [])).1 ↔ FitsTable m captures table
  fill_table-IsFine none captures = (λ h. tt, λ h. refl)
  fill_table-IsFine (some rows) captures =
      let r = table_rows-IsFine rows (captures, []) in (λ h. (r.0 h).1, λ h. r.1 (refl, h))

  fill_docstring-IsFine :
      (docstring : Option Text) (f : Filled)
      → any is_error (fill_docstring step m docstring f).1 ≡ any is_error f.1
  unfolding docstring_unused
  fill_docstring-IsFine none f = refl
  fill_docstring-IsFine (some docstring) (args, diags) =
      ground (arith, any-append is_error diags (docstring_unused step.span m.name ∷ []))

  missing-IsFine :
      (args : Map Text) (params : List Text)
      → IsFine (missing step m args params) ↔ All (λ p. is_some (lookup p args) ≡ true) params
  unfolding missing missing_param
  missing-IsFine args [] = (λ h. tt, λ h. refl)
  missing-IsFine args (p ∷ params) = ground (arith, missing-IsFine args params)

  -- The arguments are complete when the table fits and every parameter has a value.
  pub fill_args-IsFine :
      (captures : Map Text)
      → IsFine (fill_args step m captures).1
        ↔ FitsTable m captures step.table
          × All (λ p. is_some (lookup p (fill_args step m captures).0) ≡ true) m.params
  unfolding fill_args
  fill_args-IsFine captures =
      let f : Filled = fill_table step m step.table (captures, []) in
      let g : Filled = fill_docstring step m step.docstring f in
      let args : Map Text = fill_defaults m.defaults g.0 in
      let t = fill_table-IsFine step.table captures in
      let d = fill_docstring-IsFine step.docstring f in
      let a = IsFine-append g.1 (missing step m args m.params) in
      let r = missing-IsFine args m.params in
      (λ h. (t.0 (sym d ∙ (a.0 h).0), r.0 (a.0 h).1), λ h. a.1 (d ∙ t.1 h.0, r.1 h.1))
