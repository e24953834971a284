-- ===== src/Binding/Arguments.antt =====
-- crates/proef-core/src/bind.rs: where each argument of a bound step comes from.
use proef.Base.{◌≡◌, Option, none, some, List, [], ◌∷◌, ◌&&◌, if◌then◌else◌, arith}
use proef.Base.Texts.{Text, text_eq, text_eq_iff}
use proef.Base.Maps.{Map, lookup, insert, contains, lookup-insert}
use proef.Binding.{
  StepDefn, Macro, Filled, pair_row, table_row, table_rows, fill_table, docstring_param,
  fill_docstring, fill_defaults, fill_args,
}

abbrev pub or_else : Option Text → Option Text → Option Text
or_else none b = b
or_else (some a) b = some a

-- The value of the first row for a key that the macro declares.
abbrev row_value : Text → List Text → Option Text → Option Text
row_value k (key ∷ value ∷ []) later = if text_eq key k then some value else later
row_value k row later = later

abbrev rows_value : Text → List (List Text) → Option Text
rows_value k [] = none
rows_value k (row ∷ rows) = row_value k row (rows_value k rows)

abbrev declared_value : Macro → Text → Option (List (List Text)) → Option Text
declared_value m k none = none
declared_value m k (some rows) = if contains k m.params then rows_value k rows else none

abbrev docstring_value : Macro → Text → Option Text → Option Text
docstring_value m k none = none
docstring_value m k (some docstring) =
    if text_eq docstring_param k && contains docstring_param m.params then some docstring else none

-- The docstring, else the capture, else the data table, else the default.
abbrev pub supplied : StepDefn → Macro → Map Text → Text → Option Text
supplied step m captures k =
    or_else (docstring_value m k step.docstring)
      (or_else (lookup k captures) (or_else (declared_value m k step.table) (lookup k m.defaults)))

lookup-pair_row :
    (step : StepDefn) (m : Macro) (key value : Text) (f : Filled) (k : Text) (later : Option Text)
    → or_else
        (lookup k (pair_row step m key value f).0)
        (if contains k m.params then later else none)
      ≡ or_else
          (lookup k f.0)
          (if contains k m.params then (if text_eq key k then some value else later) else none)
lookup-pair_row step m key value (args, diags) k later =
    ground (arith, lookup-insert key k value args, text_eq_iff key k)

lookup-table_rows :
    (step : StepDefn) (m : Macro) (rows : List (List Text)) (f : Filled) (k : Text)
    → lookup k (table_rows step m rows f).0
      ≡ or_else (lookup k f.0) (if contains k m.params then rows_value k rows else none)
unfolding table_rows
lookup-table_rows step m [] (args, diags) k = ground arith
lookup-table_rows step m ((key ∷ value ∷ []) ∷ rows) f k =
    rw (lookup-table_rows step m rows (pair_row step m key value f) k)
      (lookup-pair_row step m key value f k (rows_value k rows))
lookup-table_rows step m ([] ∷ rows) (args, diags) k =
    lookup-table_rows step m rows (table_row step m [] (args, diags)) k
lookup-table_rows step m ((a ∷ []) ∷ rows) (args, diags) k =
    lookup-table_rows step m rows (table_row step m (a ∷ []) (args, diags)) k
lookup-table_rows step m ((a ∷ b ∷ c ∷ row) ∷ rows) (args, diags) k =
    lookup-table_rows step m rows (table_row step m (a ∷ b ∷ c ∷ row) (args, diags)) k

lookup-fill_defaults :
    (defaults args : Map Text) (k : Text)
    → lookup k (fill_defaults defaults args) ≡ or_else (lookup k args) (lookup k defaults)
unfolding fill_defaults lookup
lookup-fill_defaults [] args k = ground arith
lookup-fill_defaults ((param, default) ∷ defaults) args k = ground (
  arith,
  lookup-fill_defaults defaults args k,
  lookup-fill_defaults defaults (insert param default args) k,
  lookup-insert param k default args,
  text_eq_iff param k,
)

lookup-fill_table :
    (step : StepDefn) (m : Macro) (table : Option (List (List Text))) (captures : Map Text)
    (k : Text)
    → lookup k (fill_table step m table (captures, [])).0
      ≡ or_else (lookup k captures) (declared_value m k table)
lookup-fill_table step m none captures k = ground arith
lookup-fill_table step m (some rows) captures k = lookup-table_rows step m rows (captures, []) k

lookup-fill_docstring :
    (step : StepDefn) (m : Macro) (docstring : Option Text) (f : Filled) (k : Text)
    → lookup k (fill_docstring step m docstring f).0
      ≡ or_else (docstring_value m k docstring) (lookup k f.0)
lookup-fill_docstring step m none f k = ground arith
lookup-fill_docstring step m (some docstring) (args, diags) k =
    ground (arith, lookup-insert docstring_param k docstring args, text_eq_iff docstring_param k)

or_else_assoc :
    (a b c d : Option Text)
    → or_else (or_else a (or_else b c)) d ≡ or_else a (or_else b (or_else c d))
or_else_assoc a b c d = ground arith

-- Whatever is reported, a parameter has the step's docstring if it is the parameter `docstring` that
-- the macro declares, else its capture, else the value of the first row for it if the macro declares
-- it, else its default.
pub lookup-fill_args :
    (step : StepDefn) (m : Macro) (captures : Map Text) (k : Text)
    → lookup k (fill_args step m captures).0 ≡ supplied step m captures k
unfolding fill_args
lookup-fill_args step m captures k =
    rw
      (
        lookup-fill_defaults m.defaults
            (fill_docstring step m step.docstring (fill_table step m step.table (captures, []))).0
            k,
        lookup-fill_docstring step m step.docstring (fill_table step m step.table (captures, [])) k,
        lookup-fill_table step m step.table captures k,
      )
      (or_else_assoc (docstring_value m k step.docstring) (lookup k captures)
        (declared_value m k step.table) (lookup k m.defaults))
