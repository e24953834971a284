-- ===== src/Resolve/Names.antt =====
-- crates/proef-core/src/resolve.rs: what the name of a reference stands for.
mod Statics
mod Tests
use proef.Base.{
  ℕ, suc, ◌+◌, Bool, true, false, not, Option, none, some, List, [], ◌∷◌, ◌++◌, ◌||◌, if◌then◌else◌,
}
use mathlib.Core.Option
use proef.Base.Texts.{Text, codes, text_eq, strip_prefix, split_at_find, split_once_char, trim}
use proef.Base.Maps.{Map, TextSet, lookup, set_insert}
use proef.Base.Printing.{decimal}
use proef.World.{ℤ, pos, negsuc, Value, null, bool, int, float, string, World, get}
use proef.Fake.{is_known_generator, generators, generate}
use proef.Distance.Suggest.{suggest_or_enumerate}
use proef.Resolve
use proef.Resolve.{Lookup, found, missing, Resolved, resolve}

pub data ResolveMode : Type 0 where
  strict dry_run probe : ResolveMode

pub record ResolveCtx (Float : Type 0) : Type 0 where
  pub args : Map Text
  pub defaults : Map Text
  pub env : Map Text
  pub config_vars : Map Text
  pub run_id : Text
  pub world : World Float
  pub mode : ResolveMode

-- A `Resolution` without its text, and the occurrences of generators.
pub record Resolution : Type 0 where
  pub secrets : TextSet
  pub globals : TextSet
  pub warnings : List Text
  pub fakes : ℕ

pub data ResolveError : Type 0 where
  unknown_variable : Text → Option Text → ResolveError
  missing_env : Text → ResolveError
  missing_global : Text → ResolveError
  missing_config_var : Text → Text → Option Text → ResolveError
  unknown_namespace : Text → ResolveError
  unknown_run_field : Text → ResolveError
  fake_unknown : Text → Option Text → ResolveError
  empty_reference : ResolveError

abbrev pub Found : Type 0
Found = Lookup Resolution ResolveError

-- `(!tail.is_empty()).then_some(tail)`
abbrev pub non_empty : Text → Option Text
non_empty [] = none
non_empty (c ∷ t) = some (c ∷ t)

unfoldable pub suggestion_for : Text → List Text → Option Text
unfolding suggest_or_enumerate
suggestion_for input candidates = non_empty (suggest_or_enumerate input candidates none).tail

abbrev pub is_probe : ResolveMode → Bool
is_probe probe = true
is_probe strict = false
is_probe dry_run = false

unfoldable pub probe_or : ResolveError → ResolveMode → Resolution → Found
probe_or err mode r = if is_probe mode then found (codes "probe") r else missing err

abbrev pub keys : Map Text → List Text
keys [] = []
keys ((k, _) ∷ m) = k ∷ keys m

-- The keys with a prefix, without it.
unfoldable pub stripped : Text → List Text → List Text
unfolding strip_prefix
stripped prefix [] = []
stripped prefix (k ∷ ks) = elim (strip_prefix prefix k) [
  | none ↦ stripped prefix ks
  | some rest ↦ rest ∷ stripped prefix ks
]

-- A name that holds a colon, its variable and its default.
abbrev pub split_default : Text → Option (Text × Text) → Text × Option Text
split_default arg none = (arg, none)
split_default arg (some (var, rest)) = (var, strip_prefix (codes ":-") rest)

abbrev pub env_or : ResolveMode → Text → Option Text → Option Text → Resolution → Found
env_or mode var default (some value) r = found value r
env_or mode var (some default) none r = found default r
env_or mode var none none r = probe_or (missing_env var) mode r

abbrev pub unset_warning : Text → Text
unset_warning arg =
    codes "`${global:" ++ (arg ++ codes "}` is not set yet — it may be populated at run time")

-- The placeholder, not the value.
unfoldable pub secret_value : Text → Resolution → Found
unfolding set_insert
secret_value arg r =
    found (codes "{{" ++ (arg ++ codes "}}")) (record r { secrets = set_insert arg r.secrets })

abbrev pub generated : Text → Option Text → Resolution → Found
generated arg (some value) r = found value r
generated arg none r = missing (fake_unknown arg none)

abbrev pub fresh : ℕ → Resolution
fresh fakes = record { secrets = []; globals = []; warnings = []; fakes = fakes }

module _ {Float : Type 0} where
  unfoldable pub env_value : ResolveCtx Float → Text → Resolution → Found
  unfolding split_at_find strip_prefix lookup probe_or
  env_value ctx arg r =
      let (var, default) = split_default arg (split_at_find (codes ":-") arg) in
      env_or ctx.mode var default (lookup var ctx.env) r

  unfoldable pub run_value : ResolveCtx Float → Text → Resolution → Found
  unfolding text_eq
  run_value ctx arg r =
      if text_eq arg (codes "id") then found ctx.run_id r else missing (unknown_run_field arg)

  unfoldable pub fake_value : ResolveCtx Float → Text → Resolution → Found
  unfolding is_known_generator suggestion_for generate
  fake_value ctx arg r =
      if is_known_generator arg
      then generated arg (generate ctx.run_id r.fakes arg) (record r { fakes = r.fakes + 1 })
      else missing (fake_unknown arg (suggestion_for arg generators))

  abbrev pub config_or : ResolveCtx Float → Text → Text → Option Text → Resolution → Found
  config_or ctx namespace arg (some value) r = found value r
  config_or ctx namespace arg none r =
      probe_or
        (missing_config_var namespace arg
          (suggestion_for arg (stripped (namespace ++ codes ":") (keys ctx.config_vars))))
        ctx.mode r

  unfoldable pub resolve_config_var : ResolveCtx Float → Text → Text → Text → Resolution → Found
  unfolding lookup probe_or suggestion_for stripped
  resolve_config_var ctx name namespace arg r =
      config_or ctx namespace arg (lookup name ctx.config_vars) r

  -- A plain name: the arguments, then the defaults.
  abbrev pub plain_or : ResolveCtx Float → Text → Option Text → Option Text → Resolution → Found
  plain_or ctx name (some value) default r = found value r
  plain_or ctx name none (some value) r = found value r
  plain_or ctx name none none r =
      probe_or (unknown_variable name (suggestion_for name (keys ctx.args ++ keys ctx.defaults)))
        ctx.mode r

  unfoldable pub plain_value : ResolveCtx Float → Text → Resolution → Found
  unfolding lookup probe_or suggestion_for
  plain_value ctx name r = plain_or ctx name (lookup name ctx.args) (lookup name ctx.defaults) r

module _ {Float : Type 0} (show_float : Float → Text) where
  -- `Value::to_string`
  unfoldable pub shown : Value Float → Text
  unfolding decimal
  shown null = []
  shown (bool true) = codes "true"
  shown (bool false) = codes "false"
  shown (int (pos n)) = decimal n
  shown (int (negsuc n)) = codes "-" ++ decimal (suc n)
  shown (float x) = show_float x
  shown (string t) = t

  abbrev pub global_or : ResolveMode → Text → Option (Value Float) → Resolution → Found
  global_or mode arg (some value) r = found (shown value) r
  global_or strict arg none r = missing (missing_global arg)
  global_or dry_run arg none r =
      found [] (record r { warnings = r.warnings ++ unset_warning arg ∷ [] })
  global_or probe arg none r = found (codes "probe") r

  unfoldable pub global_value : ResolveCtx Float → Text → Resolution → Found
  unfolding set_insert get shown
  global_value ctx arg r =
      global_or ctx.mode arg (get arg ctx.world) (record r { globals = set_insert arg r.globals })

  -- The `match` on the namespace.
  unfoldable pub in_namespace : ResolveCtx Float → Text → Text → Text → Resolution → Found
  unfolding text_eq env_value run_value global_value secret_value fake_value resolve_config_var
  in_namespace ctx name namespace arg r =
      if text_eq namespace (codes "env")
      then env_value ctx arg r
      else if text_eq namespace (codes "run")
      then run_value ctx arg r
      else if text_eq namespace (codes "global")
      then global_value ctx arg r
      else if text_eq namespace (codes "secret")
      then secret_value arg r
      else if text_eq namespace (codes "fake")
      then fake_value ctx arg r
      else if text_eq namespace (codes "url") || text_eq namespace (codes "vars")
      then resolve_config_var ctx name namespace arg r
      else missing (unknown_namespace namespace)

  abbrev pub split_name : ResolveCtx Float → Text → Option (Text × Text) → Resolution → Found
  split_name ctx name (some (namespace, arg)) r = in_namespace ctx name namespace arg r
  split_name ctx name none r = plain_value ctx name r

  abbrev pub non_empty_name : ResolveCtx Float → Text → Resolution → Found
  non_empty_name ctx [] r = missing empty_reference
  non_empty_name ctx (c ∷ t) r = split_name ctx (c ∷ t) (split_once_char 58 (c ∷ t)) r

  -- `lookup`
  unfoldable pub value_of : ResolveCtx Float → Text → Resolution → Found
  unfolding trim split_once_char in_namespace plain_value
  value_of ctx name r = non_empty_name ctx (trim name) r

  -- `resolve`
  unfoldable pub resolve_text : ResolveCtx Float → Text → ℕ → Resolved Resolution ResolveError
  unfolding value_of resolve
  resolve_text ctx text fakes = resolve (value_of ctx) text (fresh fakes)
