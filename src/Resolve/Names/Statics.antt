-- ===== src/Resolve/Names/Statics.antt =====
-- crates/proef-core/src/resolve.rs: which references are wrong whatever the values are.
use proef.Base.{◌≡◌, Bool, true, false, not, Option, none, some, [], ◌∷◌, ◌||◌, if◌then◌else◌}
use proef.Base.Texts.{Text, codes, text_eq, split_once_char, trim}
use proef.Fake.{is_known_generator}
use proef.Resolve.{found, missing}
use proef.Resolve.Names.{
  ResolveMode, strict, dry_run, probe, ResolveError, unknown_variable, missing_env, missing_global,
  missing_config_var, unknown_namespace, unknown_run_field, fake_unknown, empty_reference, Found,
}

-- An error that no value could mend.
abbrev pub is_static : ResolveError → Bool
is_static (unknown_variable _ _) = false
is_static (missing_env _) = false
is_static (missing_global _) = false
is_static (missing_config_var _ _ _) = false
is_static (unknown_namespace _) = true
is_static (unknown_run_field _) = true
is_static (fake_unknown _ _) = true
is_static empty_reference = true

abbrev pub is_unset_global : ResolveError → Bool
is_unset_global (missing_global _) = true
is_unset_global (unknown_variable _ _) = false
is_unset_global (missing_env _) = false
is_unset_global (missing_config_var _ _ _) = false
is_unset_global (unknown_namespace _) = false
is_unset_global (unknown_run_field _) = false
is_unset_global (fake_unknown _ _) = false
is_unset_global empty_reference = false

-- A name that is wrong in itself: an unknown namespace, generator or field of the run.
abbrev pub is_wrong_in : Text → Text → Bool
is_wrong_in namespace arg =
    if text_eq namespace (codes "env")
    then false
    else if text_eq namespace (codes "run")
    then not (text_eq arg (codes "id"))
    else if text_eq namespace (codes "global")
    then false
    else if text_eq namespace (codes "secret")
    then false
    else if text_eq namespace (codes "fake")
    then not (is_known_generator arg)
    else if text_eq namespace (codes "url") || text_eq namespace (codes "vars")
    then false
    else true

abbrev pub is_wrong_name : Option (Text × Text) → Bool
is_wrong_name none = false
is_wrong_name (some (namespace, arg)) = is_wrong_in namespace arg

abbrev pub is_wrong_trimmed : Text → Bool
is_wrong_trimmed [] = true
is_wrong_trimmed (c ∷ t) = is_wrong_name (split_once_char 58 (c ∷ t))

abbrev pub is_wrong : Text → Bool
is_wrong name = is_wrong_trimmed (trim name)

-- The errors that a mode can have: a global that is not set is none in a dry run, and a probe has none
-- that a value would mend.
abbrev pub can_fail : ResolveMode → ResolveError → Bool
can_fail strict e = true
can_fail dry_run e = not (is_unset_global e)
can_fail probe e = is_static e

-- A name that is wrong in itself has a static error; one that is not has a value or an error that a
-- value would mend; and the mode can have the error.
abbrev pub Fits : ResolveMode → Bool → Found → Type 0
Fits mode wrong (found value r) = wrong ≡ false
Fits mode wrong (missing e) = (is_static e ≡ wrong) × (can_fail mode e ≡ true)
