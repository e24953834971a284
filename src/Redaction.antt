-- ===== src/Redaction.antt =====
-- crates/proef-core/src/report.rs: `Redactions`, which finds and masks secrets. The needles are the
-- list that `Redactions::new` has derived and sorted.
mod Masking
mod Tests
use proef.Base.{
  ℕ, zero, suc, ◌-◌, Bool, true, false, Option, none, some, List, [], ◌∷◌, ◌++◌, any, length,
  if◌then◌else◌,
}
use proef.Base.Texts.{Text, codes, strip_prefix, split_at_find}

abbrev pub Redactions : Type 0
Redactions = List Text

-- `str::contains`
unfoldable pub contains_text : Text → Text → Bool
unfolding split_at_find
contains_text needle t = elim (split_at_find needle t) [ none ↦ false | some _ ↦ true ]

unfoldable pub taints : Redactions → Text → Bool
unfolding contains_text
taints needles t = any (λ needle. contains_text needle t) needles

-- `str::replace` by the mask, for a needle that is not empty: the occurrences from left to right, of
-- which the first argument is what is left to skip.
unfoldable pub replace_from : ℕ → Text → Text → Text
unfolding strip_prefix
replace_from k needle [] = []
replace_from (suc k) needle (c ∷ t) = replace_from k needle t
replace_from zero needle (c ∷ t) = elim (strip_prefix needle (c ∷ t)) [
  | none ↦ c ∷ replace_from zero needle t
  | some _ ↦ codes "***" ++ replace_from (length needle - 1) needle t
]

abbrev pub or_text : Option Text → Text → Text
or_text none t = t
or_text (some u) t = u

-- The loop of `applied`, with `out` so far.
unfoldable pub apply_each : Redactions → Option Text → Text → Option Text
unfolding contains_text replace_from
apply_each [] out t = out
apply_each (needle ∷ needles) out t =
    let haystack = or_text out t in
    apply_each needles
      (if contains_text needle haystack then some (replace_from zero needle haystack) else out) t

unfoldable pub applied : Redactions → Text → Option Text
unfolding apply_each
applied needles t = apply_each needles none t

unfoldable pub apply : Redactions → Text → Text
unfolding applied
apply needles t = or_text (applied needles t) t
