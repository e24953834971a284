-- ===== src/Records/Diff/Certified.antt =====
-- crates/proef-cli/src/diff.rs: what the exit code of `diff --fail-on-regression` certifies.
use proef.Base.{
  ◌≡◌, ◌↔◌, refl, ap, sym, none, some, ◌∙◌, Bool, true, false, Bool-cases, Option, List, [], ◌∷◌,
  count_p, inl, inr, arith, filter,
}
use proef.Base.Keyed.{find, Above, IsOrdered}
use proef.Runner.Exit.{success, is_failed}
use proef.Runner.{Status, passed, failed, skipped, warned}
use proef.Records.Events.{Event}
use proef.Records.{Key, key_order, ScenarioRun, is_suite, Record, parse_record}
use proef.Records.Ordered.{parse_record-IsOrdered}
use proef.Records.Diff.{Runs, compute, suite_only, is_completed, is_empty, diff}
use proef.Records.Diff.Verdicts.{regressed, verdict, is_verdict, is_key, count_in, one_if}
use proef.Records.Diff.Computed.{status_of, compute-verdict}

Above-filter :
    (p : Key × ScenarioRun → Bool) (k : Key) (m : Runs)
    → Above key_order k m
    → Above key_order k (filter p m)
Above-filter p k [] a = tt
Above-filter p k ((j, run) ∷ m) (b, a) = elim (Bool-cases (p (j, run))) [
  | inl e ↦ rw e (b, Above-filter p k m a)
  | inr e ↦ rw e (Above-filter p k m a)
]

filter-IsOrdered :
    (p : Key × ScenarioRun → Bool) (m : Runs)
    → IsOrdered key_order m
    → IsOrdered key_order (filter p m)
filter-IsOrdered p [] h = tt
filter-IsOrdered p ((j, run) ∷ m) (a, h) = elim (Bool-cases (p (j, run))) [
  | inl e ↦ rw e (Above-filter p j m a, filter-IsOrdered p m h)
  | inr e ↦ rw e (filter-IsOrdered p m h)
]

-- The status of a suite scenario of a record.
abbrev pub suite_status : Key → Record → Option Status
suite_status k r = status_of (find key_order k (suite_only r.scenarios))

is_empty_iff : (ks : List Key) → (is_empty ks ≡ true) ↔ ((k : Key) → count_p (is_key k) ks ≡ 0)
is_empty_iff [] = (λ h k. refl, λ h. refl)
is_empty_iff (j ∷ ks) = (λ h. cc, λ h. absurd (ground (arith, h j, (key_order.eq_iff j j).1 refl)))

one_if-eq-zero : (b : Bool) → (one_if b ≡ 0) ↔ (b ≡ false)
one_if-eq-zero b = ground arith

-- Whether the scenario passed before, with a warning or without, and fails now.
abbrev pub has_regressed : Option Status → Option Status → Bool
has_regressed (some passed) (some failed) = true
has_regressed (some warned) (some failed) = true
has_regressed _ _ = false

is_verdict-regressed :
    (before now : Option Status)
    → is_verdict regressed (verdict before now) ≡ has_regressed before now
unfolding is_failed
is_verdict-regressed none none = refl
is_verdict-regressed none (some now) = refl
is_verdict-regressed (some passed) none = refl
is_verdict-regressed (some failed) none = refl
is_verdict-regressed (some skipped) none = refl
is_verdict-regressed (some warned) none = refl
is_verdict-regressed (some passed) (some passed) = refl
is_verdict-regressed (some passed) (some failed) = refl
is_verdict-regressed (some passed) (some skipped) = refl
is_verdict-regressed (some passed) (some warned) = refl
is_verdict-regressed (some failed) (some passed) = refl
is_verdict-regressed (some failed) (some failed) = refl
is_verdict-regressed (some failed) (some skipped) = refl
is_verdict-regressed (some failed) (some warned) = refl
is_verdict-regressed (some skipped) (some passed) = refl
is_verdict-regressed (some skipped) (some failed) = refl
is_verdict-regressed (some skipped) (some skipped) = refl
is_verdict-regressed (some skipped) (some warned) = refl
is_verdict-regressed (some warned) (some passed) = refl
is_verdict-regressed (some warned) (some failed) = refl
is_verdict-regressed (some warned) (some skipped) = refl
is_verdict-regressed (some warned) (some warned) = refl

module _ (base new : List Event) where
  -- The scenario is none that fails now and passed before, with a warning or without.
  abbrev pub NotRegressed : Key → Type 0
  NotRegressed k =
      has_regressed (suite_status k (parse_record base)) (suite_status k (parse_record new)) ≡ false

  counted :
      (k : Key)
      → count_in regressed k (
          compute
            (suite_only (parse_record base).scenarios)
            (suite_only (parse_record new).scenarios))
        ≡ one_if
            (has_regressed (suite_status k (parse_record base)) (suite_status k (parse_record new)))
  counted k =
      let p = λ (e : Key × ScenarioRun). is_suite e.1 in
      compute-verdict regressed k (suite_only (parse_record base).scenarios)
        (suite_only (parse_record new).scenarios)
        (filter-IsOrdered p (parse_record base).scenarios (parse_record-IsOrdered base))
        (filter-IsOrdered p (parse_record new).scenarios (parse_record-IsOrdered new))
      ∙ ap one_if (
          is_verdict-regressed (suite_status k (parse_record base))
            (suite_status k (parse_record new)))

  none_regressed :
      (is_empty
          (compute
            (suite_only (parse_record base).scenarios)
            (suite_only (parse_record new).scenarios)).regressed
        ≡ true)
      ↔ ((k : Key) → NotRegressed k)
  none_regressed =
      let r =
        compute (suite_only (parse_record base).scenarios)
          (suite_only (parse_record new).scenarios) in
      (
        λ h k. (one_if-eq-zero _).0 (sym (counted k) ∙ (is_empty_iff r.regressed).0 h k),
        λ h. (is_empty_iff r.regressed).1 (λ k. counted k ∙ (one_if-eq-zero _).1 (h k)),
      )

  -- With `--fail-on-regression` the comparison of two records succeeds exactly if the new run
  -- completed and no suite scenario fails in it that passed in the base, with a warning or without; one
  -- that the base does not have, or in which it was skipped, may fail.
  pub diff-eq-success_iff :
      (diff (parse_record base) (parse_record new) true ≡ success)
      ↔ ((is_completed (parse_record new).completion ≡ true) × ((k : Key) → NotRegressed k))
  unfolding diff
  diff-eq-success_iff = elim (Bool-cases (is_completed (parse_record new).completion)) [
    | inl e ↦
        elim (Bool-cases (
          is_empty
            (compute (suite_only (parse_record base).scenarios)
              (suite_only (parse_record new).scenarios)).regressed)) [
                | inl f ↦ (λ h. (e, none_regressed.0 f), λ h. rw (e, f) refl)
                | inr f ↦
                    (λ h. absurd (ground arith), λ h. absurd (ground (arith, none_regressed.1 h.1)))
              ]
    | inr e ↦ (λ h. absurd (ground arith), λ h. absurd (ground (arith, h.0)))
  ]
