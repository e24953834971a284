-- ===== src/Records/Diff/Computed.antt =====
-- crates/proef-cli/src/diff.rs: `Report::compute` gives each scenario its verdict.
use proef.Base.{
  ℕ, ◌+◌, ◌≡◌, refl, ap, subst, ◌∙◌, Bool, true, false, not, Bool-cases, Option, none, some, List,
  [], ◌∷◌, ◌++◌, is_some, ltb, ◌&&◌, if◌then◌else◌, inl, inr, arith,
}
use proef.Base.Texts.{Text}
use proef.Base.Keyed.{find, Above, IsOrdered, find-Above}
use proef.Runner.{Status}
use proef.Records.{Key, key_order, StepRun, step_order, StepBuffer, ScenarioRun}
use proef.Records.Diff.{
  FlakyLine, SlowerLine, Report, by_statuses, flaky_step, flaky_steps, note_flaky, is_slower,
  sum_steps, note_slower, compare_runs, Runs, compare_all, note_removed, empty_report, compute,
}
use proef.Records.Diff.Verdicts.{
  Verdict, regressed, removed, added, verdict, is_verdict, is_key, count_in, one_if, count_in-place,
  by_statuses-place,
}

-- Nothing but the lists of flaky and slower scenarios differs.
abbrev SameVerdicts : Report → Report → Type 0
SameVerdicts r r' = (v : Verdict) (k : Key) → count_in v k r' ≡ count_in v k r

count_in-flaky :
    (v : Verdict) (k : Key) (r : Report) (lines : List FlakyLine)
    → count_in v k (record r { flaky = lines }) ≡ count_in v k r
count_in-flaky regressed k r lines = refl
count_in-flaky _ k r lines = refl

count_in-slower :
    (v : Verdict) (k : Key) (r : Report) (lines : List SlowerLine)
    → count_in v k (record r { slower = lines }) ≡ count_in v k r
count_in-slower regressed k r lines = refl
count_in-slower _ k r lines = refl

flaky_step-Same :
    (j : Key) (t : Text) (base : Option StepRun) (step : StepRun) (r : Report)
    → SameVerdicts r (flaky_step j t base step r)
flaky_step-Same j t none step r v k = refl
flaky_step-Same j t (some base) step r v k = elim (Bool-cases (ltb base.attempts step.attempts)) [
  | inl e ↦ rw e (count_in-flaky v k r _)
  | inr e ↦ rw e refl
]

flaky_steps-Same :
    (j : Key) (base steps : StepBuffer) (r : Report) → SameVerdicts r (flaky_steps j base steps r)
unfolding flaky_steps
flaky_steps-Same j base [] r v k = refl
flaky_steps-Same j base (((t, ord), step) ∷ steps) r v k =
    let found = find step_order (t, ord) base in
    flaky_steps-Same j base steps (flaky_step j t found step r) v k
    ∙ flaky_step-Same j t found step r v k

note_flaky-Same :
    (j : Key) (base new : ScenarioRun) (r : Report) → SameVerdicts r (note_flaky j base new r)
unfolding note_flaky
note_flaky-Same j base new r = flaky_steps-Same j base.steps new.steps r

note_slower-Same :
    (j : Key) (base new : ScenarioRun) (r : Report) → SameVerdicts r (note_slower j base new r)
unfolding note_slower
note_slower-Same j base new r v k =
    elim (Bool-cases (is_slower (sum_steps base.steps new.steps (0, 0)))) [
      | inl e ↦ rw e (count_in-slower v k r _)
      | inr e ↦ rw e refl
    ]

abbrev pub status_of : Option ScenarioRun → Option Status
status_of none = none
status_of (some run) = some run.status

-- Where a scenario of the new run is put.
compare_runs-count :
    (v : Verdict) (k j : Key) (base : Option ScenarioRun) (new : ScenarioRun) (r : Report)
    → count_in v k (compare_runs j base new r)
      ≡ count_in v k r
        + one_if (is_key k j && is_verdict v (verdict (status_of base) (some new.status)))
unfolding compare_runs
compare_runs-count v k j none new r = count_in-place v k j (some (added new.status)) r
compare_runs-count v k j (some base) new r =
    let placed = by_statuses j base.status new.status r in
    let noted = note_flaky j base new placed in
    note_slower-Same j base new noted v k
    ∙ (note_flaky-Same j base new placed v k
        ∙ (ap (λ x. count_in v k x) (by_statuses-place j base.status new.status r)
            ∙ count_in-place v k j (verdict (some base.status) (some new.status)) r))

find_tail :
    (k j : Key) (runs : Runs)
    → Above key_order j runs
    → is_key k j ≡ true
    → find key_order k runs ≡ none
find_tail k j runs a e =
    subst (λ i. find key_order i runs ≡ none) ((key_order.eq_iff j k).0 e)
      (find-Above key_order j runs a)

-- What the new run adds to the list of a verdict.
abbrev gained : Verdict → Option ScenarioRun → Option ScenarioRun → ℕ
gained v base none = 0
gained v base (some new) = one_if (is_verdict v (verdict (status_of base) (some new.status)))

gained_at :
    (v : Verdict) (k j : Key) (base : Runs) (new : ScenarioRun)
    → is_key k j ≡ true
    → one_if
        (is_key k j && is_verdict v (verdict (status_of (find key_order j base)) (some new.status)))
      ≡ gained v (find key_order k base) (some new)
gained_at v k j base new e =
    let same = (key_order.eq_iff j k).0 e in
    rw e (
      ap
        (λ i. one_if (is_verdict v (verdict (status_of (find key_order i base)) (some new.status))))
        same)

compare_all-count :
    (v : Verdict) (k : Key) (base runs : Runs) (r : Report)
    → IsOrdered key_order runs
    → count_in v k (compare_all base runs r)
      ≡ count_in v k r + gained v (find key_order k base) (find key_order k runs)
unfolding compare_all find
compare_all-count v k base [] r h = omega arith
compare_all-count v k base ((j, new) ∷ runs) r (a, h) =
    let found = find key_order j base in
    let rest = compare_all-count v k base runs (compare_runs j found new r) h in
    let here = compare_runs-count v k j found new r in
    elim (Bool-cases (is_key k j)) [
      | inl e ↦ rw e (
          omega (
            arith,
            rest,
            here,
            ap (λ o. gained v (find key_order k base) o) (find_tail k j runs a e),
            gained_at v k j base new e,
          ))
      | inr e ↦ rw e (
          omega (
            arith,
            rest,
            here,
            ap (λ b. one_if (b && is_verdict v (verdict (status_of found) (some new.status)))) e,
          ))
    ]

abbrev lost : Verdict → Option ScenarioRun → Option ScenarioRun → ℕ
lost v base (some new) = 0
lost v none none = 0
lost v (some base) none = one_if (is_verdict v (some removed))

removed_step :
    (v : Verdict) (k j : Key) (is_there : Bool) (r : Report)
    → count_in v k (if is_there then r else record r { removed = r.removed ++ j ∷ [] })
      ≡ count_in v k r + one_if (not is_there && (is_key k j && is_verdict v (some removed)))
removed_step v k j true r = omega arith
removed_step v k j false r = count_in-place v k j (some removed) r

lost-none : (v : Verdict) (new : Option ScenarioRun) → lost v none new ≡ 0
lost-none v none = refl
lost-none v (some new) = refl

lost_cases :
    (v : Verdict) (base : ScenarioRun) (new : Option ScenarioRun)
    → one_if (not (is_some new) && (true && is_verdict v (some removed))) ≡ lost v (some base) new
lost_cases v base none = refl
lost_cases v base (some new) = refl

nothing : (b : Bool) → one_if (not b && false) ≡ 0
nothing true = refl
nothing false = refl

lost_at :
    (v : Verdict) (k j : Key) (base : ScenarioRun) (new : Runs)
    → is_key k j ≡ true
    → one_if (not (is_some (find key_order j new)) && (is_key k j && is_verdict v (some removed)))
      ≡ lost v (some base) (find key_order k new)
lost_at v k j base new e =
    rw (e, (key_order.eq_iff j k).0 e) (lost_cases v base (find key_order k new))

note_removed-count :
    (v : Verdict) (k : Key) (new runs : Runs) (r : Report)
    → IsOrdered key_order runs
    → count_in v k (note_removed new runs r)
      ≡ count_in v k r + lost v (find key_order k runs) (find key_order k new)
unfolding note_removed find
note_removed-count v k new [] r h = omega (arith, lost-none v (find key_order k new))
note_removed-count v k new ((j, base) ∷ runs) r (a, h) =
    let b = is_some (find key_order j new) in
    let r' = if b then r else record r { removed = r.removed ++ j ∷ [] } in
    let rest = note_removed-count v k new runs r' h in
    let here = removed_step v k j b r in
    elim (Bool-cases (is_key k j)) [
      | inl e ↦ rw e (
          omega (
            arith,
            rest,
            here,
            ap (λ o. lost v o (find key_order k new)) (find_tail k j runs a e),
            lost-none v (find key_order k new),
            lost_at v k j base new e,
          ))
      | inr e ↦ rw e (
          omega (
            arith,
            rest,
            here,
            ap (λ c. one_if (not b && (c && is_verdict v (some removed)))) e,
            nothing b,
          ))
    ]

empty-count : (v : Verdict) (k : Key) → count_in v k empty_report ≡ 0
empty-count regressed k = refl
empty-count _ k = refl

summed :
    (v : Verdict) (base new : Option ScenarioRun)
    → gained v base new + lost v base new
      ≡ one_if (is_verdict v (verdict (status_of base) (status_of new)))
summed v none none = refl
summed v none (some new) = omega arith
summed v (some base) none = omega arith
summed v (some base) (some new) = omega arith

-- For two sets of runs, keyed as in a map, each scenario stands in the list of the verdict that its
-- two statuses have by the table `verdict`, once, and in no other list; one without a verdict
-- stands in none.
pub compute-verdict :
    (v : Verdict) (k : Key) (base new : Runs)
    → IsOrdered key_order base
    → IsOrdered key_order new
    → count_in v k (compute base new)
      ≡ one_if (
          is_verdict v
            (verdict (status_of (find key_order k base)) (status_of (find key_order k new))))
unfolding compute
compute-verdict v k base new hb hn =
    let b = find key_order k base in
    let n = find key_order k new in
    omega (
      arith,
      note_removed-count v k new base (compare_all base new empty_report) hb,
      compare_all-count v k base new empty_report hn,
      empty-count v k,
      summed v b n,
    )
