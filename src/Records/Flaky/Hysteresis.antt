-- ===== src/Records/Flaky/Hysteresis.antt =====
-- crates/proef-cli/src/flaky.rs: how a scenario keeps its flag.
use proef.Base.{
  ◌≤◌, ◌≡◌, ◌≢◌, refl, Bool, false, List, [], ◌∷◌, ◌++◌, length, length-append, count_p-append,
  arith,
}
use proef.Records.Flaky.{
  FlakyThresholds, Observation, History, observed, failures, fails, changes, transitions,
  clean_tail, flaky, unquarantined, verdict,
}

failures-le : (runs : List Observation) → failures runs ≤ length runs
failures-le [] = omega arith
failures-le (o ∷ runs) = ground (arith, failures-le runs)

-- The verdict changes only where a run has failed.
changes-eq-zero : (runs : List Observation) → failures runs ≡ 0 → changes runs ≡ 0
unfolding changes
changes-eq-zero [] h = refl
changes-eq-zero (o ∷ []) h = refl
changes-eq-zero (o ∷ p ∷ runs) h = ground (arith, changes-eq-zero (p ∷ runs))

changes_mono : (runs more : List Observation) → changes runs ≤ changes (runs ++ more)
unfolding changes
changes_mono [] more = omega arith
changes_mono (o ∷ []) more = omega arith
changes_mono (o ∷ p ∷ runs) more = ground (arith, changes_mono (p ∷ runs) more)

-- What a flaky scenario has shown.
record Shown (t : FlakyThresholds) (h : History) : Type 0 where
  sampled : t.min_samples ≤ observed h
  unstable : 2 ≤ transitions h
  mixed : fails h ≢ observed h

verdict-Shown : (t : FlakyThresholds) (h : History) → verdict t h ≡ flaky → Shown t h
unfolding verdict unquarantined
verdict-Shown t h e = record {
  sampled = ground arith;
  unstable = ground arith;
  mixed = λ same. ground arith;
}

extend : History → List Observation → Bool → History
extend h more q = record { runs = h.runs ++ more; quarantined = q }

Shown-extend :
    (t : FlakyThresholds) (h : History) (more : List Observation) (q : Bool)
    → Shown t h
    → Shown t (extend h more q)
unfolding extend
Shown-extend t h more q s = record {
  sampled = omega (arith, s.sampled, length-append h.runs more);
  unstable = omega (arith, s.unstable, changes_mono h.runs more);
  mixed = λ same. s.mixed (
      omega (
        arith,
        same,
        length-append h.runs more,
        count_p-append (λ (o : Observation). o.has_failed) h.runs more,
        failures-le h.runs,
        failures-le more,
      ));
}

Shown-flaky :
    (t : FlakyThresholds) (h : History)
    → Shown t h
    → clean_tail t.recovery_runs h ≡ false
    → verdict t h ≡ flaky
unfolding verdict unquarantined
Shown-flaky t h s unclean =
    ground (arith, s.sampled, s.unstable, s.mixed, changes-eq-zero h.runs, unclean)

-- A scenario with the verdict flaky keeps it, whatever is observed afterwards and whether or not it
-- is quarantined, as long as its last runs, as many as the recovery window has, are not all clean.
pub verdict_stays :
    (t : FlakyThresholds) (h : History) (more : List Observation) (q : Bool)
    → verdict t h ≡ flaky
    → clean_tail t.recovery_runs (record { runs = h.runs ++ more; quarantined = q }) ≡ false
    → verdict t (record { runs = h.runs ++ more; quarantined = q }) ≡ flaky
unfolding extend
verdict_stays t h more q e unclean =
    Shown-flaky t (extend h more q) (Shown-extend t h more q (verdict-Shown t h e)) unclean
