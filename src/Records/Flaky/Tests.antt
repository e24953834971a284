-- ===== src/Records/Flaky/Tests.antt =====
-- crates/proef-cli/src/flaky.rs: the tests of the program, and an instance.
use proef.Base.{◌≡◌, refl, Bool, true, false, List, [], ◌∷◌, ◌++◌, map}
use proef.Records.Flaky.{
  FlakyThresholds, Observation, History, flaky, healthy, disabled, clean_tail, verdict,
}
use proef.Records.Flaky.Hysteresis.{verdict_stays}

-- A run per flag: true is a failure.
abbrev runs : List Bool → List Observation
runs fails = map (λ (f : Bool). record { has_failed = f; retried = false; duration_ms = 10 }) fails

abbrev t : FlakyThresholds
t = record { min_samples = 4; recovery_runs = 3 }

abbrev flapping : List Bool
flapping = false ∷ true ∷ false ∷ true ∷ []

abbrev history : List Bool → Bool → History
history fails q = record { runs = runs fails; quarantined = q }

flagged : verdict t (history flapping false) ≡ flaky
unfolding verdict
flagged = refl

resolved : verdict t (history (true ∷ false ∷ true ∷ false ∷ false ∷ false ∷ []) false) ≡ healthy
unfolding verdict
resolved = refl

switched_off : verdict t (history (true ∷ true ∷ true ∷ true ∷ []) true) ≡ disabled
unfolding verdict
switched_off = refl

verdict_stays_example :
    verdict t (record { runs = runs flapping ++ runs (false ∷ false ∷ []); quarantined = true })
    ≡ flaky
unfolding verdict clean_tail
verdict_stays_example =
    verdict_stays t (history flapping false) (runs (false ∷ false ∷ [])) true refl refl
