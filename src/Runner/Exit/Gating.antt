-- ===== src/Runner/Exit/Gating.antt =====
-- crates/proef-core/src/runner.rs: `exit_code_excluding` and the scenarios of the run.
use proef.Base.{
  ℕ, ◌≤◌, ◌≡◌, ◌≢◌, ◌↔◌, ◌⊎◌, inl, inr, Bool, true, false, none, some, List, [], ◌∷◌, All, Any,
  All-map, Any-map, Any-either, Any-absurd, not-Any, arith, if◌then◌else◌, Bool-cases,
}
use proef.Base.Texts.{Text}
use proef.Runner.{failed, user, system, ScenarioOutcome}
use proef.Runner.Exit.{
  ExitCode, success, test_failure, user_error, system_error, rank, pick_worse, is_failed,
  is_quarantined, code_of, outcome_code, worst, RunSummary, exit_code_excluding,
}

abbrev pub HasSystemFault : ScenarioOutcome → Type 0
HasSystemFault o = (m : Text) × (o.fault ≡ some (system m))

abbrev pub HasUserFault : ScenarioOutcome → Type 0
HasUserFault o = (m : Text) × (o.fault ≡ some (user m))

-- No fault, and not failed unless quarantined.
abbrev pub IsAccepted : List (Text × Text) → ScenarioOutcome → Type 0
IsAccepted non_gating o =
    (o.fault ≡ none) × ((o.status ≢ failed) ⊎ (is_quarantined non_gating o ≡ true))

abbrev pub HasFault : ScenarioOutcome → Type 0
HasFault o = HasSystemFault o ⊎ HasUserFault o

reach-pick_worse :
    (n : ℕ) (a b : ExitCode) → (n ≤ rank (pick_worse a b)) ↔ (n ≤ rank a) ⊎ (n ≤ rank b)
unfolding pick_worse
reach-pick_worse n a b = ground arith

module _ (non_gating : List (Text × Text)) where
  -- The worst code reaches what the start or some scenario reaches.
  reach-worst :
      (n : ℕ) (code : ExitCode) (os : List ScenarioOutcome)
      → (n ≤ rank (worst non_gating code os))
        ↔ (n ≤ rank code) ⊎ Any (λ o. n ≤ rank (outcome_code non_gating o)) os
  unfolding worst
  reach-worst n code [] = ground arith
  reach-worst n code (o ∷ os) = ground (
    arith,
    reach-worst n (pick_worse code (outcome_code non_gating o)) os,
    reach-pick_worse n code (outcome_code non_gating o),
  )

  reach-three : (o : ScenarioOutcome) → (3 ≤ rank (outcome_code non_gating o)) ↔ HasSystemFault o
  unfolding outcome_code code_of
  reach-three o = ground arith

  reach-two : (o : ScenarioOutcome) → (2 ≤ rank (outcome_code non_gating o)) ↔ HasFault o
  unfolding outcome_code code_of
  reach-two o = ground arith

  reach-one :
      (o : ScenarioOutcome) → ¬ (1 ≤ rank (outcome_code non_gating o)) ↔ IsAccepted non_gating o
  unfolding outcome_code code_of is_failed
  reach-one o = ground arith

  -- From 2 on it is the scenarios that decide, not the cancellation.
  worst-faulty :
      (n : ℕ) (P : ScenarioOutcome → Type 0) (c : Bool) (os : List ScenarioOutcome)
      → 2 ≤ n
      → ((o : ScenarioOutcome) → (n ≤ rank (outcome_code non_gating o)) ↔ P o)
      → (n ≤ rank (worst non_gating (if c then test_failure else success) os)) ↔ Any P os
  worst-faulty n P c os big reach =
      let r = reach-worst n (if c then test_failure else success) os in
      (
        λ h. elim (r.0 h) [
          | inl low ↦ absurd (ground (arith, Bool-cases c))
          | inr some_reaches ↦ Any-map _ _ (λ o. (reach o).0) os some_reaches
        ],
        λ h. r.1 (inr (Any-map _ _ (λ o. (reach o).1) os h)),
      )

  worst-one :
      (c : Bool) (os : List ScenarioOutcome)
      → (¬ (1 ≤ rank (worst non_gating (if c then test_failure else success) os)))
        ↔ (c ≡ false) × All (IsAccepted non_gating) os
  worst-one c os =
      let code = if c then test_failure else success in
      let r = reach-worst 1 code os in
      (
        λ n. (
          elim (Bool-cases c) [ inl e ↦ absurd (n (r.1 (inl (ground arith)))) | inr e ↦ e ],
          All-map (λ o. (reach-one o).0) os (not-Any _ os (λ h. n (r.1 (inr h)))),
        ),
        λ h e. elim (r.0 e) [
          | inl low ↦ ground arith
          | inr some_reaches ↦ Any-absurd _ os (All-map (λ o. (reach-one o).1) os h.1) some_reaches
        ],
      )

rank-three : (c : ExitCode) → (c ≡ system_error) ↔ (3 ≤ rank c)
rank-three c = ground arith

rank-two : (c : ExitCode) → (c ≡ user_error) ↔ (2 ≤ rank c) × (¬ (3 ≤ rank c))
rank-two c = ground arith

rank-one : (c : ExitCode) → (c ≡ success) ↔ (¬ (1 ≤ rank c))
rank-one c = ground arith

-- The exit code is 3 exactly if some scenario has a system fault; it is 2 exactly if none has, and
-- some scenario has a user fault; it is 0 exactly if the run was not cancelled and every scenario
-- has no fault and, unless it is quarantined, did not fail. (Otherwise it is 1.)
pub exit_code_excluding_iff :
    (non_gating : List (Text × Text)) (s : RunSummary)
    → ((exit_code_excluding non_gating s ≡ system_error) ↔ Any HasSystemFault s.outcomes)
      × (((exit_code_excluding non_gating s ≡ user_error)
            ↔ (¬ Any HasSystemFault s.outcomes) × Any HasUserFault s.outcomes)
          × ((exit_code_excluding non_gating s ≡ success)
              ↔ (s.cancelled ≡ false) × All (IsAccepted non_gating) s.outcomes))
unfolding exit_code_excluding
exit_code_excluding_iff non_gating s =
    let code = worst non_gating (if s.cancelled then test_failure else success) s.outcomes in
    let three =
      worst-faulty non_gating 3 HasSystemFault s.cancelled s.outcomes (omega arith)
        (reach-three non_gating) in
    let two =
      worst-faulty non_gating 2 HasFault s.cancelled s.outcomes (omega arith)
        (reach-two non_gating) in
    let one = worst-one non_gating s.cancelled s.outcomes in
    (
      (λ h. three.0 ((rank-three code).0 h), λ h. (rank-three code).1 (three.1 h)),
      (
        (
          λ h.
              let (faulty, no_system) = (rank-two code).0 h in
              (
                λ a. no_system (three.1 a),
                elim (Any-either HasSystemFault HasUserFault s.outcomes (two.0 faulty)) [
                  | inl a ↦ absurd (no_system (three.1 a))
                  | inr a ↦ a
                ],
              ),
          λ h. (rank-two code).1 (
            two.1 (Any-map HasUserFault HasFault (λ o. inr) s.outcomes h.1),
            λ a. h.0 (three.0 a),
          ),
        ),
        (λ h. one.0 ((rank-one code).0 h), λ h. (rank-one code).1 (one.1 h)),
      ),
    )
