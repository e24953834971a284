-- ===== src/Runner/Exit.antt =====
-- crates/proef-core/src/runner.rs: the exit code of a run, and its counts.
mod Gating
mod Tests
use proef.Base.{
  ℕ, suc, ◌+◌, ◌≡◌, Bool, true, false, not, Option, none, some, List, [], ◌∷◌, any, ltb, ◌&&◌,
  if◌then◌else◌,
}
use proef.Base.Texts.{Text, text_eq}
use proef.Runner.{Status, passed, failed, skipped, warned, Fault, user, system, ScenarioOutcome}

pub data ExitCode : Type 0 where
  success test_failure user_error system_error : ExitCode

-- The `rank` of `pick_worse`, which is also the process's exit code.
abbrev pub rank : ExitCode → ℕ
rank system_error = 3
rank user_error = 2
rank test_failure = 1
rank success = 0

pick_worse : ExitCode → ExitCode → ExitCode
pick_worse a b = if ltb (rank a) (rank b) then b else a

unfoldable pub is_failed : Status → Bool
is_failed failed = true
is_failed passed = false
is_failed skipped = false
is_failed warned = false

-- The scenario is among the quarantined `(file, name)` pairs.
pub is_quarantined : List (Text × Text) → ScenarioOutcome → Bool
unfolding text_eq
is_quarantined non_gating o =
    any (λ (p : Text × Text). text_eq p.0 o.file && text_eq p.1 o.name) non_gating

-- A scenario's fault, status and quarantine.
code_of : Option Fault → Status → Bool → ExitCode
unfolding is_failed
code_of (some (system _)) status quarantined = system_error
code_of (some (user _)) status quarantined = user_error
code_of none status quarantined =
    if is_failed status && not quarantined then test_failure else success

outcome_code : List (Text × Text) → ScenarioOutcome → ExitCode
unfolding code_of is_quarantined
outcome_code non_gating o = code_of o.fault o.status (is_quarantined non_gating o)

worst : List (Text × Text) → ExitCode → List ScenarioOutcome → ExitCode
unfolding outcome_code pick_worse
worst non_gating code [] = code
worst non_gating code (o ∷ os) = worst non_gating (pick_worse code (outcome_code non_gating o)) os

pub record RunSummary : Type 0 where
  pub outcomes : List ScenarioOutcome
  pub passed : ℕ
  pub failed : ℕ
  pub skipped : ℕ
  pub cancelled : Bool

unfoldable pub exit_code_excluding : List (Text × Text) → RunSummary → ExitCode
unfolding worst
exit_code_excluding non_gating s =
    worst non_gating (if s.cancelled then test_failure else success) s.outcomes

unfoldable pub exit_code : RunSummary → ExitCode
unfolding exit_code_excluding
exit_code s = exit_code_excluding [] s
