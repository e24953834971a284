-- ===== src/Runner/Pool/Dispatch/Tests.antt =====
-- crates/proef-core/src/runner.rs: a run with two slots: a scenario that ends, an exclusive one that hangs, one that is
-- skipped.
use proef.Base.{ℕ, ◌≡◌, refl, Bool, true, false, Option, none, some, List, [], ◌∷◌, All, arith}
use proef.Base.Texts.{codes}
use proef.Runner.{passed, ScenarioOutcome}
use proef.Runner.Exit.{system_error, exit_code}
use proef.Runner.Pool.{
  ScenarioSpec, Board, Queue, RunConfig, message, done, batch_begin, timeout, disconnected, Turn,
}
use proef.Runner.Pool.Dispatch.{Flow, again, over, panicked, dispatch, summarise}
use proef.Runner.Pool.Dispatch.Accounts.{at, ended}
use proef.Runner.Pool.Dispatch.Safety.{Holds}
use proef.Runner.Pool.Dispatch.Outcomes.{once, IsOrderly, dispatch-IsOrderly, dispatch_complete}

abbrev spec : ℕ → Bool → Option (List ℕ) → ScenarioSpec
spec n exclusive skip = record {
  file = codes "a.feature";
  name = n ∷ [];
  line = n;
  tags = [];
  skip = skip;
  exclusive = exclusive;
}

abbrev specs : List ScenarioSpec
specs = spec 65 false none ∷ spec 66 true none ∷ spec 67 false (some (codes "@skip")) ∷ []

abbrev config : RunConfig
config = record { jobs = 2; default_batch_budget = 30000 }

abbrev fine : ScenarioOutcome
fine = record {
  file = codes "a.feature";
  name = 65 ∷ [];
  line = 65;
  status = passed;
  reason = none;
  tags = [];
  steps = [];
  fault = none;
  artifact_slug = none;
}

abbrev turns : List Turn
turns =
    record {
      is_cancelled = λ i. false;
      started_at = λ i. 0;
      waited_from = 0;
      received = message (done 0 fine);
      now = 10;
    }
    ∷ record {
      is_cancelled = λ i. false;
      started_at = λ i. 20;
      waited_from = 20;
      received = message (batch_begin 1 50);
      now = 30;
    }
    ∷ record {
      is_cancelled = λ i. false;
      started_at = λ i. 40;
      waited_from = 40;
      received = timeout;
      now = 2050;
    }
    ∷ record {
      is_cancelled = λ i. false;
      started_at = λ i. 2060;
      waited_from = 2060;
      received = timeout;
      now = 2070;
    }
    ∷ []

-- The queue, the active indices, and the indices with an outcome.
abbrev view : Flow → List ℕ × List ℕ
view (again q b) = (b.abandoned, 1000 ∷ [])
view (over q b) = (b.abandoned, indices b.outcomes)
  where
    indices : List (ℕ × ScenarioOutcome) → List ℕ
    indices [] = []
    indices ((i, o) ∷ os) = i ∷ indices os
view panicked = ([], 2000 ∷ [])

ran : view (dispatch config specs turns) ≡ (1 ∷ [], 1 ∷ 2 ∷ 0 ∷ [])
unfolding dispatch
ran = refl

abbrev last : Flow → Board
last (again q b) = b
last (over q b) = b
last panicked = record {
  active = [];
  exclusive_active = false;
  outcomes = [];
  calls = [];
  abandoned = [];
}

exits : exit_code (summarise false (last (dispatch config specs turns))).0 ≡ system_error
unfolding dispatch summarise exit_code
exits = refl

dispatch-IsOrderly_example :
    Holds (IsOrderly config specs) (IsOrderly config specs) (dispatch config specs turns)
dispatch-IsOrderly_example = dispatch-IsOrderly config specs turns

connected : All (λ t. ¬ (t.received ≡ disconnected)) turns
connected = (λ h. ground arith, (λ h. ground arith, (λ h. ground arith, (λ h. ground arith, tt))))

over_there : dispatch config specs turns ≡ over [] (last (dispatch config specs turns))
unfolding dispatch
over_there = refl

dispatch_complete_example :
    (◌≡◌ {A = Queue} [] [])
    × (((last (dispatch config specs turns)).active ≡ [])
        × ((i : ℕ) → ended (at i) (last (dispatch config specs turns)).outcomes ≡ once specs i))
dispatch_complete_example =
    dispatch_complete config specs turns [] (last (dispatch config specs turns)) connected
      over_there

abbrev hanging : List ScenarioSpec
hanging = spec 65 false none ∷ spec 66 true none ∷ []

abbrev patient : List Turn
patient =
    record {
      is_cancelled = λ i. false;
      started_at = λ i. 0;
      waited_from = 0;
      received = timeout;
      now = 32000;
    }
    ∷ record {
      is_cancelled = λ i. false;
      started_at = λ i. 32100;
      waited_from = 32100;
      received = timeout;
      now = 64100;
    }
    ∷ []
