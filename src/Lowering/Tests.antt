-- ===== src/Lowering/Tests.antt =====
-- crates/proef-core/src/lower.rs: steps of two engines, with an optional and a merged one.
use proef.Base.{◌≡◌, refl, ◌↔◌, ℕ, Bool, true, false, none, some, List, [], ◌∷◌, map}
use proef.Base.Texts.{Text, codes}
use proef.Base.Maps.{Map}
use proef.Runner.{passed, StepOutcome}
use proef.Runner.Pool.{ScenarioSpec}
use proef.Runner.Scenario.{opened, Engines, Prepared}
use proef.Lowering.{Step, Batch, Work, hurl_entries, merged_asserts, structured, segment}
use proef.Lowering.Segmented.{steps_of, IsSegmented}
use proef.Lowering.Unique.{segment_iff}
use proef.Lowering.Options.{whole_secret, mentions_secret, variable_option_line}
use proef.Lowering.Quoted.{read_option, read_option-variable_option_line}
use proef.Lowering.Reported.{dispatched}

abbrev kinds : Map Text
kinds = (codes "hurl", codes "http") ∷ []

abbrev request : ℕ → Bool → Step
request n optional = record {
  step = record { file = codes "a.feature"; line = n; text = codes "get" };
  payload = record { kind = codes "hurl"; payload = hurl_entries (codes "GET http://a") };
  optional = optional;
  label = none;
  fragment = none;
}

abbrev asserts : ℕ → Step
asserts n = record {
  step = record { file = codes "a.feature"; line = n; text = codes "then" };
  payload = record { kind = codes "hurl"; payload = merged_asserts 1 };
  optional = false;
  label = none;
  fragment = none;
}

abbrev shell : ℕ → Step
shell n = record {
  step = record { file = codes "a.feature"; line = n; text = codes "sh" };
  payload = record { kind = codes "shell"; payload = structured (codes "[]") };
  optional = false;
  label = none;
  fragment = none;
}

abbrev steps : List Step
steps =
    request 1 false ∷ request 2 false ∷ request 3 true ∷ asserts 4 ∷ request 5 false ∷ shell 6 ∷ []

abbrev http : ℕ → List Step → Batch
http n ss = (n, record { engine = codes "http"; steps = ss })

abbrev batches : List Batch
batches =
    http 0 (request 1 false ∷ request 2 false ∷ [])
    ∷ http 1 (request 3 true ∷ asserts 4 ∷ request 5 false ∷ [])
    ∷ (2, record { engine = codes "shell"; steps = shell 6 ∷ [] })
    ∷ []

segment_iff_example :
    (segment kinds steps ≡ batches) ↔ (steps_of batches ≡ steps) × IsSegmented kinds 0 batches
segment_iff_example = segment_iff kinds steps batches

abbrev report : Step → StepOutcome
report s = record {
  step = s.step;
  status = passed;
  attempts = 1;
  duration = 5;
  detail = none;
  attempt_details = [];
  reproduce_hint = none;
  fragment = none;
  label = none;
}

abbrev engines : Engines ℕ Unit Work
engines = record {
  open_session = λ id. some (opened tt);
  run_batch =
      λ batch session world. (tt, (world, record { steps = map report batch.steps; error = none }));
  finish = λ session. none;
}

abbrev prepared : Prepared Work
prepared = record { batches = dispatched batches; artifact_slug = none }

abbrev spec : ScenarioSpec
spec = record {
  file = codes "a.feature";
  name = codes "mixed";
  line = 1;
  tags = [];
  skip = none;
  exclusive = false;
}

whole : whole_secret (codes " ${secret: KEY } ") ≡ some (codes "KEY")
unfolding whole_secret
whole = refl

composite :
    (whole_secret (codes "Bearer ${secret:KEY}") ≡ none)
    × (mentions_secret (codes "Bearer ${secret:KEY}") ≡ true)
    × (mentions_secret (codes "$${secret:KEY}") ≡ false)
unfolding whole_secret mentions_secret
composite = (refl, refl, refl)

read_option-variable_option_line_example :
    read_option (codes "q") (variable_option_line (codes "q") (codes "a\"\\"))
    ≡ some (codes "a\"\\", [])
read_option-variable_option_line_example =
    read_option-variable_option_line (codes "q") (codes "a\"\\")
