-- ===== src/Runner/Pool.antt =====
-- crates/proef-core/src/runner.rs: the dispatch loop of `run` with its watchdog. What the outside
-- does in one turn of the loop (the clock, the cancellation, the message that comes) is the turn's
-- data; the calls of the record gate are kept as a list, newest first, as are the outcomes, which
-- carry the index of their scenario.
pub mod Dispatch
use proef.Base.{
  ℕ, suc, ◌+◌, max, Bool, true, false, not, Option, none, some, List, [], ◌∷◌, map, length,
  get_elem?, ltb, leb, ◌==◌, ◌&&◌, ◌||◌, if◌then◌else◌,
}
use proef.Base.Texts.{Text, codes}
use proef.Runner.{Status, failed, skipped, StepOutcome, Fault, system, ScenarioOutcome}
use proef.Runner.Gate.Record.{Call, finished}

-- Without the preparation and the root of the files, which only the scenario's thread uses.
pub record ScenarioSpec : Type 0 where
  pub file : Text
  pub name : Text
  pub line : ℕ
  pub tags : List Text
  pub skip : Option Text
  pub exclusive : Bool

pub record Identity : Type 0 where
  pub file : Text
  pub name : Text
  pub line : ℕ
  pub tags : List Text

pub identity_of : ScenarioSpec → Identity
identity_of s = record { file = s.file; name = s.name; line = s.line; tags = s.tags }

-- The dispatcher's events.
pub data Event : Type 0 where
  run_started : Event
  scenario_finished : Text → Text → Status → Option Text → List Text → Event
  run_finished : ℕ → ℕ → ℕ → Bool → Event

-- An entry of `active`: the key, the deadline and the spec, which the thread has got.
pub record Worker : Type 0 where
  pub index : ℕ
  pub deadline : ℕ
  pub spec : ScenarioSpec

pub record Board : Type 0 where
  pub active : List Worker
  pub exclusive_active : Bool
  pub outcomes : List (ℕ × ScenarioOutcome)
  pub calls : List (Call Event)
  -- The scenarios whose tokens the watchdog has cancelled.
  pub abandoned : List ℕ

abbrev pub Queue : Type 0
Queue = List (ℕ × ScenarioSpec)

pub record RunConfig : Type 0 where
  pub jobs : ℕ
  pub default_batch_budget : ℕ

pub data Msg : Type 0 where
  batch_begin : ℕ → ℕ → Msg
  done : ℕ → ScenarioOutcome → Msg

pub data Received : Type 0 where
  message : Msg → Received
  timeout disconnected : Received

-- What `cancel.is_cancelled()` and `Instant::now()` say when the scenario of an index is taken from
-- the queue, the time from which `recv_timeout` waits and what it gives, and the time of the sweep.
pub record Turn : Type 0 where
  pub is_cancelled : ℕ → Bool
  pub started_at : ℕ → ℕ
  pub waited_from : ℕ
  pub received : Received
  pub now : ℕ

abbrev pub grace : ℕ
grace = 2000

-- `BTreeMap::insert`
unfoldable pub insert_worker : Worker → List Worker → List Worker
insert_worker w [] = w ∷ []
insert_worker w (v ∷ vs) =
    if w.index == v.index
    then w ∷ vs
    else if ltb w.index v.index
    then w ∷ v ∷ vs
    else v ∷ insert_worker w vs

-- `BTreeMap::remove`, `none` where the key is missing.
unfoldable pub remove_worker : ℕ → List Worker → Option (List Worker)
remove_worker i [] = none
remove_worker i (v ∷ vs) =
    if i == v.index
    then some vs
    else elim (remove_worker i vs) [ none ↦ none | some rest ↦ some (v ∷ rest) ]

abbrev pub with_active : List Worker → Board → Board
with_active ws b = record b { active = ws }

-- Finish a scenario at the gate and push its outcome.
unfoldable pub conclude : ℕ → ScenarioOutcome → Board → Board
conclude i o b = record b {
  outcomes = (i, o) ∷ b.outcomes;
  calls =
      finished (o.file, o.name) (scenario_finished o.name o.file o.status o.reason o.tags)
      ∷ b.calls;
}

pub skipped_outcome : ScenarioSpec → Text → ScenarioOutcome
skipped_outcome s reason = record {
  file = s.file;
  name = s.name;
  line = s.line;
  status = skipped;
  reason = some reason;
  tags = s.tags;
  steps = [];
  fault = none;
  artifact_slug = none;
}

pub abandoned_outcome : Identity → ScenarioOutcome
abandoned_outcome id = record {
  file = id.file;
  name = id.name;
  line = id.line;
  status = failed;
  reason = none;
  tags = id.tags;
  steps = [];
  fault = some (system (codes "batch budget exceeded — scenario thread abandoned (ADR-0007)"));
  artifact_slug = none;
}
