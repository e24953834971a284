-- ===== src/Records.antt =====
-- crates/proef-cli/src/record.rs: the record of a run as a fold of its events, and what `--rerun`
-- takes from it. The events are those of crates/proef-core/src/event.rs.
pub mod Events
mod Ordered
mod Closes
pub mod Rerun
pub mod Diff
pub mod Sla
pub mod Flaky
pub mod Carried
mod Tests
use proef.Base.{
  ℕ, suc, ◌+◌, Bool, true, false, not, Option, none, some, List, [], ◌∷◌, ◌++◌, map, any, filter,
  is_some, ◌&&◌, ◌||◌, ◌==◌, if◌then◌else◌,
}
use proef.Base.Texts.{Text, text_eq}
use proef.Base.Maps.{Map}
use proef.Base.Keyed.{Order, text_order, nat_order, pair_order, find, put, erase}
use proef.Runner.{Status, passed, failed, skipped, warned, StepRef}
use proef.Runner.Exit.{is_failed}
use proef.Records.Events.{
  Event, run_started, scenario_started, batch_started, entry_running, step_finished,
  scenario_finished, run_finished, RunStarted, StepFinished, ScenarioFinished, RunFinished,
}

-- File and name of a scenario.
abbrev pub Key : Type 0
Key = Text × Text

abbrev pub key_order : Order Key
key_order = pair_order text_order text_order

pub record StepRun : Type 0 where
  pub attempts : ℕ
  pub duration_ms : ℕ

abbrev pub step_order : Order (Text × ℕ)
step_order = pair_order text_order nat_order

-- By text and ordinal.
abbrev pub StepBuffer : Type 0
StepBuffer = List ((Text × ℕ) × StepRun)

pub record ScenarioRun : Type 0 where
  pub status : Status
  pub steps : StepBuffer
  pub phase : Option Text
  pub reason : Option Text
  pub tags : List Text

unfoldable pub is_suite : ScenarioRun → Bool
is_suite run = not (is_some run.phase)

pub data RunCompletion : Type 0 where
  completed cancelled incomplete : RunCompletion

pub record RunTotals : Type 0 where
  pub passed : ℕ
  pub failed : ℕ
  pub skipped : ℕ

pub record Record : Type 0 where
  pub env : Option Text
  pub metadata : Map Text
  pub rerun_of : Option Text
  pub scenarios : List (Key × ScenarioRun)
  pub completion : RunCompletion
  pub totals : Option RunTotals
  pub legacy_multi_pair : Bool

abbrev pub Pending : Type 0
Pending = List (Key × StepBuffer)

abbrev pub or_empty : Option StepBuffer → StepBuffer
or_empty none = []
or_empty (some steps) = steps

abbrev pub is_empty_text : Text → Bool
is_empty_text [] = true
is_empty_text (_ ∷ _) = false

-- What is left of `pending`, the key, and the steps.
abbrev pub Taken : Type 0
Taken = Pending × (Key × StepBuffer)

-- The pending scenarios of one name: one alone gives its file.
abbrev pub adopt : Pending → Key → List Key → Taken
adopt pending key (found ∷ []) =
    (erase key_order found pending, ((found.0, key.1), or_empty (find key_order found pending)))
adopt pending key [] = (pending, (key, []))
adopt pending key (_ ∷ _ ∷ _) = (pending, (key, []))

abbrev pub keys {ℓ} : {K : Type 0} {V : Type ℓ} → List (K × V) → List K
keys [] = []
keys ((k, _) ∷ m) = k ∷ keys m

abbrev pub take_by : Pending → Key → Option StepBuffer → Taken
take_by pending key (some steps) = (erase key_order key pending, (key, steps))
take_by pending key none =
    if is_empty_text key.0
    then adopt pending key (filter (λ (k : Key). text_eq k.1 key.1) (keys pending))
    else (pending, (key, []))

unfoldable pub take_pending_steps : Pending → Key → Taken
unfolding find erase text_eq
take_pending_steps pending key = take_by pending key (find key_order key pending)

pub record Head : Type 0 where
  pub seen : Bool
  pub env : Option Text
  pub metadata : Map Text
  pub rerun_of : Option Text

-- `Head::fold`, of a `RunStarted`.
unfoldable pub fold_head : RunStarted → Head → Head
fold_head e head =
    if head.seen
    then head
    else record { seen = true; env = e.env; metadata = e.metadata; rerun_of = e.rerun_of }

-- The variables of `parse_record`.
pub record Fold : Type 0 where
  pub head : Head
  pub pending : Pending
  pub seen : List ((Key × Text) × ℕ)
  pub scenarios : List (Key × ScenarioRun)
  pub completion : RunCompletion
  pub totals : Option RunTotals
  pub legacy_multi_pair : Bool

abbrev pub or_zero : Option ℕ → ℕ
or_zero none = 0
or_zero (some n) = n

abbrev pub seen_order : Order (Key × Text)
seen_order = pair_order key_order text_order

unfoldable pub on_step : StepFinished → Fold → Fold
unfolding find put
on_step e f =
    let key : Key = (e.step.file, e.scenario) in
    let ord = or_zero (find seen_order (key, e.step.text) f.seen) in
    let run : StepRun = record { attempts = e.attempts; duration_ms = e.duration_ms } in
    let buffer = or_empty (find key_order key f.pending) in
    record f {
      seen = put seen_order (key, e.step.text) (suc ord) f.seen;
      pending = put key_order key (put step_order (e.step.text, ord) run buffer) f.pending;
    }

unfoldable pub on_close : ScenarioFinished → Fold → Fold
unfolding take_pending_steps put
on_close e f =
    let taken = take_pending_steps f.pending (e.file, e.scenario) in
    record f {
      pending = taken.0;
      scenarios =
          put key_order taken.1.0
            (record {
              status = e.status;
              steps = taken.1.1;
              phase = e.phase;
              reason = e.reason;
              tags = e.tags;
            })
            f.scenarios;
    }

unfoldable pub on_end : RunFinished → Fold → Fold
on_end e f = record f {
  legacy_multi_pair = is_some f.totals;
  completion = if e.cancelled then cancelled else completed;
  totals = some (record { passed = e.passed; failed = e.failed; skipped = e.skipped });
}

unfoldable pub on_event : Event → Fold → Fold
unfolding on_step fold_head on_close on_end
on_event (step_finished e) f = on_step e f
on_event (run_started e) f = record f { head = fold_head e f.head }
on_event (scenario_finished e) f = on_close e f
on_event (run_finished e) f = on_end e f
on_event (scenario_started e) f = f
on_event (batch_started e) f = f
on_event (entry_running e) f = f

unfoldable pub fold_events : List Event → Fold → Fold
unfolding on_event
fold_events [] f = f
fold_events (e ∷ events) f = fold_events events (on_event e f)

abbrev pub start : Fold
start = record {
  head = record { seen = false; env = none; metadata = []; rerun_of = none };
  pending = [];
  seen = [];
  scenarios = [];
  completion = incomplete;
  totals = none;
  legacy_multi_pair = false;
}

abbrev pub record_of : Fold → Record
record_of f = record {
  env = f.head.env;
  metadata = f.head.metadata;
  rerun_of = f.head.rerun_of;
  scenarios = f.scenarios;
  completion = f.completion;
  totals = f.totals;
  legacy_multi_pair = f.legacy_multi_pair;
}

unfoldable pub parse_record : List Event → Record
unfolding fold_events
parse_record events = record_of (fold_events events start)
