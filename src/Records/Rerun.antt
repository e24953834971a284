-- ===== src/Records/Rerun.antt =====
-- crates/proef-cli/src/record.rs: `rerun_candidates` and `RerunFilter::keeps`.
pub mod Kept
pub mod Reached
use proef.Base.{
  ℕ, suc, Bool, true, false, not, Option, none, some, List, [], ◌∷◌, ◌++◌, any, ◌&&◌, ◌||◌, ◌==◌,
  if◌then◌else◌,
}
use proef.Base.Texts.{Text}
use proef.Base.Keyed.{Order}
use proef.Runner.{Status, passed, failed, skipped, warned}
use proef.Records.Events.{Event}
use proef.Records.{
  Key, key_order, ScenarioRun, is_suite, RunCompletion, completed, cancelled, incomplete, Record,
  parse_record,
}

-- A set of keys, in key order.
abbrev pub KeySet : Type 0
KeySet = List Key

unfoldable pub has_key : Key → KeySet → Bool
has_key k s = any (λ (j : Key). key_order.eq j k) s

pub record RerunFilter : Type 0 where
  pub queued : KeySet
  pub finished_when_truncated : Option KeySet

unfoldable pub is_absent : Key → Option KeySet → Bool
unfolding has_key
is_absent k none = false
is_absent k (some finished) = not (has_key k finished)

-- `RerunFilter::keeps`
unfoldable pub keeps : RerunFilter → Text → Text → Bool
unfolding has_key is_absent
keeps f file name =
    if has_key (file, name) f.queued then true else is_absent (file, name) f.finished_when_truncated

pub record RerunCandidates : Type 0 where
  pub scenarios : List Key
  pub never_ran : ℕ
  pub filter : RerunFilter

abbrev pub starts_with_at : Text → Bool
starts_with_at [] = false
starts_with_at (c ∷ _) = c == 64

-- The skip has an authored reason.
abbrev pub is_authored : Option Text → Bool
is_authored none = false
is_authored (some reason) = starts_with_at reason

-- The variables of the loop.
pub record Queue : Type 0 where
  pub finished : KeySet
  pub scenarios : List Key
  pub never_ran : ℕ

unfoldable pub by_status : Bool → Key → ScenarioRun → Status → Queue → Queue
by_status was_cancelled key run failed q = record q { scenarios = q.scenarios ++ key ∷ [] }
by_status was_cancelled key run skipped q =
    if was_cancelled && not (is_authored run.reason)
    then record q { never_ran = suc q.never_ran; scenarios = q.scenarios ++ key ∷ [] }
    else q
by_status was_cancelled key run passed q = q
by_status was_cancelled key run warned q = q

unfoldable pub queue_run : Bool → Key → ScenarioRun → Queue → Queue
unfolding by_status is_suite
queue_run was_cancelled key run q =
    if is_suite run
    then by_status was_cancelled key run run.status (record q { finished = q.finished ++ key ∷ [] })
    else q

unfoldable pub queue_runs : Bool → List (Key × ScenarioRun) → Queue → Queue
unfolding queue_run
queue_runs was_cancelled [] q = q
queue_runs was_cancelled ((key, run) ∷ runs) q =
    queue_runs was_cancelled runs (queue_run was_cancelled key run q)

abbrev pub is_cancelled : RunCompletion → Bool
is_cancelled completed = false
is_cancelled cancelled = true
is_cancelled incomplete = false

abbrev pub is_incomplete : RunCompletion → Bool
is_incomplete completed = false
is_incomplete cancelled = false
is_incomplete incomplete = true

abbrev pub no_queue : Queue
no_queue = record { finished = []; scenarios = []; never_ran = 0 }

unfoldable pub candidates_of : Record → RerunCandidates
unfolding queue_runs
candidates_of r =
    let q = queue_runs (is_cancelled r.completion) r.scenarios no_queue in
    record {
      scenarios = q.scenarios;
      never_ran = q.never_ran;
      filter = record {
        queued = q.scenarios;
        finished_when_truncated = if is_incomplete r.completion then some q.finished else none;
      };
    }

unfoldable pub rerun_candidates : List Event → RerunCandidates
unfolding candidates_of parse_record
rerun_candidates events = candidates_of (parse_record events)
