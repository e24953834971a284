-- ===== src/Records/Rerun/Kept.antt =====
-- crates/proef-cli/src/record.rs: which scenarios `--rerun` runs.
use proef.Base.{
  ◌≡◌, refl, subst, Bool, true, false, not, Bool-cases, Option, none, some, List, [], ◌∷◌, ◌++◌,
  ◌&&◌, ◌||◌, if◌then◌else◌, inl, inr, arith,
}
use proef.Base.Texts.{Text}
use proef.Base.Keyed.{find, Above, IsOrdered, find-Above}
use proef.Runner.{Status, passed, failed, skipped, warned}
use proef.Runner.Exit.{is_failed}
use proef.Records.Events.{Event}
use proef.Records.{Key, key_order, ScenarioRun, is_suite, RunCompletion, parse_record}
use proef.Records.Ordered.{parse_record-IsOrdered}
use proef.Records.Rerun.{
  KeySet, has_key, is_absent, keeps, is_authored, Queue, by_status, queue_run, queue_runs,
  is_cancelled, is_incomplete, no_queue, candidates_of, rerun_candidates,
}

abbrev is_skipped : Status → Bool
is_skipped skipped = true
is_skipped passed = false
is_skipped failed = false
is_skipped warned = false

-- A run that has to be run again.
abbrev pub is_due : Bool → ScenarioRun → Bool
is_due was_cancelled run =
    is_suite run
    && (is_failed run.status
        || (was_cancelled && is_skipped run.status && not (is_authored run.reason)))

abbrev pub found_and : (ScenarioRun → Bool) → Option ScenarioRun → Bool
found_and p none = false
found_and p (some run) = p run

-- What the record says of an identity decides whether it runs again.
abbrev pub is_wanted : RunCompletion → Option ScenarioRun → Bool
is_wanted completion found =
    found_and (is_due (is_cancelled completion)) found
    || (is_incomplete completion && not (found_and is_suite found))

has_key-push : (k j : Key) (s : KeySet) → has_key k (s ++ j ∷ []) ≡ has_key k s || key_order.eq j k
unfolding has_key
has_key-push k j [] = ground arith
has_key-push k j (i ∷ s) = ground (arith, has_key-push k j s)

has_key-by_status :
    (c : Bool) (k j : Key) (run : ScenarioRun) (status : Status) (q : Queue)
    → has_key k (by_status c j run status q).scenarios
      ≡ has_key k q.scenarios
        || (key_order.eq j k
            && (is_failed status || (c && is_skipped status && not (is_authored run.reason))))
unfolding by_status is_failed
has_key-by_status c k j run failed q = ground (arith, has_key-push k j q.scenarios)
has_key-by_status c k j run skipped q = ground (arith, has_key-push k j q.scenarios)
has_key-by_status c k j run passed q = ground arith
has_key-by_status c k j run warned q = ground arith

finished-by_status :
    (c : Bool) (j : Key) (run : ScenarioRun) (status : Status) (q : Queue)
    → (by_status c j run status q).finished ≡ q.finished
unfolding by_status
finished-by_status c j run failed q = refl
finished-by_status c j run skipped q = ground arith
finished-by_status c j run passed q = refl
finished-by_status c j run warned q = refl

scenarios-queue_run :
    (c : Bool) (k j : Key) (run : ScenarioRun) (q : Queue)
    → has_key k (queue_run c j run q).scenarios
      ≡ has_key k q.scenarios || (key_order.eq j k && is_due c run)
unfolding queue_run
scenarios-queue_run c k j run q = elim (Bool-cases (is_suite run)) [
  | inl e ↦
      rw e (has_key-by_status c k j run run.status (record q { finished = q.finished ++ j ∷ [] }))
  | inr e ↦ rw e (ground arith)
]

finished-queue_run :
    (c : Bool) (k j : Key) (run : ScenarioRun) (q : Queue)
    → has_key k (queue_run c j run q).finished
      ≡ has_key k q.finished || (key_order.eq j k && is_suite run)
unfolding queue_run
finished-queue_run c k j run q = elim (Bool-cases (is_suite run)) [
  | inl e ↦
      let noted = record q { finished = q.finished ++ j ∷ [] } in
      rw (e, finished-by_status c j run run.status noted)
        (ground (arith, has_key-push k j q.finished))
  | inr e ↦ rw e (ground arith)
]

find_tail :
    (k j : Key) (runs : List (Key × ScenarioRun))
    → Above key_order j runs
    → key_order.eq j k ≡ true
    → find key_order k runs ≡ none
find_tail k j runs a e =
    subst (λ i. find key_order i runs ≡ none) ((key_order.eq_iff j k).0 e)
      (find-Above key_order j runs a)

module _ (c : Bool) (k : Key) where
  scenarios-queue_runs :
      (runs : List (Key × ScenarioRun)) (q : Queue)
      → IsOrdered key_order runs
      → has_key k (queue_runs c runs q).scenarios
        ≡ has_key k q.scenarios || found_and (is_due c) (find key_order k runs)
  unfolding queue_runs find
  scenarios-queue_runs [] q h = ground arith
  scenarios-queue_runs ((j, run) ∷ runs) q (a, h) = elim (Bool-cases (key_order.eq j k)) [
    | inl e ↦
        let step = scenarios-queue_run c k j run q in
        let rest = scenarios-queue_runs runs (queue_run c j run q) h in
        rw e (ground (arith, step, rest, find_tail k j runs a e))
    | inr e ↦
        let step = scenarios-queue_run c k j run q in
        let rest = scenarios-queue_runs runs (queue_run c j run q) h in
        rw e (ground (arith, step, rest))
  ]

  finished-queue_runs :
      (runs : List (Key × ScenarioRun)) (q : Queue)
      → IsOrdered key_order runs
      → has_key k (queue_runs c runs q).finished
        ≡ has_key k q.finished || found_and is_suite (find key_order k runs)
  unfolding queue_runs find
  finished-queue_runs [] q h = ground arith
  finished-queue_runs ((j, run) ∷ runs) q (a, h) = elim (Bool-cases (key_order.eq j k)) [
    | inl e ↦
        let step = finished-queue_run c k j run q in
        let rest = finished-queue_runs runs (queue_run c j run q) h in
        rw e (ground (arith, step, rest, find_tail k j runs a e))
    | inr e ↦
        let step = finished-queue_run c k j run q in
        let rest = finished-queue_runs runs (queue_run c j run q) h in
        rw e (ground (arith, step, rest))
  ]

has_key-nil : (k : Key) → has_key k [] ≡ false
unfolding has_key
has_key-nil k = refl

is_absent-if :
    (b : Bool) (k : Key) (s : KeySet)
    → is_absent k (if b then some s else none) ≡ b && not (has_key k s)
unfolding is_absent
is_absent-if true k s = refl
is_absent-if false k s = refl

-- Of a record's scenarios `--rerun` runs exactly those that failed, the skipped ones of a cancelled
-- run whose skip was not authored, and, where the record has no end, all but those suite scenarios
-- that it saw finish; phases count as unseen.
pub keeps_iff :
    (events : List Event) (file name : Text)
    → keeps (rerun_candidates events).filter file name
      ≡ is_wanted
          (parse_record events).completion
          (find key_order (file, name) (parse_record events).scenarios)
unfolding keeps rerun_candidates candidates_of
keeps_iff events file name =
    let r = parse_record events in
    let c = is_cancelled r.completion in
    let k : Key = (file, name) in
    let h = parse_record-IsOrdered events in
    let q = queue_runs c r.scenarios no_queue in
    ground (
      arith,
      scenarios-queue_runs c k r.scenarios no_queue h,
      finished-queue_runs c k r.scenarios no_queue h,
      is_absent-if (is_incomplete r.completion) k q.finished,
      has_key-nil k,
    )
