-- ===== src/Runner/Pool/Dispatch.antt =====
-- crates/proef-core/src/runner.rs: filling the free slots, taking a message, the sweep, the loop.
mod Accounts
mod Books
mod Limits
mod Safety
mod Outcomes
mod Progress
mod Ending
mod Tests
use proef.Base.{
  ℕ, suc, ◌+◌, ◌-◌, min, max, Bool, true, false, not, Option, none, some, List, [], ◌∷◌, map,
  reverse, length, get_elem?, ltb, leb, ◌==◌, ◌&&◌, ◌||◌, if◌then◌else◌,
}
use proef.Base.Texts.{Text, codes}
use proef.Runner.{Status, passed, failed, skipped, warned, ScenarioOutcome}
use proef.Runner.Gate.Record.{Call, run_level, closing}
use proef.Runner.Exit.{RunSummary, is_failed}
use proef.Runner.Pool.{
  Event, run_started, run_finished, ScenarioSpec, Identity, identity_of, Worker, Board, Queue,
  RunConfig, Msg, batch_begin, done, Received, message, timeout, disconnected, Turn, grace,
  insert_worker, remove_worker, with_active, conclude, skipped_outcome, abandoned_outcome,
}

abbrev pub is_empty {ℓ} : {A : Type ℓ} → List A → Bool
is_empty [] = true
is_empty (x ∷ xs) = false

-- Take a scenario without a skip from the queue: skip it if the run is cancelled, else start it.
unfoldable pub launch : RunConfig → Turn → ℕ → ScenarioSpec → Board → Board
unfolding insert_worker conclude skipped_outcome
launch config t i s b =
    let b' = record b { exclusive_active = s.exclusive } in
    if t.is_cancelled i
    then conclude i (skipped_outcome s (codes "run cancelled")) b'
    else with_active
        (insert_worker
          (record {
            index = i;
            deadline = t.started_at i + config.default_batch_budget + grace;
            spec = s;
          })
          b'.active)
        b'

-- `none` if it has to wait at the head of the queue.
unfoldable pub admit_unskipped : RunConfig → Turn → ℕ → ScenarioSpec → Board → Option Board
unfolding launch
admit_unskipped config t i s b =
    if (s.exclusive || b.exclusive_active) && not (is_empty b.active)
    then none
    else some (launch config t i s b)

unfoldable pub admit_by : RunConfig → Turn → ℕ → ScenarioSpec → Board → Option Text → Option Board
unfolding conclude admit_unskipped
admit_by config t i s b (some reason) = some (conclude i (skipped_outcome s reason) b)
admit_by config t i s b none = admit_unskipped config t i s b

-- One turn of the inner loop, for the scenario at the head of the queue.
unfoldable pub admit : RunConfig → Turn → ℕ → ScenarioSpec → Board → Option Board
unfolding admit_by
admit config t i s b =
    if ltb (length b.active) (max config.jobs 1) then admit_by config t i s b s.skip else none

unfoldable pub fill : RunConfig → Turn → Queue → Board → Queue × Board
unfolding admit
fill config t [] b = ([], b)
fill config t ((i, s) ∷ q) b = elim (admit config t i s b) [
  | none ↦ ((i, s) ∷ q, b)
  | some b' ↦ fill config t q b'
]

-- The earliest deadline, or `otherwise` where nothing is active.
next_deadline : ℕ → List Worker → ℕ
next_deadline otherwise [] = otherwise
next_deadline otherwise (w ∷ []) = w.deadline
next_deadline otherwise (w ∷ v ∷ vs) = min w.deadline (next_deadline otherwise (v ∷ vs))

-- How long `recv_timeout` waits from `now` on.
unfoldable pub wait_for : ℕ → List Worker → ℕ
unfolding next_deadline
wait_for now ws = max (next_deadline (now + grace) ws - now) 20

-- `batch_begin` moves the deadline of an active scenario.
abbrev pub extend : ℕ → ℕ → Worker → Worker
extend i deadline w = if i == w.index then record w { deadline = deadline + grace } else w

unfoldable pub take_done : ℕ → ScenarioOutcome → Option (List Worker) → Board → Board
unfolding conclude
take_done i o none b = b
take_done i o (some rest) b = conclude i o (with_active rest b)

-- `none` once all senders are gone, which leaves the loop.
unfoldable pub receive : Received → Board → Option Board
unfolding take_done remove_worker
receive (message (batch_begin i deadline)) b =
    some (with_active (map (extend i deadline) b.active) b)
receive (message (done i o)) b = some (take_done i o (remove_worker i b.active) b)
receive timeout b = some b
receive disconnected b = none

pub expired : ℕ → List Worker → List ℕ
expired now [] = []
expired now (w ∷ ws) =
    let rest = expired now ws in if leb w.deadline now then w.index ∷ rest else rest

-- The scenario's token is cancelled where it is still active.
abandon : ℕ → Option (List Worker) → Board → Board
abandon i none b = b
abandon i (some rest) b = record b { active = rest; abandoned = i ∷ b.abandoned }

-- `none` is the panic on an index outside of `identities`.
unfoldable pub sweep_each : List Identity → List ℕ → Board → Option Board
unfolding abandon remove_worker conclude abandoned_outcome
sweep_each identities [] b = some b
sweep_each identities (i ∷ is) b =
    let b' = abandon i (remove_worker i b.active) b in
    elim (get_elem? identities i) [
      | none ↦ none
      | some identity ↦ sweep_each identities is (conclude i (abandoned_outcome identity) b')
    ]

unfoldable pub sweep_expired : List Identity → ℕ → Board → Option Board
unfolding expired sweep_each
sweep_expired identities now b = sweep_each identities (expired now b.active) b

-- The loop goes on, has come to its end, or panics.
pub data Flow : Type 0 where
  again over : Queue → Board → Flow
  panicked : Flow

swept : Queue → Option Board → Flow
swept q none = panicked
swept q (some b) = again q b

pub after_message : List Identity → ℕ → Queue → Board → Option Board → Flow
unfolding sweep_expired swept
after_message identities now q before none = over q before
after_message identities now q before (some b) = swept q (sweep_expired identities now b)

await : List Identity → Turn → Queue × Board → Flow
unfolding receive after_message
await identities t (q, b) =
    if is_empty b.active
    then again q b
    else after_message identities t.now q b (receive t.received b)

-- The body of the outer loop.
unfoldable pub turn : RunConfig → List Identity → Turn → Queue → Board → Flow
unfolding fill await
turn config identities t q b =
    let b' = if is_empty b.active then record b { exclusive_active = false } else b in
    await identities t (fill config t q b')

-- The outer loop for a list of turns; `again` is a loop that has not come to its end.
unfoldable pub run_turns : RunConfig → List Identity → ℕ → List Turn → Queue → Board → Flow
unfolding turn
run_turns config identities total [] q b =
    if ltb (length b.outcomes) total then again q b else over q b
run_turns config identities total (t ∷ ts) q b =
    if ltb (length b.outcomes) total
    then elim (turn config identities t q b) [
      | again q' b' ↦ run_turns config identities total ts q' b'
      | over q' b' ↦ over q' b'
      | panicked ↦ panicked
    ]
    else over q b

pub enumerate_from : ℕ → List ScenarioSpec → Queue
enumerate_from n [] = []
enumerate_from n (s ∷ specs) = (n, s) ∷ enumerate_from (suc n) specs

abbrev pub start_board : Board
start_board = record {
  active = [];
  exclusive_active = false;
  outcomes = [];
  calls = run_level run_started ∷ [];
  abandoned = [];
}

unfoldable pub dispatch : RunConfig → List ScenarioSpec → List Turn → Flow
unfolding run_turns enumerate_from identity_of
dispatch config specs ts =
    run_turns config (map identity_of specs) (length specs) ts (enumerate_from 0 specs) start_board

abbrev pub is_passed : Status → Bool
is_passed passed = true
is_passed warned = true
is_passed failed = false
is_passed skipped = false

abbrev pub is_skipped : Status → Bool
is_skipped skipped = true
is_skipped passed = false
is_skipped failed = false
is_skipped warned = false

-- `filter` and `count` by a test of the status.
unfoldable pub count_by : (Status → Bool) → List (ℕ × ScenarioOutcome) → ℕ
count_by p [] = 0
count_by p ((i, o) ∷ os) = let rest = count_by p os in if p o.status then suc rest else rest

-- What follows the loop: the summary, and the last calls.
unfoldable pub summarise : Bool → Board → RunSummary × List (Call Event)
unfolding count_by
summarise cancelled b =
    let passes = count_by is_passed b.outcomes in
    let failures = count_by is_failed b.outcomes in
    let skips = count_by is_skipped b.outcomes in
    (
      record {
        outcomes = reverse (map (λ (p : ℕ × ScenarioOutcome). p.1) b.outcomes);
        passed = passes;
        failed = failures;
        skipped = skips;
        cancelled = cancelled;
      },
      closing ∷ run_level (run_finished passes failures skips cancelled) ∷ b.calls,
    )
