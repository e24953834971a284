-- ===== src/Runner/Pool/Dispatch/Progress.antt =====
-- crates/proef-core/src/runner.rs: the outcomes that a turn of the dispatch loop adds.
use proef.Base.{
  ℕ, ◌+◌, ◌≤◌, ◌≡◌, inl, inr, refl, arith, max, Bool, true, false, Option, none, some, List, [],
  ◌∷◌, map, length, get_elem?, ltb, leb, ◌||◌, if◌then◌else◌, Option-cases,
}
use proef.Runner.{ScenarioOutcome}
use proef.Runner.Pool.{
  ScenarioSpec, Identity, Worker, Board, Queue, RunConfig, Received, message, done, batch_begin,
  timeout, disconnected, Turn, remove_worker, conclude, with_active, abandoned_outcome,
}
use proef.Runner.Pool.Dispatch.{
  launch, admit_unskipped, admit_by, admit, fill, next_deadline, wait_for, extend, take_done,
  receive, expired, abandon, sweep_each, sweep_expired, Flow, again, over, panicked, swept,
  after_message, is_empty,
}
use proef.Runner.Pool.Dispatch.Accounts.{admit-Admitted}

-- The turn is sure to conclude a scenario: nothing is active after the filling, or an active scenario
-- is done, or `recv_timeout` has waited as long as it was told.
abbrev pub concluding : Received → ℕ → ℕ → List Worker → Bool
concluding (message (done i o)) waited_from now ws = elim (remove_worker i ws) [
  | none ↦ false
  | some rest ↦ true
]
concluding (message (batch_begin i d)) waited_from now ws = false
concluding timeout waited_from now ws = leb (waited_from + wait_for waited_from ws) now
concluding disconnected waited_from now ws = false

unfoldable pub concludes : Turn → List Worker → Bool
concludes t ws = is_empty ws || concluding t.received t.waited_from t.now ws

length-launch :
    (config : RunConfig) (t : Turn) (i : ℕ) (s : ScenarioSpec) (b : Board)
    → length b.outcomes ≤ length (launch config t i s b).outcomes
unfolding launch conclude
length-launch config t i s b = ground arith

pub length-fill :
    (config : RunConfig) (t : Turn) (q : Queue) (b : Board)
    → length b.outcomes ≤ length (fill config t q b).1.outcomes
unfolding fill conclude
length-fill config t [] b = omega arith
length-fill config t ((i, s) ∷ q) b = elim (Option-cases (admit config t i s b)) [
  | inl waits ↦ rw (fill, waits) (omega arith)
  | inr (b', goes) ↦
      let grows : length b.outcomes ≤ length b'.outcomes =
        elim (admit-Admitted config t i s b b' goes) [
          | inl (reason, same) ↦ rw same (omega arith)
          | inr (free, (alone, same)) ↦ rw same (length-launch config t i s b)
        ] in
      rw (fill, goes) (omega (arith, grows, length-fill config t q b'))
]

then-none {ℓ} :
    {A : Type ℓ} (c : Bool) (o : Option A) → c ≡ true → (if c then o else none) ≡ none → o ≡ none
then-none true o e h = h
then-none false o e h = absurd (ground arith)

-- An empty pool lets everybody in.
admit_by-empty :
    (config : RunConfig) (t : Turn) (i : ℕ) (s : ScenarioSpec) (b : Board) (skip : Option (List ℕ))
    → b.active ≡ []
    → admit_by config t i s b skip ≡ none
    → ⊥
unfolding admit_by admit_unskipped
admit_by-empty config t i s b (some reason) e h = ground arith
admit_by-empty config t i s b none e h =
    let nobody : is_empty b.active ≡ true = rw e refl in ground arith

admit-empty :
    (config : RunConfig) (t : Turn) (i : ℕ) (s : ScenarioSpec) (b : Board)
    → b.active ≡ []
    → admit config t i s b ≡ none
    → ⊥
unfolding admit
admit-empty config t i s b e h =
    let nobody : length b.active ≡ 0 = rw e refl in
    admit_by-empty config t i s b s.skip e (
      then-none (ltb (length b.active) (max config.jobs 1)) (admit_by config t i s b s.skip)
        (ground arith) h)

pub fill-empty :
    (config : RunConfig) (t : Turn) (q : Queue) (b : Board)
    → (fill config t q b).1.active ≡ []
    → (fill config t q b).0 ≡ []
unfolding fill
fill-empty config t [] b = λ h. refl
fill-empty config t ((i, s) ∷ q) b = elim (Option-cases (admit config t i s b)) [
  | inl waits ↦ rw (fill, waits) (λ h. absurd (admit-empty config t i s b h waits))
  | inr (b', goes) ↦ rw (fill, goes) (fill-empty config t q b')
]

abbrev Grown : ℕ → Option Board → Type 0
Grown n none = Unit
Grown n (some b) = length b.outcomes ≡ n

length-abandon :
    (i : ℕ) (rest : Option (List Worker)) (b : Board)
    → length (abandon i rest b).outcomes ≡ length b.outcomes
unfolding abandon
length-abandon i none b = refl
length-abandon i (some rest) b = refl

sweep_each-Grown :
    (identities : List Identity) (is : List ℕ) (b : Board) (n : ℕ)
    → length is + length b.outcomes ≡ n
    → Grown n (sweep_each identities is b)
unfolding sweep_each conclude
sweep_each-Grown identities [] b n h = omega arith
sweep_each-Grown identities (i ∷ is) b n h =
    let b1 = abandon i (remove_worker i b.active) b in
    elim (Option-cases (get_elem? identities i)) [
      | inl lost ↦ rw (sweep_each, lost) tt
      | inr (identity, seen) ↦
          rw (sweep_each, seen)
            (sweep_each-Grown identities is (conclude i (abandoned_outcome identity) b1) n
              (omega (arith, length-abandon i (remove_worker i b.active) b)))
    ]

expired-next_deadline :
    (now otherwise : ℕ) (w : Worker) (ws : List Worker)
    → next_deadline otherwise (w ∷ ws) ≤ now
    → 1 ≤ length (expired now (w ∷ ws))
unfolding expired next_deadline
expired-next_deadline now otherwise w [] h = ground arith
expired-next_deadline now otherwise w (v ∷ vs) h =
    ground (arith, expired-next_deadline now otherwise v vs)

-- What a message and the sweep after it conclude.
unfoldable pub Advances : ℕ → Flow → Type 0
Advances n (again q b) = n ≤ length b.outcomes
Advances n (over q b) = Unit
Advances n panicked = Unit

swept-Advances :
    (n : ℕ) (q : Queue) (o : Option Board) (m : ℕ) → n ≤ m → Grown m o → Advances n (swept q o)
unfolding swept Advances
swept-Advances n q none m le g = tt
swept-Advances n q (some b) m le g = omega arith

sweep_expired-Advances :
    (identities : List Identity) (now n : ℕ) (q : Queue) (b : Board)
    → n ≤ length (expired now b.active) + length b.outcomes
    → Advances n (swept q (sweep_expired identities now b))
unfolding sweep_expired
sweep_expired-Advances identities now n q b le =
    swept-Advances n q (sweep_each identities (expired now b.active) b)
      (length (expired now b.active) + length b.outcomes) le
      (sweep_each-Grown identities (expired now b.active) b _ refl)

take_done-Advances :
    (identities : List Identity) (now i : ℕ) (o : ScenarioOutcome) (q : Queue) (b : Board)
    (rest : Option (List Worker))
    → Advances
        (length b.outcomes + (if elim rest [ none ↦ false | some r ↦ true ] then 1 else 0))
        (swept q (sweep_expired identities now (take_done i o rest b)))
unfolding take_done conclude
take_done-Advances identities now i o q b none =
    sweep_expired-Advances identities now _ q b (omega arith)
take_done-Advances identities now i o q b (some r) =
    sweep_expired-Advances identities now _ q (conclude i o (with_active r b)) (omega arith)

timeout-Advances :
    (identities : List Identity) (waited_from now : ℕ) (q : Queue) (b : Board) (ws : List Worker)
    → b.active ≡ ws
    → is_empty ws ≡ false
    → Advances
        (length b.outcomes + (if leb (waited_from + wait_for waited_from ws) now then 1 else 0))
        (swept q (sweep_expired identities now b))
unfolding wait_for
timeout-Advances identities waited_from now q b [] e h = absurd (ground arith)
timeout-Advances identities waited_from now q b (w ∷ ws) e h =
    sweep_expired-Advances identities now _ q b
      (rw e (ground (arith, expired-next_deadline now (waited_from + 2000) w ws)))

pub after_message-Advances :
    (identities : List Identity) (waited_from now : ℕ) (q : Queue) (b : Board) (r : Received)
    → is_empty b.active ≡ false
    → Advances
        (length b.outcomes + (if concluding r waited_from now b.active then 1 else 0))
        (after_message identities now q b (receive r b))
unfolding after_message receive Advances
after_message-Advances identities waited_from now q b (message (batch_begin i d)) h =
    sweep_expired-Advances identities now _ q (with_active (map (extend i d) b.active) b)
      (omega arith)
after_message-Advances identities waited_from now q b (message (done i o)) h =
    take_done-Advances identities now i o q b (remove_worker i b.active)
after_message-Advances identities waited_from now q b timeout h =
    timeout-Advances identities waited_from now q b b.active refl h
after_message-Advances identities waited_from now q b disconnected h = tt

pub Advances-weaken : (m n : ℕ) (fl : Flow) → m ≤ n → Advances n fl → Advances m fl
unfolding Advances
Advances-weaken m n (again q b) le h = omega arith
Advances-weaken m n (over q b) le h = tt
Advances-weaken m n panicked le h = tt
