-- ===== src/Runner/Pool/Dispatch/Ending.antt =====
-- crates/proef-core/src/runner.rs: the end of the dispatch loop.
use proef.Base.{
  ℕ, ◌+◌, ◌≤◌, ◌<◌, ◌≡◌, inl, inr, refl, arith, true, false, none, List, [], ◌∷◌, length, get_elem?,
  ltb, if◌then◌else◌, Bool-cases,
}
use proef.Runner.Pool.{Identity, Worker, Board, Queue, RunConfig, Turn}
use proef.Runner.Pool.Dispatch.{
  fill, receive, Flow, again, over, panicked, after_message, await, turn, is_empty, run_turns,
}
use proef.Runner.Pool.Dispatch.Accounts.{at, waiting, working}
use proef.Runner.Pool.Dispatch.Books.{Balanced, IsUnique, Balanced-fill}
use proef.Runner.Pool.Dispatch.Safety.{Holds, Sound, Holds-turn, Balanced-reset}
use proef.Runner.Pool.Dispatch.Outcomes.{ended-length}
use proef.Runner.Pool.Dispatch.Progress.{
  concludes, concluding, Advances, Advances-weaken, after_message-Advances, length-fill, fill-empty,
}

-- The board with its free slots filled, as a turn's message finds it.
abbrev pub filled : RunConfig → Turn → Queue → Board → Queue × Board
filled config t q b =
    fill config t q (if is_empty b.active then record b { exclusive_active = false } else b)

-- The turns that are sure to conclude a scenario, as far as the loop goes.
unfoldable pub concluding_turns : RunConfig → List Identity → ℕ → List Turn → Queue → Board → ℕ
unfolding concludes
concluding_turns config identities total [] q b = 0
concluding_turns config identities total (t ∷ ts) q b =
    let rest : ℕ = elim (turn config identities t q b) [
      | again q' b' ↦ concluding_turns config identities total ts q' b'
      | over q' b' ↦ 0
      | panicked ↦ 0
    ] in
    if ltb (length b.outcomes) total
    then (if concludes t (filled config t q b).1.active then 1 else 0) + rest
    else 0

empty-nil : (ws : List Worker) → is_empty ws ≡ true → ws ≡ []
empty-nil [] h = refl
empty-nil (w ∷ ws) h = absurd (ground arith)

length-reset :
    (b : Board)
    → length (if is_empty b.active then record b { exclusive_active = false } else b).outcomes
      ≡ length b.outcomes
length-reset b = elim (Bool-cases (is_empty b.active)) [ inl e ↦ rw e refl | inr e ↦ rw e refl ]

module _ (config : RunConfig) (identities : List Identity) (initial : Queue)
    (unique : IsUnique initial)
    (known : (i : ℕ) → get_elem? identities i ≡ none → waiting (at i) initial ≡ 0) (total : ℕ)
    (sum : waiting (λ i. 1) initial ≡ total) where
  -- Where nothing is active after the filling, everything has an outcome.
  filled-done :
      (t : Turn) (q : Queue) (b : Board)
      → Balanced initial q b
      → is_empty (filled config t q b).1.active ≡ true
      → length (filled config t q b).1.outcomes ≡ total
  filled-done t q b h e =
      let b0 = if is_empty b.active then record b { exclusive_active = false } else b in
      let nobody = empty-nil (filled config t q b).1.active e in
      let nothing = fill-empty config t q b0 nobody in
      let books =
        Balanced-fill initial unique config t q b0
          (Balanced-reset config identities initial unique known q b h) (λ i. 1) in
      let zero_waiting : waiting (λ i. 1) (filled config t q b).0 ≡ 0 = rw nothing refl in
      let zero_working : working (λ i. 1) (filled config t q b).1.active ≡ 0 = rw nobody refl in
      omega (
        arith,
        books,
        sum,
        zero_waiting,
        zero_working,
        ended-length (filled config t q b).1.outcomes,
      )

  turn-Advances :
      (t : Turn) (q : Queue) (b : Board)
      → Balanced initial q b
      → length b.outcomes < total
      → Advances
          (length b.outcomes + (if concludes t (filled config t q b).1.active then 1 else 0))
          (turn config identities t q b)
  unfolding turn await Advances concludes
  turn-Advances t q b h lt =
      let b0 = if is_empty b.active then record b { exclusive_active = false } else b in
      let q1 = (filled config t q b).0 in
      let b1 = (filled config t q b).1 in
      elim (Bool-cases (is_empty b1.active)) [
        | inl e ↦ rw e (omega (arith, filled-done t q b h e))
        | inr e ↦ rw e (
            Advances-weaken _
              (length b1.outcomes
                + (if concluding t.received t.waited_from t.now b1.active then 1 else 0))
              (after_message identities t.now q1 b1 (receive t.received b1))
              (omega (arith, length-fill config t q b0, length-reset b))
              (after_message-Advances identities t.waited_from t.now q1 b1 t.received e))
      ]

  Ends : Flow → Type 0
  Ends fl = (q : Queue) × (b : Board) × (fl ≡ over q b)

  -- What the remaining turns owe after one turn.
  Ends-then :
      (n : ℕ) (ts : List Turn) (fl : Flow) (P : Queue → Board → Type 0)
      → Holds (Sound config identities initial unique known) P fl
      → Advances n fl
      → total
        ≤ n + (elim fl [
          | again q b ↦ concluding_turns config identities total ts q b
          | over q b ↦ 0
          | panicked ↦ 0
        ])
      → ((q : Queue) (b : Board)
          → Sound config identities initial unique known q b
          → total ≤ length b.outcomes + concluding_turns config identities total ts q b
          → Ends (run_turns config identities total ts q b))
      → Ends (elim fl [
        | again q b ↦ run_turns config identities total ts q b
        | over q b ↦ over q b
        | panicked ↦ panicked
      ])
  unfolding Advances Ends
  Ends-then n ts (again q b) P h adv owed rest = rest q b h (omega arith)
  Ends-then n ts (over q b) P h adv owed rest = (q, b, refl)
  Ends-then n ts panicked P h adv owed rest = absurd h

  concluding_turns-nil :
      (q : Queue) (b : Board) → concluding_turns config identities total [] q b ≡ 0
  unfolding concluding_turns
  concluding_turns-nil q b = refl

  concluding_turns-cons :
      (t : Turn) (ts : List Turn) (q : Queue) (b : Board)
      → ltb (length b.outcomes) total ≡ true
      → concluding_turns config identities total (t ∷ ts) q b
        ≡ (if concludes t (filled config t q b).1.active then 1 else 0)
          + (elim (turn config identities t q b) [
            | again q' b' ↦ concluding_turns config identities total ts q' b'
            | over q' b' ↦ 0
            | panicked ↦ 0
          ])
  unfolding concluding_turns
  concluding_turns-cons t ts q b going = rw (concluding_turns, going) refl

  pub run_turns-Ends :
      (ts : List Turn) (q : Queue) (b : Board)
      → Sound config identities initial unique known q b
      → total ≤ length b.outcomes + concluding_turns config identities total ts q b
      → (q' : Queue) × (b' : Board) × (run_turns config identities total ts q b ≡ over q' b')
  unfolding run_turns Ends
  run_turns-Ends [] q b h owed = (q, b, rw (run_turns, done_now) refl)
    where
      done_now : ltb (length b.outcomes) total ≡ false
      done_now = ground (arith, concluding_turns-nil q b)
  run_turns-Ends (t ∷ ts) q b h owed = elim (Bool-cases (ltb (length b.outcomes) total)) [
    | inl going ↦
        rw (run_turns, going)
          (Ends-then
            (length b.outcomes + (if concludes t (filled config t q b).1.active then 1 else 0)) ts
            (turn config identities t q b) _
            (Holds-turn config identities initial unique known t q b h)
            (turn-Advances t q b h.0 (ground arith))
            (omega (arith, concluding_turns-cons t ts q b going)) (run_turns-Ends ts))
    | inr ended_now ↦ (q, b, rw (run_turns, ended_now) refl)
  ]
