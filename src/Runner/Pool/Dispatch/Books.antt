-- ===== src/Runner/Pool/Dispatch/Books.antt =====
-- crates/proef-core/src/runner.rs: the books through a turn of the dispatch loop.
use proef.Base.{
  ℕ, ◌+◌, ◌≤◌, ◌≡◌, inl, inr, refl, arith, Option, none, some, List, [], ◌∷◌, map, get_elem?,
  Bool-cases, Option-cases,
}
use proef.Runner.{ScenarioOutcome}
use proef.Runner.Pool.{
  ScenarioSpec, Identity, Board, Queue, RunConfig, batch_begin, done, Received, message, timeout,
  disconnected, Turn, remove_worker, with_active, conclude, abandoned_outcome,
}
use proef.Runner.Pool.Dispatch.{
  launch, admit, fill, extend, take_done, receive, abandon, sweep_each,
}
use proef.Runner.Pool.Dispatch.Accounts.{
  weigh, at, waiting, working, ended, working-insert_worker, remove_worker-cases, working-extend,
  admit-Admitted,
}

abbrev pub balance : (ℕ → ℕ) → Queue → Board → ℕ
balance f q b = waiting f q + (working f b.active + ended f b.outcomes)

-- The books of a queue and a board agree with what came in.
abbrev pub Balanced : Queue → Queue → Board → Type 0
Balanced initial q b = (f : ℕ → ℕ) → balance f q b ≡ waiting f initial

abbrev pub IsUnique : Queue → Type 0
IsUnique initial = (i : ℕ) → waiting (at i) initial ≤ 1

module _ (initial : Queue) (unique : IsUnique initial) where
  Balanced-launch :
      (config : RunConfig) (t : Turn) (i : ℕ) (s : ScenarioSpec) (q : Queue) (b : Board)
      → Balanced initial ((i, s) ∷ q) b
      → Balanced initial q (launch config t i s b)
  unfolding launch conclude
  Balanced-launch config t i s q b h f = elim (Bool-cases (t.is_cancelled i)) [
    | inl c ↦ rw c (ground (arith, h f))
    | inr c ↦ rw c (
        ground (
          arith,
          h f,
          working-insert_worker f
              (record {
                index = i;
                deadline = t.started_at i + config.default_batch_budget + 2000;
                spec = s;
              })
              b.active (ground (arith, h (at i), unique i)),
        ))
  ]

  Balanced-admit :
      (config : RunConfig) (t : Turn) (i : ℕ) (s : ScenarioSpec) (q : Queue) (b b' : Board)
      → Balanced initial ((i, s) ∷ q) b
      → admit config t i s b ≡ some b'
      → Balanced initial q b'
  unfolding conclude
  Balanced-admit config t i s q b b' h e = elim (admit-Admitted config t i s b b' e) [
    | inl (reason, same) ↦ rw same (λ f. omega (arith, h f))
    | inr (free, (alone, same)) ↦ rw same (Balanced-launch config t i s q b h)
  ]

  pub Balanced-fill :
      (config : RunConfig) (t : Turn) (q : Queue) (b : Board)
      → Balanced initial q b
      → Balanced initial (fill config t q b).0 (fill config t q b).1
  unfolding fill
  Balanced-fill config t [] b h = h
  Balanced-fill config t ((i, s) ∷ q) b h = elim (Option-cases (admit config t i s b)) [
    | inl waits ↦ rw (fill, waits) h
    | inr (b', goes) ↦
        rw (fill, goes) (Balanced-fill config t q b' (Balanced-admit config t i s q b b' h goes))
  ]

  Balanced-extend :
      (i deadline : ℕ) (q : Queue) (b : Board)
      → Balanced initial q b
      → Balanced initial q (with_active (map (extend i deadline) b.active) b)
  Balanced-extend i deadline q b h f = omega (arith, h f, working-extend f i deadline b.active)

  Balanced-take_done :
      (i : ℕ) (o : ScenarioOutcome) (q : Queue) (b : Board)
      → Balanced initial q b
      → Balanced initial q (take_done i o (remove_worker i b.active) b)
  unfolding take_done conclude
  Balanced-take_done i o q b h = elim (remove_worker-cases i b.active) [
    | inl (missing, unseen) ↦ rw missing h
    | inr (rest, found, weight) ↦ rw found (λ f. omega (arith, h f, weight f))
  ]

  -- Nothing is known of the queue where the loop has been left.
  abbrev pub Settled : Queue → Option Board → Type 0
  Settled q none = Unit
  Settled q (some b) = Balanced initial q b

  pub Balanced-receive :
      (r : Received) (q : Queue) (b : Board) → Balanced initial q b → Settled q (receive r b)
  unfolding receive
  Balanced-receive (message (batch_begin i d)) q b h = Balanced-extend i d q b h
  Balanced-receive (message (done i o)) q b h = Balanced-take_done i o q b h
  Balanced-receive timeout q b h = h
  Balanced-receive disconnected q b h = tt

  pub Balanced-sweep_each :
      (identities : List Identity) (is : List ℕ) (q : Queue) (b : Board)
      → ((i : ℕ) → get_elem? identities i ≡ none → waiting (at i) initial ≡ 0)
      → ((i : ℕ) → weigh (λ j. j) (at i) is ≤ working (at i) b.active)
      → Balanced initial q b
      → (b' : Board) × (sweep_each identities is b ≡ some b') × Balanced initial q b'
  unfolding sweep_each abandon conclude
  Balanced-sweep_each identities [] q b known within h = (b, refl, h)
  Balanced-sweep_each identities (i ∷ is) q b known within h =
      elim (remove_worker-cases i b.active) [
        | inl (missing, unseen) ↦ absurd (ground (arith, within i))
        | inr (rest, found, weight) ↦ elim (Option-cases (get_elem? identities i)) [
          | inl lost ↦ absurd (ground (arith, h (at i), known i lost, weight (at i)))
          | inr (identity, seen) ↦
              let b1 =
                conclude i (abandoned_outcome identity)
                  (record b { active = rest; abandoned = i ∷ b.abandoned }) in
              rw (sweep_each, seen, found)
                (Balanced-sweep_each identities is q b1 known
                  (λ j. omega (arith, within j, weight (at j))) (λ f. omega (arith, h f, weight f)))
        ]
      ]
