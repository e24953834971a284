-- ===== src/Runner/Pool/Dispatch/Limits.antt =====
-- crates/proef-core/src/runner.rs: the slots and the exclusive scenarios through a turn of the dispatch loop.
use proef.Base.{
  ℕ, suc, ◌+◌, ◌≤◌, ◌<◌, ◌≡◌, inl, inr, refl, arith, max, Bool, true, false, not, Option, none,
  some, List, [], ◌∷◌, map, length, All, get_elem?, ◌==◌, ◌&&◌, ◌||◌, Bool-cases, Option-cases,
}
use proef.Runner.{ScenarioOutcome}
use proef.Runner.Pool.{
  ScenarioSpec, Identity, Worker, Board, Queue, RunConfig, batch_begin, done, Received, message,
  timeout, disconnected, Turn, insert_worker, remove_worker, conclude, abandoned_outcome,
}
use proef.Runner.Pool.Dispatch.{
  launch, admit, fill, extend, take_done, receive, abandon, sweep_each, is_empty,
}
use proef.Runner.Pool.Dispatch.Accounts.{admit-Admitted}

-- Active workers beside the flag `exclusive_active`.
pub record Within (slots : ℕ) (exclusive_active : Bool) (ws : List Worker) : Type 0 where
  pub fits : length ws ≤ slots
  pub alone : exclusive_active ≡ true → length ws ≤ 1
  pub marked : All (λ w. w.spec.exclusive ≡ true → exclusive_active ≡ true) ws

abbrev pub Limits : RunConfig → Board → Type 0
Limits config b = Within (max config.jobs 1) b.exclusive_active b.active

length-insert_worker :
    (w : Worker) (ws : List Worker) → length (insert_worker w ws) ≤ suc (length ws)
unfolding insert_worker
length-insert_worker w [] = omega arith
length-insert_worker w (v ∷ vs) = ground (arith, length-insert_worker w vs)

All-insert_worker :
    (P : Worker → Type 0) (w : Worker) (ws : List Worker)
    → P w
    → All P ws
    → All P (insert_worker w ws)
unfolding insert_worker
All-insert_worker P w [] p ps = (p, tt)
All-insert_worker P w (v ∷ vs) p (pv, ps) = ground (arith, All-insert_worker P w vs p ps)

-- What a removal leaves.
abbrev Kept : (Worker → Type 0) → List Worker → Option (List Worker) → Type 0
Kept P ws none = Unit
Kept P ws (some rest) = All P rest × (length rest ≤ length ws)

Kept-cons :
    (P : Worker → Type 0) (v : Worker) (vs : List Worker) (o : Option (List Worker))
    → P v
    → Kept P vs o
    → Kept P (v ∷ vs) (elim o [ none ↦ none | some rest ↦ some (v ∷ rest) ])
Kept-cons P v vs none p k = tt
Kept-cons P v vs (some rest) p (ps, le) = ((p, ps), omega arith)

remove_worker-Kept :
    (P : Worker → Type 0) (i : ℕ) (ws : List Worker) → All P ws → Kept P ws (remove_worker i ws)
unfolding remove_worker
remove_worker-Kept P i [] ps = tt
remove_worker-Kept P i (v ∷ vs) (p, ps) = elim (Bool-cases (i == v.index)) [
  | inl same ↦ rw (remove_worker, same) (ps, omega arith)
  | inr other ↦
      rw (remove_worker, other)
        (Kept-cons P v vs (remove_worker i vs) p (remove_worker-Kept P i vs ps))
]

pub Within-empty : (slots : ℕ) (flag : Bool) → Within slots flag []
Within-empty slots flag = record { fits = omega arith; alone = λ h. omega arith; marked = tt }

-- The flag of the scenario that comes next.
Within-flag :
    (slots : ℕ) (exclusive flag : Bool) (ws : List Worker)
    → (exclusive || flag) && not (is_empty ws) ≡ false
    → Within slots flag ws
    → Within slots exclusive ws
Within-flag slots exclusive flag [] alone h = Within-empty slots exclusive
Within-flag slots false false (w ∷ ws) alone h = h
Within-flag slots true flag (w ∷ ws) alone h = absurd (ground arith)
Within-flag slots false true (w ∷ ws) alone h = absurd (ground arith)

Within-insert_worker :
    (slots : ℕ) (flag : Bool) (w : Worker) (ws : List Worker)
    → length ws < slots
    → (w.spec.exclusive || flag) && not (is_empty ws) ≡ false
    → Within slots flag ws
    → Within slots w.spec.exclusive (insert_worker w ws)
unfolding insert_worker
Within-insert_worker slots flag w [] free alone h = record {
  fits = omega arith;
  alone = λ e. omega arith;
  marked = (λ e. e, tt);
}
Within-insert_worker slots flag w (v ∷ vs) free alone h =
    let h' = Within-flag slots w.spec.exclusive flag (v ∷ vs) alone h in
    record {
      fits = omega (arith, length-insert_worker w (v ∷ vs));
      alone = λ e. absurd (ground arith);
      marked =
          All-insert_worker (λ u. u.spec.exclusive ≡ true → w.spec.exclusive ≡ true) w (v ∷ vs)
            (λ e. e) h'.marked;
    }

Within-launch :
    (config : RunConfig) (t : Turn) (i : ℕ) (s : ScenarioSpec) (b : Board)
    → length b.active < max config.jobs 1
    → (s.exclusive || b.exclusive_active) && not (is_empty b.active) ≡ false
    → Limits config b
    → Limits config (launch config t i s b)
unfolding launch conclude
Within-launch config t i s b free alone h = elim (Bool-cases (t.is_cancelled i)) [
  | inl c ↦ rw c (Within-flag (max config.jobs 1) s.exclusive b.exclusive_active b.active alone h)
  | inr c ↦ rw c (
      Within-insert_worker (max config.jobs 1) b.exclusive_active
        (record {
          index = i;
          deadline = t.started_at i + config.default_batch_budget + 2000;
          spec = s;
        })
        b.active free alone h)
]

pub Limits-fill :
    (config : RunConfig) (t : Turn) (q : Queue) (b : Board)
    → Limits config b
    → Limits config (fill config t q b).1
unfolding fill conclude
Limits-fill config t [] b h = h
Limits-fill config t ((i, s) ∷ q) b h = elim (Option-cases (admit config t i s b)) [
  | inl waits ↦ rw (fill, waits) h
  | inr (b', goes) ↦
      let h' : Limits config b' = elim (admit-Admitted config t i s b b' goes) [
        | inl (reason, same) ↦ rw same h
        | inr (free, (alone, same)) ↦ rw same (Within-launch config t i s b free alone h)
      ] in
      rw (fill, goes) (Limits-fill config t q b' h')
]

length-extend :
    (i deadline : ℕ) (ws : List Worker) → length (map (extend i deadline) ws) ≡ length ws
length-extend i deadline [] = refl
length-extend i deadline (w ∷ ws) = omega (arith, length-extend i deadline ws)

marked-extend :
    (flag : Bool) (i deadline : ℕ) (ws : List Worker)
    → All (λ w. w.spec.exclusive ≡ true → flag ≡ true) ws
    → All (λ w. w.spec.exclusive ≡ true → flag ≡ true) (map (extend i deadline) ws)
marked-extend flag i deadline [] h = tt
marked-extend flag i deadline (w ∷ ws) (p, h) =
    (ground (arith, p), marked-extend flag i deadline ws h)

-- A removal keeps the limits.
abbrev WithinRest : ℕ → Bool → Option (List Worker) → Type 0
WithinRest slots flag none = Unit
WithinRest slots flag (some rest) = Within slots flag rest

Within-Kept :
    (slots : ℕ) (flag : Bool) (ws : List Worker) (o : Option (List Worker))
    → Within slots flag ws
    → Kept (λ w. w.spec.exclusive ≡ true → flag ≡ true) ws o
    → WithinRest slots flag o
Within-Kept slots flag ws none h k = tt
Within-Kept slots flag ws (some rest) h (ps, le) = record {
  fits = omega (arith, h.fits);
  alone = λ e. omega (arith, h.alone e);
  marked = ps;
}

WithinRest-remove_worker :
    (slots : ℕ) (flag : Bool) (i : ℕ) (ws : List Worker)
    → Within slots flag ws
    → WithinRest slots flag (remove_worker i ws)
WithinRest-remove_worker slots flag i ws h =
    Within-Kept slots flag ws (remove_worker i ws) h (remove_worker-Kept _ i ws h.marked)

Limits-take_done :
    (config : RunConfig) (i : ℕ) (o : ScenarioOutcome) (rest : Option (List Worker)) (b : Board)
    → Limits config b
    → WithinRest (max config.jobs 1) b.exclusive_active rest
    → Limits config (take_done i o rest b)
unfolding take_done conclude
Limits-take_done config i o none b h r = h
Limits-take_done config i o (some rest) b h r = r

Limits-abandon :
    (config : RunConfig) (i : ℕ) (rest : Option (List Worker)) (b : Board)
    → Limits config b
    → WithinRest (max config.jobs 1) b.exclusive_active rest
    → Limits config (abandon i rest b)
unfolding abandon
Limits-abandon config i none b h r = h
Limits-abandon config i (some rest) b h r = r

abbrev pub Bounded : RunConfig → Option Board → Type 0
Bounded config none = Unit
Bounded config (some b) = Limits config b

pub Bounded-receive :
    (config : RunConfig) (r : Received) (b : Board) → Limits config b → Bounded config (receive r b)
unfolding receive
Bounded-receive config (message (batch_begin i d)) b h = record {
  fits = omega (arith, h.fits, length-extend i d b.active);
  alone = λ e. omega (arith, h.alone e, length-extend i d b.active);
  marked = marked-extend b.exclusive_active i d b.active h.marked;
}
Bounded-receive config (message (done i o)) b h =
    Limits-take_done config i o (remove_worker i b.active) b h
      (WithinRest-remove_worker (max config.jobs 1) b.exclusive_active i b.active h)
Bounded-receive config timeout b h = h
Bounded-receive config disconnected b h = tt

pub Bounded-sweep_each :
    (config : RunConfig) (identities : List Identity) (is : List ℕ) (b : Board)
    → Limits config b
    → Bounded config (sweep_each identities is b)
unfolding sweep_each conclude
Bounded-sweep_each config identities [] b h = h
Bounded-sweep_each config identities (i ∷ is) b h =
    let b1 = abandon i (remove_worker i b.active) b in
    let h1 =
      Limits-abandon config i (remove_worker i b.active) b h
        (WithinRest-remove_worker (max config.jobs 1) b.exclusive_active i b.active h) in
    elim (Option-cases (get_elem? identities i)) [
      | inl lost ↦ rw (sweep_each, lost) tt
      | inr (identity, seen) ↦
          rw (sweep_each, seen)
            (Bounded-sweep_each config identities is (conclude i (abandoned_outcome identity) b1)
              h1)
    ]
