-- ===== src/Runner/Pool/Dispatch/Accounts.antt =====
-- crates/proef-core/src/runner.rs: the dispatcher's books, which count the indices that are waiting, active or have
-- an outcome.
use proef.Base.{
  ℕ, ◌+◌, ◌≤◌, ◌<◌, ◌≡◌, ◌⊎◌, inl, inr, refl, arith, max, Bool, true, false, not, Option, none,
  some, List, [], ◌∷◌, map, length, ltb, ◌==◌, ==_iff, ◌&&◌, ◌||◌, if◌then◌else◌, Bool-cases,
}
use proef.Base.Texts.{Text}
use proef.Runner.{ScenarioOutcome}
use proef.Runner.Pool.{
  ScenarioSpec, Worker, Board, Queue, RunConfig, Turn, insert_worker, remove_worker, conclude,
  skipped_outcome,
}
use proef.Runner.Pool.Dispatch.{launch, admit_unskipped, admit_by, admit, extend, expired, is_empty}

-- The sum of a weight over the indices.
abbrev pub weigh {ℓ} : {A : Type ℓ} → (A → ℕ) → (ℕ → ℕ) → List A → ℕ
weigh key f [] = 0
weigh key f (x ∷ xs) = f (key x) + weigh key f xs

-- The weight that counts one index.
abbrev pub at : ℕ → ℕ → ℕ
at i j = if i == j then 1 else 0

abbrev pub waiting : (ℕ → ℕ) → Queue → ℕ
waiting f q = weigh (λ p. p.0) f q

abbrev pub working : (ℕ → ℕ) → List Worker → ℕ
working f ws = weigh (λ w. w.index) f ws

abbrev pub ended : (ℕ → ℕ) → List (ℕ × ScenarioOutcome) → ℕ
ended f os = weigh (λ p. p.0) f os

pub working-insert_worker :
    (f : ℕ → ℕ) (w : Worker) (vs : List Worker)
    → working (at w.index) vs ≡ 0
    → working f (insert_worker w vs) ≡ f w.index + working f vs
unfolding insert_worker
working-insert_worker f w [] h = refl
working-insert_worker f w (v ∷ vs) h = ground (arith, working-insert_worker f w vs)

-- Removing a key either finds nothing, or takes one worker of it.
pub remove_worker-cases :
    (i : ℕ) (vs : List Worker)
    → ((remove_worker i vs ≡ none) × (working (at i) vs ≡ 0))
      ⊎ ((rest : List Worker) × (remove_worker i vs ≡ some rest)
          × ((f : ℕ → ℕ) → working f vs ≡ f i + working f rest))
unfolding remove_worker
remove_worker-cases i [] = inl (refl, refl)
remove_worker-cases i (v ∷ vs) = elim (Bool-cases (i == v.index)) [
  | inl same ↦ inr (vs, rw same refl, λ f. rw ((==_iff i v.index).0 same) refl)
  | inr other ↦ elim (remove_worker-cases i vs) [
    | inl (missing, unseen) ↦ inl (rw (other, missing) refl, rw (other, unseen) refl)
    | inr (rest, found, weight) ↦
        inr (v ∷ rest, rw (other, found) refl, λ f. omega (arith, weight f))
  ]
]

pub working-extend :
    (f : ℕ → ℕ) (i deadline : ℕ) (ws : List Worker)
    → working f (map (extend i deadline) ws) ≡ working f ws
working-extend f i deadline [] = refl
working-extend f i deadline (w ∷ ws) = ground (arith, working-extend f i deadline ws)

pub working-expired :
    (now i : ℕ) (ws : List Worker) → weigh (λ j. j) (at i) (expired now ws) ≤ working (at i) ws
unfolding expired
working-expired now i [] = omega arith
working-expired now i (w ∷ ws) = ground (arith, working-expired now i ws)

-- A scenario was skipped, or launched with a free slot and not beside an exclusive one.
abbrev pub Admitted : RunConfig → Turn → ℕ → ScenarioSpec → Board → Board → Type 0
Admitted config t i s b b' =
    ((reason : Text) × (b' ≡ conclude i (skipped_outcome s reason) b))
    ⊎ ((length b.active < max config.jobs 1)
        × (((s.exclusive || b.exclusive_active) && not (is_empty b.active) ≡ false)
            × (b' ≡ launch config t i s b)))

then-some {ℓ} :
    {A : Type ℓ} (c : Bool) (o : Option A) (a : A)
    → (if c then o else none) ≡ some a
    → (c ≡ true) × (o ≡ some a)
then-some true o a h = (refl, h)
then-some false o a h = absurd (ground arith)

else-some {ℓ} :
    {A : Type ℓ} (c : Bool) (o : Option A) (a : A)
    → (if c then none else o) ≡ some a
    → (c ≡ false) × (o ≡ some a)
else-some true o a h = absurd (ground arith)
else-some false o a h = (refl, h)

admit_by-Admitted :
    (config : RunConfig) (t : Turn) (i : ℕ) (s : ScenarioSpec) (b b' : Board) (skip : Option Text)
    → length b.active < max config.jobs 1
    → admit_by config t i s b skip ≡ some b'
    → Admitted config t i s b b'
unfolding admit_by admit_unskipped
admit_by-Admitted config t i s b b' (some reason) free h = inl (reason, cc)
admit_by-Admitted config t i s b b' none free h =
    let (goes, same) =
      else-some ((s.exclusive || b.exclusive_active) && not (is_empty b.active))
        (some (launch config t i s b)) b' h in
    inr (free, (goes, cc))

pub admit-Admitted :
    (config : RunConfig) (t : Turn) (i : ℕ) (s : ScenarioSpec) (b b' : Board)
    → admit config t i s b ≡ some b'
    → Admitted config t i s b b'
unfolding admit
admit-Admitted config t i s b b' h =
    let (free, goes) =
      then-some (ltb (length b.active) (max config.jobs 1)) (admit_by config t i s b s.skip) b' h in
    admit_by-Admitted config t i s b b' s.skip (ground arith) goes
