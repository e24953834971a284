-- ===== src/Runner/Pool/Dispatch/Outcomes.antt =====
-- crates/proef-core/src/runner.rs: the states of `dispatch`.
use proef.Base.{
  ℕ, suc, zero, ◌+◌, ◌≤◌, ◌≡◌, inl, inr, refl, sym, ◌∙◌, arith, max, Bool, true, false, none, List,
  [], ◌∷◌, map, length, All, Any, Any-absurd, get_elem?, ltb, leb, ◌&&◌, if◌then◌else◌, subst,
}
use proef.Runner.{ScenarioOutcome}
use proef.Runner.Pool.{
  ScenarioSpec, identity_of, Worker, Board, Queue, RunConfig, disconnected, Turn,
}
use proef.Runner.Pool.Dispatch.{Flow, again, over, panicked, enumerate_from, start_board, dispatch}
use proef.Runner.Pool.Dispatch.Accounts.{at, waiting, working, ended}
use proef.Runner.Pool.Dispatch.Books.{Balanced, IsUnique}
use proef.Runner.Pool.Dispatch.Limits.{Limits, Within-empty}
use proef.Runner.Pool.Dispatch.Safety.{Holds, Sound, Over, Holds-run_turns}

-- Every scenario once.
abbrev pub once : List ScenarioSpec → ℕ → ℕ
once specs i = if ltb i (length specs) then 1 else 0

waiting-enumerate_from :
    (n i : ℕ) (specs : List ScenarioSpec)
    → waiting (at i) (enumerate_from n specs)
      ≡ (if leb n i && ltb i (n + length specs) then 1 else 0)
unfolding enumerate_from
waiting-enumerate_from n i [] = ground arith
waiting-enumerate_from n i (s ∷ specs) = ground (arith, waiting-enumerate_from (suc n) i specs)

pub waiting-length :
    (n : ℕ) (specs : List ScenarioSpec) → waiting (λ i. 1) (enumerate_from n specs) ≡ length specs
unfolding enumerate_from
waiting-length n [] = refl
waiting-length n (s ∷ specs) = omega (arith, waiting-length (suc n) specs)

get_elem?-none :
    (i : ℕ) (specs : List ScenarioSpec)
    → get_elem? (map identity_of specs) i ≡ none
    → length specs ≤ i
get_elem?-none i [] h = omega arith
get_elem?-none zero (s ∷ specs) h = absurd (ground arith)
get_elem?-none (suc i) (s ∷ specs) h = omega (arith, get_elem?-none i specs h)

marked-alone :
    (flag : Bool) (ws : List Worker)
    → All (λ w. w.spec.exclusive ≡ true → flag ≡ true) ws
    → Any (λ w. w.spec.exclusive ≡ true) ws
    → flag ≡ true
marked-alone flag [] h a = elim a [ ]
marked-alone flag (w ∷ ws) (p, h) (inl a) = p a
marked-alone flag (w ∷ ws) (p, h) (inr a) = marked-alone flag ws h a

lone : (ws : List Worker) → Any (λ w. w.spec.exclusive ≡ true) ws → length ws ≤ 1 → length ws ≡ 1
lone [] a le = elim a [ ]
lone (w ∷ ws) a le = omega arith

pub ended-length : (os : List (ℕ × ScenarioOutcome)) → ended (λ i. 1) os ≡ length os
ended-length [] = refl
ended-length (o ∷ os) = omega (arith, ended-length os)

waiting-nothing : (q : Queue) → waiting (λ i. 1) q ≡ 0 → q ≡ []
waiting-nothing [] h = refl
waiting-nothing (p ∷ q) h = absurd (omega arith)

working-nothing : (ws : List Worker) → working (λ i. 1) ws ≡ 0 → ws ≡ []
working-nothing [] h = refl
working-nothing (w ∷ ws) h = absurd (omega arith)

-- At most `jobs` scenarios are active, one where `jobs` is 0; where an exclusive one is active it is
-- the only one; every scenario is once in the queue, active, or with an outcome.
abbrev pub IsOrderly : RunConfig → List ScenarioSpec → Queue → Board → Type 0
IsOrderly config specs q b =
    (length b.active ≤ max config.jobs 1)
    × ((Any (λ w. w.spec.exclusive ≡ true) b.active → length b.active ≡ 1)
        × ((i : ℕ)
            → waiting (at i) q + (working (at i) b.active + ended (at i) b.outcomes)
              ≡ once specs i))

module _ (config : RunConfig) (specs : List ScenarioSpec) where
  pub first_unique : IsUnique (enumerate_from 0 specs)
  first_unique i = ground (arith, waiting-enumerate_from 0 i specs)

  pub first_known :
      (i : ℕ)
      → get_elem? (map identity_of specs) i ≡ none
      → waiting (at i) (enumerate_from 0 specs) ≡ 0
  first_known i h = ground (arith, waiting-enumerate_from 0 i specs, get_elem?-none i specs h)

  Balanced-at :
      (q : Queue) (b : Board)
      → Balanced (enumerate_from 0 specs) q b
      → (i : ℕ)
      → waiting (at i) q + (working (at i) b.active + ended (at i) b.outcomes) ≡ once specs i
  Balanced-at q b balanced i = balanced (at i) ∙ ground (arith, waiting-enumerate_from 0 i specs)

  Sound-IsOrderly :
      (q : Queue) (b : Board)
      → Balanced (enumerate_from 0 specs) q b
      → Limits config b
      → IsOrderly config specs q b
  Sound-IsOrderly q b balanced limits = (
    limits.fits,
    (
      λ a.
          lone b.active a (limits.alone (marked-alone b.exclusive_active b.active limits.marked a)),
      Balanced-at q b balanced,
    ),
  )

  pub dispatched :
      (ts : List Turn)
      → Holds
          (Sound config (map identity_of specs) (enumerate_from 0 specs) first_unique first_known)
          (Over config
            (map identity_of specs)
            (enumerate_from 0 specs)
            first_unique
            first_known
            (length specs)
            ts)
          (dispatch config specs ts)
  unfolding dispatch
  dispatched ts =
      Holds-run_turns config (map identity_of specs) (enumerate_from 0 specs) first_unique
        first_known (length specs) ts (enumerate_from 0 specs) start_board
        (λ f. omega arith, Within-empty (max config.jobs 1) false)

-- Whatever the clock, the cancellations and the messages of the turns are, where instants are numbers
-- without an upper bound, the dispatch loop does not panic, and in the state that it comes to the
-- number of active scenarios is at most `jobs` (1 where `jobs` is 0); where an exclusive scenario is
-- active, it is the only one; and every scenario is once in the queue, among the active, or among the
-- outcomes, and nothing else is there.
pub dispatch-IsOrderly :
    (config : RunConfig) (specs : List ScenarioSpec) (ts : List Turn)
    → Holds (IsOrderly config specs) (IsOrderly config specs) (dispatch config specs ts)
dispatch-IsOrderly config specs ts = orderly (dispatch config specs ts) (dispatched config specs ts)
  where
    orderly :
        (fl : Flow)
        → Holds
            (Sound config
              (map identity_of specs)
              (enumerate_from 0 specs)
              (first_unique config specs)
              (first_known config specs))
            (Over config
              (map identity_of specs)
              (enumerate_from 0 specs)
              (first_unique config specs)
              (first_known config specs)
              (length specs)
              ts)
            fl
        → Holds (IsOrderly config specs) (IsOrderly config specs) fl
    orderly (again q b) h = Sound-IsOrderly config specs q b h.0 h.1
    orderly (over q b) h = Sound-IsOrderly config specs q b h.0.0 h.0.1
    orderly panicked h = h

-- When the loop is over, and its channel was never disconnected (`run` holds a sender itself), no
-- scenario waits or is active, and every scenario has exactly one outcome.
pub dispatch_complete :
    (config : RunConfig) (specs : List ScenarioSpec) (ts : List Turn) (q : Queue) (b : Board)
    → All (λ t. ¬ (t.received ≡ disconnected)) ts
    → dispatch config specs ts ≡ over q b
    → (q ≡ []) × ((b.active ≡ []) × ((i : ℕ) → ended (at i) b.outcomes ≡ once specs i))
dispatch_complete config specs ts q b connected h =
    let ((balanced, limits), why) =
      subst
        (Holds _ (
          Over config (map identity_of specs) (enumerate_from 0 specs) (first_unique config specs)
            (first_known config specs) (length specs) ts))
        h (dispatched config specs ts) in
    let all : length specs ≤ length b.outcomes = elim why [
      | inl enough ↦ enough
      | inr lost ↦ absurd (Any-absurd _ ts connected lost)
    ] in
    let ones = balanced (λ i. 1) in
    let no_queue =
      waiting-nothing q
        (omega (arith, ones, all, ended-length b.outcomes, waiting-length 0 specs)) in
    let no_active =
      working-nothing b.active
        (omega (arith, ones, all, ended-length b.outcomes, waiting-length 0 specs)) in
    (
      no_queue,
      (
        no_active,
        λ i. rw (sym (Balanced-at config specs q b balanced i), no_queue, no_active) (omega arith),
      ),
    )
