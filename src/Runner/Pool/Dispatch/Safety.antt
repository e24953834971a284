-- ===== src/Runner/Pool/Dispatch/Safety.antt =====
-- crates/proef-core/src/runner.rs: books and limits through the whole dispatch loop.
use proef.Base.{
  ℕ, ◌≤◌, ◌≡◌, ◌⊎◌, inl, inr, refl, arith, max, Bool, true, false, Option, none, some, List, [],
  ◌∷◌, length, Any, get_elem?, ltb, if◌then◌else◌, Bool-cases, subst,
}
use proef.Runner.Pool.{
  Identity, Worker, Board, Queue, RunConfig, Received, message, timeout, disconnected, batch_begin,
  done, Turn,
}
use proef.Runner.Pool.Dispatch.{
  fill, receive, expired, sweep_expired, Flow, again, over, panicked, swept, after_message, await,
  turn, run_turns, is_empty,
}
use proef.Runner.Pool.Dispatch.Accounts.{at, waiting, working-expired}
use proef.Runner.Pool.Dispatch.Books.{
  Balanced, IsUnique, Settled, Balanced-fill, Balanced-receive, Balanced-sweep_each,
}
use proef.Runner.Pool.Dispatch.Limits.{
  Within, Limits, Bounded, Limits-fill, Bounded-receive, Bounded-sweep_each,
}

-- What is known of a flow that goes on and of one that is over; there is no panic.
abbrev pub Holds : (Queue → Board → Type 0) → (Queue → Board → Type 0) → Flow → Type 0
Holds P Q (again q b) = P q b
Holds P Q (over q b) = Q q b
Holds P Q panicked = ⊥

pub Holds-weaken :
    (P Q R : Queue → Board → Type 0)
    → ((q : Queue) (b : Board) → Q q b → R q b)
    → (fl : Flow) → Holds P Q fl
    → Holds P R fl
Holds-weaken P Q R f (again q b) h = h
Holds-weaken P Q R f (over q b) h = f q b h
Holds-weaken P Q R f panicked h = h

receive-eq-none : (r : Received) (b : Board) → receive r b ≡ none → r ≡ disconnected
unfolding receive
receive-eq-none (message (batch_begin i d)) b h = absurd (ground arith)
receive-eq-none (message (done i o)) b h = absurd (ground arith)
receive-eq-none timeout b h = absurd (ground arith)
receive-eq-none disconnected b h = refl

Within-unflag :
    (slots : ℕ) (flag : Bool) (ws : List Worker)
    → is_empty ws ≡ true
    → Within slots flag ws
    → Within slots false ws
Within-unflag slots flag [] e h = record { fits = h.fits; alone = λ x. omega arith; marked = tt }
Within-unflag slots flag (w ∷ ws) e h = absurd (ground arith)

module _ (config : RunConfig) (identities : List Identity) (initial : Queue)
    (unique : IsUnique initial)
    (known : (i : ℕ) → get_elem? identities i ≡ none → waiting (at i) initial ≡ 0) where
  abbrev pub Sound : Queue → Board → Type 0
  Sound q b = Balanced initial q b × Limits config b

  Limits-reset :
      (b : Board)
      → Limits config b
      → Limits config (if is_empty b.active then record b { exclusive_active = false } else b)
  Limits-reset b h = elim (Bool-cases (is_empty b.active)) [
    | inl e ↦ rw e (Within-unflag (max config.jobs 1) b.exclusive_active b.active e h)
    | inr e ↦ rw e h
  ]

  pub Balanced-reset :
      (q : Queue) (b : Board)
      → Balanced initial q b
      → Balanced initial q (if is_empty b.active then record b { exclusive_active = false } else b)
  Balanced-reset q b h = elim (Bool-cases (is_empty b.active)) [ inl e ↦ rw e h | inr e ↦ rw e h ]

  Holds-swept :
      (now : ℕ) (q : Queue) (b : Board)
      → Sound q b
      → Holds Sound (λ q' b'. ⊥) (swept q (sweep_expired identities now b))
  unfolding swept sweep_expired
  Holds-swept now q b (balanced, limits) =
      let (b', same, balanced') =
        Balanced-sweep_each initial unique identities (expired now b.active) q b known
          (λ i. working-expired now i b.active) balanced in
      let limits' =
        subst (Bounded config) same
          (Bounded-sweep_each config identities (expired now b.active) b limits) in
      rw same (balanced', limits')

  Holds-after_message :
      (now : ℕ) (q : Queue) (before : Board) (o : Option Board)
      → Sound q before
      → Settled initial unique q o
      → Bounded config o
      → Holds Sound (λ q' b'. Sound q' b' × (o ≡ none)) (after_message identities now q before o)
  unfolding after_message
  Holds-after_message now q before none h balanced bounded = (h, refl)
  Holds-after_message now q before (some b) h balanced bounded =
      Holds-weaken Sound _ _ (λ q' b' x. absurd x) (swept q (sweep_expired identities now b))
        (Holds-swept now q b (balanced, bounded))

  Holds-await :
      (t : Turn) (q : Queue) (b : Board)
      → Sound q b
      → Holds Sound (λ q' b'. Sound q' b' × (t.received ≡ disconnected)) (await identities t (q, b))
  unfolding await
  Holds-await t q b h = elim (Bool-cases (is_empty b.active)) [
    | inl e ↦ rw (await, e) h
    | inr e ↦
        rw (await, e)
          (Holds-weaken Sound _ _ (λ q' b' x. (x.0, receive-eq-none t.received b x.1))
            (after_message identities t.now q b (receive t.received b))
            (Holds-after_message t.now q b (receive t.received b) h
              (Balanced-receive initial unique t.received q b h.0)
              (Bounded-receive config t.received b h.1)))
  ]

  pub Holds-turn :
      (t : Turn) (q : Queue) (b : Board)
      → Sound q b
      → Holds Sound
          (λ q' b'. Sound q' b' × (t.received ≡ disconnected))
          (turn config identities t q b)
  unfolding turn
  Holds-turn t q b (balanced, limits) =
      let b0 = if is_empty b.active then record b { exclusive_active = false } else b in
      Holds-await t (fill config t q b0).0 (fill config t q b0).1 (
        Balanced-fill initial unique config t q b0 (Balanced-reset q b balanced),
        Limits-fill config t q b0 (Limits-reset b limits),
      )

  -- The loop is over when all have an outcome, or when its channel is disconnected.
  abbrev pub Over : ℕ → List Turn → Queue → Board → Type 0
  Over total ts q b =
      Sound q b × ((total ≤ length b.outcomes) ⊎ Any (λ t. t.received ≡ disconnected) ts)

  Holds-then :
      (total : ℕ) (t : Turn) (ts : List Turn) (fl : Flow)
      → Holds Sound (λ q b. Sound q b × (t.received ≡ disconnected)) fl
      → ((q : Queue) (b : Board)
          → Sound q b
          → Holds Sound (Over total ts) (run_turns config identities total ts q b))
      → Holds Sound (Over total (t ∷ ts)) (elim fl [
        | again q b ↦ run_turns config identities total ts q b
        | over q b ↦ over q b
        | panicked ↦ panicked
      ])
  Holds-then total t ts (again q b) h rest =
      Holds-weaken Sound _ _
        (λ q' b' x. (x.0, elim x.1 [ inl all ↦ inl all | inr some_turn ↦ inr (inr some_turn) ]))
        (run_turns config identities total ts q b) (rest q b h)
  Holds-then total t ts (over q b) (h, e) rest = (h, inr (inl e))
  Holds-then total t ts panicked h rest = h

  pub Holds-run_turns :
      (total : ℕ) (ts : List Turn) (q : Queue) (b : Board)
      → Sound q b
      → Holds Sound (Over total ts) (run_turns config identities total ts q b)
  unfolding run_turns
  Holds-run_turns total [] q b h = elim (Bool-cases (ltb (length b.outcomes) total)) [
    | inl going ↦ rw (run_turns, going) h
    | inr ended_now ↦ rw (run_turns, ended_now) (h, inl (ground arith))
  ]
  Holds-run_turns total (t ∷ ts) q b h = elim (Bool-cases (ltb (length b.outcomes) total)) [
    | inl going ↦
        rw (run_turns, going)
          (Holds-then total t ts (turn config identities t q b) (Holds-turn t q b h)
            (λ q' b'. Holds-run_turns total ts q' b'))
    | inr ended_now ↦ rw (run_turns, ended_now) (h, inl (ground arith))
  ]
