-- ===== src/Records/Sla/Budget.antt =====
-- crates/proef-cli/src/sla.rs: when a run breaks its budget.
use proef.Base.{
  ℕ, suc, ◌*◌, ◌≤◌, ◌≡◌, refl, ◌∙◌, ap₂, Bool, true, false, Bool-cases, Option, none, some, List,
  [], ◌∷◌, ◌++◌, All, length, is_some, ltb, leb, ◌||◌, if◌then◌else◌, inl, inr, arith,
}
use proef.Base.Texts.{Text}
use proef.Runner.{ScenarioOutcome}
use proef.Records.Sla.{
  SlaThresholds, is_set, percentile, Row, insert_row, sort_rows, Breach, p95, maximum, breach_of,
  last, SlaReport, reported, durations, breaches_of, evaluate, rows_of, check,
}
use proef.Records.Sla.Rank.{IsSorted, within, percentile-exceeds, last-exceeds}

-- More than one step in twenty took longer than a budget.
abbrev pub p95_exceeded : Option ℕ → List ℕ → Bool
p95_exceeded none ms = false
p95_exceeded (some budget) ms = ltb (100 * within budget ms) (95 * length ms)

-- Some step took longer than a budget.
abbrev pub maximum_exceeded : Option ℕ → List ℕ → Bool
maximum_exceeded none ms = false
maximum_exceeded (some budget) ms = ltb (within budget ms) (length ms)

abbrev pub is_over : SlaThresholds → List ℕ → Bool
is_over t ms = p95_exceeded t.p95_ms ms || maximum_exceeded t.max_ms ms

All-insert_row :
    (n : ℕ) (r : Row) (rows : List Row)
    → n ≤ r.ms
    → All (λ y. n ≤ y) (durations rows)
    → All (λ y. n ≤ y) (durations (insert_row r rows))
unfolding insert_row
All-insert_row n r [] le h = (le, tt)
All-insert_row n r (s ∷ rows) le (hs, h) = elim (Bool-cases (leb r.ms s.ms)) [
  | inl e ↦ rw e (le, (hs, h))
  | inr e ↦ rw e (hs, All-insert_row n r rows le h)
]

All-le : (m n : ℕ) (xs : List ℕ) → m ≤ n → All (λ y. n ≤ y) xs → All (λ y. m ≤ y) xs
All-le m n [] le h = tt
All-le m n (x ∷ xs) le (hx, h) = (omega arith, All-le m n xs le h)

insert_row-IsSorted :
    (r : Row) (rows : List Row)
    → IsSorted (durations rows)
    → IsSorted (durations (insert_row r rows))
unfolding insert_row
insert_row-IsSorted r [] h = (tt, tt)
insert_row-IsSorted r (s ∷ rows) (hs, h) = elim (Bool-cases (leb r.ms s.ms)) [
  | inl e ↦
      let le : r.ms ≤ s.ms = ground arith in
      rw e ((le, All-le r.ms s.ms (durations rows) le hs), (hs, h))
  | inr e ↦
      let le : s.ms ≤ r.ms = ground arith in
      rw e (All-insert_row s.ms r rows le hs, insert_row-IsSorted r rows h)
]

sort_rows-IsSorted : (rows : List Row) → IsSorted (durations (sort_rows rows))
unfolding sort_rows
sort_rows-IsSorted [] = tt
sort_rows-IsSorted (r ∷ rows) = insert_row-IsSorted r (sort_rows rows) (sort_rows-IsSorted rows)

within-insert_row :
    (b : ℕ) (r : Row) (rows : List Row)
    → within b (durations (insert_row r rows)) ≡ within b (durations (r ∷ rows))
unfolding insert_row
within-insert_row b r [] = refl
within-insert_row b r (s ∷ rows) = ground (arith, within-insert_row b r rows)

within-sort_rows :
    (b : ℕ) (rows : List Row) → within b (durations (sort_rows rows)) ≡ within b (durations rows)
unfolding sort_rows
within-sort_rows b [] = refl
within-sort_rows b (r ∷ rows) =
    ground (arith, within-insert_row b r (sort_rows rows), within-sort_rows b rows)

length-insert_row :
    (r : Row) (rows : List Row)
    → length (durations (insert_row r rows)) ≡ suc (length (durations rows))
unfolding insert_row
length-insert_row r [] = refl
length-insert_row r (s ∷ rows) = ground (arith, length-insert_row r rows)

length-sort_rows : (rows : List Row) → length (durations (sort_rows rows)) ≡ length (durations rows)
unfolding sort_rows
length-sort_rows [] = refl
length-sort_rows (r ∷ rows) =
    omega (arith, length-insert_row r (sort_rows rows), length-sort_rows rows)

abbrev is_broken : List Breach → Bool
is_broken [] = false
is_broken (b ∷ bs) = true

is_some-reported : (rows : List Row) (bs : List Breach) → is_some (reported rows bs) ≡ is_broken bs
is_some-reported rows [] = refl
is_some-reported rows (b ∷ bs) = refl

is_broken-append : (xs ys : List Breach) → is_broken (xs ++ ys) ≡ is_broken xs || is_broken ys
is_broken-append [] ys = refl
is_broken-append (x ∷ xs) ys = refl

is_broken-breach_of :
    (kind : ℕ → ℕ → Breach) (budget : ℕ) (measured : ℕ)
    → is_broken (breach_of kind (some budget) (some measured)) ≡ ltb budget measured
is_broken-breach_of kind budget measured = ground arith

p95-sorted :
    (budget : Option ℕ) (ms : List ℕ)
    → IsSorted ms
    → is_broken (breach_of p95 budget (percentile ms 95)) ≡ p95_exceeded budget ms
p95-sorted none ms h = refl
p95-sorted (some b) [] h = unfold percentile in refl
p95-sorted (some b) (x ∷ xs) h =
    let (v, e, same) = percentile-exceeds b x xs h in rw e (is_broken-breach_of p95 b v ∙ same)

maximum-sorted :
    (budget : Option ℕ) (ms : List ℕ)
    → IsSorted ms
    → is_broken (breach_of maximum budget (last ms)) ≡ maximum_exceeded budget ms
maximum-sorted none ms h = refl
maximum-sorted (some b) [] h = unfold last in refl
maximum-sorted (some b) (x ∷ xs) h =
    let (v, e, same) = last-exceeds b x xs h in rw e (is_broken-breach_of maximum b v ∙ same)

p95-sort_rows :
    (budget : Option ℕ) (rows : List Row)
    → p95_exceeded budget (durations (sort_rows rows)) ≡ p95_exceeded budget (durations rows)
p95-sort_rows none rows = refl
p95-sort_rows (some b) rows = rw (within-sort_rows b rows, length-sort_rows rows) refl

maximum-sort_rows :
    (budget : Option ℕ) (rows : List Row)
    → maximum_exceeded budget (durations (sort_rows rows))
      ≡ maximum_exceeded budget (durations rows)
maximum-sort_rows none rows = refl
maximum-sort_rows (some b) rows = rw (within-sort_rows b rows, length-sort_rows rows) refl

is_some-evaluate :
    (rows : List Row) (t : SlaThresholds) → is_some (evaluate rows t) ≡ is_over t (durations rows)
unfolding evaluate
is_some-evaluate rows t =
    let sorted = sort_rows rows in
    let ms = durations sorted in
    let h = sort_rows-IsSorted rows in
    is_some-reported sorted (breaches_of t ms)
    ∙ (is_broken-append (breach_of p95 t.p95_ms (percentile ms 95))
          (breach_of maximum t.max_ms (last ms))
        ∙ ap₂ ◌||◌ (p95-sorted t.p95_ms ms h ∙ p95-sort_rows t.p95_ms rows)
            (maximum-sorted t.max_ms ms h ∙ maximum-sort_rows t.max_ms rows))

unset :
    (p m : Option ℕ) (ms : List ℕ) (report : Option SlaReport)
    → is_some report ≡ p95_exceeded p ms || maximum_exceeded m ms
    → is_some (if is_some p || is_some m then report else none)
      ≡ p95_exceeded p ms || maximum_exceeded m ms
unset (some p) m ms report h = h
unset none (some m) ms report h = h
unset none none ms report h = refl

-- A run is reported for its latency exactly if, of the steps that ran in its gating scenarios, less
-- than 95 in 100 are within the first budget, or one is not within the second; a budget that is not
-- set is kept.
pub check-reports :
    (outcomes : List ScenarioOutcome) (t : SlaThresholds) (non_gating : List (Text × Text))
    → is_some (check outcomes t non_gating) ≡ is_over t (durations (rows_of non_gating outcomes))
unfolding check is_set
check-reports outcomes t non_gating =
    let rows = rows_of non_gating outcomes in
    unset t.p95_ms t.max_ms (durations rows) (evaluate rows t) (is_some-evaluate rows t)
