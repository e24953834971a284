-- ===== src/Records/Diff/Verdicts.antt =====
-- crates/proef-cli/src/diff.rs: each scenario of two records has one verdict, or none.
use proef.Base.{
  ℕ, ◌+◌, ◌≡◌, refl, Bool, true, false, not, Option, none, some, List, [], ◌∷◌, ◌++◌, count_p, ◌==◌,
  ◌&&◌, if◌then◌else◌, arith,
}
use proef.Runner.{Status, passed, failed, skipped, warned}
use proef.Runner.Exit.{is_failed}
use proef.Records.{Key, key_order}
use proef.Records.Diff.{Report, by_statuses}

pub data Verdict : Type 0 where
  regressed fixed still_failing removed : Verdict
  -- Whether it failed before.
  now_skipped : Bool → Verdict
  added : Status → Verdict

abbrev pub is_skipped : Status → Bool
is_skipped skipped = true
is_skipped passed = false
is_skipped failed = false
is_skipped warned = false

-- What a scenario's statuses before and now say, if it was there.
abbrev pub verdict : Option Status → Option Status → Option Verdict
verdict none none = none
verdict (some before) none = some removed
verdict none (some now) = some (added now)
verdict (some before) (some now) =
    if is_skipped now
    then (if is_skipped before then none else some (now_skipped (is_failed before)))
    else if is_skipped before
    then some (added now)
    else if is_failed now
    then some (if is_failed before then still_failing else regressed)
    else if is_failed before
    then some fixed
    else none

abbrev pub same_bool : Bool → Bool → Bool
same_bool true b = b
same_bool false b = not b

abbrev pub status_number : Status → ℕ
status_number passed = 0
status_number failed = 1
status_number skipped = 2
status_number warned = 3

abbrev pub same_verdict : Verdict → Verdict → Bool
same_verdict regressed regressed = true
same_verdict fixed fixed = true
same_verdict still_failing still_failing = true
same_verdict removed removed = true
same_verdict (now_skipped w) (now_skipped x) = same_bool x w
same_verdict (added s) (added t) = status_number t == status_number s
same_verdict _ _ = false

abbrev pub is_verdict : Verdict → Option Verdict → Bool
is_verdict v none = false
is_verdict v (some w) = same_verdict v w

abbrev pub is_key : Key → Key → Bool
is_key k j = key_order.eq j k

-- How often a key stands in the list of a verdict.
abbrev pub count_in : Verdict → Key → Report → ℕ
count_in regressed k r = count_p (is_key k) r.regressed
count_in fixed k r = count_p (is_key k) r.fixed
count_in still_failing k r = count_p (is_key k) r.still_failing
count_in removed k r = count_p (is_key k) r.removed
count_in (now_skipped w) k r =
    count_p (λ (e : Key × Bool). is_key k e.0 && same_bool e.1 w) r.now_skipped
count_in (added s) k r =
    count_p (λ (e : Key × Status). is_key k e.0 && status_number e.1 == status_number s) r.added

abbrev pub one_if : Bool → ℕ
one_if b = if b then 1 else 0

count_p-push {ℓ} :
    {A : Type ℓ} (p : A → Bool) (xs : List A) (x : A)
    → count_p p (xs ++ x ∷ []) ≡ count_p p xs + one_if (p x)
count_p-push p [] x = ground arith
count_p-push p (y ∷ xs) x = ground (arith, count_p-push p xs x)

abbrev pub place : Key → Option Verdict → Report → Report
place j none r = r
place j (some regressed) r = record r { regressed = r.regressed ++ j ∷ [] }
place j (some fixed) r = record r { fixed = r.fixed ++ j ∷ [] }
place j (some still_failing) r = record r { still_failing = r.still_failing ++ j ∷ [] }
place j (some removed) r = record r { removed = r.removed ++ j ∷ [] }
place j (some (now_skipped w)) r = record r { now_skipped = r.now_skipped ++ (j, w) ∷ [] }
place j (some (added s)) r = record r { added = r.added ++ (j, s) ∷ [] }

pub count_in-place :
    (v : Verdict) (k j : Key) (o : Option Verdict) (r : Report)
    → count_in v k (place j o r) ≡ count_in v k r + one_if (is_key k j && is_verdict v o)
count_in-place v k j none r = ground arith
count_in-place regressed k j (some regressed) r =
    ground (arith, count_p-push (is_key k) r.regressed j)
count_in-place fixed k j (some fixed) r = ground (arith, count_p-push (is_key k) r.fixed j)
count_in-place still_failing k j (some still_failing) r =
    ground (arith, count_p-push (is_key k) r.still_failing j)
count_in-place removed k j (some removed) r = ground (arith, count_p-push (is_key k) r.removed j)
count_in-place (now_skipped w) k j (some (now_skipped x)) r =
    count_p-push (λ (e : Key × Bool). is_key k e.0 && same_bool e.1 w) r.now_skipped (j, x)
count_in-place (added s) k j (some (added t)) r =
    count_p-push (λ (e : Key × Status). is_key k e.0 && status_number e.1 == status_number s)
      r.added (j, t)
count_in-place v k j (some w) r = ground arith

pub by_statuses-place :
    (j : Key) (before now : Status) (r : Report)
    → by_statuses j before now r ≡ place j (verdict (some before) (some now)) r
unfolding by_statuses is_failed
by_statuses-place j passed passed r = refl
by_statuses-place j passed failed r = refl
by_statuses-place j passed skipped r = refl
by_statuses-place j passed warned r = refl
by_statuses-place j failed passed r = refl
by_statuses-place j failed failed r = refl
by_statuses-place j failed skipped r = refl
by_statuses-place j failed warned r = refl
by_statuses-place j skipped passed r = refl
by_statuses-place j skipped failed r = refl
by_statuses-place j skipped skipped r = refl
by_statuses-place j skipped warned r = refl
by_statuses-place j warned passed r = refl
by_statuses-place j warned failed r = refl
by_statuses-place j warned skipped r = refl
by_statuses-place j warned warned r = refl
