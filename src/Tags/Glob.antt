-- ===== src/Tags/Glob.antt =====
-- crates/proef-core/src/tags.rs: one atom against one tag. The loop's two indices are the parts of
-- the pattern and of the text that are left, and so is its backtrack point.
pub mod Meaning
use proef.Base.{
  ℕ, zero, suc, ◌+◌, ◌*◌, Bool, true, false, not, Option, none, some, List, [], ◌∷◌, all, any,
  length, ◌==◌, ◌||◌, if◌then◌else◌,
}
use proef.Base.Texts.{Text, text_eq}

abbrev pub star : ℕ
star = b'*'

abbrev pub any_char : ℕ
any_char = b'?'

abbrev Retry : Type 0
Retry = Option (Text × Text)

abbrev Answer : Type 0
Answer = Option Bool

-- The `_` arm: go back to the last `*` and let it take one more character. A retry point with no
-- text left does not arise, since the loop has text left and the retry point lies before it.
go_back : Retry → (Text → Text → Retry → Answer) → Answer
go_back none next = some false
go_back (some (after_star, [])) next = none
go_back (some (after_star, _ ∷ consumed)) next =
    next after_star consumed (some (after_star, consumed))

-- `none` is a run out of fuel, or a fault.
glob_loop : ℕ → Text → Text → Retry → Answer
unfolding go_back
glob_loop zero p t retry = none
glob_loop (suc f) p [] retry = some (all (λ c. c == star) p)
glob_loop (suc f) [] (x ∷ t) retry = go_back retry (glob_loop f)
glob_loop (suc f) (c ∷ p) (x ∷ t) retry =
    let starred = glob_loop f p (x ∷ t) (some (p, x ∷ t)) in
    let onward = glob_loop f p t retry in
    if c == star
    then starred
    else if c == any_char || c == x
    then onward
    else go_back retry (glob_loop f)

glob_fuel : Text → Text → ℕ
glob_fuel p t = (length t + 1) * (length p + 1)

unfoldable pub glob_at : Text → Text → Answer
unfolding glob_loop glob_fuel
glob_at p t = glob_loop (glob_fuel p t) p t none

-- `unwrap_or(false)` stands for the run that does not arise: `glob_at` always answers.
unfoldable pub atom_matches : Text → Text → Bool
unfolding glob_at text_eq
atom_matches pattern t =
    if not (any (λ c. c == star || c == any_char) pattern)
    then text_eq pattern t
    else elim (glob_at pattern t) [ none ↦ false | some b ↦ b ]
