-- ===== src/Distance/Rows.antt =====
-- crates/proef-core/src/matcher.rs: the rolling row of `levenshtein`.
use proef.Base.{ℕ, suc, ◌≡◌, refl, sym, ap, subst, ◌∙◌, List, [], ◌∷◌, reverse, length}
use native.Mathlib.Numerals.{add-one}
use proef.Base.Texts.{Text}
use proef.Distance.{fill_row, rows, range_inclusive, get_or, levenshtein}
use proef.Distance.Edits.{edit}
use mathlib.Core.List.{reverse_aux}

-- The row for the prefix `ra` (read backwards) from behind the column `rb` on.
cells : Text → Text → Text → List ℕ
cells ra rb [] = []
cells ra rb (c ∷ b) = edit ra (c ∷ rb) ∷ cells ra (c ∷ rb) b

fill_row-cells :
    (ca : ℕ) (ra rb b : Text)
    → fill_row ca (edit ra rb) (edit (ca ∷ ra) rb) b (cells ra rb b) ≡ cells (ca ∷ ra) rb b
unfolding fill_row cells edit
fill_row-cells ca ra rb [] = refl
fill_row-cells ca ra rb (cb ∷ b) =
    ap (λ r. edit (ca ∷ ra) (cb ∷ rb) ∷ r) (fill_row-cells ca ra (cb ∷ rb) b)

range_inclusive-cells :
    (rb b : Text) → range_inclusive (length rb) (length b) ≡ length rb ∷ cells [] rb b
unfolding range_inclusive cells edit
range_inclusive-cells rb [] = refl
range_inclusive-cells rb (c ∷ b) = ap (λ r. length rb ∷ r) (range_inclusive-cells (c ∷ rb) b)

edit-nil : (ra : Text) → edit ra [] ≡ length ra
unfolding edit
edit-nil [] = refl
edit-nil (a ∷ ra) = refl

rows_cell :
    (ca : ℕ) (ra b : Text)
    → fill_row ca (length ra) (suc (length ra)) b (cells ra [] b) ≡ cells (ca ∷ ra) [] b
rows_cell ca ra b =
    subst (λ d. fill_row ca d (suc d) b (cells ra [] b) ≡ cells (ca ∷ ra) [] b) (edit-nil ra)
      (subst (λ l. fill_row ca (edit ra []) l b (cells ra [] b) ≡ cells (ca ∷ ra) [] b)
        (edit-nil (ca ∷ ra) ∙ ap suc (sym (edit-nil ra))) (fill_row-cells ca ra [] b))

rows-cells :
    (ra a b : Text)
    → rows (length ra) a b (length ra ∷ cells ra [] b)
      ≡ length (reverse_aux a ra) ∷ cells (reverse_aux a ra) [] b
unfolding rows
rows-cells ra [] b = refl
rows-cells ra (ca ∷ a) b = rw (add-one, rows_cell ca ra b) (rows-cells (ca ∷ ra) a b)

get_or-cells :
    (ra rb b : Text) → get_or (edit ra rb ∷ cells ra rb b) (length b) ≡ edit ra (reverse_aux b rb)
unfolding get_or cells
get_or-cells ra rb [] = refl
get_or-cells ra rb (c ∷ b) = get_or-cells ra (c ∷ rb) b

pub levenshtein-eq-edit : (a b : Text) → levenshtein a b ≡ edit (reverse a) (reverse b)
unfolding levenshtein
levenshtein-eq-edit a b =
    rw (range_inclusive-cells [] b, rows-cells [] a b, ← edit-nil (reverse a))
      (get_or-cells (reverse a) [] b)
