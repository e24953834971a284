-- ===== src/Records/Tests.antt =====
-- crates/proef-cli/src/record.rs: a record that was cut off, and instances.
use proef.Base.{ℕ, inl, inr, ◌≡◌, refl, map, true, false, none, List, [], ◌∷◌, arith}
use proef.Base.Texts.{Text, codes, text_eq, text_lt}
use proef.Base.Keyed.{find}
use proef.Runner.{Status, passed, failed}
use proef.Records.Events.{Event, step_finished, scenario_finished}
use proef.Records.{key_order, parse_record}
use proef.Records.Carried.{carried_outcomes}
use proef.Records.Carried.Kept.{key_of, kept, ended, carried_outcomes-keys}
use proef.Records.Rerun.{keeps, rerun_candidates}
use proef.Records.Rerun.Kept.{is_wanted, keeps_iff}
use proef.Records.Rerun.Reached.{keeps-unfinished}

abbrev file : Text
file = codes "a.feature"

abbrev step : Text → ℕ → Event
step scenario attempts = step_finished (record {
  scenario = scenario;
  engine = codes "hurl";
  step = record { file = file; line = 3; text = codes "I log in" };
  status = passed;
  attempts = attempts;
  duration_ms = 40;
  captures = [];
  fragment = none;
  label = none;
  detail = none;
  attempt_details = [];
  reproduce_hint = none;
})

abbrev close : Text → Text → Status → Event
close close_file scenario status = scenario_finished (record {
  scenario = scenario;
  file = close_file;
  status = status;
  timestamp_ms = none;
  worker = none;
  phase = none;
  reason = none;
  tags = [];
})

-- The run stopped before its second scenario ended.
abbrev cut_off : List Event
cut_off =
    step (codes "one") 1
    ∷ step (codes "one") 2
    ∷ close file (codes "one") passed
    ∷ step (codes "two") 1
    ∷ []

first_kept : keeps (rerun_candidates cut_off).filter file (codes "one") ≡ false
unfolding keeps rerun_candidates
first_kept = refl

-- A close without a file takes the file of the steps; both steps are kept.
adopted :
    (parse_record
      (step (codes "one") 1 ∷ step (codes "one") 2 ∷ close [] (codes "one") failed ∷ [])).scenarios
    ≡ (
      (file, codes "one"),
      record {
        status = failed;
        steps =
            ((codes "I log in", 0), record { attempts = 1; duration_ms = 40 })
            ∷ ((codes "I log in", 1), record { attempts = 2; duration_ms = 40 })
            ∷ [];
        phase = none;
        reason = none;
        tags = [];
      },
    )
      ∷ []
unfolding parse_record text_lt
adopted = refl

keeps_iff_example :
    keeps (rerun_candidates cut_off).filter file (codes "two")
    ≡ is_wanted
        (parse_record cut_off).completion
        (find key_order (file, codes "two") (parse_record cut_off).scenarios)
keeps_iff_example = keeps_iff cut_off file (codes "two")

-- A scenario of the same name ended in another file.
abbrev other_file : List Event
other_file = close (codes "b.feature") (codes "two") passed ∷ cut_off

keeps-unfinished_example : keeps (rerun_candidates other_file).filter file (codes "two") ≡ true
unfolding text_eq
keeps-unfinished_example = keeps-unfinished other_file file (codes "two") (
  (λ e f. absurd (elim f [ inl same ↦ ground arith | inr same ↦ ground arith ])),
  (tt, (tt, ((λ e f. absurd (ground arith)), (tt, tt)))),
)

carried_outcomes-keys_example :
    map key_of (carried_outcomes cut_off ((file, codes "two") ∷ []))
    ≡ kept ((file, codes "two") ∷ []) (ended cut_off)
carried_outcomes-keys_example =
    carried_outcomes-keys cut_off ((file, codes "two") ∷ []) (tt, (tt, (refl, (tt, tt))))
