-- ===== src/Records/Rerun/Reached.antt =====
-- crates/proef-cli/src/record.rs: `--rerun` after a run that was cut off.
use proef.Base.{
  ◌≡◌, refl, ◌∙◌, ap, true, false, Option, none, some, Option-cases, List, All, inl, inr, arith,
  ◌≢◌,
}
use proef.Base.Texts.{Text}
use proef.Base.Keyed.{find}
use proef.Records.Events.{Event}
use proef.Records.{
  Key, key_order, ScenarioRun, is_suite, incomplete, start, fold_events, parse_record,
}
use proef.Records.Closes.{IsSilent, Untouched, fold_events-Untouched, unseen-phase}
use proef.Records.Rerun.{keeps, rerun_candidates}
use proef.Records.Rerun.Kept.{keeps_iff, is_wanted}

not_suite : (run : ScenarioRun) → run.phase ≢ none → is_suite run ≡ false
unfolding is_suite
not_suite run h = elim (Option-cases run.phase) [ inl e ↦ absurd (h e) | inr (p, e) ↦ rw e refl ]

wanted_open :
    (o : Option ScenarioRun)
    → ((run : ScenarioRun) → o ≡ some run → run.phase ≢ none)
    → is_wanted incomplete o ≡ true
wanted_open none h = refl
wanted_open (some run) h = ground (arith, not_suite run (h run refl))

-- After a run whose record has no end, `--rerun` runs every scenario of which the record has no end as a
-- suite scenario, where an end is one of the scenario's name with its file or with no file, whatever
-- else the record holds, of the same name in other files too.
pub keeps-unfinished :
    (events : List Event) (file name : Text)
    → All (IsSilent (file, name)) events
    → keeps (rerun_candidates events).filter file name ≡ true
keeps-unfinished events file name silent =
    let key : Key = (file, name) in
    let fresh : Untouched key start = record { open_ended = refl; unseen = tt } in
    let h = fold_events-Untouched key events start silent fresh in
    keeps_iff events file name
    ∙ (unfold parse_record in
        (ap (λ c. is_wanted c (find key_order key (fold_events events start).scenarios))
            h.open_ended
          ∙ wanted_open (find key_order key (fold_events events start).scenarios)
              (λ run e. unseen-phase key (fold_events events start) run h e)))
