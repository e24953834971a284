-- ===== src/Records/Closes.antt =====
-- crates/proef-cli/src/record.rs: where the scenarios of a record come from.
use proef.Base.{
  ◌≡◌, ◌≢◌, ◌⊎◌, refl, ap, sym, subst, true, ◌∙◌, Bool-cases, Option, none, some, List, [], ◌∷◌,
  All, filter, inl, inr, arith,
}
use proef.Base.Texts.{Text, text_eq}
use proef.Base.Keyed.{Order, find, put}
use proef.Records.Events.{
  Event, ScenarioFinished, run_started, scenario_started, batch_started, entry_running,
  step_finished, scenario_finished, run_finished,
}
use proef.Records.{
  Key, key_order, StepBuffer, ScenarioRun, incomplete, Fold, Pending, is_empty_text, adopt, keys,
  take_by, take_pending_steps, on_event, fold_events,
}

module _ {K V : Type 0} (o : Order K) (P : K × V → Type 0) where
  All-put : (k : K) (v : V) (m : List (K × V)) → P (k, v) → All P m → All P (put o k v m)
  unfolding put
  All-put k v [] hk h = (hk, tt)
  All-put k v ((j, w) ∷ m) hk (hj, h) = elim (Bool-cases (o.eq j k)) [
    | inl e ↦ rw e (hk, h)
    | inr e ↦ elim (Bool-cases (o.lt k j)) [
      | inl lt ↦ rw (e, lt) (hk, (hj, h))
      | inr ge ↦ rw (e, ge) (hj, All-put k v m hk h)
    ]
  ]

  pub find-All : (k : K) (v : V) (m : List (K × V)) → find o k m ≡ some v → All P m → P (k, v)
  unfolding find
  find-All k v [] e h = absurd (ground arith)
  find-All k v ((j, w) ∷ m) e (hj, h) = elim (Bool-cases (o.eq j k)) [
    | inl same ↦
        let at_j = (o.eq_iff j k).0 same in
        let value : w ≡ v = ground arith in subst P (λ i. (at_j i, value i)) hj
    | inr other ↦ find-All k v m (ground arith) h
  ]

-- The key of what was closed, or a key of its name where the close has no file.
abbrev IsKeyOf : Key → Key → Type 0
IsKeyOf k key = (k.1 ≡ key.1) × ((k.0 ≡ key.0) ⊎ (key.0 ≡ []))

adopt-IsKeyOf :
    (pending : Pending) (key : Key) (ks : List Key)
    → key.0 ≡ []
    → IsKeyOf (adopt pending key ks).1.0 key
adopt-IsKeyOf pending key [] e = (refl, inl refl)
adopt-IsKeyOf pending key (k ∷ []) e = (refl, inr e)
adopt-IsKeyOf pending key (k ∷ j ∷ ks) e = (refl, inl refl)

is_empty_text-eq : (t : Text) → is_empty_text t ≡ true → t ≡ []
is_empty_text-eq [] h = refl
is_empty_text-eq (c ∷ t) h = absurd (ground arith)

take_by-IsKeyOf :
    (pending : Pending) (key : Key) (o : Option StepBuffer)
    → IsKeyOf (take_by pending key o).1.0 key
take_by-IsKeyOf pending key (some steps) = (refl, inl refl)
take_by-IsKeyOf pending key none = elim (Bool-cases (is_empty_text key.0)) [
  | inl e ↦ rw e (
      adopt-IsKeyOf pending key (filter (λ (k : Key). text_eq k.1 key.1) (keys pending))
        (is_empty_text-eq key.0 e))
  | inr e ↦ rw e (refl, inl refl)
]

-- A scenario is recorded under the name that it closed with, and under its file if it has one.
take_pending_steps-IsKeyOf :
    (pending : Pending) (key : Key) → IsKeyOf (take_pending_steps pending key).1.0 key
unfolding take_pending_steps
take_pending_steps-IsKeyOf pending key = take_by-IsKeyOf pending key (find key_order key pending)

-- The file of an event is this one, or none.
abbrev pub IsFileOf : Text → Text → Type 0
IsFileOf file f = (f ≡ file) ⊎ (f ≡ [])

-- No run end, and no end of the suite scenario of the file and the name.
abbrev pub IsSilent : Key → Event → Type 0
IsSilent key (scenario_finished e) = (e.scenario ≡ key.1) → IsFileOf key.0 e.file → e.phase ≢ none
IsSilent key (run_finished e) = ⊥
IsSilent key (run_started e) = Unit
IsSilent key (scenario_started e) = Unit
IsSilent key (batch_started e) = Unit
IsSilent key (entry_running e) = Unit
IsSilent key (step_finished e) = Unit

abbrev IsUnseen : Key → Key × ScenarioRun → Type 0
IsUnseen key (k, run) = (k ≡ key) → run.phase ≢ none

pub record Untouched (key : Key) (f : Fold) : Type 0 where
  pub open_ended : f.completion ≡ incomplete
  pub unseen : All (IsUnseen key) f.scenarios

silent-key :
    (key : Key) (e : ScenarioFinished) (k : Key)
    → ((e.scenario ≡ key.1) → IsFileOf key.0 e.file → e.phase ≢ none)
    → IsKeyOf k (e.file, e.scenario)
    → k ≡ key
    → e.phase ≢ none
silent-key key e k silent (name, inl file) same =
    silent (sym name ∙ ap (λ (x : Key). x.1) same) (inl (sym file ∙ ap (λ (x : Key). x.0) same))
silent-key key e k silent (name, inr no_file) same =
    silent (sym name ∙ ap (λ (x : Key). x.1) same) (inr no_file)

on_event-Untouched :
    (key : Key) (e : Event) (f : Fold)
    → IsSilent key e
    → Untouched key f
    → Untouched key (on_event e f)
unfolding on_event
on_event-Untouched key (scenario_finished e) f silent h =
    let taken = take_pending_steps f.pending (e.file, e.scenario) in
    record {
      open_ended = h.open_ended;
      unseen =
          All-put key_order (IsUnseen key) taken.1.0 _ f.scenarios
            (silent-key key e taken.1.0 silent
              (take_pending_steps-IsKeyOf f.pending (e.file, e.scenario)))
            h.unseen;
    }
on_event-Untouched key (run_finished e) f silent h = elim silent [ ]
on_event-Untouched key (run_started e) f silent h = record {
  open_ended = h.open_ended;
  unseen = h.unseen;
}
on_event-Untouched key (scenario_started e) f silent h = h
on_event-Untouched key (batch_started e) f silent h = h
on_event-Untouched key (entry_running e) f silent h = h
on_event-Untouched key (step_finished e) f silent h = record {
  open_ended = h.open_ended;
  unseen = h.unseen;
}

pub fold_events-Untouched :
    (key : Key) (events : List Event) (f : Fold)
    → All (IsSilent key) events
    → Untouched key f
    → Untouched key (fold_events events f)
unfolding fold_events
fold_events-Untouched key [] f silent h = h
fold_events-Untouched key (e ∷ events) f (s, silent) h =
    fold_events-Untouched key events (on_event e f) silent (on_event-Untouched key e f s h)

pub unseen-phase :
    (key : Key) (f : Fold) (run : ScenarioRun)
    → Untouched key f
    → find key_order key f.scenarios ≡ some run
    → run.phase ≢ none
unseen-phase key f run h e = find-All key_order (IsUnseen key) key run f.scenarios e h.unseen refl
