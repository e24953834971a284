-- ===== src/Pack/Visit/Cycles.antt =====
-- crates/proef-core/src/pack/validate.rs: a reported cycle is one.
use proef.Base.{
  ℕ, zero, suc, ◌≡◌, ◌≢◌, refl, subst, none, some, List, [], ◌∷◌, ◌++◌, All, All-map, Any, reverse,
  reverse-cons, inl, inr, ◌⊎◌, Option-cases, Any-All, List-cases, arith,
}
use proef.Base.Texts.{text_eq_iff}
use proef.Base.Maps.{Map, lookup, insert, lookup-insert}
use proef.Pack.{PackMacro, PackSet}
use proef.Pack.Visit.{
  Frame, enter, leave, Color, gray, black, Walk, use_targets, push_targets, note_targets, pop,
  enter_new, leave_macro, turn, run_frames,
}
use proef.Pack.Visit.Known.{IsPackSet, Known, use_targets-Known}
use proef.Pack.Visit.Chains.{Uses, IsTrail, IsTrail-tail, TooLong, loop-TooLong}
use proef.Pack.Visit.Trails.{Entered, Trails, leaves-path, Linked-push_targets, note_targets-gray}
use proef.Pack.Visit.Ranked.{leaves-push_targets}

Any-either-append :
    {A : Type 0} (P : A → Type 0) (xs ys : List A) → Any P (xs ++ ys) → Any P xs ⊎ Any P ys
Any-either-append P [] ys h = inr h
Any-either-append P (x ∷ xs) ys (inl h) = inl (inl h)
Any-either-append P (x ∷ xs) ys (inr h) = elim (Any-either-append P xs ys h) [
  | inl a ↦ inl (inr a)
  | inr b ↦ inr b
]

Any-unreverse : {A : Type 0} (P : A → Type 0) (xs : List A) → Any P (reverse xs) → Any P xs
Any-unreverse P [] h = h
Any-unreverse P (x ∷ xs) h =
    elim (Any-either-append P (reverse xs) (x ∷ []) (subst (Any P) (reverse-cons x xs) h)) [
      | inl a ↦ inr (Any-unreverse P xs a)
      | inr (inl b) ↦ inl b
      | inr (inr x) ↦ elim x [ ]
    ]

Any-find : {A : Type 0} (P Q : A → Type 0) (xs : List A) → Any P xs → All Q xs → (x : A) × P x × Q x
Any-find P Q [] a h = elim a [ ]
Any-find P Q (x ∷ xs) (inl p) h = (x, p, h.0)
Any-find P Q (x ∷ xs) (inr a) h = Any-find P Q xs a h.1

All-members : {A : Type 0} (xs : List A) → All (λ t. Any (λ (x : A). x ≡ t) xs) xs
All-members [] = tt
All-members {A} (x ∷ xs) = (inl refl, All-map (λ (t : A) a. inr a) xs (All-members xs))

module _ (set : PackSet) where
  AllUses : (m : PackMacro) → All (Uses set m) (use_targets set m)
  AllUses m = All-members (use_targets set m)

  module _ (known : IsPackSet set) where
    Trails-entering :
        (colors : Map Color) (path : List PackMacro) (m : PackMacro) (work : List Frame)
        → lookup m.name colors ≡ none
        → Trails set colors path (enter m ∷ work)
        → Trails set
            (insert m.name gray colors)
            (m ∷ path)
            (push_targets (insert m.name gray colors) (use_targets set m) (leave m ∷ work))
    Trails-entering colors path m work e h =
        let colors' = insert m.name gray colors in
        let ts = use_targets set m in
        record {
          trail = extended path h.trail h.linked.1;
          linked =
              Linked-push_targets set colors' m path ts (leave m ∷ work)
                (use_targets-Known set known m) (AllUses m) (refl, h.linked.2);
          grays = λ n g. ground (
            arith,
            leaves-push_targets colors' ts (leave m ∷ work) n,
            lookup-insert m.name n gray colors,
            h.grays n,
          );
        }
      where
        extended :
            (path : List PackMacro) → IsTrail set path → Entered set path m → IsTrail set (m ∷ path)
        extended [] t u = h.linked.0
        extended (p ∷ path) t u = (h.linked.0, u, t)

    Trails-leaving :
        (colors : Map Color) (path : List PackMacro) (m : PackMacro) (work : List Frame)
        → Trails set colors path (leave m ∷ work)
        → Trails set (insert m.name black colors) (pop path) work
    Trails-leaving colors [] m work h = elim (h.linked) [ ]
    Trails-leaving colors (p ∷ path) m work h = record {
      trail = IsTrail-tail set p path h.trail;
      linked = h.linked.1;
      grays = λ n g.
          ground (arith, lookup-insert m.name n black colors, text_eq_iff m.name n, h.grays n);
    }

    -- A target that is gray closes a cycle.
    note_targets-TooLong :
        (colors : Map Color) (path : List PackMacro) (m : PackMacro) (work : List Frame)
        → Trails set colors (m ∷ path) work
        → note_targets colors (m ∷ path) (reverse (use_targets set m)) ≢ []
        → TooLong set
    note_targets-TooLong colors path m work h n =
        let ts = use_targets set m in
        let found =
          Any-find (λ (t : PackMacro). lookup t.name colors ≡ some gray) (Uses set m) ts
            (Any-unreverse (λ (t : PackMacro). lookup t.name colors ≡ some gray) ts
              (note_targets-gray set colors (m ∷ path) (reverse ts) n))
            (AllUses m) in
        let t = found.0 in
        loop-TooLong set m t path found.2
          (Any-All (Known set) t ts found.2 (use_targets-Known set known m)) h.trail
          (leaves-path set t.name (m ∷ path) work h.linked (h.grays t.name found.1))

    abbrev pub TrailsOf : Walk → Type 0
    TrailsOf w = Trails set w.colors w.path w.work

    turn-Trails :
        (f : Frame) (work : List Frame) (w : Walk)
        → Trails set w.colors w.path (f ∷ work)
        → TrailsOf (turn set f work w)
    unfolding enter_new leave_macro
    turn-Trails (leave m) work w h = Trails-leaving w.colors w.path m work h
    turn-Trails (enter m) work w h = elim (Option-cases (lookup m.name w.colors)) [
      | inl e ↦ rw e (Trails-entering w.colors w.path m work e h)
      | inr (c, e) ↦ rw e (record { trail = h.trail; linked = h.linked.2; grays = h.grays })
    ]

    turn-TooLong :
        (f : Frame) (work : List Frame) (w : Walk)
        → Trails set w.colors w.path (f ∷ work)
        → w.diags ≡ []
        → (turn set f work w).diags ≢ []
        → TooLong set
    unfolding enter_new leave_macro
    turn-TooLong (leave m) work w h d n = absurd (n d)
    turn-TooLong (enter m) work w h d n = elim (Option-cases (lookup m.name w.colors)) [
      | inl e ↦
          let g = Trails-entering w.colors w.path m work e h in
          note_targets-TooLong (insert m.name gray w.colors) w.path m _ g
            (λ none_noted. n (rw (e, d, none_noted) refl))
      | inr (c, e) ↦ absurd (n (rw e d))
    ]

    pub run_frames-TooLong :
        (fuel : ℕ) (w : Walk)
        → TrailsOf w
        → w.diags ≡ []
        → (run_frames set fuel w).diags ≢ []
        → TooLong set
    unfolding run_frames
    run_frames-TooLong zero w h d n = absurd (n d)
    run_frames-TooLong (suc fuel) w h d n = elim (List-cases w.work) [
      | inl e ↦ absurd (n (rw (e, run_frames) d))
      | inr (f, work, e) ↦
          let h' = subst (λ l. Trails set w.colors w.path l) e h in
          elim (List-cases (turn set f work w).diags) [
            | inl clean ↦
                run_frames-TooLong fuel (turn set f work w) (turn-Trails f work w h') clean
                  (rw (e, run_frames) at n)
            | inr (x, xs, some_noted) ↦ turn-TooLong f work w h' d (λ clean. ground arith)
          ]
    ]

    pub run_frames-Trails : (fuel : ℕ) (w : Walk) → TrailsOf w → TrailsOf (run_frames set fuel w)
    unfolding run_frames
    run_frames-Trails zero w h = h
    run_frames-Trails (suc fuel) w h = elim (List-cases w.work) [
      | inl e ↦ rw (e, run_frames) h
      | inr (f, work, e) ↦
          let h' = subst (λ l. Trails set w.colors w.path l) e h in
          rw (e, run_frames) (run_frames-Trails fuel (turn set f work w) (turn-Trails f work w h'))
    ]
