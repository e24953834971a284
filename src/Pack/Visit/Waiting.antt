-- ===== src/Pack/Visit/Waiting.antt =====
-- crates/proef-core/src/pack/validate.rs: what the frames on the work wait for.
use proef.Base.{
  ◌≡◌, refl, Bool, true, false, Option, none, some, List, [], ◌∷◌, All, All-map, inl, inr,
  Option-cases, ◌||◌, arith,
}
use proef.Base.Texts.{Text, text_eq, text_eq_iff, text_eq_refl}
use proef.Base.Maps.{Map, lookup, TextSet, contains}
use proef.Pack.{PackMacro, PackSet}
use proef.Pack.Visit.{
  Frame, enter, leave, Color, gray, black, use_targets, push_targets, note_targets,
}

abbrev pub is_black : Option Color → Bool
is_black none = false
is_black (some gray) = false
is_black (some black) = true

-- Done, or above on the work.
abbrev pub settled : Map Color → TextSet → Text → Bool
settled colors seen n = is_black (lookup n colors) || contains n seen

-- Whether a macro of the name is still to be left.
abbrev pub leaves : Text → List Frame → Bool
leaves n [] = false
leaves n (enter m ∷ work) = leaves n work
leaves n (leave m ∷ work) = text_eq m.name n || leaves n work

module _ (set : PackSet) where
  -- A macro that is to be left is gray, no frame above is of it, and its targets are done or above.
  abbrev pub Waits : Map Color → TextSet → List Frame → Type 0
  Waits colors seen [] = Unit
  Waits colors seen (enter m ∷ work) = Waits colors (m.name ∷ seen) work
  Waits colors seen (leave m ∷ work) =
      (lookup m.name colors ≡ some gray)
      × (contains m.name seen ≡ false)
      × All (λ (t : PackMacro). settled colors seen t.name ≡ true) (use_targets set m)
      × Waits colors (m.name ∷ seen) work

  -- The colors and what is above may change so.
  pub record Moves (colors colors' : Map Color) (seen seen' : TextSet) : Type 0 where
    pub grays :
        (n : Text)
        → lookup n colors ≡ some gray
        → contains n seen ≡ false
        → (lookup n colors' ≡ some gray) × (contains n seen' ≡ false)
    pub settles : (n : Text) → settled colors seen n ≡ true → settled colors' seen' n ≡ true

  Moves-cons :
      (colors colors' : Map Color) (seen seen' : TextSet) (x : Text)
      → Moves colors colors' seen seen'
      → Moves colors colors' (x ∷ seen) (x ∷ seen')
  unfolding contains
  Moves-cons colors colors' seen seen' x h = record {
    grays = λ n g c. ground (arith, h.grays n);
    settles = λ n s. ground (arith, h.settles n);
  }

  pub Waits-Moves :
      (colors colors' : Map Color) (seen seen' : TextSet) (work : List Frame)
      → Moves colors colors' seen seen'
      → Waits colors seen work
      → Waits colors' seen' work
  Waits-Moves colors colors' seen seen' [] h w = tt
  Waits-Moves colors colors' seen seen' (enter m ∷ work) h w =
      Waits-Moves colors colors' (m.name ∷ seen) (m.name ∷ seen') work
        (Moves-cons colors colors' seen seen' m.name h) w
  Waits-Moves colors colors' seen seen' (leave m ∷ work) h w =
      let g = h.grays m.name w.0 w.1 in
      (
        g.0,
        g.1,
        All-map (λ (t : PackMacro) s. h.settles t.name s) (use_targets set m) w.2,
        Waits-Moves colors colors' (m.name ∷ seen) (m.name ∷ seen') work
            (Moves-cons colors colors' seen seen' m.name h) w.3,
      )

  -- A macro is not above where it is left.
  pub leaves-Waits :
      (colors : Map Color) (seen : TextSet) (work : List Frame) (n : Text)
      → Waits colors seen work
      → contains n seen ≡ true
      → leaves n work ≡ false
  unfolding contains
  leaves-Waits colors seen [] n w c = refl
  leaves-Waits colors seen (enter m ∷ work) n w c =
      leaves-Waits colors (m.name ∷ seen) work n w (ground arith)
  leaves-Waits colors seen (leave m ∷ work) n w c =
      let later = leaves-Waits colors (m.name ∷ seen) work n w.3 (ground arith) in
      ground (arith, text_eq_iff m.name n)

-- The names above the rest of the work once the targets are on it.
abbrev pub above_by : Option Color → PackMacro → TextSet → TextSet
above_by none m seen = m.name ∷ seen
above_by (some c) m seen = seen

abbrev pub above : Map Color → List PackMacro → TextSet → TextSet
above colors [] seen = seen
above colors (m ∷ ms) seen = above colors ms (above_by (lookup m.name colors) m seen)

pub contains-above :
    (colors : Map Color) (ms : List PackMacro) (seen : TextSet) (n : Text)
    → contains n seen ≡ true
    → contains n (above colors ms seen) ≡ true
unfolding contains
contains-above colors [] seen n h = h
contains-above colors (m ∷ ms) seen n h =
    contains-above colors ms (above_by (lookup m.name colors) m seen) n
      (elim (Option-cases (lookup m.name colors)) [
        | inl e ↦ rw e (ground arith)
        | inr (c, e) ↦ rw e h
      ])

-- Only names without a color come above.
pub above-colored :
    (colors : Map Color) (ms : List PackMacro) (seen : TextSet) (n : Text) (c : Color)
    → lookup n colors ≡ some c
    → contains n seen ≡ false
    → contains n (above colors ms seen) ≡ false
unfolding contains
above-colored colors [] seen n c e h = h
above-colored colors (m ∷ ms) seen n c e h =
    above-colored colors ms (above_by (lookup m.name colors) m seen) n c e
      (elim (Option-cases (lookup m.name colors)) [
        | inl f ↦ rw f (ground (arith, text_eq_iff m.name n))
        | inr (d, f) ↦ rw f h
      ])

pub Waits-push_targets :
    (set : PackSet) (colors : Map Color) (ms : List PackMacro) (seen : TextSet) (work : List Frame)
    → Waits set colors (above colors ms seen) work
    → Waits set colors seen (push_targets colors ms work)
unfolding push_targets
Waits-push_targets set colors [] seen work w = w
Waits-push_targets set colors (m ∷ ms) seen work w = elim (Option-cases (lookup m.name colors)) [
  | inl e ↦ rw e (Waits-push_targets set colors ms (m.name ∷ seen) work (rw e at w))
  | inr (c, e) ↦ rw e (Waits-push_targets set colors ms seen work (rw e at w))
]

abbrev pub is_gray : Option Color → Bool
is_gray none = false
is_gray (some gray) = true
is_gray (some black) = false

abbrev pub AreClear : Map Color → List PackMacro → Type 0
AreClear colors ms = All (λ (t : PackMacro). is_gray (lookup t.name colors) ≡ false) ms

-- A target that is not gray is done or above.
pub settled-above :
    (colors : Map Color) (ms : List PackMacro) (seen : TextSet)
    → AreClear colors ms
    → All (λ (t : PackMacro). settled colors (above colors ms seen) t.name ≡ true) ms
unfolding contains
settled-above colors [] seen h = tt
settled-above colors (m ∷ ms) seen h =
    (settled_head (lookup m.name colors) refl, settled-above colors ms next h.1)
  where
    next : TextSet
    next = above_by (lookup m.name colors) m seen

    settled_head :
        (o : Option Color)
        → lookup m.name colors ≡ o
        → settled colors (above colors ms next) m.name ≡ true
    settled_head none e =
        let c = contains-above colors ms (m.name ∷ seen) m.name (rw (text_eq_refl m.name) refl) in
        rw e (ground arith)
    settled_head (some black) e = rw e refl
    settled_head (some gray) e = let g = h.0 in ground arith

-- Where nothing is reported, no target is gray.
pub note_targets-AreClear :
    (colors : Map Color) (path ms : List PackMacro)
    → note_targets colors path ms ≡ []
    → AreClear colors ms
unfolding note_targets
note_targets-AreClear colors path [] h = tt
note_targets-AreClear colors path (m ∷ ms) h = elim (Option-cases (lookup m.name colors)) [
  | inl e ↦ (rw e refl, note_targets-AreClear colors path ms (rw e at h))
  | inr (gray, e) ↦ ground arith
  | inr (black, e) ↦ (rw e refl, note_targets-AreClear colors path ms (rw e at h))
]
