-- ===== src/Pack/Visit/Ranked.antt =====
-- crates/proef-core/src/pack/validate.rs: as long as no cycle is reported, the chain of a macro that
-- is done is one more than the greatest of its targets'.
use proef.Base.{
  ℕ, suc, ◌≡◌, refl, subst, true, false, Option, none, some, List, [], ◌∷◌, All, inl, inr,
  Option-cases, Bool-cases, arith,
}
use proef.Base.Texts.{Text, text_eq, text_eq_iff, text_eq_refl}
use proef.Base.Maps.{Map, lookup, insert, lookup-insert, contains}
use proef.Pack.{PackMacro, PackSet}
use proef.Pack.Visit.{Frame, enter, leave, Color, gray, black, use_targets, push_targets, max_chain}
use proef.Pack.Visit.Known.{Known, Known-unique}
use proef.Pack.Visit.Waiting.{
  is_black, settled, leaves, Waits, Waits-Moves, leaves-Waits, above, above-colored,
  Waits-push_targets, settled-above, AreClear,
}

pub leaves-push_targets :
    (colors : Map Color) (ms : List PackMacro) (work : List Frame) (n : Text)
    → leaves n (push_targets colors ms work) ≡ leaves n work
unfolding push_targets
leaves-push_targets colors [] work n = refl
leaves-push_targets colors (m ∷ ms) work n = elim (Option-cases (lookup m.name colors)) [
  | inl e ↦ rw e (leaves-push_targets colors ms work n)
  | inr (c, e) ↦ rw e (leaves-push_targets colors ms work n)
]

abbrev pub AreBlack : Map Color → List PackMacro → Type 0
AreBlack colors ms = All (λ (t : PackMacro). lookup t.name colors ≡ some black) ms

-- A macro that is not black is none of the black ones, so that its chain does not count for them.
max_chain-insert :
    (colors : Map Color) (chains : Map ℕ) (n : Text) (v : ℕ) (ms : List PackMacro)
    → lookup n colors ≡ some gray
    → AreBlack colors ms
    → max_chain (insert n v chains) ms ≡ max_chain chains ms
unfolding max_chain
max_chain-insert colors chains n v [] g h = refl
max_chain-insert colors chains n v (m ∷ ms) g h =
    let other : text_eq n m.name ≡ false = (let b = h.0 in ground (arith, text_eq_iff n m.name)) in
    let same : lookup m.name (insert n v chains) ≡ lookup m.name chains =
      rw (lookup-insert n m.name v chains, other) refl in
    rw (same, max_chain-insert colors chains n v ms g h.1) refl

-- A color that was not black is given to a macro.
AreBlack-insert :
    (colors : Map Color) (n : Text) (c : Color) (ms : List PackMacro)
    → is_black (lookup n colors) ≡ false
    → AreBlack colors ms
    → AreBlack (insert n c colors) ms
AreBlack-insert colors n c [] o h = tt
AreBlack-insert colors n c (m ∷ ms) o h = (
  (let b = h.0 in ground (arith, lookup-insert n m.name c colors, text_eq_iff n m.name)),
  AreBlack-insert colors n c ms o h.1,
)

module _ (set : PackSet) where
  abbrev pub Done : Map Color → Map ℕ → PackMacro → Type 0
  Done colors chains u =
      AreBlack colors (use_targets set u)
      × (lookup u.name chains ≡ some (suc (max_chain chains (use_targets set u))))

  pub record Good (colors : Map Color) (chains : Map ℕ) (work : List Frame) : Type 0 where
    pub waits : Waits set colors [] work
    pub grays : (n : Text) → lookup n colors ≡ some gray → leaves n work ≡ true
    pub done :
        (u : PackMacro) → Known set u → lookup u.name colors ≡ some black → Done colors chains u

  -- A frame of a macro that was entered already is dropped.
  pub Good-entered :
      (colors : Map Color) (chains : Map ℕ) (m : PackMacro) (work : List Frame) (c : Color)
      → lookup m.name colors ≡ some c
      → Good colors chains (enter m ∷ work)
      → Good colors chains work
  unfolding contains
  Good-entered colors chains m work gray e h =
      let l =
        leaves-Waits set colors (m.name ∷ []) work m.name h.waits (rw (text_eq_refl m.name) refl) in
      let g = h.grays m.name e in ground arith
  Good-entered colors chains m work black e h = record {
    waits =
        Waits-Moves set colors colors (m.name ∷ []) [] work
          (record {
            grays = λ n g c. (g, refl);
            settles = λ n s. ground (arith, text_eq_iff m.name n);
          })
          h.waits;
    grays = λ n g. h.grays n g;
    done = h.done;
  }

  pub Good-entering :
      (colors : Map Color) (chains : Map ℕ) (m : PackMacro) (work : List Frame)
      → lookup m.name colors ≡ none
      → AreClear (insert m.name gray colors) (use_targets set m)
      → Good colors chains (enter m ∷ work)
      → Good
          (insert m.name gray colors)
          chains
          (push_targets (insert m.name gray colors) (use_targets set m) (leave m ∷ work))
  unfolding contains
  Good-entering colors chains m work e clear h =
      let colors' = insert m.name gray colors in
      let ts = use_targets set m in
      let here : lookup m.name colors' ≡ some gray =
        rw (lookup-insert m.name m.name gray colors, text_eq_refl m.name) refl in
      record {
        waits = Waits-push_targets set colors' ts [] (leave m ∷ work) (
          here,
          above-colored colors' ts [] m.name gray here refl,
          settled-above colors' ts [] clear,
          Waits-Moves set colors colors' (m.name ∷ []) (m.name ∷ above colors' ts []) work
              (record {
                grays = λ n g c. ground (
                  arith,
                  lookup-insert m.name n gray colors,
                  text_eq_iff m.name n,
                  above-colored colors' ts [] n gray,
                );
                settles =
                    λ n s. ground (arith, lookup-insert m.name n gray colors, text_eq_iff m.name n);
              })
              h.waits,
        );
        grays = λ n g. ground (
          arith,
          leaves-push_targets colors' ts (leave m ∷ work) n,
          lookup-insert m.name n gray colors,
          h.grays n,
        );
        done = λ u known b.
            let d = h.done u known (
              ground (arith, lookup-insert m.name u.name gray colors, text_eq_iff m.name u.name)) in
            (AreBlack-insert colors m.name gray (use_targets set u) (rw e refl) d.0, d.1);
      }

  settled-AreBlack :
      (colors : Map Color) (ms : List PackMacro)
      → All (λ (t : PackMacro). settled colors [] t.name ≡ true) ms
      → AreBlack colors ms
  unfolding contains
  settled-AreBlack colors [] h = tt
  settled-AreBlack colors (m ∷ ms) h = (
    (let s = h.0 in is_black-eq (lookup m.name colors) (ground arith)),
    settled-AreBlack colors ms h.1,
  )
    where
      is_black-eq : (o : Option Color) → is_black o ≡ true → o ≡ some black
      is_black-eq none b = ground arith
      is_black-eq (some gray) b = ground arith
      is_black-eq (some black) b = refl

  pub Good-leaving :
      (colors : Map Color) (chains : Map ℕ) (m : PackMacro) (work : List Frame)
      → Known set m
      → Good colors chains (leave m ∷ work)
      → Good
          (insert m.name black colors)
          (insert m.name (suc (max_chain chains (use_targets set m))) chains)
          work
  unfolding contains
  Good-leaving colors chains m work known h =
      let ts = use_targets set m in
      let here : lookup m.name colors ≡ some gray = h.waits.0 in
      let gray_here : is_black (lookup m.name colors) ≡ false = rw here refl in
      let blacks = settled-AreBlack colors ts h.waits.2 in
      record {
        waits =
            Waits-Moves set colors (insert m.name black colors) (m.name ∷ []) [] work
              (record {
                grays = λ n g c.
                    ground (arith, lookup-insert m.name n black colors, text_eq_iff m.name n);
                settles = λ n s.
                    ground (arith, lookup-insert m.name n black colors, text_eq_iff m.name n);
              })
              h.waits.3;
        grays = λ n g.
            ground (arith, lookup-insert m.name n black colors, text_eq_iff m.name n, h.grays n);
        done = λ u u_known b. elim (Bool-cases (text_eq m.name u.name)) [
          | inl same ↦
              let eq = Known-unique set m u known u_known ((text_eq_iff m.name u.name).0 same) in
              subst
                (Done (insert m.name black colors)
                  (insert m.name (suc (max_chain chains ts)) chains))
                eq
                (
                  AreBlack-insert colors m.name black ts gray_here blacks,
                  rw
                      (
                        lookup-insert m.name m.name (suc (max_chain chains ts)) chains,
                        text_eq_refl m.name,
                        max_chain-insert colors chains m.name (suc (max_chain chains ts)) ts here
                            blacks,
                      )
                      refl,
                )
          | inr other ↦
              let d =
                h.done u u_known (rw (lookup-insert m.name u.name black colors, other) at b) in
              (
                AreBlack-insert colors m.name black (use_targets set u) gray_here d.0,
                rw
                    (
                      lookup-insert m.name u.name (suc (max_chain chains ts)) chains,
                      other,
                      max_chain-insert colors chains m.name (suc (max_chain chains ts))
                          (use_targets set u) here d.0,
                    )
                    d.1,
              )
        ];
      }
