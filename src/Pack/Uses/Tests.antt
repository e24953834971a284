-- ===== src/Pack/Uses/Tests.antt =====
-- crates/proef-core/src/pack/validate.rs: a chain, a cycle and a chain that is too deep.
use proef.Base.{◌≤◌, ◌≢◌, length, inl, ◌≡◌, refl, [], ◌∷◌, arith}
use proef.Base.Texts.{codes}
use proef.Pack.{PackSet, PackMacro}
use proef.Pack.Samples.{using, macro}
use proef.Base.Maps.{lookup}
use proef.Pack.Visit.{use_cycle, use_targets}
use proef.Pack.Visit.Known.{IsPackSet}
use proef.Pack.Visit.Chains.{TooLong}
use proef.Pack.Uses.{use_graph_passes}
use proef.Pack.Uses.Walks.{use_graph_passes-IsChain}
use proef.Pack.Uses.Refused.{use_graph_passes-TooLong}

abbrev chain : PackSet
chain =
    macro (codes "a") (using (codes "b") ∷ using (codes "c") ∷ [])
    ∷ macro (codes "b") (using (codes "a.yaml#c") ∷ [])
    ∷ macro (codes "c") (using (codes "x.yaml#a") ∷ [])
    ∷ []

abbrev ring : PackSet
ring =
    macro (codes "b") (using (codes "c") ∷ [])
    ∷ macro (codes "c") (using (codes "a") ∷ using (codes "c") ∷ [])
    ∷ macro (codes "a") (using (codes "b") ∷ [])
    ∷ []

acyclic : use_graph_passes chain ≡ []
unfolding use_graph_passes
acyclic = refl

cyclic :
    use_graph_passes ring
    ≡ use_cycle (codes "c" ∷ []) ∷ use_cycle (codes "a" ∷ codes "b" ∷ codes "c" ∷ []) ∷ []
unfolding use_graph_passes
cyclic = refl

chain-IsPackSet : IsPackSet chain
unfolding lookup
chain-IsPackSet = ((refl, refl), ((refl, refl), ((refl, refl), tt)))

ring-IsPackSet : IsPackSet ring
unfolding lookup
ring-IsPackSet = ((refl, refl), ((refl, refl), ((refl, refl), tt)))

abbrev a_macro : PackMacro
a_macro = (macro (codes "a") (using (codes "b") ∷ using (codes "c") ∷ [])).1

abbrev b_macro : PackMacro
b_macro = (macro (codes "b") (using (codes "a.yaml#c") ∷ [])).1

use_graph_passes-IsChain_example : length (a_macro ∷ b_macro ∷ []) ≤ 32
unfolding lookup use_targets
use_graph_passes-IsChain_example =
    use_graph_passes-IsChain chain a_macro (b_macro ∷ []) chain-IsPackSet acyclic
      (refl, inl refl, refl)

reported : use_graph_passes ring ≢ []
reported h = ground (arith, cyclic)

use_graph_passes-TooLong_example : TooLong ring
use_graph_passes-TooLong_example = use_graph_passes-TooLong ring ring-IsPackSet reported
