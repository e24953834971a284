-- ===== src/Lowering/Expansion/Tests.antt =====
-- crates/proef-core/src/lower.rs: an expansion that counts what it reports.
use proef.Base.{◌≡◌, refl, suc, some, List, [], ◌∷◌}
use proef.Base.Texts.{Text, codes}
use proef.Base.Maps.{lookup}
use proef.Pack.{PackSet, PackMacro, PayloadForm, raw, structured}
use proef.Pack.Samples.{using, get, macro}
use proef.Pack.Visit.Known.{IsPackSet}
use proef.Pack.Uses.{use_graph_passes}
use proef.Lowering.Expansion.{Leaves, expand_macro, max_expansion_depth}
use proef.Lowering.Expansion.Shallow.{expand_macro-report}
use proef.Lowering.Binds.{Outputs}

abbrev text_of : PayloadForm → Text
text_of (raw t) = t
text_of (structured t) = t

abbrev start : Outputs (List Text)
start = record { emit = []; pack_bindings = []; errors = [] }

abbrev add : Text → Outputs (List Text) → Outputs (List Text)
add text s = record s { emit = text ∷ s.emit }

-- The texts of the payloads, and of what is too deep.
abbrev leaves : Leaves (List Text)
leaves = record {
  resolve = λ scope text e. (some text, e);
  expand_expect = λ m args items e. e;
  expand_ref_step = λ m args scoped target s e. add target e;
  expand_payload_step = λ m args kind form s e. add (text_of form) e;
}

abbrev set : PackSet
set =
    macro (codes "inner") (get (codes "first") ∷ [])
    ∷ macro (codes "outer") (using (codes "inner") ∷ get (codes "last") ∷ [])
    ∷ []

abbrev outer : PackMacro
outer = (macro (codes "outer") (using (codes "inner") ∷ get (codes "last") ∷ [])).1

expanded :
    expand_macro leaves set [] (λ m e. start) (suc max_expansion_depth) outer [] start
    ≡ record start { emit = codes "last" ∷ codes "first" ∷ [] }
unfolding expand_macro
expanded = refl

accepted : use_graph_passes set ≡ []
unfolding use_graph_passes
accepted = refl

set-IsPackSet : IsPackSet set
unfolding lookup
set-IsPackSet = ((refl, refl), ((refl, refl), tt))

expand_macro-report_example :
    expand_macro leaves set [] (λ m e. start) (suc max_expansion_depth) outer [] start
    ≡ expand_macro leaves set [] (λ m e. add m.name e) (suc max_expansion_depth) outer [] start
unfolding lookup
expand_macro-report_example =
    expand_macro-report leaves set [] (λ m e. start) (λ m e. add m.name e) outer [] start
      set-IsPackSet accepted refl
