-- ===== src/Binding/Tests.antt =====
-- crates/proef-core/src/bind.rs: a feature that is bound, and steps that are refused.
use proef.Base.{◌≡◌, refl, ◌↔◌, true, false, none, some, List, [], ◌∷◌, All}
use proef.Base.Texts.{Text, codes, text_eq_refl}
use proef.Binding.{StepDefn, ScenarioDef, Macros, BoundScenario, bound, bind}
use proef.Binding.Reports.{closest_pattern}
use proef.Binding.Known.{IsNamed}
use proef.Binding.Bound.{Pairs, BindsScenario, Accepts, is_bound, bind_iff, bind-BindsScenario}

abbrev macros : Macros
macros =
    (
      codes "find",
      record {
        name = codes "find";
        params = codes "term" ∷ codes "limit" ∷ codes "docstring" ∷ [];
        defaults = (codes "docstring", codes "-") ∷ [];
        pattern = some (codes "find {term}");
      },
    )
    ∷ (codes "used", record { name = codes "used"; params = []; defaults = []; pattern = none })
    ∷ []

abbrev step : Text → List (List Text) → StepDefn
step text rows = record {
  text = text;
  table = some rows;
  docstring = none;
  line = 2;
  span = (8, 20);
}

abbrev limited : StepDefn
limited = step (codes "find \"a b\"") ((codes "limit" ∷ codes "5" ∷ []) ∷ [])

abbrev scenario : StepDefn → ScenarioDef
scenario s = record { name = codes "one"; tags = codes "fast" ∷ []; steps = s ∷ []; line = 1 }

abbrev out : List BoundScenario
out =
    record {
      name = codes "one";
      tags = codes "fast" ∷ [];
      line = 1;
      steps =
          record {
            defn = limited;
            macro_name = codes "find";
            args =
                (codes "docstring", codes "-")
                ∷ (codes "limit", codes "5")
                ∷ (codes "term", codes "a b")
                ∷ [];
          }
          ∷ [];
    }
    ∷ []

binds : bind (scenario limited ∷ []) macros ≡ bound out
unfolding bind
binds = refl

unlimited : is_bound (bind (scenario (step (codes "find x") []) ∷ []) macros) ≡ false
unfolding bind
unlimited = refl

unknown : is_bound (bind (scenario (step (codes "fnd x") []) ∷ []) macros) ≡ false
unfolding bind
unknown = refl

suggested :
    closest_pattern (codes "fnd x") ((codes "find {term}", codes "find") ∷ [])
    ≡ some (codes "find {term}")
unfolding closest_pattern
suggested = refl

macros-IsNamed : IsNamed macros
macros-IsNamed = (text_eq_refl (codes "find"), (text_eq_refl (codes "used"), tt))

bind_iff_example :
    (is_bound (bind (scenario limited ∷ []) macros) ≡ true)
    ↔ All (λ (s : ScenarioDef). All (Accepts macros) s.steps) (scenario limited ∷ [])
bind_iff_example = bind_iff macros (scenario limited ∷ []) macros-IsNamed

bind-BindsScenario_example : Pairs (BindsScenario macros) (scenario limited ∷ []) out
bind-BindsScenario_example =
    bind-BindsScenario macros (scenario limited ∷ []) out macros-IsNamed binds
