-- ===== src/Pack/Samples.antt =====
-- crates/proef-core/src/pack/mod.rs: steps and macros without any option, for the tests.
use proef.Base.{false, none, List, []}
use proef.Base.Texts.{Text, codes}
use proef.Pack.{MacroStepKind, payload, raw, use_macro, ref, MacroStep, PackMacro, steps}

abbrev step_of : MacroStepKind → MacroStep
step_of kind = record {
  name = none;
  delay_ms = none;
  kind = kind;
  optional = false;
  when = none;
  retry = none;
  save_as = [];
  bind = [];
}

abbrev pub using : Text → MacroStep
using target = step_of (use_macro target [])

abbrev pub get : Text → MacroStep
get text = step_of (payload (codes "hurl") (raw text))

abbrev pub referring : Text → MacroStep
referring target = step_of (ref target)

-- A macro of the pack `a.yaml`.
abbrev pub macro : Text → List MacroStep → Text × PackMacro
macro name ss = (
  name,
  record {
    name = name;
    pack = codes "a.yaml";
    params = [];
    defaults = [];
    pattern = none;
    description = none;
    tags = [];
    body = steps ss;
    bind = [];
  },
)
