-- ===== src/Lowering/Binds/Written.antt =====
-- crates/proef-core/src/lower.rs: the option lines that the bindings of a step bring into its entry.
use proef.Base.{◌≡◌, Option, some, [], any, ◌⊎◌}
use proef.Base.Texts.{Text}
use proef.Base.Maps.{Map}
use proef.Pack.{MacroStep, PackMacro}
use proef.Lowering.Options.{variable_option_line}
use proef.Lowering.Quoted.{read_option}
use proef.Lowering.Binds.{Bound, literal, BindScope, in_macro, is_control}
use proef.Lowering.Binds.Literal.{IsFit, IsPackFit}

module _ {Emit : Type 0} (resolve : BindScope → Text → Emit → Option Text × Emit) where
  module _ (binds : Map (Map Text)) (m : PackMacro) (args : Map Text) (step : MacroStep) where
    -- A binding of the step's table, of its macro's or of its pack's.
    abbrev pub IsRefFit : Text → Bound → Type 0
    IsRefFit name b =
        IsFit resolve (in_macro m args) step.bind name b
        ⊎ (IsFit resolve (in_macro m args) m.bind name b ⊎ IsPackFit resolve binds m.pack name b)

    -- A line that sets a variable to such a literal, is read back as the whole of it, and has the
    -- control characters of the variable's name only.
    abbrev pub IsLiteralLine : Text → Type 0
    IsLiteralLine line =
        (name : Text) × (v : Text) × (IsRefFit name (literal v)
          × ((line ≡ variable_option_line name v)
              × ((read_option name line ≡ some (v, []))
                  × (any is_control line ≡ any is_control name))))
