-- ===== src/Settings/Spelling.antt =====
-- internal/settings/settings.go: `Normalize`, the one spelling of a flag's name.
use Prim.Native.Char.{Char, code}
use Prim.Native.String.{String, [], ◌∷◌}
use kubernetes_operator.Prelude.{Bool, eqb, if◌then◌else◌}

abbrev pub is_dash : Char → Bool
is_dash c = eqb (code c) (code "-")

-- `strings.TrimLeft(flag, "-")`
unfoldable pub trim_dashes : String → String
trim_dashes [] = ""
trim_dashes (c ∷ s) = let rest = trim_dashes s in if is_dash c then rest else c ∷ s

-- `strings.ReplaceAll(flag, "-", "_")`
unfoldable pub underscored : String → String
underscored [] = ""
underscored (c ∷ s) = (if is_dash c then "_" else c) ∷ underscored s

-- `Normalize`
unfoldable pub normalize : String → String
unfolding trim_dashes underscored
normalize flag = underscored (trim_dashes flag)
