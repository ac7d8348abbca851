-- ===== src/Base/Text.antt =====
-- Operations on text. Those of `String.prototype` that depend on Unicode tables are a parameter.
use Prim.Native.Char.{code}
use Prim.Native.String.{String, ◌++◌}
use mathlib.Core.List.{List, [], ◌∷◌}
use Prim.Native.Nat.{ℕ}

-- `length` counts UTF-16 code units; `replace text pattern by` replaces the first occurrence.
pub record JsText : Type 0 where
  pub to_lower_case : String → String
  pub trim : String → String
  pub length : String → ℕ
  pub replace : String → String → String → String

infixl 65 ◌<>◌
abbrev pub ◌<>◌ : String → String → String
a <> b = a ++ b

abbrev pub codes : String → List ℕ
codes String.[] = []
codes (String.◌∷◌ c s) = code c ∷ codes s
