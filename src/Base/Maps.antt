-- ===== src/Base/Maps.antt =====
-- JavaScript's `Map` with text keys, as the function from a key to its value. The program never
-- depends on the order in which a map is iterated.
use Prim.Native.String.{String}
use mathlib.Core.Bool.{Bool}
use mathlib.Core.Option.{Option, none, some}
use text.Mathlib.Text.{◌==◌ as str_eq}
use hamyar_ops.Base.Tests.{if◌then◌else◌}

abbrev pub JsMap {ℓ} : Type ℓ → Type ℓ
JsMap V = String → Option V

module _ {ℓ} {V : Type ℓ} where
  abbrev pub map_set : String → V → JsMap V → JsMap V
  map_set k v m j = if str_eq k j then some v else m j

  abbrev pub map_delete : String → JsMap V → JsMap V
  map_delete k m j = if str_eq k j then none else m j

  abbrev pub drop_if : (V → Bool) → Option V → Option V
  drop_if p none = none
  drop_if p (some v) = if p v then none else some v

  -- for (const [k, v] of m) if (p(v)) m.delete(k)
  abbrev pub map_delete_where : (V → Bool) → JsMap V → JsMap V
  map_delete_where p m j = drop_if p (m j)
