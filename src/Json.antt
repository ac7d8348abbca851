-- ===== src/Json.antt =====
-- The values of JSON, as the bodies of requests and answers hold them.
use hamyar_ops.Base.{ℕ, Bool, true, false, not, Option, none, some, if◌then◌else◌, ◌==◌}
use hamyar_ops.Base.Chars.{Text, is_empty, text_eq}

mutual
  pub data Json : Type 0 where
    null : Json
    bool : Bool → Json
    num : ℕ → Json
    str : Text → Json
    arr : Elems → Json
    obj : Props → Json

  pub data Elems : Type 0 where
    nil : Elems
    cons : Json → Elems → Elems

  pub data Props : Type 0 where
    end : Props
    prop : Text → Json → Props → Props

abbrev pub lookup : Text → Props → Option Json
lookup k end = none
lookup k (prop j v ps) = if text_eq j k then some v else lookup k ps

-- body?.k; only objects have the properties that are asked for.
abbrev pub get : Text → Json → Option Json
get k (obj ps) = lookup k ps
get k null = none
get k (bool b) = none
get k (num n) = none
get k (str s) = none
get k (arr es) = none

abbrev pub is_truthy : Option Json → Bool
is_truthy none = false
is_truthy (some null) = false
is_truthy (some (bool b)) = b
is_truthy (some (num n)) = not (n == 0)
is_truthy (some (str s)) = not (is_empty s)
is_truthy (some (arr es)) = true
is_truthy (some (obj ps)) = true

-- a || b
abbrev pub either_of : Option Json → Option Json → Option Json
either_of a b = if is_truthy a then a else b
