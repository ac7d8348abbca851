-- ===== src/Base/Chars.antt =====
-- Operations on texts that walk their characters, on lists of UTF-16 code units: `trim`, `split`,
-- `join`, `indexOf`, `startsWith`, `endsWith`, `includes` and `replace` of a character.
pub mod Lines
pub mod Numbers
use Prim.Native.Nat.{ℕ}
use mathlib.Core.Bool.{Bool, true, false, ◌&&◌, ◌||◌, not}
use mathlib.Core.Option.{Option, none, some}
use mathlib.Core.List.{List, [], ◌∷◌, ◌++◌}
use hamyar_ops.Base.Tests.{if◌then◌else◌, leb, ◌==◌}
use hamyar_ops.Base.Lists.{any}

abbrev pub Text : Type 0
Text = List ℕ

-- The white space and the line ends of ECMAScript.
unfoldable pub is_space : ℕ → Bool
is_space c =
    (leb 9 c && leb c 13)
    || c == 32
    || c == 160
    || c == 5760
    || (leb 8192 c && leb c 8202)
    || c == 8232
    || c == 8233
    || c == 8239
    || c == 8287
    || c == 12288
    || c == 65279

abbrev pub is_empty : Text → Bool
is_empty [] = true
is_empty (c ∷ s) = false

unfoldable pub trim_start : Text → Text
trim_start [] = []
trim_start (c ∷ s) = if is_space c then trim_start s else c ∷ s

unfoldable pub trim_end : Text → Text
trim_end [] = []
trim_end (c ∷ s) = let rest = trim_end s in if is_empty rest && is_space c then [] else c ∷ rest

unfoldable pub trim : Text → Text
trim s = trim_end (trim_start s)

abbrev pub text_eq : Text → Text → Bool
text_eq [] [] = true
text_eq [] (d ∷ t) = false
text_eq (c ∷ s) [] = false
text_eq (c ∷ s) (d ∷ t) = c == d && text_eq s t

-- s.startsWith(p)
abbrev pub starts_with : Text → Text → Bool
starts_with [] s = true
starts_with (d ∷ p) [] = false
starts_with (d ∷ p) (c ∷ s) = c == d && starts_with p s

-- s.endsWith(p)
abbrev pub ends_with : Text → Text → Bool
ends_with p [] = is_empty p
ends_with p (c ∷ s) = text_eq p (c ∷ s) || ends_with p s

-- s.includes(c), for one character.
abbrev pub has : ℕ → Text → Bool
has c s = any (λ d. d == c) s

-- s.split(c)
abbrev pub onto_first : ℕ → List Text → List Text
onto_first c [] = (c ∷ []) ∷ []
onto_first c (l ∷ ls) = (c ∷ l) ∷ ls

unfoldable pub split : ℕ → Text → List Text
split sep [] = [] ∷ []
split sep (c ∷ s) = let rest = split sep s in if c == sep then [] ∷ rest else onto_first c rest

-- ls.join(c)
unfoldable pub join : ℕ → List Text → Text
join sep [] = []
join sep (l ∷ []) = l
join sep (l ∷ m ∷ ls) = l ++ (sep ∷ join sep (m ∷ ls))

-- The two parts at the first occurrence of a character: `s.slice(0, i)` and `s.slice(i + 1)` with
-- `i = s.indexOf(c)`, or none if that is -1.
abbrev pub before : ℕ → Option (Text × Text) → Option (Text × Text)
before c none = none
before c (some (k, v)) = some (c ∷ k, v)

unfoldable pub cut : ℕ → Text → Option (Text × Text)
cut sep [] = none
cut sep (c ∷ s) = let rest = cut sep s in if c == sep then some ([], s) else before c rest

abbrev pub drop_first : Text → Text
drop_first [] = []
drop_first (c ∷ s) = s

unfoldable pub drop_last : Text → Text
drop_last [] = []
drop_last (c ∷ []) = []
drop_last (c ∷ d ∷ s) = c ∷ drop_last (d ∷ s)

-- s.replace(/c/g, by)
unfoldable pub replace_all : ℕ → Text → Text → Text
replace_all c by [] = []
replace_all c by (d ∷ s) = let rest = replace_all c by s in if d == c then by ++ rest else d ∷ rest

-- s.includes(p)
abbrev pub includes : Text → Text → Bool
includes p [] = is_empty p
includes p (c ∷ s) = starts_with p (c ∷ s) || includes p s

-- What stands behind a prefix.
abbrev pub strip_prefix : Text → Text → Option Text
strip_prefix [] s = some s
strip_prefix (c ∷ p) [] = none
strip_prefix (c ∷ p) (d ∷ s) = let rest = strip_prefix p s in if d == c then rest else none
