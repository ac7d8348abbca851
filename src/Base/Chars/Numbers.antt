-- ===== src/Base/Chars/Numbers.antt =====
-- Decimal numbers as texts: the printing of a template string, and `parseInt` and `Number` of
-- digits.
use Prim.Native.Nat.{ℕ, zero, suc, ◌+◌, ◌-◌, ◌*◌, ◌/◌, ◌%◌, ◌<◌}
use mathlib.Core.Path.{◌≡◌, refl}
use mathlib.Core.Bool.{Bool, true, ◌&&◌}
use mathlib.Core.List.{[], ◌∷◌, ◌++◌}
use native.Mathlib.Omega.{arith}
use hamyar_ops.Base.Tests.{if◌then◌else◌, leb, ltb}
use hamyar_ops.Base.Lists.{every}
use hamyar_ops.Base.Chars.{Text}

abbrev pub is_digit : ℕ → Bool
is_digit c = leb 48 c && leb c 57

abbrev pub value_from : ℕ → Text → ℕ
value_from n [] = n
value_from n (c ∷ s) = value_from (n * 10 + (c - 48)) s

-- parseInt(s, 10) and Number(s), of digits; numbers from 2 ^ 53 on are rounded by the code.
unfoldable pub parse_int : Text → ℕ
parse_int s = value_from 0 s

-- A number in a template string.
abbrev pub decimal_on : ℕ → ℕ → Text
decimal_on zero n = []
decimal_on (suc fuel) n =
    let higher = decimal_on fuel (n / 10) in
    if ltb n 10 then (48 + n) ∷ [] else higher ++ (48 + n % 10) ∷ []

unfoldable pub decimal : ℕ → Text
decimal n = decimal_on (suc n) n

value_from-append :
    (n : ℕ) (s : Text) (c : ℕ) → value_from n (s ++ c ∷ []) ≡ value_from n s * 10 + (c - 48)
value_from-append n [] c = refl
value_from-append n (d ∷ s) c = value_from-append (n * 10 + (d - 48)) s c

value_from-decimal_on : (fuel n : ℕ) → n < fuel → value_from 0 (decimal_on fuel n) ≡ n
value_from-decimal_on zero n h = ground arith
value_from-decimal_on (suc fuel) n h = ground (
  arith,
  value_from-append 0 (decimal_on fuel (n / 10)) (48 + n % 10),
  value_from-decimal_on fuel (n / 10),
)

-- Printing a number and reading it gives the number.
pub parse_int-decimal : (n : ℕ) → parse_int (decimal n) ≡ n
unfolding parse_int decimal
parse_int-decimal n = value_from-decimal_on (suc n) n (ground arith)

every-append : (p : ℕ → Bool) (s t : Text) → every p (s ++ t) ≡ (every p s && every p t)
every-append p [] t = refl
every-append p (c ∷ s) t = ground (arith, every-append p s t)

decimal_on-digits : (fuel n : ℕ) → every is_digit (decimal_on fuel n) ≡ true
decimal_on-digits zero n = refl
decimal_on-digits (suc fuel) n = ground (
  arith,
  every-append is_digit (decimal_on fuel (n / 10)) ((48 + n % 10) ∷ []),
  decimal_on-digits fuel (n / 10),
)

pub decimal_digits : (n : ℕ) → every is_digit (decimal n) ≡ true
unfolding decimal
decimal_digits n = decimal_on-digits (suc n) n
