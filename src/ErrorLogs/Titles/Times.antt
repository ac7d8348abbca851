-- ===== src/ErrorLogs/Titles/Times.antt =====
-- Titles do not tell when an error was logged.
use hamyar_ops.Base.{ℕ, zero, suc, ◌≡◌, refl, Bool, true, List, [], ◌∷◌, ◌++◌, drop, length, arith}
use hamyar_ops.Base.Chars.{Text, is_space}
use hamyar_ops.ErrorLogs.Titles.{
  count_while, fits, stamp_shape, stamp_length, without_stamp, normalize_title,
}

fits-append : (ps : List (ℕ → Bool)) (s u : Text) → fits ps s ≡ true → fits ps (s ++ u) ≡ true
fits-append [] s u h = refl
fits-append (p ∷ ps) [] u h = absurd (cc)
fits-append (p ∷ ps) (c ∷ s) u h = ground (arith, fits-append ps s u)

drop-append : (n : ℕ) (s u : Text) → length s ≡ n → drop n (s ++ u) ≡ u
drop-append zero [] u h = refl
drop-append zero (c ∷ s) u h = absurd (ground arith)
drop-append (suc n) [] u h = absurd (ground arith)
drop-append (suc n) (c ∷ s) u h = drop-append n s u (omega arith)

-- A time to the second, as a line begins with it.
pub record IsStamp (s : Text) : Type 0 where
  pub shape : fits stamp_shape s ≡ true
  pub size : length s ≡ 19

stamp_length-blank : (s msg : Text) → IsStamp s → stamp_length (s ++ (b' ' ∷ msg)) ≡ 19
unfolding stamp_length
stamp_length-blank s msg k =
    let behind = drop-append 19 s (b' ' ∷ msg) k.size in
    rw (fits-append stamp_shape s (b' ' ∷ msg) k.shape, behind, behind)

without_stamp-blank :
    (s msg : Text)
    → IsStamp s
    → without_stamp (s ++ (b' ' ∷ msg)) ≡ drop (count_while is_space (b' ' ∷ msg)) (b' ' ∷ msg)
unfolding without_stamp
without_stamp-blank s msg k = rw (stamp_length-blank s msg k, drop-append 19 s (b' ' ∷ msg) k.size)

-- The same message at two times has one title.
pub normalize_title_timeless :
    (s t msg : Text)
    → IsStamp s
    → IsStamp t
    → normalize_title (s ++ (b' ' ∷ msg)) ≡ normalize_title (t ++ (b' ' ∷ msg))
unfolding normalize_title
normalize_title_timeless s t msg k l = rw (without_stamp-blank s msg k, without_stamp-blank t msg l)
