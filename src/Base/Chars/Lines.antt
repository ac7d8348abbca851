-- ===== src/Base/Chars/Lines.antt =====
-- Laws of the operations on texts.
use Prim.Native.Nat.{ℕ}
use mathlib.Core.Path.{◌≡◌, refl, ap}
use mathlib.Core.Bool.{true, false, ◌||◌, not}
use mathlib.Core.Option.{some}
use mathlib.Core.List.{List, [], ◌∷◌, ◌++◌}
use native.Mathlib.Omega.{arith}
use mathlib.Core.Logic.{inl, inr}
use hamyar_ops.Base.Tests.{◌==◌, Bool-cases}
use hamyar_ops.Base.Lists.{every}
use hamyar_ops.Base.Chars.{
  Text, is_space, is_empty, trim_start, trim_end, trim, text_eq, ends_with, has, split, join, cut,
  drop_last, replace_all,
}

-- A line that ends in a separator comes apart at it.
pub split-append :
    (sep : ℕ) (l rest : Text)
    → has sep l ≡ false
    → split sep (l ++ (sep ∷ rest)) ≡ l ∷ split sep rest
unfolding split
split-append sep [] rest h = ground arith
split-append sep (c ∷ l) rest h = ground (arith, split-append sep l rest)

pub split_whole : (sep : ℕ) (l : Text) → has sep l ≡ false → split sep l ≡ l ∷ []
unfolding split
split_whole sep [] h = refl
split_whole sep (c ∷ l) h = ground (arith, split_whole sep l)

pub cut-append : (sep : ℕ) (k v : Text) → has sep k ≡ false → cut sep (k ++ (sep ∷ v)) ≡ some (k, v)
unfolding cut
cut-append sep [] v h = ground arith
cut-append sep (c ∷ k) v h = ground (arith, cut-append sep k v)

pub is_empty-append : (s v : Text) → is_empty s ≡ false → is_empty (s ++ v) ≡ false
is_empty-append [] v n = ground (arith, n)
is_empty-append (d ∷ s) v n = refl

is_empty-append_right : (s v : Text) → is_empty v ≡ false → is_empty (s ++ v) ≡ false
is_empty-append_right [] v n = n
is_empty-append_right (d ∷ s) v n = refl

-- Behind a character that is no white space nothing is trimmed.
pub trim_end_last : (s : Text) (c : ℕ) → is_space c ≡ false → trim_end (s ++ c ∷ []) ≡ s ++ c ∷ []
unfolding trim_end
trim_end_last [] c h = ground arith
trim_end_last (d ∷ s) c h =
    ground (arith, trim_end_last s c h, is_empty-append_right s (c ∷ []) refl)

pub trim_end-append :
    (s v : Text) → is_empty v ≡ false → trim_end v ≡ v → trim_end (s ++ v) ≡ s ++ v
unfolding trim_end
trim_end-append [] v n h = h
trim_end-append (d ∷ s) v n h = ground (arith, trim_end-append s v n h, is_empty-append_right s v n)

pub drop_last-append : (s : Text) (c : ℕ) → drop_last (s ++ c ∷ []) ≡ s
unfolding drop_last
drop_last-append [] c = refl
drop_last-append (d ∷ []) c = refl
drop_last-append (d ∷ e ∷ s) c = ap (◌∷◌ d) (drop_last-append (e ∷ s) c)

pub ends_with_last : (s : Text) (c : ℕ) → ends_with (c ∷ []) (s ++ c ∷ []) ≡ true
ends_with_last [] c = ground arith
ends_with_last (d ∷ s) c = ground (arith, ends_with_last s c)

-- Without the character a replacement changes nothing.
pub replace_all_without : (c : ℕ) (by s : Text) → has c s ≡ false → replace_all c by s ≡ s
unfolding replace_all
replace_all_without c by [] h = refl
replace_all_without c by (d ∷ s) h = ground (arith, replace_all_without c by s)

pub has-append : (c : ℕ) (s t : Text) → has c (s ++ t) ≡ (has c s || has c t)
has-append c [] t = refl
has-append c (d ∷ s) t = ground (arith, has-append c s t)

pub has-replace_all :
    (c d : ℕ) (by s : Text)
    → has d s ≡ false
    → has d by ≡ false
    → has d (replace_all c by s) ≡ false
unfolding replace_all
has-replace_all c d by [] h k = refl
has-replace_all c d by (e ∷ s) h k =
    ground (arith, has-replace_all c d by s, has-append d by (replace_all c by s))

-- A text is split into at least one line, and no line has the separator.
pub split_cons : (sep : ℕ) (s : Text) → (l : Text) × (ls : List Text) × (split sep s ≡ l ∷ ls)
unfolding split
split_cons sep [] = ([], [], refl)
split_cons sep (c ∷ s) =
    let (l, ls, e) = split_cons sep s in
    elim (Bool-cases (c == sep)) [
      | inl h ↦ ([], split sep s, ground arith)
      | inr h ↦ (c ∷ l, ls, ground (arith, e))
    ]

pub join-onto_first :
    (sep c : ℕ) (l : Text) (ls : List Text) → join sep ((c ∷ l) ∷ ls) ≡ c ∷ join sep (l ∷ ls)
unfolding join
join-onto_first sep c l [] = refl
join-onto_first sep c l (m ∷ ls) = refl

pub join-split : (sep : ℕ) (s : Text) → join sep (split sep s) ≡ s
unfolding join split
join-split sep [] = refl
join-split sep (c ∷ s) =
    let (l, ls, e) = split_cons sep s in
    ground (arith, e, join-onto_first sep c l ls, join-split sep s)

pub split_without : (sep : ℕ) (s : Text) → every (λ l. not (has sep l)) (split sep s) ≡ true
unfolding split
split_without sep [] = refl
split_without sep (c ∷ s) =
    let (l, ls, e) = split_cons sep s in ground (arith, e, split_without sep s)

-- Trimming keeps what is no white space.
pub has-trim_end :
    (c : ℕ) (s : Text) → is_space c ≡ false → has c s ≡ true → has c (trim_end s) ≡ true
unfolding trim_end
has-trim_end c [] n h = h
has-trim_end c (d ∷ s) n h = ground (arith, has-trim_end c s n)

pub has-trim_start :
    (c : ℕ) (s : Text) → is_space c ≡ false → has c s ≡ true → has c (trim_start s) ≡ true
unfolding trim_start
has-trim_start c [] n h = h
has-trim_start c (d ∷ s) n h = ground (arith, has-trim_start c s n)

pub has-trim : (c : ℕ) (s : Text) → is_space c ≡ false → has c s ≡ true → is_empty (trim s) ≡ false
unfolding trim
has-trim c s n h = nonempty c (trim s) (has-trim_end c (trim_start s) n (has-trim_start c s n h))
  where
    nonempty : (c : ℕ) (s : Text) → has c s ≡ true → is_empty s ≡ false
    nonempty c [] h = ground (arith, h)
    nonempty c (d ∷ s) h = refl

pub text_eq_self : (s : Text) → text_eq s s ≡ true
text_eq_self [] = refl
text_eq_self (c ∷ s) = ground (arith, text_eq_self s)

pub text_eq-to : (s t : Text) → text_eq s t ≡ true → s ≡ t
text_eq-to [] [] e = refl
text_eq-to [] (d ∷ t) e = ground (arith, e)
text_eq-to (c ∷ s) [] e = ground (arith, e)
text_eq-to (c ∷ s) (d ∷ t) e = ground (arith, text_eq-to s t)
