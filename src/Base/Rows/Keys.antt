-- ===== src/Base/Rows/Keys.antt =====
-- An update that gives a new key to the row with a given id.
use Prim.Native.String.{String}
use mathlib.Core.Path.{◌≡◌, refl, subst}
use mathlib.Core.Logic.{◌≢◌}
use mathlib.Core.Bool.{Bool, false, not, ◌&&◌}
use mathlib.Core.Option.{none, some}
use mathlib.Core.List.{List, [], ◌∷◌}
use native.Mathlib.Omega.{arith}
use text.Mathlib.Text.{◌==◌ as str_eq}
use text.Mathlib.TextEquality.{eq_iff}
use hamyar_ops.Base.Lists.{first, amend, any}
use hamyar_ops.Base.Rows.{IsAbsent, IsDistinct, IsAbsent-first}

module _ {ℓ} {A : Type ℓ} (f id : A → String) (g : A → A) (h i : String)
    (new : (x : A) → f (g x) ≡ h) where
  abbrev by_id : A → Bool
  by_id x = str_eq (id x) i

  IsAbsent-amend :
      (k : String) (xs : List A) → IsAbsent f k xs → h ≢ k → IsAbsent f k (amend by_id g xs)
  IsAbsent-amend k [] a n = tt
  IsAbsent-amend k (x ∷ xs) (m, a) n = ground (arith, new x, IsAbsent-amend k xs a n)

  amend_absent : (xs : List A) → IsAbsent id i xs → amend by_id g xs ≡ xs
  amend_absent [] a = refl
  amend_absent (x ∷ xs) (n, a) = ground (arith, eq_iff (id x) i, amend_absent xs a)

  -- No other row has the new key.
  abbrev pub IsFree : List A → Type 0
  IsFree xs = any (λ x. str_eq (f x) h && not (str_eq (id x) i)) xs ≡ false

  IsFree-IsAbsent : (xs : List A) → IsFree xs → IsAbsent id i xs → IsAbsent f h xs
  IsFree-IsAbsent [] e a = tt
  IsFree-IsAbsent (x ∷ xs) e (n, a) =
      ground (arith, eq_iff (f x) h, eq_iff (id x) i, IsFree-IsAbsent xs)

  pub IsDistinct-amend :
      (xs : List A)
      → IsDistinct f xs
      → IsDistinct id xs
      → IsFree xs
      → IsDistinct f (amend by_id g xs)
  IsDistinct-amend [] d e free = tt
  IsDistinct-amend (x ∷ xs) (a, d) (b, e) free = ground (
    arith,
    new x,
    eq_iff (f x) h,
    eq_iff (id x) i,
    amend_absent xs,
    IsFree-IsAbsent xs,
    IsAbsent-amend (f x) xs a,
    IsDistinct-amend xs d e,
  )

  -- The old key of the row is gone.
  pub first-amend_old :
      (k : String) (xs : List A) (y : A)
      → first (λ x. str_eq (f x) k) xs ≡ some y
      → id y ≡ i
      → IsDistinct f xs
      → h ≢ k
      → first (λ x. str_eq (f x) k) (amend by_id g xs) ≡ none
  first-amend_old k [] y found same d n = refl
  first-amend_old k (x ∷ xs) y found same (a, d) n =
      let gone : f x ≡ k → first (λ x. str_eq (f x) k) (amend by_id g xs) ≡ none = λ e.
        IsAbsent-first f k (amend by_id g xs)
          (IsAbsent-amend k xs (subst (λ z. IsAbsent f z xs) e a) n) in
      ground
        (arith, gone, new x, eq_iff (f x) k, eq_iff h k, eq_iff (id x) i, first-amend_old k xs y)

-- Where ids are distinct, an update by id is that of the one row with the id.
module _ {ℓ} {A : Type ℓ} (id : A → String) (g c : A → A) (i : String) where
  amend_absent_both :
      (xs : List A)
      → IsAbsent id i xs
      → amend (λ x. str_eq (id x) i) g xs ≡ amend (λ x. str_eq (id x) i) c xs
  amend_absent_both [] a = refl
  amend_absent_both (x ∷ xs) (n, a) = ground (arith, eq_iff (id x) i, amend_absent_both xs a)

  pub amend_one :
      (xs : List A) (y : A)
      → IsDistinct id xs
      → first (λ x. str_eq (id x) i) xs ≡ some y
      → g y ≡ c y
      → amend (λ x. str_eq (id x) i) g xs ≡ amend (λ x. str_eq (id x) i) c xs
  amend_one [] y d found same = refl
  amend_one (x ∷ xs) y (a, d) found same =
      let rest : id x ≡ i → amend (λ x. str_eq (id x) i) g xs ≡ amend (λ x. str_eq (id x) i) c xs =
        λ e. amend_absent_both xs (subst (λ z. IsAbsent id z xs) e a) in
      ground (arith, rest, eq_iff (id x) i, amend_one xs y d)
