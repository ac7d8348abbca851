-- ===== src/Base/Rows.antt =====
-- Lemmas on the rows of a table: searches after an update or a deletion, and rows that differ in a
-- key.
pub mod Keys
pub mod Deletions
use Prim.Native.String.{String}
use mathlib.Core.Path.{◌≡◌, refl, sym}
use mathlib.Core.Logic.{◌≢◌, inl, inr}
use mathlib.Core.Bool.{Bool, true, false, not}
use mathlib.Core.Option.{none, some}
use mathlib.Core.List.{List, [], ◌∷◌, ◌++◌}
use native.Mathlib.Omega.{arith}
use text.Mathlib.Text.{◌==◌ as str_eq}
use text.Mathlib.TextEquality.{eq_iff}
use hamyar_ops.Base.Tests.{if◌then◌else◌, Bool-cases}
use hamyar_ops.Base.Lists.{first, keep, amend, any}

module _ {ℓ} {A : Type ℓ} where
  pub first-true : (p : A → Bool) (xs : List A) (y : A) → first p xs ≡ some y → p y ≡ true
  first-true p [] y h = cc
  first-true p (x ∷ xs) y h = ground (arith, first-true p xs y)

  pub first-keep-not : (p : A → Bool) (xs : List A) → first p (keep (λ r. not (p r)) xs) ≡ none
  first-keep-not p [] = refl
  first-keep-not p (x ∷ xs) = ground (arith, first-keep-not p xs)

  -- A deletion leaves a search that finds none of the deleted rows.
  pub first-keep :
      (p q : A → Bool) (xs : List A)
      → ((x : A) → p x ≡ true → q x ≡ true)
      → first p (keep q xs) ≡ first p xs
  first-keep p q [] h = refl
  first-keep p q (x ∷ xs) h = ground (arith, h x, first-keep p q xs h)

  -- An update that does not change whether a row is found.
  pub first-amend :
      (p q : A → Bool) (f : A → A) (xs : List A)
      → ((x : A) → p (f x) ≡ p x)
      → first p (amend q f xs)
        ≡ elim (first p xs) [ none ↦ none | some x ↦ some (if q x then f x else x) ]
  first-amend p q f [] h = refl
  first-amend p q f (x ∷ xs) h = ground (arith, h x, first-amend p q f xs h)

  pub first-amend_found :
      (p : A → Bool) (f : A → A) (xs : List A) (y : A)
      → ((x : A) → p (f x) ≡ p x)
      → first p xs ≡ some y
      → first p (amend p f xs) ≡ some (f y)
  first-amend_found p f [] y h e = cc
  first-amend_found p f (x ∷ xs) y h e = ground (arith, h x, first-amend_found p f xs y h)

  -- A row that is found behind an update is an updated one.
  pub first-amend_from :
      (p : A → Bool) (f : A → A) (xs : List A) (r : A)
      → ((x : A) → p (f x) ≡ p x)
      → first p (amend p f xs) ≡ some r
      → (x : A) × (r ≡ f x)
  first-amend_from p f [] r same e = absurd (cc)
  first-amend_from p f (x ∷ xs) r same e = elim (Bool-cases (p x)) [
    | inl here ↦ (x, ground (arith, here, same x, e))
    | inr away ↦ first-amend_from p f xs r same (ground (arith, away, e))
  ]

  pub first-append_some :
      (p : A → Bool) (xs ys : List A) (y : A) → first p xs ≡ some y → first p (xs ++ ys) ≡ some y
  first-append_some p [] ys y h = cc
  first-append_some p (x ∷ xs) ys y h = ground (arith, first-append_some p xs ys y)

  pub first-append_none :
      (p : A → Bool) (xs ys : List A) → first p xs ≡ none → first p (xs ++ ys) ≡ first p ys
  first-append_none p [] ys h = refl
  first-append_none p (x ∷ xs) ys h = ground (arith, first-append_none p xs ys)

  pub any-first : (p : A → Bool) (xs : List A) → any p xs ≡ false → first p xs ≡ none
  any-first p [] h = refl
  any-first p (x ∷ xs) h = ground (arith, any-first p xs)

  pub first-any : (p : A → Bool) (xs : List A) → first p xs ≡ none → any p xs ≡ false
  first-any p [] h = refl
  first-any p (x ∷ xs) h = ground (arith, first-any p xs)

  pub any_of_first : (p : A → Bool) (xs : List A) (y : A) → first p xs ≡ some y → any p xs ≡ true
  any_of_first p [] y h = cc
  any_of_first p (x ∷ xs) y h = ground (arith, any_of_first p xs y)

  pub keep-absent : (p : A → Bool) (xs : List A) → first p xs ≡ none → keep (λ x. not (p x)) xs ≡ xs
  keep-absent p [] h = refl
  keep-absent p (x ∷ xs) h = ground (arith, keep-absent p xs)

  pub first-of_any :
      (p : A → Bool) (xs : List A) → any p xs ≡ true → (y : A) × (first p xs ≡ some y)
  first-of_any p [] h = ground (arith, h)
  first-of_any p (x ∷ xs) h = elim (Bool-cases (p x)) [
    | inl e ↦ (x, ground (arith, e))
    | inr e ↦
        let (y, found) = first-of_any p xs (ground (arith, e, h)) in (y, ground (arith, e, found))
  ]

  pub any-amend :
      (p q : A → Bool) (f : A → A) (xs : List A)
      → ((x : A) → p (f x) ≡ p x)
      → any p (amend q f xs) ≡ any p xs
  any-amend p q f [] h = refl
  any-amend p q f (x ∷ xs) h = ground (arith, h x, any-amend p q f xs h)

module _ {ℓ} {A : Type ℓ} (f : A → String) where
  -- No row has this key.
  abbrev pub IsAbsent : String → List A → Type 0
  IsAbsent k [] = Unit
  IsAbsent k (x ∷ xs) = (f x ≢ k) × IsAbsent k xs

  -- The rows have pairwise different keys.
  abbrev pub IsDistinct : List A → Type 0
  IsDistinct [] = Unit
  IsDistinct (x ∷ xs) = IsAbsent (f x) xs × IsDistinct xs

  pub any-IsAbsent :
      (k : String) (xs : List A) → any (λ x. str_eq (f x) k) xs ≡ false → IsAbsent k xs
  any-IsAbsent k [] h = tt
  any-IsAbsent k (x ∷ xs) h = ground (arith, eq_iff (f x) k, any-IsAbsent k xs)

  pub IsAbsent-first :
      (k : String) (xs : List A) → IsAbsent k xs → first (λ x. str_eq (f x) k) xs ≡ none
  IsAbsent-first k [] h = refl
  IsAbsent-first k (x ∷ xs) h = ground (arith, eq_iff (f x) k, IsAbsent-first k xs)

  IsAbsent-append :
      (k : String) (x : A) (xs : List A) → IsAbsent k xs → f x ≢ k → IsAbsent k (xs ++ x ∷ [])
  IsAbsent-append k x [] h n = (n, tt)
  IsAbsent-append k x (y ∷ ys) (m, h) n = (m, IsAbsent-append k x ys h n)

  pub IsDistinct-append :
      (x : A) (xs : List A) → IsDistinct xs → IsAbsent (f x) xs → IsDistinct (xs ++ x ∷ [])
  IsDistinct-append x [] h n = (tt, tt)
  IsDistinct-append x (y ∷ ys) (a, h) (n, m) =
      (IsAbsent-append (f y) x ys a (λ e. n (sym e)), IsDistinct-append x ys h m)

  IsAbsent-keep : (k : String) (p : A → Bool) (xs : List A) → IsAbsent k xs → IsAbsent k (keep p xs)
  IsAbsent-keep k p [] h = tt
  IsAbsent-keep k p (x ∷ xs) (n, h) = ground (arith, IsAbsent-keep k p xs h)

  pub IsDistinct-keep : (p : A → Bool) (xs : List A) → IsDistinct xs → IsDistinct (keep p xs)
  IsDistinct-keep p [] h = tt
  IsDistinct-keep p (x ∷ xs) (a, h) =
      ground (arith, IsAbsent-keep (f x) p xs a, IsDistinct-keep p xs h)

  -- An update that leaves the key of every row.
  IsAbsent-amend_same :
      (k : String) (p : A → Bool) (g : A → A) (xs : List A)
      → ((x : A) → f (g x) ≡ f x)
      → IsAbsent k xs
      → IsAbsent k (amend p g xs)
  IsAbsent-amend_same k p g [] same h = tt
  IsAbsent-amend_same k p g (x ∷ xs) same (n, h) =
      ground (arith, same x, IsAbsent-amend_same k p g xs same h)

  pub IsDistinct-amend_same :
      (p : A → Bool) (g : A → A) (xs : List A)
      → ((x : A) → f (g x) ≡ f x)
      → IsDistinct xs
      → IsDistinct (amend p g xs)
  IsDistinct-amend_same p g [] same h = tt
  IsDistinct-amend_same p g (x ∷ xs) same (a, h) =
      ground (
        arith,
        same x,
        IsAbsent-amend_same (f x) p g xs same a,
        IsDistinct-amend_same p g xs same h,
      )

  -- An update of the rows with another key.
  pub first-amend_other :
      (g : A → A) (i j : String) (xs : List A)
      → ((x : A) → f (g x) ≡ f x)
      → i ≢ j
      → first (λ x. str_eq (f x) j) (amend (λ x. str_eq (f x) i) g xs)
        ≡ first (λ x. str_eq (f x) j) xs
  first-amend_other g i j [] same n = refl
  first-amend_other g i j (x ∷ xs) same n =
      ground (arith, same x, eq_iff (f x) i, eq_iff (f x) j, first-amend_other g i j xs same n)

  -- A deletion of the rows with another key.
  pub first-delete_other :
      (i j : String) (xs : List A)
      → i ≢ j
      → first (λ x. str_eq (f x) j) (keep (λ x. not (str_eq (f x) i)) xs)
        ≡ first (λ x. str_eq (f x) j) xs
  first-delete_other i j [] n = refl
  first-delete_other i j (x ∷ xs) n =
      ground (arith, eq_iff (f x) i, eq_iff (f x) j, first-delete_other i j xs n)

  pub first-append_other :
      (y : A) (j : String) (xs : List A)
      → f y ≢ j
      → first (λ x. str_eq (f x) j) (xs ++ y ∷ []) ≡ first (λ x. str_eq (f x) j) xs
  first-append_other y j [] n = ground (arith, eq_iff (f y) j)
  first-append_other y j (x ∷ xs) n = ground (arith, first-append_other y j xs n)
