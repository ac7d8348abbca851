-- ===== src/Base/Rows/Deletions.antt =====
-- How many rows are left when rows are deleted by their ids, and rows in the order of a number.
use Prim.Native.Nat.{ℕ, zero, suc, ◌+◌, ◌≤◌}
use Prim.Native.String.{String}
use mathlib.Core.Path.{◌≡◌, refl, sym, ◌∙◌}
use mathlib.Core.Logic.{◌≢◌}
use mathlib.Core.Bool.{Bool, true, false, not, ◌&&◌}
use mathlib.Core.List.{List, [], ◌∷◌}
use native.Mathlib.Omega.{arith}
use text.Mathlib.Text.{◌==◌ as str_eq}
use text.Mathlib.TextEquality.{eq_iff}
use hamyar_ops.Base.Tests.{if◌then◌else◌, leb}
use hamyar_ops.Base.Lists.{any, keep, length, drop, All}
use hamyar_ops.Base.Rows.{IsAbsent, IsDistinct}

module _ {A : Type 0} (id : A → String) (p : A → Bool) where
  abbrev pub delete : String → List A → List A
  delete d xs = keep (λ x. not (str_eq (id x) d)) xs

  abbrev pub delete_all : List A → List A → List A
  delete_all [] xs = xs
  delete_all (d ∷ ds) xs = delete_all ds (delete (id d) xs)

  -- A row that counts has this id.
  abbrev pub counts : List A → String → Bool
  counts xs d = any (λ x. p x && str_eq (id x) d) xs

  length-delete-le : (d : String) (xs : List A) → length (keep p (delete d xs)) ≤ length (keep p xs)
  length-delete-le d [] = omega arith
  length-delete-le d (x ∷ xs) = ground (arith, length-delete-le d xs)

  length-delete :
      (d : String) (xs : List A)
      → counts xs d ≡ true
      → length (keep p (delete d xs)) + 1 ≤ length (keep p xs)
  length-delete d [] h = ground (arith, h)
  length-delete d (x ∷ xs) h = ground (arith, length-delete d xs, length-delete-le d xs)

  counts-delete : (d e : String) (xs : List A) → e ≢ d → counts (delete d xs) e ≡ counts xs e
  counts-delete d e [] n = refl
  counts-delete d e (x ∷ xs) n =
      ground (arith, eq_iff (id x) d, eq_iff (id x) e, counts-delete d e xs n)

  abbrev pub AllCount : List A → List A → Type 0
  AllCount xs ds = All (λ d. counts xs (id d) ≡ true) ds

  AllCount-delete :
      (d : String) (xs ds : List A) → IsAbsent id d ds → AllCount xs ds → AllCount (delete d xs) ds
  AllCount-delete d xs [] a h = tt
  AllCount-delete d xs (e ∷ ds) (n, a) (h, hs) =
      (counts-delete d (id e) xs n ∙ h, AllCount-delete d xs ds a hs)

  -- Each deletion of a row that counts makes one less.
  pub length-delete_all :
      (ds xs : List A)
      → IsDistinct id ds
      → AllCount xs ds
      → length (keep p (delete_all ds xs)) + length ds ≤ length (keep p xs)
  length-delete_all [] xs d h = omega arith
  length-delete_all (e ∷ ds) xs (a, d) (h, hs) = omega (
    arith,
    length-delete (id e) xs h,
    length-delete_all ds (delete (id e) xs) d (AllCount-delete (id e) xs ds a hs),
  )

  kept_count : (xs : List A) (x : A) → p x ≡ true → counts (x ∷ xs) (id x) ≡ true
  kept_count xs x h = ground (arith, h, eq_iff (id x) (id x))

  more_count : (x : A) (xs ds : List A) → AllCount xs ds → AllCount (x ∷ xs) ds
  more_count x xs [] h = tt
  more_count x xs (d ∷ ds) (h, hs) = (ground (arith, h), more_count x xs ds hs)

  pub AllCount-keep : (xs : List A) → AllCount xs (keep p xs)
  AllCount-keep [] = tt
  AllCount-keep (x ∷ xs) = choose (p x) refl (more_count x xs (keep p xs) (AllCount-keep xs))
    where
      choose :
          (b : Bool)
          → p x ≡ b
          → AllCount (x ∷ xs) (keep p xs)
          → AllCount (x ∷ xs) (if b then x ∷ keep p xs else keep p xs)
      choose true e rest = (kept_count xs x e, rest)
      choose false e rest = rest

-- Rows in descending order of a number, the first among equals first.
module _ {A : Type 0} (at : A → ℕ) where
  abbrev pub insert : A → List A → List A
  insert x [] = x ∷ []
  insert x (y ∷ ys) = let rest = insert x ys in if leb (at y) (at x) then x ∷ y ∷ ys else y ∷ rest

  unfoldable pub newest_first : List A → List A
  newest_first [] = []
  newest_first (x ∷ xs) = insert x (newest_first xs)

  length-insert : (x : A) (ys : List A) → length (insert x ys) ≡ suc (length ys)
  length-insert x [] = refl
  length-insert x (y ∷ ys) = ground (arith, length-insert x ys)

  pub length-newest_first : (xs : List A) → length (newest_first xs) ≡ length xs
  unfolding newest_first
  length-newest_first [] = refl
  length-newest_first (x ∷ xs) =
      length-insert x (newest_first xs) ∙ omega (arith, length-newest_first xs)

  module _ (P : A → Type 0) where
    All-insert : (x : A) (ys : List A) → P x → All P ys → All P (insert x ys)
    All-insert x [] h hs = (h, tt)
    All-insert x (y ∷ ys) h (k, ks) = choose (leb (at y) (at x)) (All-insert x ys h ks)
      where
        choose :
            (b : Bool) → All P (insert x ys) → All P (if b then x ∷ y ∷ ys else y ∷ insert x ys)
        choose true rest = (h, (k, ks))
        choose false rest = (k, rest)

    pub All-newest_first : (xs : List A) → All P xs → All P (newest_first xs)
    unfolding newest_first
    All-newest_first [] h = tt
    All-newest_first (x ∷ xs) (h, hs) = All-insert x (newest_first xs) h (All-newest_first xs hs)

    pub All-drop : (n : ℕ) (xs : List A) → All P xs → All P (drop n xs)
    All-drop zero xs h = h
    All-drop (suc n) [] h = tt
    All-drop (suc n) (x ∷ xs) (h, hs) = All-drop n xs hs

  module _ (id : A → String) where
    IsAbsent-insert :
        (k : String) (x : A) (ys : List A)
        → id x ≢ k
        → IsAbsent id k ys
        → IsAbsent id k (insert x ys)
    IsAbsent-insert k x ys n a = from (insert x ys) (All-insert (λ y. id y ≢ k) x ys n (to ys a))
      where
        to : (ys : List A) → IsAbsent id k ys → All (λ y. id y ≢ k) ys
        to [] a = tt
        to (y ∷ ys) (n, a) = (n, to ys a)

        from : (ys : List A) → All (λ y. id y ≢ k) ys → IsAbsent id k ys
        from [] a = tt
        from (y ∷ ys) (n, a) = (n, from ys a)

    IsDistinct-insert :
        (x : A) (ys : List A)
        → IsAbsent id (id x) ys
        → IsDistinct id ys
        → IsDistinct id (insert x ys)
    IsDistinct-insert x [] a d = (tt, tt)
    IsDistinct-insert x (y ∷ ys) (n, a) (b, d) =
        choose (leb (at y) (at x)) (IsAbsent-insert (id y) x ys (λ e. n (sym e)) b)
          (IsDistinct-insert x ys a d)
      where
        choose :
            (c : Bool)
            → IsAbsent id (id y) (insert x ys)
            → IsDistinct id (insert x ys)
            → IsDistinct id (if c then x ∷ y ∷ ys else y ∷ insert x ys)
        choose true b' d' = ((n, a), (b, d))
        choose false b' d' = (b', d')

    IsAbsent-newest_first :
        (k : String) (xs : List A) → IsAbsent id k xs → IsAbsent id k (newest_first xs)
    unfolding newest_first
    IsAbsent-newest_first k [] a = tt
    IsAbsent-newest_first k (x ∷ xs) (n, a) =
        IsAbsent-insert k x (newest_first xs) n (IsAbsent-newest_first k xs a)

    pub IsDistinct-newest_first : (xs : List A) → IsDistinct id xs → IsDistinct id (newest_first xs)
    unfolding newest_first
    IsDistinct-newest_first [] d = tt
    IsDistinct-newest_first (x ∷ xs) (a, d) =
        IsDistinct-insert x (newest_first xs) (IsAbsent-newest_first (id x) xs a)
          (IsDistinct-newest_first xs d)

    pub IsDistinct-drop : (n : ℕ) (xs : List A) → IsDistinct id xs → IsDistinct id (drop n xs)
    IsDistinct-drop zero xs d = d
    IsDistinct-drop (suc n) [] d = tt
    IsDistinct-drop (suc n) (x ∷ xs) (a, d) = IsDistinct-drop n xs d
