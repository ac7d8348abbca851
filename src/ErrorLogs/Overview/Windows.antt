-- ===== src/ErrorLogs/Overview/Windows.antt =====
-- Which times the buckets of an overview cover.
use hamyar_ops.Base.{
  ℕ, zero, suc, ◌+◌, ◌-◌, ◌*◌, ◌≤◌, ◌≡◌, ◌⊎◌, inl, inr, refl, ap, ◌∙◌, Bool, false, ◌&&◌, ◌||◌,
  Option, none, some, List, ◌∷◌, is_some, ltb, leb, arith, Bool-cases,
}
use hamyar_ops.ErrorLogs.Overview.{
  Calendar, Bound, bucket_config, fixed_bounds, month_bounds, year_bounds, build_bounds, covers,
  find_index, next_index, monthly, yearly,
}

is_some-next_index : (o : Option ℕ) → is_some (next_index o) ≡ is_some o
is_some-next_index none = refl
is_some-next_index (some i) = refl

find_index-cons :
    (t : ℕ) (b : Bound) (bs : List Bound)
    → is_some (find_index t (b ∷ bs)) ≡ (covers t b || is_some (find_index t bs))
unfolding find_index
find_index-cons t b bs = elim (Bool-cases (covers t b)) [
  | inl e ↦ rw (e, find_index)
  | inr e ↦ rw (e, find_index) (is_some-next_index (find_index t bs))
]

adjacent :
    (now p each t : ℕ)
    → ((leb (now - p - each) t && ltb t (now - p)) || (leb (now - p) t && ltb t now))
      ≡ (leb (now - (each + p)) t && ltb t now)
adjacent now p each t = ground arith

-- The fixed buckets cover the times of the span, and no others.
pub fixed_bounds_cover :
    (each now n t : ℕ)
    → is_some (find_index t (fixed_bounds each now n)) ≡ (leb (now - n * each) t && ltb t now)
unfolding fixed_bounds find_index covers
fixed_bounds_cover each now zero t = ground arith
fixed_bounds_cover each now (suc i) t =
    find_index-cons t (record { from = now - i * each - each; to = now - i * each })
      (fixed_bounds each now i)
    ∙ ap
        (λ (b : Bool). covers t (record { from = now - i * each - each; to = now - i * each }) || b)
        (fixed_bounds_cover each now i t)
    ∙ adjacent now (i * each) each t
    ∙ ap (λ (k : ℕ). leb (now - k) t && ltb t now) (omega arith)

module _ (calendar : Calendar) where
  open calendar use {month_start}

  not_before : (a b t : ℕ) → b ≤ t → covers t (record { from = a; to = b }) ≡ false
  unfolding covers
  not_before a b t h = ground arith

  skipped :
      (t : ℕ) (b : Bound) (bs : List Bound)
      → covers t b ≡ false
      → find_index t bs ≡ none
      → find_index t (b ∷ bs) ≡ none
  unfolding find_index
  skipped t b bs e h = rw (e, find_index) (rw (h, next_index))

  before_months :
      (m n t : ℕ) → month_start (m + n) ≤ t → find_index t (month_bounds calendar m n) ≡ none
  unfolding month_bounds find_index
  before_months m zero t h = refl
  before_months m (suc n) t h =
      skipped t (record { from = month_start m; to = month_start (suc m) })
        (month_bounds calendar (suc m) n)
        (not_before (month_start m) (month_start (suc m)) t
          (omega (arith, calendar.month_start_mono (suc m) (m + suc n) (omega arith))))
        (before_months (suc m) n t
          (omega (arith, calendar.month_start_mono (suc m + n) (m + suc n) (omega arith))))

  before_years :
      (y n t : ℕ) → month_start ((y + n) * 12) ≤ t → find_index t (year_bounds calendar y n) ≡ none
  unfolding year_bounds find_index
  before_years y zero t h = refl
  before_years y (suc n) t h =
      skipped t (record { from = month_start (y * 12); to = month_start (suc y * 12) })
        (year_bounds calendar (suc y) n)
        (not_before (month_start (y * 12)) (month_start (suc y * 12)) t
          (omega (arith, calendar.month_start_mono (suc y * 12) ((y + suc n) * 12) (omega arith))))
        (before_years (suc y) n t (
          omega
            (arith, calendar.month_start_mono ((suc y + n) * 12) ((y + suc n) * 12) (omega arith))))

  -- The windows of the monthly overview end before the current month, and those of the yearly one
  -- before the current year: no error that is logged from the start of the current month on, or of
  -- the current year on, is in any of their buckets.
  pub current_month_uncounted :
      (now t : ℕ)
      → 13 ≤ calendar.month_of now
      → 5 ≤ calendar.year_of now
      → (month_start (calendar.month_of now) ≤ t
          → find_index t (build_bounds calendar (bucket_config monthly) now) ≡ none)
        × (month_start (calendar.year_of now * 12) ≤ t
            → find_index t (build_bounds calendar (bucket_config yearly) now) ≡ none)
  unfolding build_bounds bucket_config
  current_month_uncounted now t h k = (
    λ late. before_months (calendar.set_month now 13) 12 t (
        omega (
          arith,
          late,
          calendar.month_start_mono (calendar.set_month now 13 + 12) (calendar.month_of now)
              (lands (calendar.set_month_lands now 13 h)),
        )),
    λ late. before_years (calendar.year_of now - 5) 5 t (
        omega (
          arith,
          late,
          calendar.month_start_mono ((calendar.year_of now - 5 + 5) * 12)
              (calendar.year_of now * 12) (omega arith),
        )),
  )
    where
      lands :
          (calendar.set_month now 13 + 13 ≡ calendar.month_of now)
            ⊎ (calendar.set_month now 13 + 13 ≡ calendar.month_of now + 1)
          → calendar.set_month now 13 + 12 ≤ calendar.month_of now
      lands (inl e) = omega arith
      lands (inr e) = omega arith
