-- ===== src/ErrorLogs/Spacing.antt =====
-- What the rows of the error log look like after scans.
use hamyar_ops.Base.{
  ℕ, suc, ◌+◌, ◌<◌, ◌≤◌, ◌≡◌, refl, sym, ap, ◌∙◌, String, Bool, true, false, List, [], ◌∷◌, ◌++◌,
  ◌⊎◌, All, All-last, any, length, arith, eq_iff, Option-cases, Bool-cases, inl, inr, subst,
  length-append,
}
use mathlib.Core.List.{Memᴰ}
use hamyar_ops.Base.Rows.{first-any, any_of_first}
use hamyar_ops.Base.Chars.{Text}
use hamyar_ops.Prisma.{Database, find_first}
use hamyar_ops.ErrorLogs.{
  RawError, ErrorLog, dedup_window_ms, fingerprint_of, is_repeat, row_of, store_error, store_errors,
  scan_now,
}

-- Rows of one fingerprint stand in the order of their times, with more than the window between.
abbrev pub IsSpaced : List ErrorLog → Type 0
IsSpaced [] = Unit
IsSpaced (x ∷ xs) =
    All
      (λ (y : ErrorLog).
        x.fingerprint ≡ y.fingerprint → x.timestamp + dedup_window_ms < y.timestamp)
      xs
    × IsSpaced xs

module _ ⦃db : Database⦄ (normalize_title : Text → Text) (sha1 : Text → String) where
  open db use {Table, rows}

  abbrev repeats : RawError → ErrorLog → Bool
  repeats = is_repeat normalize_title sha1

  abbrev new_row : RawError → ErrorLog
  new_row = row_of normalize_title sha1

  far_from :
      (e : RawError) (x : ErrorLog)
      → repeats e x ≡ false
      → x.fingerprint ≡ (new_row e).fingerprint
      → x.timestamp + dedup_window_ms < (new_row e).timestamp
  unfolding is_repeat row_of dedup_window_ms
  far_from e x h same = ground (arith, eq_iff x.fingerprint (fingerprint_of normalize_title sha1 e))

  IsSpaced-last :
      (xs : List ErrorLog) (e : RawError)
      → any (repeats e) xs ≡ false
      → IsSpaced xs
      → IsSpaced (xs ++ new_row e ∷ [])
  IsSpaced-last [] e h s = (tt, tt)
  IsSpaced-last (x ∷ xs) e h (a, s) = (
    All-last
        (λ (y : ErrorLog).
          x.fingerprint ≡ y.fingerprint → x.timestamp + dedup_window_ms < y.timestamp)
        xs (new_row e) a (far_from e x (ground arith)),
    IsSpaced-last xs e (ground arith) s,
  )

  row_repeats : (e : RawError) → repeats e (new_row e) ≡ true
  unfolding is_repeat row_of dedup_window_ms
  row_repeats e = ground (
    arith,
    eq_iff (fingerprint_of normalize_title sha1 e) (fingerprint_of normalize_title sha1 e),
  )

  -- What one error does: there is a row of it, or it is added.
  known_or_added :
      (e : RawError) (t : Table ErrorLog) (n : ℕ)
      → ((any (repeats e) (rows t) ≡ true) × (store_error normalize_title sha1 e (t, n) ≡ (t, n)))
        ⊎ ((any (repeats e) (rows t) ≡ false)
            × (store_error normalize_title sha1 e (t, n) ≡ (db.create (new_row e) t, suc n)))
  unfolding store_error
  known_or_added e t n = elim (Option-cases (find_first (repeats e) t)) [
    | inl h ↦ inr (first-any (repeats e) (rows t) h, rw h)
    | inr (r, h) ↦ inl (any_of_first (repeats e) (rows t) r h, rw h)
  ]

  store_errors-IsSpaced :
      (es : List RawError) (t : Table ErrorLog) (n : ℕ)
      → IsSpaced (rows t)
      → IsSpaced (rows (store_errors normalize_title sha1 es (t, n)).0)
  unfolding store_errors
  store_errors-IsSpaced [] t n s = s
  store_errors-IsSpaced (e ∷ es) t n s = elim (known_or_added e t n) [
    | inl (h, q) ↦
        subst (λ z. IsSpaced (rows (store_errors normalize_title sha1 es z).0)) (sym q)
          (store_errors-IsSpaced es t n s)
    | inr (h, q) ↦
        subst (λ z. IsSpaced (rows (store_errors normalize_title sha1 es z).0)) (sym q)
          (store_errors-IsSpaced es (db.create (new_row e) t) (suc n)
            (subst IsSpaced (sym (db.rows-create (new_row e) t)) (IsSpaced-last (rows t) e h s)))
  ]

  -- If the rows of each fingerprint stand in the order of their times, with more than the five
  -- minutes of the window between any two of them, then they do after every scan.
  pub scan_now-IsSpaced :
      (raws : List RawError) (t : Table ErrorLog)
      → IsSpaced (rows t)
      → IsSpaced (rows (scan_now normalize_title sha1 raws t).logs)
  unfolding scan_now
  scan_now-IsSpaced raws t s = store_errors-IsSpaced raws t 0 s

  any-append_left :
      (p : ErrorLog → Bool) (xs : List ErrorLog) (y : ErrorLog)
      → any p xs ≡ true
      → any p (xs ++ y ∷ []) ≡ true
  any-append_left p [] y h = cc
  any-append_left p (x ∷ xs) y h = ground (arith, any-append_left p xs y)

  any-append_last :
      (p : ErrorLog → Bool) (xs : List ErrorLog) (y : ErrorLog)
      → p y ≡ true
      → any p (xs ++ y ∷ []) ≡ true
  any-append_last p [] y h = ground arith
  any-append_last p (x ∷ xs) y h = ground (arith, any-append_last p xs y)

  -- A row that is there stays, whatever is stored.
  any-store_errors :
      (p : ErrorLog → Bool) (es : List RawError) (t : Table ErrorLog) (n : ℕ)
      → any p (rows t) ≡ true
      → any p (rows (store_errors normalize_title sha1 es (t, n)).0) ≡ true
  unfolding store_errors
  any-store_errors p [] t n h = h
  any-store_errors p (e ∷ es) t n h = elim (known_or_added e t n) [
    | inl (k, q) ↦
        ap (λ z. any p (rows (store_errors normalize_title sha1 es z).0)) q
        ∙ any-store_errors p es t n h
    | inr (k, q) ↦
        ap (λ z. any p (rows (store_errors normalize_title sha1 es z).0)) q
        ∙ any-store_errors p es (db.create (new_row e) t) (suc n)
            (ap (any p) (db.rows-create (new_row e) t) ∙ any-append_left p (rows t) (new_row e) h)
  ]

  -- The number of the rows and of those that were added, together.
  length-store_errors :
      (es : List RawError) (t : Table ErrorLog) (n : ℕ)
      → length (rows (store_errors normalize_title sha1 es (t, n)).0) + n
        ≡ length (rows t) + (store_errors normalize_title sha1 es (t, n)).1
  unfolding store_errors
  length-store_errors [] t n = refl
  length-store_errors (e ∷ es) t n = elim (known_or_added e t n) [
    | inl (k, q) ↦ rw (q, store_errors) (length-store_errors es t n)
    | inr (k, q) ↦
        rw (q, store_errors)
          (omega (
            arith,
            length-store_errors es (db.create (new_row e) t) (suc n),
            ap length (db.rows-create (new_row e) t),
            length-append (rows t) (new_row e ∷ []),
          ))
  ]

  -- Errors that have a row once others were stored.
  abbrev AreCovered : List RawError → List RawError → Table ErrorLog × ℕ → Type 0
  AreCovered stored errors z =
      All
        (λ (x : RawError).
          any (repeats x) (rows (store_errors normalize_title sha1 stored z).0) ≡ true)
        errors

  store_errors_cover : (es : List RawError) (t : Table ErrorLog) (n : ℕ) → AreCovered es es (t, n)
  unfolding store_errors
  store_errors_cover [] t n = tt
  store_errors_cover (e ∷ es) t n = elim (known_or_added e t n) [
    | inl (k, q) ↦
        subst (AreCovered es (e ∷ es)) (sym q)
          (any-store_errors (repeats e) es t n k, store_errors_cover es t n)
    | inr (k, q) ↦ subst (AreCovered es (e ∷ es)) (sym q) (
      any-store_errors (repeats e) es (db.create (new_row e) t) (suc n) (
          ap (any (repeats e)) (db.rows-create (new_row e) t)
          ∙ any-append_last (repeats e) (rows t) (new_row e) (row_repeats e)),
      store_errors_cover es (db.create (new_row e) t) (suc n),
    )
  ]

  -- A row with the fingerprint of an error and at most the window older.
  pub record HasRow (logs : List ErrorLog) (e : RawError) : Type 0 where
    pub row : ErrorLog
    pub listed : Memᴰ row logs
    pub same_fingerprint : row.fingerprint ≡ fingerprint_of normalize_title sha1 e
    pub recent : e.when ≤ row.timestamp + dedup_window_ms

  repeat-HasRow : (e : RawError) (xs : List ErrorLog) → any (repeats e) xs ≡ true → HasRow xs e
  unfolding is_repeat
  repeat-HasRow e [] h = absurd (ground (arith, h))
  repeat-HasRow e (x ∷ xs) h = elim (Bool-cases (repeats e x)) [
    | inl here ↦ record {
      row = x;
      listed = Memᴰ.head refl;
      same_fingerprint =
          ground (arith, here, eq_iff x.fingerprint (fingerprint_of normalize_title sha1 e));
      recent = ground (arith, here);
    }
    | inr away ↦
        let found = repeat-HasRow e xs (ground (arith, away, h)) in
        record {
          row = found.row;
          listed = Memᴰ.tail found.listed;
          same_fingerprint = found.same_fingerprint;
          recent = found.recent;
        }
  ]

  covered-HasRow :
      (logs : List ErrorLog) (es : List RawError)
      → All (λ (e : RawError). any (repeats e) logs ≡ true) es
      → All (HasRow logs) es
  covered-HasRow logs [] h = tt
  covered-HasRow logs (e ∷ es) (k, h) = (repeat-HasRow e logs k, covered-HasRow logs es h)

  -- After a scan the log holds for each error that it found a row with the fingerprint of that error
  -- and a time that is at most the window before it, and the log has grown by the number that is
  -- returned as inserted.
  pub scan_now_covers :
      (raws : List RawError) (t : Table ErrorLog)
      → All (HasRow (rows (scan_now normalize_title sha1 raws t).logs)) raws
        × (length (rows (scan_now normalize_title sha1 raws t).logs)
            ≡ length (rows t) + (scan_now normalize_title sha1 raws t).inserted)
  unfolding scan_now
  scan_now_covers raws t = (
    covered-HasRow _ raws (store_errors_cover raws t 0),
    omega (arith, length-store_errors raws t 0),
  )
