-- ===== src/ErrorLogs/Overview/Totals.antt =====
-- What the counts of an overview add up to.
use hamyar_ops.Base.{
  ℕ, zero, suc, ◌+◌, ◌-◌, ◌*◌, ◌<◌, ◌≡◌, refl, ap, subst, ◌∙◌, Bool, ◌&&◌, none, some, List, [],
  ◌∷◌, is_some, ltb, leb, arith, fun_ext, Option-cases, inl, inr, keep, length,
}
use hamyar_ops.Base.Rows.Deletions.{insert, newest_first}
use hamyar_ops.Prisma.{Database}
use hamyar_ops.ErrorLogs.{ErrorLog}
use hamyar_ops.ErrorLogs.Overview.{
  Calendar, Bound, Bucket, one_hour, half_day, full_day, daily, weekly, monthly, yearly,
  BucketConfig, bucket_config, build_bounds, bounds_of, find_index, Mode, fixed, add_at, zeros,
  Group, group_row, Tally, tally_row, tally, Query, asked_rows, get_overview,
}
use hamyar_ops.ErrorLogs.Overview.Windows.{fixed_bounds_cover}

abbrev pub sum : List ℕ → ℕ
sum [] = 0
sum (x ∷ xs) = x + sum xs

abbrev pub sum_counts : List Group → ℕ
sum_counts [] = 0
sum_counts (g ∷ gs) = g.count + sum_counts gs

find_index-lt : (t : ℕ) (bs : List Bound) {i : ℕ} → find_index t bs ≡ some i → i < length bs
unfolding find_index
find_index-lt t [] h = cc
find_index-lt t (b ∷ bs) h = elim (Option-cases (find_index t bs)) [
  | inl e ↦ ground (arith, e)
  | inr (j, e) ↦ ground (arith, e, find_index-lt t bs e)
]

sum-add_at : (i : ℕ) (xs : List ℕ) → i < length xs → sum (add_at i xs) ≡ suc (sum xs)
sum-add_at i [] h = absurd (omega arith)
sum-add_at zero (x ∷ xs) h = omega arith
sum-add_at (suc i) (x ∷ xs) h = omega (arith, sum-add_at i xs (omega arith))

length-add_at : (i : ℕ) (xs : List ℕ) → length (add_at i xs) ≡ length xs
length-add_at i [] = refl
length-add_at zero (x ∷ xs) = refl
length-add_at (suc i) (x ∷ xs) = ap suc (length-add_at i xs)

length-zeros : (n : ℕ) → length (zeros n) ≡ n
length-zeros zero = refl
length-zeros (suc n) = ap suc (length-zeros n)

sum-zeros : (n : ℕ) → sum (zeros n) ≡ 0
sum-zeros zero = refl
sum-zeros (suc n) = omega (arith, sum-zeros n)

sum_counts-group_row :
    (r : ErrorLog) (gs : List Group) → sum_counts (group_row r gs) ≡ suc (sum_counts gs)
unfolding group_row
sum_counts-group_row r [] = refl
sum_counts-group_row r (g ∷ gs) = ground (arith, sum_counts-group_row r gs)

-- A row whose time lies in a bucket.
abbrev pub is_counted : List Bound → ErrorLog → Bool
is_counted bounds r = is_some (find_index r.timestamp bounds)

record IsBalanced (bounds : List Bound) (n : ℕ) (s : Tally) : Type 0 where
  pub counted : sum s.totals ≡ n
  pub grouped : sum_counts s.groups ≡ n
  pub sized : length s.totals ≡ length bounds

tally_row-none :
    (bounds : List Bound) (r : ErrorLog) (s : Tally)
    → find_index r.timestamp bounds ≡ none
    → tally_row bounds r s ≡ s
unfolding tally_row
tally_row-none bounds r s e = rw (e, tally_row)

tally_row-IsBalanced :
    (bounds : List Bound) (r : ErrorLog) (n : ℕ) (s : Tally) {i : ℕ}
    → find_index r.timestamp bounds ≡ some i
    → IsBalanced bounds n s
    → IsBalanced bounds (suc n) (tally_row bounds r s)
unfolding tally_row
tally_row-IsBalanced bounds r n s {i} e b =
    rw (e, tally_row)
      (record {
        counted = omega (
          arith,
          sum-add_at i s.totals (omega (arith, b.sized, find_index-lt r.timestamp bounds e)),
          b.counted,
        );
        grouped = omega (arith, sum_counts-group_row r s.groups, b.grouped);
        sized = omega (arith, length-add_at i s.totals, b.sized);
      })

tally-IsBalanced :
    (bounds : List Bound) (rs : List ErrorLog) (n : ℕ) (s : Tally)
    → IsBalanced bounds n s
    → IsBalanced bounds (n + length (keep (is_counted bounds) rs)) (tally bounds rs s)
unfolding tally
tally-IsBalanced bounds [] n s b = record {
  counted = omega (arith, b.counted);
  grouped = omega (arith, b.grouped);
  sized = b.sized;
}
tally-IsBalanced bounds (r ∷ rs) n s b = elim (Option-cases (find_index r.timestamp bounds)) [
  | inl e ↦ rw (e, tally_row-none bounds r s e) (tally-IsBalanced bounds rs n s b)
  | inr (i, e) ↦
      let after = tally_row bounds r s in
      rw e (
        subst (λ (k : ℕ). IsBalanced bounds k (tally bounds rs after)) (omega arith)
          (tally-IsBalanced bounds rs (suc n) after (tally_row-IsBalanced bounds r n s e b)))
]

sum_counts-insert :
    (g : Group) (gs : List Group)
    → sum_counts (insert (λ (x : Group). x.count) g gs) ≡ g.count + sum_counts gs
sum_counts-insert g [] = refl
sum_counts-insert g (h ∷ gs) = ground (arith, sum_counts-insert g gs)

sum_counts-newest_first :
    (gs : List Group) → sum_counts (newest_first (λ (g : Group). g.count) gs) ≡ sum_counts gs
unfolding newest_first
sum_counts-newest_first [] = refl
sum_counts-newest_first (g ∷ gs) =
    sum_counts-insert g (newest_first (λ (x : Group). x.count) gs)
    ∙ omega (arith, sum_counts-newest_first gs)

empty-IsBalanced :
    (bounds : List Bound)
    → IsBalanced bounds 0 (record { totals = zeros (length bounds); by_source = []; groups = [] })
empty-IsBalanced bounds = record {
  counted = sum-zeros (length bounds);
  grouped = refl;
  sized = length-zeros (length bounds);
}

fixed_span :
    (b : Bucket)
    → (bucket_config b).mode ≡ fixed
    → (bucket_config b).count * (bucket_config b).each_ms ≡ (bucket_config b).span_ms
unfolding bucket_config
fixed_span one_hour h = refl
fixed_span half_day h = refl
fixed_span full_day h = refl
fixed_span daily h = refl
fixed_span weekly h = refl
fixed_span monthly h = cc
fixed_span yearly h = cc

keep-same :
    (p q : ErrorLog → Bool) (rs : List ErrorLog)
    → ((r : ErrorLog) → p r ≡ q r)
    → keep p rs ≡ keep q rs
keep-same p q rs h = rw (fun_ext h)

-- A row that an overview with buckets of a fixed length has to count.
abbrev pub is_in_span : Query → ℕ → ErrorLog → Bool
is_in_span q now r = leb (now - (bucket_config q.bucket).span_ms) r.timestamp && ltb r.timestamp now

module _ ⦃db : Database⦄ (calendar : Calendar) where
  open db use {Table, rows}

  get_overview_counts :
      (q : Query) (now : ℕ) (t : Table ErrorLog)
      → let counted = length (
          keep
            (is_counted (build_bounds calendar (bucket_config q.bucket) now))
            (asked_rows calendar q now t)) in
        (sum (get_overview calendar q now t).totals ≡ counted)
        × (sum_counts (get_overview calendar q now t).fingerprints ≡ counted)
  unfolding get_overview
  get_overview_counts q now t =
      let bounds = build_bounds calendar (bucket_config q.bucket) now in
      let logs = asked_rows calendar q now t in
      let start : Tally = record { totals = zeros (length bounds); by_source = []; groups = [] } in
      let b = tally-IsBalanced bounds logs 0 start (empty-IsBalanced bounds) in
      (
        b.counted ∙ omega arith,
        sum_counts-newest_first (tally bounds logs start).groups ∙ b.grouped ∙ omega arith,
      )

  counted_in_span :
      (cfg : BucketConfig) (now : ℕ) (r : ErrorLog)
      → cfg.mode ≡ fixed
      → cfg.count * cfg.each_ms ≡ cfg.span_ms
      → is_counted (build_bounds calendar cfg now) r
        ≡ (leb (now - cfg.span_ms) r.timestamp && ltb r.timestamp now)
  unfolding build_bounds
  counted_in_span cfg now r m h =
      ap (λ (k : Mode). is_counted (bounds_of calendar k cfg now) r) m
      ∙ fixed_bounds_cover cfg.each_ms now cfg.count r.timestamp
      ∙ ap (λ (k : ℕ). leb (now - k) r.timestamp && ltb r.timestamp now) h

  -- An overview with buckets of a fixed length counts each row that it reads exactly once if its time
  -- lies in the span before now, and no other row: both the counts by time and the counts by
  -- fingerprint add up to the number of these rows.
  pub get_overview_complete :
      (q : Query) (now : ℕ) (t : Table ErrorLog)
      → (bucket_config q.bucket).mode ≡ fixed
      → (sum (get_overview calendar q now t).totals
          ≡ length (keep (is_in_span q now) (asked_rows calendar q now t)))
        × (sum_counts (get_overview calendar q now t).fingerprints
            ≡ length (keep (is_in_span q now) (asked_rows calendar q now t)))
  get_overview_complete q now t m =
      let cfg = bucket_config q.bucket in
      let (totals, groups) = get_overview_counts q now t in
      let same = ap length (
        keep-same (is_counted (build_bounds calendar cfg now)) (is_in_span q now)
          (asked_rows calendar q now t)
          (λ r. counted_in_span cfg now r m (fixed_span q.bucket m))) in
      (totals ∙ same, groups ∙ same)
