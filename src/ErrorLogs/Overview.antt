-- ===== src/ErrorLogs/Overview.antt =====
-- `getOverview` of error-logs.service.ts: the counts of the error log by time, source and
-- fingerprint. The labels of the buckets are left out; the local calendar is a parameter.
pub mod Windows
pub mod Totals
use hamyar_ops.Base.{
  ℕ, zero, suc, ◌+◌, ◌-◌, ◌*◌, ◌≤◌, ◌<◌, ◌≡◌, ◌⊎◌, String, Bool, true, false, ◌&&◌, Option, none,
  some, List, [], ◌∷◌, if◌then◌else◌, keep, take, ltb, leb, str_eq, length,
}
use hamyar_ops.Base.Chars.{Text, text_eq, is_empty}
use hamyar_ops.Base.Rows.Deletions.{newest_first}
use hamyar_ops.Prisma.{Database}
use hamyar_ops.ErrorLogs.{ErrorLog}

-- '1h', '12h', '24h', 'daily', 'weekly', 'monthly' and 'yearly'.
pub data Bucket : Type 0 where
  one_hour half_day full_day daily weekly monthly yearly : Bucket

pub data Mode : Type 0 where
  fixed month year : Mode

pub record BucketConfig : Type 0 where
  pub span_ms : ℕ
  pub count : ℕ
  pub each_ms : ℕ
  pub mode : Mode

abbrev config : ℕ → ℕ → ℕ → Mode → BucketConfig
config span count each mode = record { span_ms = span; count = count; each_ms = each; mode = mode }

unfoldable pub bucket_config : Bucket → BucketConfig
bucket_config one_hour = config 3600000 12 (5 * 60000) fixed
bucket_config half_day = config (12 * 3600000) 12 3600000 fixed
bucket_config full_day = config (24 * 3600000) 24 3600000 fixed
bucket_config daily = config (30 * 86400000) 30 86400000 fixed
bucket_config weekly = config (12 * 7 * 86400000) 12 (7 * 86400000) fixed
bucket_config monthly = config (365 * 86400000) 12 0 month
bucket_config yearly = config (5 * 365 * 86400000) 5 0 year

-- The months are numbered, twelve to a year. `set_month t k` is the month in which
-- `setMonth(getMonth() - k)` ends: a day that the month does not have falls into the next one.
pub record Calendar : Type 0 where
  pub month_of : ℕ → ℕ
  pub year_of : ℕ → ℕ
  pub month_start : ℕ → ℕ
  pub set_month : ℕ → ℕ → ℕ
  pub month_start-le : (t : ℕ) → month_start (month_of t) ≤ t
  pub month_start_mono : (m n : ℕ) → m ≤ n → month_start m ≤ month_start n
  pub set_month_lands :
      (t k : ℕ)
      → k ≤ month_of t
      → (set_month t k + k ≡ month_of t) ⊎ (set_month t k + k ≡ month_of t + 1)

pub record Bound : Type 0 where
  pub from : ℕ
  pub to : ℕ

-- `for (let i = count - 1; i >= 0; i--)`; the times are long after 1970, so no subtraction stops.
unfoldable pub fixed_bounds : ℕ → ℕ → ℕ → List Bound
fixed_bounds each now zero = []
fixed_bounds each now (suc i) =
    record { from = now - i * each - each; to = now - i * each } ∷ fixed_bounds each now i

module _ (calendar : Calendar) where
  open calendar use {month_start}

  -- `count` months from one on.
  unfoldable pub month_bounds : ℕ → ℕ → List Bound
  month_bounds m zero = []
  month_bounds m (suc n) =
      record { from = month_start m; to = month_start (suc m) } ∷ month_bounds (suc m) n

  unfoldable pub year_bounds : ℕ → ℕ → List Bound
  year_bounds y zero = []
  year_bounds y (suc n) =
      record { from = month_start (y * 12); to = month_start (suc y * 12) } ∷ year_bounds (suc y) n

  abbrev pub bounds_of : Mode → BucketConfig → ℕ → List Bound
  bounds_of fixed cfg now = fixed_bounds cfg.each_ms now cfg.count
  bounds_of month cfg now = month_bounds (calendar.set_month now (cfg.count + 1)) cfg.count
  bounds_of year cfg now = year_bounds (calendar.year_of now - cfg.count) cfg.count

  unfoldable pub build_bounds : BucketConfig → ℕ → List Bound
  build_bounds cfg now = bounds_of cfg.mode cfg now

unfoldable pub covers : ℕ → Bound → Bool
covers t b = leb b.from t && ltb t b.to

abbrev next_index : Option ℕ → Option ℕ
next_index none = none
next_index (some i) = some (suc i)

-- buckets.findIndex(b => t >= b.from && t < b.to)
unfoldable pub find_index : ℕ → List Bound → Option ℕ
unfolding covers
find_index t [] = none
find_index t (b ∷ bs) = let rest = find_index t bs in if covers t b then some 0 else next_index rest

-- xs[i]++
abbrev pub add_at : ℕ → List ℕ → List ℕ
add_at i [] = []
add_at zero (x ∷ xs) = suc x ∷ xs
add_at (suc i) (x ∷ xs) = x ∷ add_at i xs

-- new Array(n).fill(0)
abbrev pub zeros : ℕ → List ℕ
zeros zero = []
zeros (suc n) = 0 ∷ zeros n

pub record Group : Type 0 where
  pub fingerprint : String
  pub title : Text
  pub source : Text
  pub source_name : Text
  pub route : Option Text
  pub count : ℕ
  pub first_at : ℕ
  pub last_at : ℕ

abbrev new_group : ErrorLog → Group
new_group r = record {
  fingerprint = r.fingerprint;
  title = r.message;
  source = r.source;
  source_name = r.source_name;
  route = r.route;
  count = 0;
  first_at = r.timestamp;
  last_at = r.timestamp;
}

abbrev add_row : ErrorLog → Group → Group
add_row r g = record g {
  count = suc g.count;
  first_at = if ltb r.timestamp g.first_at then r.timestamp else g.first_at;
  last_at = if ltb g.last_at r.timestamp then r.timestamp else g.last_at;
}

-- `fpMap`, in the order in which the keys were set.
unfoldable pub group_row : ErrorLog → List Group → List Group
group_row r [] = add_row r (new_group r) ∷ []
group_row r (g ∷ gs) =
    let rest = group_row r gs in
    if str_eq g.fingerprint r.fingerprint then add_row r g ∷ gs else g ∷ rest

-- `bySource`
unfoldable pub count_source : ℕ → ℕ → Text → List (Text × List ℕ) → List (Text × List ℕ)
count_source n i name [] = (name, add_at i (zeros n)) ∷ []
count_source n i name ((k, counts) ∷ more) =
    let rest = count_source n i name more in
    if text_eq k name then (k, add_at i counts) ∷ more else (k, counts) ∷ rest

pub record Tally : Type 0 where
  pub totals : List ℕ
  pub by_source : List (Text × List ℕ)
  pub groups : List Group

-- One round of the loop over the rows.
unfoldable pub tally_row : List Bound → ErrorLog → Tally → Tally
unfolding find_index group_row count_source
tally_row bounds r s = elim (find_index r.timestamp bounds) [
  | none ↦ s
  | some i ↦ record {
    totals = add_at i s.totals;
    by_source = count_source (length bounds) i r.source_name s.by_source;
    groups = group_row r s.groups;
  }
]

unfoldable pub tally : List Bound → List ErrorLog → Tally → Tally
unfolding tally_row
tally bounds [] s = s
tally bounds (r ∷ rs) s = tally bounds rs (tally_row bounds r s)

pub record Query : Type 0 where
  pub bucket : Bucket
  pub source : Option Text
  pub source_name : Option Text

-- `if (opts.source) where.source = opts.source`
abbrev passes : Option Text → Text → Bool
passes none given = true
passes (some wanted) given = if is_empty wanted then true else text_eq wanted given

unfoldable pub is_asked : Query → ℕ → ErrorLog → Bool
is_asked q now r =
    leb (now - (bucket_config q.bucket).span_ms) r.timestamp
    && passes q.source r.source
    && passes q.source_name r.source_name

pub record Overview : Type 0 where
  pub totals : List ℕ
  pub by_source : List (Text × List ℕ)
  pub fingerprints : List Group
  pub recent : List ErrorLog

module _ ⦃db : Database⦄ (calendar : Calendar) where
  open db use {Table, rows}

  -- The newest 5000 rows of the span.
  unfoldable pub asked_rows : Query → ℕ → Table ErrorLog → List ErrorLog
  unfolding newest_first is_asked
  asked_rows q now t =
      take 5000 (newest_first (λ (r : ErrorLog). r.timestamp) (keep (is_asked q now) (rows t)))

  unfoldable pub get_overview : Query → ℕ → Table ErrorLog → Overview
  unfolding asked_rows build_bounds bucket_config tally newest_first
  get_overview q now t =
      let logs = asked_rows q now t in
      let bounds = build_bounds calendar (bucket_config q.bucket) now in
      let s =
        tally bounds logs
          (record { totals = zeros (length bounds); by_source = []; groups = [] }) in
      record {
        totals = s.totals;
        by_source = s.by_source;
        fingerprints = newest_first (λ (g : Group). g.count) s.groups;
        recent = take 200 logs;
      }
