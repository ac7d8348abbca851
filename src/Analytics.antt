-- ===== src/Analytics.antt =====
-- apps/ops-api/src/modules/analytics/log-aggregator.service.ts: the statistics by minute, hour and
-- day. The start of the minute, hour or day that is aggregated, which the code takes from the local
-- clock, is an argument; the five sums of a row are a record of their own.
pub mod AccessLog
pub mod Sums
pub mod Composition
use hamyar_ops.Base.{
  ℕ, zero, suc, ◌+◌, ◌*◌, String, Bool, true, false, ◌&&◌, not, Option, none, some, List, [], ◌∷◌,
  ◌++◌, if◌then◌else◌, keep, map, any, length, ltb, leb, ◌==◌, str_eq,
}
use hamyar_ops.Prisma.{Database, find_first}

-- A request of the access log, as far as the aggregation reads it; null and the empty text are the
-- same to it, and so are null and 0.
pub record RawRequest : Type 0 where
  pub ip : String
  pub status : ℕ
  pub size : ℕ
  pub is_bot : Bool
  pub timestamp : ℕ

pub record Totals : Type 0 where
  pub bandwidth : ℕ
  pub page_views : ℕ
  pub bot_count : ℕ
  pub success : ℕ
  pub errors : ℕ

abbrev pub nothing : Totals
nothing = record { bandwidth = 0; page_views = 0; bot_count = 0; success = 0; errors = 0 }

pub record Stat : Type 0 where
  pub timestamp : ℕ
  pub visitors : ℕ
  pub totals : Totals

-- One round of the loop over the requests of a minute.
unfoldable pub count_request : RawRequest → Totals → Totals
count_request r c = record {
  bandwidth = c.bandwidth + r.size;
  page_views = if not r.is_bot then suc c.page_views else c.page_views;
  bot_count = if not r.is_bot then c.bot_count else suc c.bot_count;
  success = if leb 400 r.status then c.success else suc c.success;
  errors = if leb 400 r.status then suc c.errors else c.errors;
}

unfoldable pub count_requests : List RawRequest → Totals → Totals
unfolding count_request
count_requests [] c = c
count_requests (r ∷ rs) c = count_requests rs (count_request r c)

-- A `Set` of texts, in the order of insertion.
unfoldable pub set_add : String → List String → List String
set_add x s = if any (λ y. str_eq y x) s then s else s ++ x ∷ []

-- The set of the addresses that the same loop collects.
unfoldable pub collect_ips : List RawRequest → List String → List String
unfolding set_add
collect_ips [] s = s
collect_ips (r ∷ rs) s =
    collect_ips rs (if not r.is_bot && not (str_eq r.ip "") then set_add r.ip s else s)

unfoldable pub stat_of : ℕ → List RawRequest → Stat
unfolding count_requests collect_ips
stat_of start rs = record {
  timestamp = start;
  visitors = length (collect_ips rs []);
  totals = count_requests rs nothing;
}

abbrev pub within : ℕ → ℕ → ℕ → Bool
within start span t = leb start t && ltb t (start + span)

abbrev pub requests_in : ℕ → ℕ → List RawRequest → List RawRequest
requests_in start span = keep (λ (r : RawRequest). within start span r.timestamp)

abbrev pub stats_in : ℕ → ℕ → List Stat → List Stat
stats_in start span = keep (λ (st : Stat). within start span st.timestamp)

unfoldable pub add_totals : Totals → Totals → Totals
add_totals c d = record {
  bandwidth = c.bandwidth + d.bandwidth;
  page_views = c.page_views + d.page_views;
  bot_count = c.bot_count + d.bot_count;
  success = c.success + d.success;
  errors = c.errors + d.errors;
}

-- The loop over the rows of the shorter spans.
unfoldable pub sum_stats : List Stat → Totals → Totals
unfolding add_totals
sum_stats [] c = c
sum_stats (st ∷ more) c = sum_stats more (add_totals c st.totals)

-- new Set(xs)
abbrev pub set_of : List String → List String → List String
unfolding set_add
set_of [] s = s
set_of (x ∷ xs) s = set_of xs (set_add x s)

abbrev pub ips : List RawRequest → List String
ips rs =
    keep (λ x. not (str_eq x ""))
      (map (λ (r : RawRequest). r.ip) (keep (λ (r : RawRequest). not r.is_bot) rs))

unfoldable pub rolled_up : ℕ → List Stat → List RawRequest → Stat
unfolding sum_stats set_of
rolled_up start stats rs = record {
  timestamp = start;
  visitors = length (set_of (ips rs) []);
  totals = sum_stats stats nothing;
}

abbrev pub at : ℕ → Stat → Bool
at start st = st.timestamp == start

abbrev pub is_nil : {A : Type 0} → List A → Bool
is_nil [] = true
is_nil (x ∷ xs) = false

module _ ⦃db : Database⦄ where
  open db use {Table, rows, create, update_many}

  unfoldable pub upsert : Stat → Table Stat → Table Stat
  upsert st t = elim (find_first (at st.timestamp) t) [
    | none ↦ create st t
    | some old ↦ update_many (at st.timestamp) (λ x. st) t
  ]

  pub record Analytics : Type 0 where
    pub requests : Table RawRequest
    pub minutes : Table Stat
    pub hours : Table Stat
    pub days : Table Stat

  unfoldable pub aggregate_minute : ℕ → Analytics → Analytics
  unfolding upsert
  aggregate_minute start s =
      let rs = requests_in start 60000 (rows s.requests) in
      if is_nil rs then s else record s { minutes = upsert (stat_of start rs) s.minutes }

  unfoldable pub aggregate_hour : ℕ → Analytics → Analytics
  unfolding upsert
  aggregate_hour start s =
      let stats = stats_in start 3600000 (rows s.minutes) in
      let rs = requests_in start 3600000 (rows s.requests) in
      if is_nil stats then s else record s { hours = upsert (rolled_up start stats rs) s.hours }

  unfoldable pub aggregate_day : ℕ → Analytics → Analytics
  unfolding upsert
  aggregate_day start s =
      let stats = stats_in start 86400000 (rows s.hours) in
      let rs = requests_in start 86400000 (rows s.requests) in
      if is_nil stats then s else record s { days = upsert (rolled_up start stats rs) s.days }

  -- The jobs of consecutive minutes.
  unfoldable pub run_minutes : ℕ → ℕ → Analytics → Analytics
  run_minutes start zero s = s
  run_minutes start (suc n) s = run_minutes (start + 60000) n (aggregate_minute start s)
