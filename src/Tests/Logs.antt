-- ===== src/Tests/Logs.antt =====
-- Examples of the error log and of the statistics of the access log.
use hamyar_ops.Base.{
  ℕ, ◌≤◌, ◌≡◌, ◌+◌, ◌-◌, ◌*◌, ◌/◌, refl, true, false, none, some, List, [], ◌∷◌, ◌++◌, All, codes,
  arith, length, keep, inl, String,
}
use hamyar_ops.Base.Chars.{Text, trim_start, trim_end, is_space}
use hamyar_ops.ErrorLogs.{RawError, ErrorLog, scan_now}
use hamyar_ops.ErrorLogs.Spacing.{IsSpaced, HasRow, scan_now-IsSpaced, scan_now_covers}
use hamyar_ops.ErrorLogs.Overview.{
  Calendar, Query, bucket_config, build_bounds, find_index, asked_rows, get_overview, one_hour,
  monthly, yearly, fixed,
}
use hamyar_ops.ErrorLogs.Overview.Windows.{current_month_uncounted}
use hamyar_ops.ErrorLogs.Overview.Totals.{sum, sum_counts, is_in_span, get_overview_complete}
use hamyar_ops.Analytics.{Analytics, requests_in, run_minutes, aggregate_hour, stat_of}
use hamyar_ops.Analytics.Composition.{aggregate_hour_refines}
use hamyar_ops.Analytics.AccessLog.{ReaderState, parse_logs}
use hamyar_ops.Analytics.AccessLog.Resumption.{parse_logs_resumed}
use hamyar_ops.ErrorLogs.Titles.{normalize_title, extract_route, has_error}
use hamyar_ops.Tests.Values.{list_database}

abbrev as_it_is : Text → Text
as_it_is t = t

abbrev one_hash : Text → String
one_hash t = "h"

abbrev error_at : ℕ → RawError
error_at t = record {
  source = codes "pm2";
  source_name = codes "api";
  full_line = codes "Error: refused";
  route = none;
  when = t;
}

abbrev two_errors : List RawError
two_errors = error_at 1000000 ∷ error_at 1400000 ∷ []

abbrev no_logs : List ErrorLog
no_logs = []

scan_now-IsSpaced_example :
    IsSpaced (scan_now ⦃db = list_database⦄ as_it_is one_hash two_errors no_logs).logs
scan_now-IsSpaced_example = scan_now-IsSpaced as_it_is one_hash two_errors no_logs tt

scan_now_covers_example :
    All
      (HasRow ⦃db = list_database⦄ as_it_is one_hash
        (scan_now ⦃db = list_database⦄ as_it_is one_hash two_errors no_logs).logs)
      two_errors
    × (length (scan_now ⦃db = list_database⦄ as_it_is one_hash two_errors no_logs).logs
        ≡ 0 + (scan_now ⦃db = list_database⦄ as_it_is one_hash two_errors no_logs).inserted)
scan_now_covers_example = scan_now_covers as_it_is one_hash two_errors no_logs

-- Months of 1000 ticks.
abbrev ticks : Calendar
ticks = record {
  month_of = λ t. t / 1000;
  year_of = λ t. t / 12000;
  month_start = λ m. m * 1000;
  set_month = λ t k. t / 1000 - k;
  month_start-le = λ t. omega arith;
  month_start_mono = λ m n h. omega arith;
  set_month_lands = λ t k h. inl (omega arith);
}

current_month_uncounted_example :
    (100000 ≤ 100500 → find_index 100500 (build_bounds ticks (bucket_config monthly) 100700) ≡ none)
    × (96000 ≤ 100500 → find_index 100500 (build_bounds ticks (bucket_config yearly) 100700) ≡ none)
current_month_uncounted_example =
    current_month_uncounted ticks 100700 100500 (omega arith) (omega arith)

abbrev last_hour : Query
last_hour = record { bucket = one_hour; source = none; source_name = none }

abbrev logged : List ErrorLog
logged = (scan_now ⦃db = list_database⦄ as_it_is one_hash two_errors no_logs).logs

last_hour_fixed : (bucket_config last_hour.bucket).mode ≡ fixed
unfolding bucket_config
last_hour_fixed = refl

get_overview_complete_example :
    (sum (get_overview ⦃db = list_database⦄ ticks last_hour 4000000 logged).totals
      ≡ length (
          keep
            (is_in_span last_hour 4000000)
            (asked_rows ⦃db = list_database⦄ ticks last_hour 4000000 logged)))
    × (sum_counts (get_overview ⦃db = list_database⦄ ticks last_hour 4000000 logged).fingerprints
        ≡ length (
            keep
              (is_in_span last_hour 4000000)
              (asked_rows ⦃db = list_database⦄ ticks last_hour 4000000 logged)))
get_overview_complete_example = get_overview_complete ticks last_hour 4000000 logged last_hour_fixed

abbrev one_request : Analytics ⦃db = list_database⦄
one_request = record {
  requests =
      record { ip = "10.0.0.1"; status = 200; size = 12; is_bot = false; timestamp = 61000 } ∷ [];
  minutes = [];
  hours = [];
  days = [];
}

aggregate_hour_refines_example :
    (aggregate_hour 0 (run_minutes 0 60 one_request)).hours
    ≡ [] ++ stat_of 0 (requests_in 0 3600000 one_request.requests) ∷ []
aggregate_hour_refines_example = aggregate_hour_refines 0 one_request tt refl refl

abbrev clock : Text → ℕ
clock t = 0

abbrev nothing_read : ReaderState
nothing_read = record { requests = []; byte_offset = none }

parse_logs_resumed_example :
    parse_logs as_it_is clock
      (some (([] ++ codes "a\n") ++ codes "b"))
      (parse_logs as_it_is clock (some ([] ++ codes "a\n")) nothing_read)
    ≡ parse_logs as_it_is clock (some (([] ++ codes "a\n") ++ codes "b")) nothing_read
parse_logs_resumed_example = parse_logs_resumed as_it_is clock [] b'a' [] b'b' [] nothing_read refl

title_of_line :
    normalize_title (
      codes
        "2026-07-10T12:00:00.123Z ERROR  job 12345 of 550e8400-e29b-41d4-a716-446655440000 failed")
    ≡ codes "ERROR job <n> of <uuid> failed"
unfolding normalize_title trim_start trim_end is_space
title_of_line = refl

route_of_line :
    extract_route (codes "GETTER: POST  /api/apps?x=1 failed") ≡ some (codes "POST /api/apps")
unfolding extract_route is_space
route_of_line = refl

named_route_of_line : extract_route (codes "error at Path: '/x/y' in z") ≡ some (codes "/x/y")
unfolding extract_route is_space
named_route_of_line = refl

error_in_line : has_error false (codes "2026 a typeerror: x") ≡ true
unfolding has_error
error_in_line = refl

no_error_in_line : has_error false (codes "mirrored errors") ≡ false
unfolding has_error
no_error_in_line = refl
