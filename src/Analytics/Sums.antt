-- ===== src/Analytics/Sums.antt =====
-- Counting requests, by windows and by the statistics of windows.
use hamyar_ops.Base.{
  ℕ, zero, suc, ◌+◌, ◌*◌, ◌≡◌, refl, ap, sym, ◌∙◌, String, Bool, not, List, [], ◌∷◌, if◌then◌else◌,
  length, leb, arith,
}
use hamyar_ops.Analytics.{
  RawRequest, Totals, nothing, Stat, count_request, count_requests, collect_ips, set_of, set_add,
  ips, stat_of, requests_in, add_totals, sum_stats, is_nil, rolled_up,
}

-- The five sums, by name.
pub data Sum : Type 0 where
  bandwidth page_views bot_count success errors : Sum

abbrev pub value : Sum → Totals → ℕ
value bandwidth c = c.bandwidth
value page_views c = c.page_views
value bot_count c = c.bot_count
value success c = c.success
value errors c = c.errors

abbrev one_if : Bool → ℕ
one_if b = if b then 1 else 0

-- What a request adds to a sum.
abbrev pub weight : Sum → RawRequest → ℕ
weight bandwidth r = r.size
weight page_views r = one_if (not r.is_bot)
weight bot_count r = one_if r.is_bot
weight success r = one_if (not (leb 400 r.status))
weight errors r = one_if (leb 400 r.status)

abbrev pub sum_by : (RawRequest → ℕ) → List RawRequest → ℕ
sum_by w [] = 0
sum_by w (r ∷ rs) = w r + sum_by w rs

pub totals_eq : (a b : Totals) → ((f : Sum) → value f a ≡ value f b) → a ≡ b
totals_eq a b h = λ i. record {
  bandwidth = h bandwidth i;
  page_views = h page_views i;
  bot_count = h bot_count i;
  success = h success i;
  errors = h errors i;
}

value-count_request :
    (f : Sum) (r : RawRequest) (c : Totals) → value f (count_request r c) ≡ value f c + weight f r
unfolding count_request
value-count_request bandwidth r c = refl
value-count_request page_views r c = ground arith
value-count_request bot_count r c = ground arith
value-count_request success r c = ground arith
value-count_request errors r c = ground arith

pub value-count_requests :
    (f : Sum) (rs : List RawRequest) (c : Totals)
    → value f (count_requests rs c) ≡ value f c + sum_by (weight f) rs
unfolding count_requests
value-count_requests f [] c = omega arith
value-count_requests f (r ∷ rs) c =
    omega (arith, value-count_requests f rs (count_request r c), value-count_request f r c)

value-add_totals : (f : Sum) (c d : Totals) → value f (add_totals c d) ≡ value f c + value f d
unfolding add_totals
value-add_totals bandwidth c d = refl
value-add_totals page_views c d = refl
value-add_totals bot_count c d = refl
value-add_totals success c d = refl
value-add_totals errors c d = refl

abbrev pub sum_of : Sum → List Stat → ℕ
sum_of f [] = 0
sum_of f (st ∷ more) = value f st.totals + sum_of f more

pub value-sum_stats :
    (f : Sum) (stats : List Stat) (c : Totals)
    → value f (sum_stats stats c) ≡ value f c + sum_of f stats
unfolding sum_stats
value-sum_stats f [] c = omega arith
value-sum_stats f (st ∷ more) c =
    omega (arith, value-sum_stats f more (add_totals c st.totals), value-add_totals f c st.totals)

value-nothing : (f : Sum) → value f nothing ≡ 0
value-nothing bandwidth = refl
value-nothing page_views = refl
value-nothing bot_count = refl
value-nothing success = refl
value-nothing errors = refl

-- Two adjacent windows.
pub sum_by-adjacent :
    (w : RawRequest → ℕ) (start x y : ℕ) (rs : List RawRequest)
    → sum_by w (requests_in start (x + y) rs)
      ≡ sum_by w (requests_in start x rs) + sum_by w (requests_in (start + x) y rs)
sum_by-adjacent w start x y [] = refl
sum_by-adjacent w start x y (r ∷ rs) = ground (arith, sum_by-adjacent w start x y rs)

-- The statistics of n minutes, those without a request left out.
unfoldable pub minute_stats : ℕ → ℕ → List RawRequest → List Stat
minute_stats start zero rs = []
minute_stats start (suc n) rs =
    let rest = minute_stats (start + 60000) n rs in
    let here = requests_in start 60000 rs in if is_nil here then rest else stat_of start here ∷ rest

value-stat_of :
    (f : Sum) (start : ℕ) (rs : List RawRequest)
    → value f (stat_of start rs).totals ≡ sum_by (weight f) rs
unfolding stat_of
value-stat_of f start rs = omega (arith, value-count_requests f rs nothing, value-nothing f)

no_time :
    (w : RawRequest → ℕ) (start : ℕ) (rs : List RawRequest) → sum_by w (requests_in start 0 rs) ≡ 0
no_time w start [] = refl
no_time w start (r ∷ rs) = ground (arith, no_time w start rs)

sum_of-front :
    (f : Sum) (start : ℕ) (here : List RawRequest) (rest : List Stat)
    → sum_of f (if is_nil here then rest else stat_of start here ∷ rest)
      ≡ sum_by (weight f) here + sum_of f rest
sum_of-front f start [] rest = omega arith
sum_of-front f start (r ∷ here) rest = omega (arith, value-stat_of f start (r ∷ here))

pub sum_of-minute_stats :
    (f : Sum) (start n : ℕ) (rs : List RawRequest)
    → sum_of f (minute_stats start n rs) ≡ sum_by (weight f) (requests_in start (n * 60000) rs)
unfolding minute_stats
sum_of-minute_stats f start zero rs = sym (no_time (weight f) start rs)
sum_of-minute_stats f start (suc n) rs =
    sum_of-front f start (requests_in start 60000 rs) (minute_stats (start + 60000) n rs)
    ∙ ap (◌+◌ (sum_by (weight f) (requests_in start 60000 rs)))
        (sum_of-minute_stats f (start + 60000) n rs)
    ∙ sym (sum_by-adjacent (weight f) start 60000 (n * 60000) rs)
    ∙ ap (λ (k : ℕ). sum_by (weight f) (requests_in start k rs)) (omega arith)

pub collect_ips-set_of :
    (rs : List RawRequest) (s : List String) → collect_ips rs s ≡ set_of (ips rs) s
unfolding collect_ips
collect_ips-set_of [] s = refl
collect_ips-set_of (r ∷ rs) s =
    ground (arith, collect_ips-set_of rs s, collect_ips-set_of rs (set_add r.ip s))

-- What the hour makes of the statistics of its minutes is what the minute makes of its requests.
pub rolled_up-minute_stats :
    (start n : ℕ) (rs : List RawRequest)
    → rolled_up start (minute_stats start n rs) (requests_in start (n * 60000) rs)
      ≡ stat_of start (requests_in start (n * 60000) rs)
unfolding rolled_up stat_of
rolled_up-minute_stats start n rs =
    let here = requests_in start (n * 60000) rs in
    λ i. record {
      timestamp = start;
      visitors = length (sym (collect_ips-set_of here []) i);
      totals =
          totals_eq (sum_stats (minute_stats start n rs) nothing) (count_requests here nothing)
            (λ f.
              value-sum_stats f (minute_stats start n rs) nothing
              ∙ ap (◌+◌ (value f nothing)) (sum_of-minute_stats f start n rs)
              ∙ sym (value-count_requests f here nothing))
            i;
    }
