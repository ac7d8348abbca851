-- ===== src/Analytics/Composition.antt =====
-- The jobs of the minutes of an hour, followed by the job of the hour.
use hamyar_ops.Base.{
  ℕ, zero, suc, ◌+◌, ◌*◌, ◌≤◌, ◌<◌, ◌≡◌, refl, ap, sym, subst, ◌∙◌, true, false, ◌&&◌, none, List,
  [], ◌∷◌, ◌++◌, if◌then◌else◌, first, All, All-last, arith, Bool-cases, inl, inr, append_assoc,
  append-nil,
}
use hamyar_ops.Prisma.{Database, find_first}
use hamyar_ops.Analytics.{
  RawRequest, Stat, stat_of, requests_in, stats_in, rolled_up, at, is_nil, upsert, Analytics,
  aggregate_minute, aggregate_hour, run_minutes,
}
use hamyar_ops.Analytics.Sums.{minute_stats, rolled_up-minute_stats}

-- Statistics of times before a moment.
abbrev pub AreBefore : ℕ → List Stat → Type 0
AreBefore t = All (λ (st : Stat). st.timestamp < t)

not_yet : (t : ℕ) (xs : List Stat) → AreBefore t xs → first (at t) xs ≡ none
not_yet t [] h = refl
not_yet t (x ∷ xs) (h, hs) = ground (arith, not_yet t xs hs)

AreBefore-later : (t u : ℕ) (xs : List Stat) → t ≤ u → AreBefore t xs → AreBefore u xs
AreBefore-later t u [] le h = tt
AreBefore-later t u (x ∷ xs) le (h, hs) = (omega arith, AreBefore-later t u xs le hs)

stat_of_time : (t : ℕ) (rs : List RawRequest) → (stat_of t rs).timestamp < t + 60000
unfolding stat_of
stat_of_time t rs = omega arith

stats_in-before :
    (start span : ℕ) (old new : List Stat)
    → AreBefore start old
    → stats_in start span (old ++ new) ≡ stats_in start span new
stats_in-before start span [] new b = refl
stats_in-before start span (x ∷ old) new (h, b) =
    ground (arith, stats_in-before start span old new b)

stat_kept :
    (start span t : ℕ) (here : List RawRequest) (rest : List Stat)
    → start ≤ t
    → t < start + span
    → stats_in start span rest ≡ rest
    → stats_in start span (if is_nil here then rest else stat_of t here ∷ rest)
      ≡ (if is_nil here then rest else stat_of t here ∷ rest)
unfolding stat_of
stat_kept start span t [] rest h k ih = ih
stat_kept start span t (r ∷ here) rest h k ih = ground arith

stats_in-minute_stats :
    (start span t n : ℕ) (rs : List RawRequest)
    → start ≤ t
    → t + n * 60000 ≤ start + span
    → stats_in start span (minute_stats t n rs) ≡ minute_stats t n rs
unfolding minute_stats
stats_in-minute_stats start span t zero rs h k = refl
stats_in-minute_stats start span t (suc n) rs h k =
    stat_kept start span t (requests_in t 60000 rs) (minute_stats (t + 60000) n rs) h (omega arith)
      (stats_in-minute_stats start span (t + 60000) n rs (omega arith) (omega arith))

is_nil-adjacent :
    (start x y : ℕ) (rs : List RawRequest)
    → is_nil (requests_in start (x + y) rs)
      ≡ (is_nil (requests_in start x rs) && is_nil (requests_in (start + x) y rs))
is_nil-adjacent start x y [] = refl
is_nil-adjacent start x y (r ∷ rs) = ground (arith, is_nil-adjacent start x y rs)

is_nil-no_time : (start : ℕ) (rs : List RawRequest) → is_nil (requests_in start 0 rs) ≡ true
is_nil-no_time start [] = refl
is_nil-no_time start (r ∷ rs) = ground (arith, is_nil-no_time start rs)

is_nil-front :
    (t : ℕ) (here : List RawRequest) (rest : List Stat)
    → is_nil (if is_nil here then rest else stat_of t here ∷ rest) ≡ (is_nil here && is_nil rest)
is_nil-front t [] rest = refl
is_nil-front t (r ∷ here) rest = refl

is_nil-minute_stats :
    (start n : ℕ) (rs : List RawRequest)
    → is_nil (minute_stats start n rs) ≡ is_nil (requests_in start (n * 60000) rs)
unfolding minute_stats
is_nil-minute_stats start zero rs = sym (is_nil-no_time start rs)
is_nil-minute_stats start (suc n) rs =
    is_nil-front start (requests_in start 60000 rs) (minute_stats (start + 60000) n rs)
    ∙ ap (◌&&◌ (is_nil (requests_in start 60000 rs))) (is_nil-minute_stats (start + 60000) n rs)
    ∙ sym (is_nil-adjacent start 60000 (n * 60000) rs)
    ∙ ap (λ (k : ℕ). is_nil (requests_in start k rs)) (omega arith)

module _ ⦃db : Database⦄ where
  open db use {Table, rows}

  rows-upsert :
      (st : Stat) (t : Table Stat)
      → first (at st.timestamp) (rows t) ≡ none
      → rows (upsert st t) ≡ rows t ++ st ∷ []
  unfolding upsert
  rows-upsert st t h = rw (h, upsert) (db.rows-create st t)

  minute_empty :
      (start : ℕ) (s : Analytics)
      → is_nil (requests_in start 60000 (rows s.requests)) ≡ true
      → aggregate_minute start s ≡ s
  unfolding aggregate_minute
  minute_empty start s e = rw e

  minute_counted :
      (start : ℕ) (s : Analytics)
      → is_nil (requests_in start 60000 (rows s.requests)) ≡ false
      → AreBefore start (rows s.minutes)
      → rows (aggregate_minute start s).minutes
        ≡ rows s.minutes ++ stat_of start (requests_in start 60000 (rows s.requests)) ∷ []
  unfolding aggregate_minute stat_of
  minute_counted start s e b = rw e (
      rows-upsert (stat_of start (requests_in start 60000 (rows s.requests))) s.minutes
        (not_yet start (rows s.minutes) b))

  minute_keeps :
      (start : ℕ) (s : Analytics)
      → ((aggregate_minute start s).requests ≡ s.requests)
        × ((aggregate_minute start s).hours ≡ s.hours)
  unfolding aggregate_minute
  minute_keeps start s = elim (Bool-cases (is_nil (requests_in start 60000 (rows s.requests)))) [
    | inl e ↦ rw e (refl, refl)
    | inr e ↦ rw e (refl, refl)
  ]

  minute-AreBefore :
      (start : ℕ) (s : Analytics)
      → AreBefore start (rows s.minutes)
      → AreBefore (start + 60000) (rows (aggregate_minute start s).minutes)
  minute-AreBefore start s b =
      elim (Bool-cases (is_nil (requests_in start 60000 (rows s.requests)))) [
        | inl e ↦
            subst (λ (t : Analytics). AreBefore (start + 60000) (rows t.minutes))
              (sym (minute_empty start s e))
              (AreBefore-later start (start + 60000) (rows s.minutes) (omega arith) b)
        | inr e ↦ subst (AreBefore (start + 60000)) (sym (minute_counted start s e b)) (
            All-last (λ (st : Stat). st.timestamp < start + 60000) (rows s.minutes)
              (stat_of start (requests_in start 60000 (rows s.requests)))
              (AreBefore-later start (start + 60000) (rows s.minutes) (omega arith) b)
              (stat_of_time start (requests_in start 60000 (rows s.requests))))
      ]

  -- The rows of one minute, in front of those of the later ones.
  minute_front :
      (start n : ℕ) (s : Analytics)
      → AreBefore start (rows s.minutes)
      → rows (aggregate_minute start s).minutes ++ minute_stats (start + 60000) n (rows s.requests)
        ≡ rows s.minutes ++ minute_stats start (suc n) (rows s.requests)
  unfolding minute_stats
  minute_front start n s b =
      let here = requests_in start 60000 (rows s.requests) in
      let later = minute_stats (start + 60000) n (rows s.requests) in
      elim (Bool-cases (is_nil here)) [
        | inl e ↦ ap (λ (t : Analytics). rows t.minutes ++ later) (minute_empty start s e) ∙ rw e
        | inr e ↦
            ap (λ xs. xs ++ later) (minute_counted start s e b)
            ∙ append_assoc (rows s.minutes) (stat_of start here ∷ []) later
            ∙ rw e
      ]

  run_minutes-rows :
      (start n : ℕ) (s : Analytics)
      → AreBefore start (rows s.minutes)
      → rows (run_minutes start n s).minutes
        ≡ rows s.minutes ++ minute_stats start n (rows s.requests)
  unfolding run_minutes
  run_minutes-rows start zero s b = unfold minute_stats in sym (append-nil (rows s.minutes))
  run_minutes-rows start (suc n) s b =
      let next = aggregate_minute start s in
      run_minutes-rows (start + 60000) n next (minute-AreBefore start s b)
      ∙ ap (λ t. rows next.minutes ++ minute_stats (start + 60000) n (rows t))
          (minute_keeps start s).0
      ∙ minute_front start n s b

  run_minutes_keep :
      (start n : ℕ) (s : Analytics)
      → ((run_minutes start n s).requests ≡ s.requests) × ((run_minutes start n s).hours ≡ s.hours)
  unfolding run_minutes
  run_minutes_keep start zero s = (refl, refl)
  run_minutes_keep start (suc n) s =
      let (requests, hours) = run_minutes_keep (start + 60000) n (aggregate_minute start s) in
      (requests ∙ (minute_keeps start s).0, hours ∙ (minute_keeps start s).1)

  hour_counted :
      (start : ℕ) (s : Analytics) (stats : List Stat)
      → stats_in start 3600000 (rows s.minutes) ≡ stats
      → is_nil stats ≡ false
      → find_first (at start) s.hours ≡ none
      → rows (aggregate_hour start s).hours
        ≡ rows s.hours ++ rolled_up start stats (requests_in start 3600000 (rows s.requests)) ∷ []
  unfolding aggregate_hour rolled_up
  hour_counted start s stats same e h =
      rw (same, aggregate_hour)
        (rw e (
          rows-upsert (rolled_up start stats (requests_in start 3600000 (rows s.requests))) s.hours
            h))

  -- The statistics of an hour refine the count of its requests: where no minute of the hour and not
  -- the hour itself was aggregated before, and a request came in it, the jobs of its sixty minutes
  -- and then the job of the hour add one row to the hours, and it is what the aggregation of a
  -- minute makes of all requests of the hour, the number of the visitors included.
  pub aggregate_hour_refines :
      (start : ℕ) (s : Analytics)
      → AreBefore start (rows s.minutes)
      → find_first (at start) s.hours ≡ none
      → is_nil (requests_in start 3600000 (rows s.requests)) ≡ false
      → rows (aggregate_hour start (run_minutes start 60 s)).hours
        ≡ rows s.hours ++ stat_of start (requests_in start 3600000 (rows s.requests)) ∷ []
  aggregate_hour_refines start s b h e =
      let run = run_minutes start 60 s in
      let stats = minute_stats start 60 (rows s.requests) in
      let (requests, hours) = run_minutes_keep start 60 s in
      hour_counted start run stats
        (ap (stats_in start 3600000) (run_minutes-rows start 60 s b)
          ∙ stats_in-before start 3600000 (rows s.minutes) stats b
          ∙ stats_in-minute_stats start 3600000 start 60 (rows s.requests) (omega arith)
              (omega arith))
        (is_nil-minute_stats start 60 (rows s.requests) ∙ e) (ap (find_first (at start)) hours ∙ h)
      ∙ ap (λ t. rows run.hours ++ rolled_up start stats (requests_in start 3600000 (rows t)) ∷ [])
          requests
      ∙ ap (λ t. rows t ++ rolled_up start stats (requests_in start 3600000 (rows s.requests)) ∷ [])
          hours
      ∙ ap (λ st. rows s.hours ++ st ∷ []) (rolled_up-minute_stats start 60 (rows s.requests))
