-- ===== src/Health/Probe/Refinement.antt =====
-- The stored health of an application against the log of all its probes.
use hamyar_ops.Base.{
  ℕ, zero, suc, ◌+◌, ◌≤◌, ◌≡◌, refl, ap, ◌∙◌, String, Bool, true, false, Option, none, some, List,
  [], ◌∷◌, if◌then◌else◌, leb, arith, take, length,
}
use hamyar_ops.Health.Probe.{
  HealthStatus, up, down, degraded, AppHealth, Response, previous_failures, failures_after,
  health_status, new_history, ups, JsNumber, uptime, health_of, status_of,
}

-- The specification: the outcomes of all probes, the newest first.
abbrev pub Log : Type 0
Log = List Bool

abbrev pub streak : Log → ℕ
streak [] = 0
streak (true ∷ log) = 0
streak (false ∷ log) = streak log + 1

abbrev pub status_by : Log → HealthStatus
status_by [] = up
status_by (true ∷ log) = up
status_by (false ∷ log) = if leb 3 (streak (false ∷ log)) then down else degraded

-- How many of the outcomes are successes.
abbrev pub successes : Log → ℕ
successes [] = 0
successes (true ∷ log) = successes log + 1
successes (false ∷ log) = successes log

abbrev pub log_of : List Response → Log → Log
log_of [] log = log
log_of (r ∷ rs) log = log_of rs (r.is_ok ∷ log)

-- The stored health and history after a sequence of probes, while nothing expires.
abbrev pub probe_from :
    ⦃num : JsNumber⦄
    → String
    → List Response
    → Option AppHealth × List Bool
    → Option AppHealth × List Bool
probe_from app [] s = s
probe_from app (r ∷ rs) (prev, checks) =
    probe_from app rs (some (health_of app r prev checks), new_history r.is_ok checks)

-- A stored state that stands for a log.
pub record Represents (s : Option AppHealth × List Bool) (log : Log) : Type 0 where
  pub failures : previous_failures s.0 ≡ streak log
  pub history : s.1 ≡ take 100 log

take-take : {A : Type 0} (m n : ℕ) (xs : List A) → m ≤ n → take m (take n xs) ≡ take m xs
take-take zero n xs h = refl
take-take (suc m) zero xs h = ground (arith, h)
take-take (suc m) (suc n) [] h = refl
take-take (suc m) (suc n) (x ∷ xs) h = ap (◌∷◌ x) (take-take m n xs (omega arith))

new_history-take : (b : Bool) (log : Log) → new_history b (take 100 log) ≡ take 100 (b ∷ log)
unfolding new_history
new_history-take b log =
    ap (λ xs. b ∷ take 99 xs) (take-take 100 100 log (omega arith))
    ∙ ap (◌∷◌ b) (take-take 99 100 log (omega arith))

failures_after-streak :
    (b : Bool) (prev : Option AppHealth) (log : Log)
    → previous_failures prev ≡ streak log
    → failures_after b prev ≡ streak (b ∷ log)
unfolding failures_after
failures_after-streak true prev log h = refl
failures_after-streak false prev log h = ap (λ n. n + 1) h

step-Represents :
    ⦃num : JsNumber⦄ (app : String) (r : Response) (prev : Option AppHealth) (checks : List Bool)
    (log : Log)
    → Represents (prev, checks) log
    → Represents (some (health_of app r prev checks), new_history r.is_ok checks) (r.is_ok ∷ log)
unfolding health_of
step-Represents app r prev checks log s = record {
  failures = failures_after-streak r.is_ok prev log s.failures;
  history = ap (new_history r.is_ok) s.history ∙ new_history-take r.is_ok log;
}

probe_from-Represents :
    ⦃num : JsNumber⦄ (app : String) (rs : List Response) (s : Option AppHealth × List Bool)
    (log : Log)
    → Represents s log
    → Represents (probe_from app rs s) (log_of rs log)
probe_from-Represents app [] s log h = h
probe_from-Represents app (r ∷ rs) (prev, checks) log h =
    probe_from-Represents app rs (some (health_of app r prev checks), new_history r.is_ok checks)
      (r.is_ok ∷ log) (step-Represents app r prev checks log h)

health_status-status_by :
    (b : Bool) (log : Log) → health_status b (streak (b ∷ log)) ≡ status_by (b ∷ log)
unfolding health_status
health_status-status_by true log = refl
health_status-status_by false log = refl

ups-successes : (log : Log) → ups log ≡ successes log
ups-successes [] = refl
ups-successes (true ∷ log) = omega (arith, ups-successes log)
ups-successes (false ∷ log) = ups-successes log

uptime-log : ⦃num : JsNumber⦄ (log : Log) → uptime log ≡ num.percent (successes log) (length log)
unfolding uptime
uptime-log ⦃num⦄ log = ap (λ k. num.percent k (length log)) (ups-successes log)

-- The two values that are stored for an application do what the log of all its probes would do:
-- after any probes from the start, while nothing expires, the next one has the status that the log
-- gives (UP after a success, DOWN from the third failure in a row on, DEGRADED before), the number of
-- the failures in a row, and the percentage of successes among the last hundred outcomes, rounded as
-- the floating point operations do.
pub health_of_refines :
    ⦃num : JsNumber⦄ (app : String) (rs : List Response) (r : Response)
    → let stored = probe_from app rs (none, []) in
      let log = r.is_ok ∷ log_of rs [] in
      (status_of (health_of app r stored.0 stored.1) ≡ status_by log)
      × ((health_of app r stored.0 stored.1).consecutive_failures ≡ streak log)
      × ((health_of app r stored.0 stored.1).uptime_percent
          ≡ num.percent (successes (take 100 log)) (length (take 100 log)))
unfolding health_of
health_of_refines ⦃num⦄ app rs r =
    let stored = probe_from app rs (none, []) in
    let before : Represents stored (log_of rs []) =
      probe_from-Represents app rs (none, []) [] (record { failures = refl; history = refl }) in
    let counted = failures_after-streak r.is_ok stored.0 (log_of rs []) before.failures in
    (
      ap (health_status r.is_ok) counted ∙ health_status-status_by r.is_ok (log_of rs []),
      counted,
      ap uptime (ap (new_history r.is_ok) before.history ∙ new_history-take r.is_ok (log_of rs []))
          ∙ uptime-log (take 100 (r.is_ok ∷ log_of rs [])),
    )
