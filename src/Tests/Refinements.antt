-- ===== src/Tests/Refinements.antt =====
-- Examples of the health probe against its log.
use hamyar_ops.Base.{◌≡◌, true, false, none, some, List, [], ◌∷◌, take, length}
use hamyar_ops.Health.Probe.{Response, health_of, status_of}
use hamyar_ops.Health.Probe.Refinement.{
  streak, successes, status_by, log_of, probe_from, health_of_refines,
}
use hamyar_ops.Tests.Values.{half_up}

abbrev refused : Response
refused = record { is_ok = false; status_code = none; elapsed_ms = 5000 }

abbrev answered : Response
answered = record { is_ok = true; status_code = some 200; elapsed_ms = 12 }

abbrev outage : List Response
outage = answered ∷ refused ∷ refused ∷ []

health_of_refines_example :
    (status_of (
        health_of "api" refused
          (probe_from "api" outage (none, [])).0
          (probe_from "api" outage (none, [])).1)
      ≡ status_by (false ∷ log_of outage []))
    × ((health_of "api" refused
          (probe_from "api" outage (none, [])).0
          (probe_from "api" outage (none, [])).1).consecutive_failures
        ≡ streak (false ∷ log_of outage []))
    × ((health_of "api" refused
          (probe_from "api" outage (none, [])).0
          (probe_from "api" outage (none, [])).1).uptime_percent
        ≡ half_up.percent
            (successes (take 100 (false ∷ log_of outage [])))
            (length (take 100 (false ∷ log_of outage []))))
health_of_refines_example = health_of_refines "api" outage refused
