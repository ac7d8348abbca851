-- ===== src/Tests/Health.antt =====
-- Examples of health probes and incidents.
use hamyar_ops.Base.{ℕ, ◌≡◌, refl, String, false, none, List, [], ◌∷◌, leb, if◌then◌else◌}
use hamyar_ops.Health.Probe.{Response, previous_failures}
use hamyar_ops.Health.Incidents.{Watch}
use hamyar_ops.Health.Incidents.Tracking.{count_open, probe_times, incident_iff_down}
use hamyar_ops.Tests.Values.{half_up, list_database}

abbrev failing : Response
failing = record { is_ok = false; status_code = none; elapsed_ms = 5000 }

abbrev watch : Watch
watch = record { health = none; history = []; incidents = []; events = [] }

abbrev three_failures : List (ℕ × String × Response)
three_failures = (10, "i1", failing) ∷ (20, "i2", failing) ∷ (30, "i3", failing) ∷ []

incident_iff_down_example :
    count_open "api" (probe_times "api" three_failures watch).incidents
    ≡ (if leb 3 (previous_failures (probe_times "api" three_failures watch).health) then 1 else 0)
incident_iff_down_example = incident_iff_down "api" three_failures watch refl refl
