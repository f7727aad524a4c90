-- ===== src/Server/Health/Invariant.antt =====
-- The flag and the gRPC status agree with the map of the components (src/server/health.go).
use api_ratelimit.Common.{
  GoString, Dict, insert, ◌≡◌, refl, Bool, true, false, List, [], ◌∷◌, arith,
}
use api_ratelimit.Server.Health.{
  are_all_components_healthy, new_health_checker, fail, set_ok, HealthChecker,
}

-- Both are up exactly when every component is.
pub record IsConsistent (hc : HealthChecker) : Type 0 where
  pub flag : hc.ok ≡ are_all_components_healthy hc.health_map
  pub status : hc.serving ≡ hc.ok

healthy_lem_down :
    (k : GoString) (m : Dict Bool) → are_all_components_healthy (insert k false m) ≡ false
unfolding are_all_components_healthy insert
healthy_lem_down k [] = refl
healthy_lem_down k ((j, v) ∷ m) = ground (arith, healthy_lem_down k m)

healthy_lem_up :
    (k : GoString) (m : Dict Bool)
    → are_all_components_healthy m ≡ true
    → are_all_components_healthy (insert k true m) ≡ true
unfolding are_all_components_healthy insert
healthy_lem_up k [] h = refl
healthy_lem_up k ((j, v) ∷ m) h = ground (arith, healthy_lem_up k m)

-- The calls of the program: the driver and the configuration report, and the signal.
pub data Report : Type 0 where
  up down : GoString → Report

unfoldable pub report : Report → HealthChecker → HealthChecker
unfolding fail set_ok
report (up name) hc = (set_ok name hc).1
report (down name) hc = (fail name hc).1

unfoldable pub reports : List Report → HealthChecker → HealthChecker
unfolding report
reports [] hc = hc
reports (r ∷ rs) hc = reports rs (report r hc)

pub report-IsConsistent :
    (r : Report) (hc : HealthChecker) → IsConsistent hc → IsConsistent (report r hc)
unfolding report
report-IsConsistent (up name) hc v = ground (arith, healthy_lem_up name hc.health_map)
report-IsConsistent (down name) hc v = ground (arith, healthy_lem_down name hc.health_map)

pub new-IsConsistent : (b : Bool) → IsConsistent (new_health_checker b)
unfolding new_health_checker
new-IsConsistent b = record { flag = refl; status = refl }

reports-IsConsistent :
    (rs : List Report) (hc : HealthChecker) → IsConsistent hc → IsConsistent (reports rs hc)
unfolding reports
reports-IsConsistent [] hc v = v
reports-IsConsistent (r ∷ rs) hc v =
    reports-IsConsistent rs (report r hc) (report-IsConsistent r hc v)

-- After any history of calls the HTTP flag and the gRPC status say "healthy" exactly when every
-- component is healthy.
pub reports-new-IsConsistent :
    (b : Bool) (rs : List Report) → IsConsistent (reports rs (new_health_checker b))
reports-new-IsConsistent b rs = reports-IsConsistent rs _ (new-IsConsistent b)
