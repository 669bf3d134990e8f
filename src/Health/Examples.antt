-- ===== src/Health/Examples.antt =====
-- A service that fails its probes, on which the theorems are applied.
use nekzus.Prelude.{◌≡◌, true, false, none, List, [], ◌∷◌}
use nekzus.Prelude.Bytes.{bytes}
use nekzus.Health.Checker.{ServiceHealthChecker, healthy, unhealthy, threshold_of}
use nekzus.Health.Checker.Threshold.{Call, probed, run, known, observe_all, known-run}

abbrev checker : ServiceHealthChecker
checker = record {
  unhealthy_threshold = 0;
  path = [];
  per_service_path = [];
  has_notifier = true;
  has_queue = false;
  health_status = [];
}

abbrev failing : List Call
failing =
    probed "grafana" unhealthy (bytes "refused") 10 none
    ∷ probed "gitea" healthy [] 11 none
    ∷ probed "grafana" unhealthy (bytes "refused") 20 none
    ∷ probed "grafana" unhealthy (bytes "refused") 30 none
    ∷ []

known-run_example :
    known (run checker failing) "grafana"
    ≡ observe_all (threshold_of checker) "grafana" (known checker "grafana") failing
known-run_example = known-run failing checker "grafana"
