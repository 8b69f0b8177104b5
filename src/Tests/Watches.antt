-- ===== src/Tests/Watches.antt =====
-- Runs of the alerts in internal/agentgateway/gateway.go.
use my_wio.Base.{Bool, true, false, none, List, [], ◌∷◌, ◌≡◌, refl, leb, if◌then◌else◌}
use my_wio.Gateway.Alerts.{
  is_open, resolve_open, set_breaches, open_third, count_breach, Alert, Watch, count_open,
  evaluate_metric, evaluate_latency,
}
use my_wio.Gateway.Alerts.Trailing.{
  Report, evaluate_reports, breaches_in_row, alert_open_from_third,
}
use my_wio.Store.Table.{update_where, affected}

abbrev quiet : Watch
quiet = record { breaches = λ s k. 0; alerts = [] }

abbrev cpu : Bool → Report
cpu hit = record {
  server_id = "s";
  now = 9;
  check = record { kind = "cpu_high"; title = "CPU"; severity = "warning"; hit = hit };
}

abbrev reports : List Report
reports = cpu true ∷ cpu false ∷ cpu true ∷ cpu true ∷ cpu true ∷ cpu true ∷ []

opens :
    (count_open "s" "cpu_high" (evaluate_reports reports quiet).alerts ≡ 1)
    × (count_open "s" "cpu_high"
          (evaluate_reports (cpu false ∷ cpu true ∷ cpu true ∷ []) quiet).alerts
        ≡ 0)
unfolding count_open affected evaluate_reports evaluate_metric count_breach open_third set_breaches
    resolve_open update_where is_open
opens = (refl, refl)

abbrev open_latency : Alert
open_latency = record {
  server_id = "s";
  kind = "agent_queue_latency";
  severity = "warning";
  title = "late";
  status = "open";
  resolved_at = none;
}

-- After a restart of the control plane the counters are zero, and an open alert on latency is not
-- resolved by an operation that is in time.
open_after_restart :
    (evaluate_latency "s" 9
      (record { kind = "agent_queue_latency"; title = "late"; severity = "warning"; hit = false })
      (record { breaches = λ s k. 0; alerts = open_latency ∷ [] })).alerts
    ≡ open_latency ∷ []
unfolding evaluate_latency
open_after_restart = refl

alert_open_from_third_example :
    count_open "s" "cpu_high" (evaluate_reports reports quiet).alerts
    ≡ (if leb 3 (breaches_in_row "s" "cpu_high" 0 reports) then 1 else 0)
unfolding count_open affected
alert_open_from_third_example = alert_open_from_third "s" "cpu_high" reports quiet refl refl
