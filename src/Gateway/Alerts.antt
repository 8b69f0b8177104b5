-- ===== src/Gateway/Alerts.antt =====
-- internal/agentgateway/gateway.go: the alerts on a server's metrics and on the latency of its
-- operations. The database answers every statement; the order in which Go visits the checks of one
-- report is left open there and fixed here, and no two of them share a row.
pub mod Trailing
use my_wio.Base.{
  ℕ, ◌+◌, ◌-◌, ◌*◌, ◌%◌, ◌^◌, String, Bool, true, false, ◌&&◌, not, Option, none, some, List, [],
  ◌∷◌, str_eq, ltb, leb, ◌==◌, if◌then◌else◌,
}
use my_wio.Store.Table.{update_where, affected}
use my_wio.Store.Operations.{Operation}

-- A row of `alerts`.
pub record Alert : Type 0 where
  pub server_id : String
  pub kind : String
  pub severity : String
  pub title : String
  pub status : String
  pub resolved_at : Option ℕ

-- The counters `metricBreaches` and the table.
pub record Watch : Type 0 where
  pub breaches : String → String → ℕ
  pub alerts : List Alert

pub record Check : Type 0 where
  pub kind : String
  pub title : String
  pub severity : String
  pub hit : Bool

unfoldable pub is_open : String → String → Alert → Bool
is_open server_id kind a =
    str_eq a.server_id server_id && str_eq a.kind kind && str_eq a.status "open"

unfoldable pub count_open : String → String → List Alert → ℕ
count_open server_id kind alerts = affected (is_open server_id kind) alerts

-- `UPDATE alerts SET status='resolved' … AND status='open'`.
unfoldable pub resolve_open : String → String → ℕ → List Alert → List Alert
resolve_open server_id kind now alerts =
    update_where (is_open server_id kind)
      (λ a. record a { status = "resolved"; resolved_at = some now }) alerts

unfoldable pub set_breaches : String → String → ℕ → Watch → Watch
set_breaches server_id kind n w = record w {
  breaches = λ s k. if str_eq server_id s && str_eq kind k then n else w.breaches s k;
}

-- The third breach in a row opens an alert, unless one is open.
unfoldable pub open_third : String → Check → ℕ → List Alert → List Alert
open_third server_id check n alerts =
    if n == 3 && count_open server_id check.kind alerts == 0
    then record {
      server_id = server_id;
      kind = check.kind;
      severity = check.severity;
      title = check.title;
      status = "open";
      resolved_at = none;
    }
      ∷ alerts
    else alerts

-- An `int` that is counted up.
abbrev pub next_breach : ℕ → ℕ
next_breach n = (n + 1) % 2 ^ 64

-- What both loops do for a hit that brings the counter to `n`.
unfoldable pub count_breach : String → Check → ℕ → Watch → Watch
count_breach server_id check n w = record (set_breaches server_id check.kind n w) {
  alerts = open_third server_id check n w.alerts;
}

-- The body of the loop of `evaluateMetrics`.
unfoldable pub evaluate_metric : String → ℕ → Check → Watch → Watch
evaluate_metric server_id now check w =
    if check.hit
    then count_breach server_id check (next_breach (w.breaches server_id check.kind)) w
    else record (set_breaches server_id check.kind 0 w) {
      alerts = resolve_open server_id check.kind now w.alerts;
    }

-- The body of the loop of `evaluateOperationLatency`. `int` is signed, so that a counter from 2^63 on
-- is negative.
unfoldable pub evaluate_latency : String → ℕ → Check → Watch → Watch
evaluate_latency server_id now check w =
    let old = w.breaches server_id check.kind in
    if check.hit
    then count_breach server_id check (next_breach old) w
    else record (set_breaches server_id check.kind 0 w) {
      alerts =
          if ltb 0 old && ltb old (2 ^ 63)
          then resolve_open server_id check.kind now w.alerts
          else w.alerts;
    }

evaluate_all : (Check → Watch → Watch) → List Check → Watch → Watch
evaluate_all evaluate [] w = w
evaluate_all evaluate (check ∷ checks) w = evaluate_all evaluate checks (evaluate check w)

-- `protocol.Metrics`, as far as it is watched, over the percentages of the Agent.
pub record Metrics (Percent : Type 0) : Type 0 where
  pub cpu_percent : Percent
  pub memory_percent : Percent
  pub disk_percent : Percent

-- `at_least_90` is the comparison of floating point numbers.
module _ {Percent : Type 0} (at_least_90 : Percent → Bool) where
  unfoldable pub metric_checks : Metrics Percent → List Check
  metric_checks m =
      record {
        kind = "cpu_high";
        title = "CPU usage above 90%";
        severity = "warning";
        hit = at_least_90 m.cpu_percent;
      }
      ∷ record {
        kind = "memory_high";
        title = "Memory usage above 90%";
        severity = "warning";
        hit = at_least_90 m.memory_percent;
      }
      ∷ record {
        kind = "disk_high";
        title = "Disk usage above 90%";
        severity = "critical";
        hit = at_least_90 m.disk_percent;
      }
      ∷ []

  -- `evaluateMetrics`.
  unfoldable pub evaluate_metrics : String → ℕ → Metrics Percent → Watch → Watch
  unfolding evaluate_all
  evaluate_metrics server_id now m w =
      evaluate_all (evaluate_metric server_id now) (metric_checks m) w

-- The difference of two times, where a negative one is no breach.
abbrev second : ℕ
second = 1000000000

abbrev pub started : Operation → ℕ → ℕ
started o delivered = elim o.started_at [ none ↦ delivered | some at ↦ at ]

abbrev pub ended : Operation → ℕ → ℕ
ended o now = elim o.completed_at [ none ↦ now | some at ↦ at ]

unfoldable pub latency_checks : Operation → ℕ → ℕ → List Check
latency_checks o delivered now =
    record {
      kind = "agent_queue_latency";
      title = "Agent queue wait above 2 seconds";
      severity = "warning";
      hit = leb (o.created_at + 2 * second) delivered;
    }
    ∷ record {
      kind = "agent_execution_latency";
      title = "Agent execution above 30 seconds";
      severity = "warning";
      hit = leb (started o delivered + 30 * second) (ended o now);
    }
    ∷ []

-- `evaluateOperationLatency`. The text `detail` of the alert is left out.
unfoldable pub evaluate_operation_latency : String → ℕ → Operation → Watch → Watch
unfolding evaluate_all
evaluate_operation_latency server_id now o w = elim o.delivered_at [
  | none ↦ w
  | some delivered ↦
      evaluate_all (evaluate_latency server_id now) (latency_checks o delivered now) w
]
