-- ===== src/Circuit/Tests.antt =====
-- Examples of the circuit breaker (internal/upstream/health.go).
use onmi_routers.Circuit.Recovery.{probes_then_closes}
use onmi_routers.Base.{true, arith, ◌≡◌, ℕ, refl, List, [], ◌∷◌, some, none, false}
use onmi_routers.Circuit.{
  record_request, open_duration, half_open, can_request, open_circuit, CircuitState, closed,
  UpstreamHealth, Event, asks, records, checks_cf, answered, new_upstream_health,
}
use onmi_routers.Circuit.Invariant.{IsValid, run, run-IsValid}

-- A record with some state, errors in a row, time of opening and probes used.
abbrev health : CircuitState → ℕ → ℕ → ℕ → UpstreamHealth
health state errs opened probes = record {
  state = state;
  consecutive_errs = errs;
  opened_at = opened;
  half_open_probes = probes;
  total_requests = 9;
  total_errors = errs;
  total_latency_ms = 100;
  last_request_at = opened;
  last_error_at = opened;
  last_error_msg = none;
  last_check_at = 0;
  last_check_lat_ms = 0;
  last_check_ok = false;
  gauge = 0;
}

abbrev timeout : Event
timeout = records 30 (some "timeout")

abbrev two_failures : List (ℕ × Event)
two_failures = (10, timeout) ∷ (20, timeout) ∷ []

-- Two failures, asking after each, and a check of a pool without accounts.
abbrev outage : List (ℕ × Event)
outage =
    (10, timeout) ∷ (11, asks) ∷ (20, checks_cf 5 (answered 503) (false ∷ [])) ∷ (21, asks) ∷ []

run-IsValid_example : IsValid (run outage new_upstream_health).0
run-IsValid_example = run-IsValid outage

abbrev served : List (ℕ × Event)
served = (1, asks) ∷ (2, timeout) ∷ (3, records 5 none) ∷ []

abbrev late_success : List (ℕ × Event)
late_success = (110, asks) ∷ (120, records 5 none) ∷ []

probes_then_closes_example :
    let (h₁, first) = can_request open_duration (health open_circuit 5 0 0) in
    let (h₂, second) = can_request open_duration h₁ in
    let (h₃, third) = can_request open_duration h₂ in
    let h₄ = record_request open_duration 7 none h₃ in
    (first ≡ true)
    × (second ≡ true)
    × (third ≡ false)
    × (h₃.state ≡ half_open)
    × (h₄.state ≡ closed)
    × (h₄.consecutive_errs ≡ 0)
probes_then_closes_example =
    probes_then_closes (health open_circuit 5 0 0) open_duration open_duration open_duration
      open_duration 7 refl (omega arith)
