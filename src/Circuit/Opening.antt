-- ===== src/Circuit/Opening.antt =====
-- When the circuit opens, and that it then stays open (internal/upstream/health.go).
use onmi_routers.Base.{
  ℕ, ◌+◌, ◌-◌, ◌<◌, ◌≡◌, ap, String, true, none, some, List, [], ◌∷◌, arith, ltb, if◌then◌else◌,
  length, All,
}
use onmi_routers.Circuit.{
  can_request, can_request_in, record_request, UpstreamHealth, Event, asks, records, closed,
  open_circuit, open_threshold, open_duration, step,
}
use onmi_routers.Circuit.Invariant.{run}

abbrev pub IsFailure : ℕ × Event → Type 0
IsFailure (now, records latency (some msg)) = Unit {0}
IsFailure (now, _) = ⊥

failure_counts :
    (c : ℕ × Event) (h : UpstreamHealth)
    → IsFailure c
    → h.state ≡ closed
    → let h' = (step c.0 c.1 h).0 in
      (h'.consecutive_errs ≡ h.consecutive_errs + 1)
      × (h'.state ≡ (if ltb (h.consecutive_errs + 1) open_threshold then closed else open_circuit))
unfolding step
failure_counts (now, records latency (some msg)) h f s = ground arith
failure_counts (now, records latency none) h f s = absurd f
failure_counts (now, asks) h f s = absurd f
failure_counts (now, _) h f s = absurd f

failure-open :
    (c : ℕ × Event) (h : UpstreamHealth)
    → IsFailure c
    → h.state ≡ open_circuit
    → (step c.0 c.1 h).0.state ≡ open_circuit
unfolding step
failure-open (now, records latency (some msg)) h f s = ground arith
failure-open (now, records latency none) h f s = absurd f
failure-open (now, asks) h f s = absurd f
failure-open (now, _) h f s = absurd f

failures-open :
    (es : List (ℕ × Event)) (h : UpstreamHealth)
    → All IsFailure es
    → h.state ≡ open_circuit
    → (run es h).0.state ≡ open_circuit
unfolding run
failures-open [] h f s = s
failures-open ((now, e) ∷ es) h f s =
    failures-open es (step now e h).0 f.1 (failure-open (now, e) h f.0 s)

-- On a closed circuit, failed requests in a row, at any times, open the circuit exactly when the
-- count of errors reaches five.
pub failures_open_at_threshold :
    (es : List (ℕ × Event)) (h : UpstreamHealth)
    → All IsFailure es
    → h.state ≡ closed
    → h.consecutive_errs < open_threshold
    → (run es h).0.state
      ≡ (if ltb (h.consecutive_errs + length es) open_threshold then closed else open_circuit)
unfolding run
failures_open_at_threshold [] h f s b = ground arith
failures_open_at_threshold ((now, e) ∷ es) h f s b = ground (
  arith,
  failure_counts (now, e) h f.0 s,
  failures_open_at_threshold es (step now e h).0 f.1,
  failures-open es (step now e h).0 f.1,
)

abbrev pub IsWithin : ℕ → ℕ × Event → Type 0
IsWithin opened (now, e) = now - opened < open_duration

-- One error on a circuit that is closed, and on one that is open.
pub record_request-closed :
    (now latency : ℕ) (msg : String) (h : UpstreamHealth)
    → h.state ≡ closed
    → h.consecutive_errs < open_threshold
    → let h' = record_request now latency (some msg) h in
      (h'.consecutive_errs ≡ h.consecutive_errs + 1)
      × (h'.state ≡ (if ltb (h.consecutive_errs + 1) open_threshold then closed else open_circuit))
unfolding record_request
record_request-closed now latency msg h s c = ground arith

-- Each error that is recorded is counted, whatever the state.
pub record_request_counts :
    (now latency : ℕ) (msg : String) (h : UpstreamHealth)
    → let h' = record_request now latency (some msg) h in
      (h'.total_requests ≡ h.total_requests + 1) × (h'.total_errors ≡ h.total_errors + 1)
unfolding record_request
record_request_counts now latency msg h = ground arith

pub record_request-open :
    (now latency : ℕ) (msg : String) (h : UpstreamHealth)
    → h.state ≡ open_circuit
    → (record_request now latency (some msg) h).state ≡ open_circuit
unfolding record_request
record_request-open now latency msg h s = ground arith

pub can_request-closed :
    (now : ℕ) (h : UpstreamHealth) → h.state ≡ closed → can_request now h ≡ (h, true)
unfolding can_request can_request_in
can_request-closed now h s = ap (λ st. can_request_in st now h) s
