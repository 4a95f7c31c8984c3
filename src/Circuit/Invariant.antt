-- ===== src/Circuit/Invariant.antt =====
-- What holds of an upstream's health record between two events (internal/upstream/health.go), and
-- what the metrics gauge says of it.
use onmi_routers.Base.{
  ltb, ℕ, ◌+◌, ◌≤◌, ◌≡◌, ◌≢◌, String, List, [], ◌∷◌, ◌++◌, Bool, false, All, arith,
}
use onmi_routers.Circuit.{
  is_closed, UpstreamHealth, Event, asks, records, checks_grok, checks_cb, checks_cf, unreachable,
  closed, open_circuit, open_threshold, half_open_limit, new_upstream_health, step, gauge_of,
}

pub record IsValid (h : UpstreamHealth) : Type 0 where
  pub calm : is_closed h.state ≡ ltb h.consecutive_errs open_threshold
  pub probing : h.half_open_probes ≤ half_open_limit
  pub counted : h.total_errors ≤ h.total_requests

new-IsValid : IsValid new_upstream_health
unfolding new_upstream_health
new-IsValid = ground arith

pub step-IsValid : (now : ℕ) (e : Event) (h : UpstreamHealth) → IsValid h → IsValid (step now e h).0
unfolding step
step-IsValid now asks h v = ground arith
step-IsValid now (checks_grok latency (unreachable msg) []) h v = ground arith
step-IsValid now (checks_cb latency (unreachable msg) []) h v = ground arith
step-IsValid now (checks_cf latency (unreachable msg) []) h v = ground arith
step-IsValid now _ h v = ground arith

-- The events in turn: the last record, and all answers in order.
unfoldable pub run : List (ℕ × Event) → UpstreamHealth → UpstreamHealth × List Bool
run [] h = (h, [])
run ((now, e) ∷ es) h =
    let (h', answers) = step now e h in let (h'', later) = run es h' in (h'', answers ++ later)

run_from-IsValid : (es : List (ℕ × Event)) (h : UpstreamHealth) → IsValid h → IsValid (run es h).0
unfolding run
run_from-IsValid [] h v = v
run_from-IsValid ((now, e) ∷ es) h v = run_from-IsValid es (step now e h).0 (step-IsValid now e h v)

-- After any events, in any order and at any times, a new upstream's record is well formed: the
-- circuit is closed exactly while fewer than five errors in a row are counted, at most one
-- half-open probe is counted, and no more errors are counted than requests.
pub run-IsValid : (es : List (ℕ × Event)) → IsValid (run es new_upstream_health).0
run-IsValid es = run_from-IsValid es new_upstream_health new-IsValid

-- A request asks, or its outcome is recorded.
abbrev pub IsPassive : ℕ × Event → Type 0
IsPassive (now, asks) = Unit {0}
IsPassive (now, records latency err) = Unit {0}
IsPassive (now, _) = ⊥

gauge-step :
    (c : ℕ × Event) (h : UpstreamHealth)
    → IsPassive c
    → h.gauge ≡ gauge_of h.state
    → (step c.0 c.1 h).0.gauge ≡ gauge_of (step c.0 c.1 h).0.state
unfolding step gauge_of
gauge-step (now, asks) h p g = ground arith
gauge-step (now, records latency err) h p g = ground arith
gauge-step (now, _) h p g = absurd p

-- Requests that ask and outcomes that are recorded keep the metrics gauge equal to the circuit's
-- state.
pub run-gauge :
    (es : List (ℕ × Event)) (h : UpstreamHealth)
    → All IsPassive es
    → h.gauge ≡ gauge_of h.state
    → (run es h).0.gauge ≡ gauge_of (run es h).0.state
unfolding run
run-gauge [] h p g = g
run-gauge ((now, e) ∷ es) h p g = run-gauge es (step now e h).0 p.1 (gauge-step (now, e) h p.0 g)

-- An active check that moves the circuit leaves the gauge behind: a Grok test request that fails,
-- made because the pool's first account is enabled, on a closed circuit with four errors in a row
-- opens the circuit, and the gauge still says closed.
pub check_leaves_gauge :
    (now latency : ℕ) (msg : String) (ds : List Bool) (h : UpstreamHealth)
    → h.state ≡ closed
    → h.gauge ≡ gauge_of h.state
    → h.consecutive_errs + 1 ≡ open_threshold
    → let h' = (step now (checks_grok latency (unreachable msg) (false ∷ ds)) h).0 in
      (h'.state ≡ open_circuit) × (h'.gauge ≢ gauge_of h'.state)
unfolding step gauge_of
check_leaves_gauge now latency msg ds h s g e = ground arith
