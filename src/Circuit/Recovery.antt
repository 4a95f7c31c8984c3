-- ===== src/Circuit/Recovery.antt =====
-- How an open circuit is probed, and how it closes again (internal/upstream/health.go).
use onmi_routers.Base.{
  ℕ, ◌+◌, ◌-◌, ◌≤◌, ◌≡◌, List, [], ◌∷◌, ◌++◌, Bool, true, false, none, All, arith, ◌≢◌,
}
use onmi_routers.Circuit.{
  UpstreamHealth, Event, asks, records, checks_grok, checks_cb, checks_cf, unreachable, answered,
  CircuitState, closed, open_circuit, half_open, open_duration, half_open_limit, step, can_request,
  record_request, health_status_ok,
}
use onmi_routers.Circuit.Invariant.{run}

-- No request and no test request succeeds.
abbrev pub IsFruitless : ℕ × Event → Type 0
IsFruitless (now, asks) = Unit {0}
IsFruitless (now, records latency err) = err ≢ none
IsFruitless (now, checks_grok latency (unreachable msg) pool) = Unit {0}
IsFruitless (now, checks_grok latency (answered code) pool) = health_status_ok code ≡ false
IsFruitless (now, checks_cb latency (unreachable msg) pool) = Unit {0}
IsFruitless (now, checks_cb latency (answered code) pool) = health_status_ok code ≡ false
IsFruitless (now, checks_cf latency (unreachable msg) pool) = Unit {0}
IsFruitless (now, checks_cf latency (answered code) pool) = health_status_ok code ≡ false

-- How many requests may still go through before one succeeds.
budget_in : CircuitState → ℕ → ℕ
budget_in closed probes = 0
budget_in open_circuit probes = half_open_limit + 1
budget_in half_open probes = half_open_limit - probes

pub budget : UpstreamHealth → ℕ
unfolding budget_in
budget h = budget_in h.state h.half_open_probes

pub admitted : List Bool → ℕ
admitted [] = 0
admitted (true ∷ rest) = 1 + admitted rest
admitted (false ∷ rest) = admitted rest

admitted-append : (xs ys : List Bool) → admitted (xs ++ ys) ≡ admitted xs + admitted ys
unfolding admitted
admitted-append [] ys = omega arith
admitted-append (true ∷ xs) ys = omega (arith, admitted-append xs ys)
admitted-append (false ∷ xs) ys = admitted-append xs ys

fruitless-step :
    (c : ℕ × Event) (h : UpstreamHealth)
    → IsFruitless c
    → h.state ≢ closed
    → let (h', answers) = step c.0 c.1 h in
      (h'.state ≢ closed) × (admitted answers + budget h' ≤ budget h)
unfolding step budget admitted
fruitless-step (now, asks) h f s = ground arith
fruitless-step (now, records latency err) h f s = ground arith
fruitless-step (now, checks_grok latency (unreachable msg) []) h f s = ground arith
fruitless-step (now, checks_cb latency (unreachable msg) []) h f s = ground arith
fruitless-step (now, checks_cf latency (unreachable msg) []) h f s = ground arith
fruitless-step _ h f s = ground arith

-- On a circuit that is not closed, as long as no request and no test request succeeds, the requests
-- that go through number at most what the circuit has left: two while it is open, and in the
-- half-open state one less the probes used. The circuit does not close.
pub fruitless-run :
    (es : List (ℕ × Event)) (h : UpstreamHealth)
    → All IsFruitless es
    → h.state ≢ closed
    → let (h', answers) = run es h in
      (h'.state ≢ closed) × (admitted answers + budget h' ≤ budget h)
unfolding run admitted
fruitless-run [] h f s = (s, omega arith)
fruitless-run ((now, e) ∷ es) h f s =
    let one = fruitless-step (now, e) h f.0 s in
    let rest = fruitless-run es (step now e h).0 f.1 one.0 in
    (rest.0, omega (arith, one, rest, admitted-append (step now e h).1 (run es (step now e h).0).1))

half_open-stays :
    (c : ℕ × Event) (h : UpstreamHealth)
    → IsFruitless c
    → h.state ≡ half_open
    → (step c.0 c.1 h).0.state ≡ half_open
unfolding step
half_open-stays (now, asks) h f s = ground arith
half_open-stays (now, records latency err) h f s = ground arith
half_open-stays (now, checks_grok latency (unreachable msg) []) h f s = ground arith
half_open-stays (now, checks_cb latency (unreachable msg) []) h f s = ground arith
half_open-stays (now, checks_cf latency (unreachable msg) []) h f s = ground arith
half_open-stays _ h f s = ground arith

half_open-run :
    (es : List (ℕ × Event)) (h : UpstreamHealth)
    → All IsFruitless es
    → h.state ≡ half_open
    → (run es h).0.state ≡ half_open
unfolding run
half_open-run [] h f s = s
half_open-run ((now, e) ∷ es) h f s =
    half_open-run es (step now e h).0 f.1 (half_open-stays (now, e) h f.0 s)

-- The failed probe does not open the circuit again: once the half-open probe is used up, then for as
-- long as nothing succeeds, and however much time passes, the circuit stays half-open and lets no
-- request through.
pub half_open_stuck :
    (es : List (ℕ × Event)) (h : UpstreamHealth)
    → All IsFruitless es
    → h.state ≡ half_open
    → h.half_open_probes ≡ half_open_limit
    → ((run es h).0.state ≡ half_open) × (admitted (run es h).1 ≡ 0)
unfolding budget
half_open_stuck es h f s p = (half_open-run es h f s, ground (arith, fruitless-run es h f))

-- Sixty seconds after its opening an open circuit turns half-open and lets two requests through, and
-- a request that succeeds in the half-open state closes the circuit with no error counted.
pub probes_then_closes :
    (h : UpstreamHealth) (t₁ t₂ t₃ t latency : ℕ)
    → h.state ≡ open_circuit
    → open_duration ≤ t₁ - h.opened_at
    → let (h₁, first) = can_request t₁ h in
      let (h₂, second) = can_request t₂ h₁ in
      let (h₃, third) = can_request t₃ h₂ in
      let h₄ = record_request t latency none h₃ in
      (first ≡ true)
      × (second ≡ true)
      × (third ≡ false)
      × (h₃.state ≡ half_open)
      × (h₄.state ≡ closed)
      × (h₄.consecutive_errs ≡ 0)
unfolding can_request record_request
probes_then_closes h t₁ t₂ t₃ t latency s w = ground arith
