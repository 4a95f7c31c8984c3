-- ===== src/Circuit.antt =====
-- internal/upstream/health.go: the circuit breaker and the health record of one upstream.
-- A time is a number of nanoseconds; 0 is Go's zero time. A method that changes `*UpstreamHealth`
-- takes the clock's reading and returns the new record. `gauge` is the value that
-- `metrics.SetCircuitState` was last given for this upstream.
pub mod Invariant
pub mod Recovery
pub mod Opening
mod Tests
use onmi_routers.Base.{
  ℕ, suc, ◌+◌, ◌-◌, ◌*◌, String, Bool, true, false, ◌&&◌, List, [], ◌∷◌, Option, none, some, leb,
  ltb, if◌then◌else◌,
}

pub data CircuitState : Type 0 where
  closed open_circuit half_open : CircuitState

-- The text of `lastErrorMsg`; `llm_status n` is "LLM test status n".
pub data ErrorMsg : Type 0 where
  text : String → ErrorMsg
  llm_status : ℕ → ErrorMsg

-- CB_OPEN_THRESHOLD, CB_OPEN_DURATION and CB_HALF_OPEN_PROBES of upstream.go.
abbrev pub open_threshold : ℕ
open_threshold = 5

abbrev pub open_duration : ℕ
open_duration = 60 * 1_000_000_000

abbrev pub half_open_limit : ℕ
half_open_limit = 1

pub record UpstreamHealth : Type 0 where
  pub state : CircuitState
  pub consecutive_errs : ℕ
  pub opened_at : ℕ
  pub half_open_probes : ℕ
  pub total_requests : ℕ
  pub total_errors : ℕ
  pub total_latency_ms : ℕ
  pub last_request_at : ℕ
  pub last_error_at : ℕ
  pub last_error_msg : Option ErrorMsg
  pub last_check_at : ℕ
  pub last_check_lat_ms : ℕ
  pub last_check_ok : Bool
  pub gauge : ℕ

unfoldable pub new_upstream_health : UpstreamHealth
new_upstream_health = record {
  state = closed;
  consecutive_errs = 0;
  opened_at = 0;
  half_open_probes = 0;
  total_requests = 0;
  total_errors = 0;
  total_latency_ms = 0;
  last_request_at = 0;
  last_error_at = 0;
  last_error_msg = none;
  last_check_at = 0;
  last_check_lat_ms = 0;
  last_check_ok = false;
  gauge = 0;
}

abbrev pub is_closed : CircuitState → Bool
is_closed closed = true
is_closed _ = false

-- The number that `setCircuitState` reports for a state.
pub gauge_of : CircuitState → ℕ
gauge_of closed = 0
gauge_of open_circuit = 1
gauge_of half_open = 2

set_circuit_state : UpstreamHealth → UpstreamHealth
unfolding gauge_of
set_circuit_state h = record h { gauge = gauge_of h.state }

-- `consecutiveErrs++`, and the test that opens the circuit.
count_error : ℕ → UpstreamHealth → UpstreamHealth
count_error now h =
    let h' = record h { consecutive_errs = h.consecutive_errs + 1 } in
    if leb open_threshold h'.consecutive_errs && is_closed h'.state
    then record h' { state = open_circuit; opened_at = now }
    else h'

-- The same in `RecordRequest`, which reports the new state.
record_error : ℕ → UpstreamHealth → UpstreamHealth
unfolding set_circuit_state
record_error now h =
    let h' = record h { consecutive_errs = h.consecutive_errs + 1 } in
    if leb open_threshold h'.consecutive_errs && is_closed h'.state
    then set_circuit_state (record h' { state = open_circuit; opened_at = now })
    else h'

record_success : CircuitState → UpstreamHealth → UpstreamHealth
unfolding set_circuit_state
record_success half_open h =
    set_circuit_state (record h { state = closed; consecutive_errs = 0; half_open_probes = 0 })
record_success closed h = record h { consecutive_errs = 0 }
record_success open_circuit h = h

-- `err` is the error's text, `latency` its length in milliseconds.
pub record_request : ℕ → ℕ → Option String → UpstreamHealth → UpstreamHealth
unfolding record_error record_success
record_request now latency err h =
    let h' = record h {
      total_requests = h.total_requests + 1;
      total_latency_ms = h.total_latency_ms + latency;
      last_request_at = now;
    } in
    elim err [
      | some msg ↦ record_error now (record h' {
        total_errors = h'.total_errors + 1;
        last_error_at = now;
        last_error_msg = some (text msg);
      })
      | none ↦ record_success h'.state h'
    ]

pub can_request_in : CircuitState → ℕ → UpstreamHealth → UpstreamHealth × Bool
unfolding set_circuit_state
can_request_in closed now h = (h, true)
can_request_in open_circuit now h =
    if leb open_duration (now - h.opened_at)
    then (set_circuit_state (record h { state = half_open; half_open_probes = 0 }), true)
    else (h, false)
can_request_in half_open now h =
    if ltb h.half_open_probes half_open_limit
    then (record h { half_open_probes = h.half_open_probes + 1 }, true)
    else (h, false)

-- The new record, and whether the request may go through.
pub can_request : ℕ → UpstreamHealth → UpstreamHealth × Bool
unfolding can_request_in
can_request now h = can_request_in h.state now h

pub health_status_ok : ℕ → Bool
health_status_ok code = leb 200 code && ltb code 400

-- What the test request of an active check came back with.
pub data Probe : Type 0 where
  unreachable : String → Probe
  answered : ℕ → Probe

check_success : CircuitState → UpstreamHealth → UpstreamHealth
check_success half_open h = record h { state = closed; consecutive_errs = 0 }
check_success closed h = record h { consecutive_errs = 0 }
check_success open_circuit h = h

-- The end of an active check, after the test request.
finish_check : ℕ → ℕ → Probe → UpstreamHealth → UpstreamHealth
unfolding check_success count_error health_status_ok
finish_check now latency (unreachable msg) h = count_error now (record h {
  last_check_at = now;
  last_check_lat_ms = latency;
  last_check_ok = false;
  last_error_msg = some (text msg);
})
finish_check now latency (answered code) h =
    if health_status_ok code
    then check_success h.state (record h {
      last_check_at = now;
      last_check_lat_ms = latency;
      last_check_ok = true;
      last_error_msg = some (text "");
    })
    else count_error now (record h {
      last_check_at = now;
      last_check_lat_ms = latency;
      last_check_ok = false;
      last_error_msg = some (llm_status code);
    })

fail_check : ℕ → String → UpstreamHealth → UpstreamHealth
fail_check now msg h = record h {
  last_check_at = now;
  last_check_ok = false;
  last_check_lat_ms = 0;
  last_error_msg = some (text msg);
}

-- Whether some account of a pool, given by its `disabled` flag, is enabled.
any_enabled : List Bool → Bool
any_enabled [] = false
any_enabled (false ∷ rest) = true
any_enabled (true ∷ rest) = any_enabled rest

test_pool : String → ℕ → ℕ → Probe → List Bool → UpstreamHealth → UpstreamHealth
unfolding any_enabled finish_check fail_check
test_pool all_disabled now latency probe pool h =
    if any_enabled pool then finish_check now latency probe h else fail_check now all_disabled h

-- An active check, over the `disabled` flags of the pool.
pub check_grok : ℕ → ℕ → Probe → List Bool → UpstreamHealth → UpstreamHealth
unfolding test_pool count_error fail_check
check_grok now latency probe [] h = count_error now (fail_check now "no grok accounts loaded" h)
check_grok now latency probe (d ∷ ds) h =
    test_pool "all grok accounts disabled" now latency probe (d ∷ ds) h

pub check_cb : ℕ → ℕ → Probe → List Bool → UpstreamHealth → UpstreamHealth
unfolding test_pool count_error fail_check
check_cb now latency probe [] h = count_error now (fail_check now "no cb keys loaded" h)
check_cb now latency probe (d ∷ ds) h =
    test_pool "all cb keys disabled" now latency probe (d ∷ ds) h

pub check_cf : ℕ → ℕ → Probe → List Bool → UpstreamHealth → UpstreamHealth
unfolding test_pool fail_check
check_cf now latency probe [] h = fail_check now "no cf keys loaded" h
check_cf now latency probe (d ∷ ds) h =
    test_pool "all cf keys disabled" now latency probe (d ∷ ds) h

-- What happens to one upstream's record, and when.
pub data Event : Type 0 where
  asks : Event
  records : ℕ → Option String → Event
  checks_grok checks_cb checks_cf : ℕ → Probe → List Bool → Event

-- The new record, and the answers given to the requests that asked.
pub step : ℕ → Event → UpstreamHealth → UpstreamHealth × List Bool
unfolding can_request record_request check_grok check_cb check_cf
step now asks h = let (h', ok) = can_request now h in (h', ok ∷ [])
step now (records latency err) h = (record_request now latency err h, [])
step now (checks_grok latency probe pool) h = (check_grok now latency probe pool h, [])
step now (checks_cb latency probe pool) h = (check_cb now latency probe pool h, [])
step now (checks_cf latency probe pool) h = (check_cf now latency probe pool h, [])
