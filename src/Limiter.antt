-- ===== src/Limiter.antt =====
-- internal/ratelimit/ratelimit.go: token buckets for the clients, and the middleware's limits.
-- Times and lengths of time are numbers of nanoseconds; the clock does not run backwards. The
-- source counts tokens in float64; here a bucket holds whole units of 1/window token, in which
-- `elapsed * rpm / window` is exact, so rounding is not modelled. A limit of the source that is
-- negative is 0 here, where the source treats it so.
pub mod Tokens
pub mod Rate
pub mod Middleware
mod Tests
use onmi_routers.Base.Int.{ℤ, pos, negsuc}
use onmi_routers.Base.{
  suc, zero, ◌||◌, ℕ, ◌+◌, ◌-◌, ◌*◌, String, Bool, true, false, List, [], Option, none, some, leb,
  ltb, str_eq, keep, if◌then◌else◌,
}
use onmi_routers.Base.Assoc.{lookup, insert}

-- `tokens` is the number of tokens times the window's length.
pub record ClientBucket : Type 0 where
  pub tokens : ℕ
  pub last_time : ℕ

pub record Limiter : Type 0 where
  pub limit : ℕ
  pub burst : ℕ
  pub window : ℕ
  pub clients : List (String × ClientBucket)

pub new_limiter : ℕ → ℕ → ℕ → Limiter
new_limiter limit burst window = record {
  limit = limit;
  burst = burst;
  window = window;
  clients = [];
}

-- The bucket after the time that has passed: refilled at `rpm` tokens a window, up to `burst`.
pub refill : ℕ → ℕ → ℕ → ℕ → ClientBucket → ClientBucket
refill window rpm burst now b =
    let tokens = b.tokens + (now - b.last_time) * rpm in
    record {
      tokens = if ltb (burst * window) tokens then burst * window else tokens;
      last_time = now;
    }

-- What one call does to the client's bucket, and whether it lets the request through.
pub take_token : ℕ → ℕ → ℕ → ℕ → Option ClientBucket → ClientBucket × Bool
unfolding refill
take_token window rpm burst now none =
    (record { tokens = burst * window - window; last_time = now }, true)
take_token window rpm burst now (some bucket) =
    let b = refill window rpm burst now bucket in
    if leb window b.tokens then (record b { tokens = b.tokens - window }, true) else (b, false)

pub allow_with_limit : ℕ → String → ℕ → ℕ → Limiter → Limiter × Bool
unfolding take_token
allow_with_limit now client rpm burst rl =
    let burst' = if leb burst 0 then rpm else burst in
    let (b, ok) = take_token rl.window rpm burst' now (lookup client rl.clients) in
    if leb rpm 0 then (rl, true) else (record rl { clients = insert client b rl.clients }, ok)

pub allow : ℕ → String → Limiter → Limiter × Bool
allow now client rl = allow_with_limit now client rl.limit rl.burst rl

-- One tick of the worker: the clients idle for ten minutes go.
pub cleanup : ℕ → Limiter → Limiter
cleanup now rl = record rl {
  clients = keep (λ c. leb (now - 10 * 60 * 1_000_000_000) (c.1).last_time) rl.clients;
}

-- What the middleware says: nothing, or 429 with its hint's limit, window and burst.
pub data Response : Type 0 where
  passes : Response
  too_many : ℕ → ℕ → ℕ → Response

-- The number of an integer that is positive, or the other.
abbrev pub positive_or : ℕ → ℤ → ℕ
positive_or n (pos zero) = n
positive_or n (pos (suc k)) = suc k
positive_or n (negsuc k) = n

abbrev pub is_zero : ℤ → Bool
is_zero (pos zero) = true
is_zero _ = false

-- Paths that the middleware does not limit.
pub exempt : String → Bool
exempt path = str_eq path "/health" || str_eq path "/" || str_eq path "/dashboard"

-- A request: its path, the client's address, and the key that authentication set.
pub record Request : Type 0 where
  pub path : String
  pub ip : String
  pub client_key : Option String

pub client_id : Request → String
client_id r = elim r.client_key [ none ↦ r.ip | some key ↦ key ]

-- The limits of the key, as `LookupKey` gives them; none of these without a manager of keys.
abbrev pub Keys : Type 0
Keys = Option (String → Option (ℤ × ℤ))

pub key_limits : Keys → Option String → Option (ℤ × ℤ)
key_limits none key = none
key_limits (some find) none = none
key_limits (some find) (some key) = if str_eq key "" then none else find key

pub limited : ℕ → String → ℕ → ℕ → Limiter → Limiter × Response
unfolding allow_with_limit
limited now client rpm burst rl =
    let (rl', ok) = allow_with_limit now client rpm burst rl in
    (rl', if ok then passes else too_many rpm rl.window burst)

pub middleware : Keys → ℕ → Request → Limiter → Limiter × Response
unfolding client_id key_limits limited exempt
middleware am now r rl = if exempt r.path then (rl, passes) else elim (key_limits am r.client_key) [
  | none ↦ limited now (client_id r) rl.limit rl.burst rl
  | some (rpm, burst) ↦
      if is_zero rpm
      then (rl, passes)
      else limited now (client_id r) (positive_or rl.limit rpm) (positive_or rl.burst burst) rl
]
