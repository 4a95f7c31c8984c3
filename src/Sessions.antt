-- ===== src/Sessions.antt =====
-- internal/auth/session_store.go: the sessions of the dashboard. A time is a number of nanoseconds, and
-- a token is the argument of `create`, since it is random. Redis is an argument: a state with the
-- operations that the code calls. `print` and `scan` write and read the value that Redis keeps.
pub mod Held
pub mod History
pub mod Fallback
mod Tests
use onmi_routers.Base.{
  ℕ, zero, suc, ◌+◌, ◌-◌, ◌*◌, ◌/◌, ◌%◌, ◌≤◌, ◌<◌, ◌≡◌, refl, sym, ap, ◌∙◌, ◌≢◌, ◌⊎◌, inl, inr,
  String, Bool, true, false, not, ◌&&◌, ◌||◌, Option, none, some, List, [], ◌∷◌, ◌++◌, map, arith,
  eq_iff, eq_refl, ltb, leb, ◌==◌, str_eq, if◌then◌else◌, Bool-cases, Option-cases, length,
  get_elem?, drop, keep, All, All-append, contains,
}
use Prim.Native.String.{◌++◌ as text_append}
use onmi_routers.Base.Assoc.{lookup, insert, erase}

pub record Session : Type 0 where
  pub key : String
  pub created_at : ℕ
  pub last_seen : ℕ

-- Set reports an error by `false`; Get has no value for a key that is missing or expired.
pub record RedisClient (R : Type 0) : Type 0 where
  pub set : String → String → R → R × Bool
  pub get : String → R → Option String
  pub del : String → R → R
  pub print : String → ℕ → ℕ → String
  pub scan : String → String × ℕ × ℕ

-- `rdb` is none in the mode without Redis.
pub record SessionStore (R : Type 0) : Type 0 where
  pub rdb : Option R
  pub local_map : List (String × Session)

abbrev pub second : ℕ
second = 1000000000

abbrev pub session_idle_ttl : ℕ
session_idle_ttl = 30 * 24 * 3600 * second

abbrev pub prefixed : String → String
prefixed token = text_append "sess:" token

abbrev pub new_session : String → ℕ → Session
new_session api_key now = record { key = api_key; created_at = now; last_seen = now }

unfoldable pub is_idle : ℕ → Session → Bool
is_idle now s = ltb session_idle_ttl (now - s.last_seen)

-- The look-up in the local map, on what the map holds.
unfoldable pub use_local :
    String → ℕ → List (String × Session) → Option Session → List (String × Session) × String
unfolding is_idle
use_local token now m none = (m, "")
use_local token now m (some s) =
    if is_idle now s
    then (erase token m, "")
    else (insert token (record s { last_seen = now }) m, s.key)

module _ {R : Type 0} (c : RedisClient R) where
  pub new_session_store : Option R → SessionStore R
  new_session_store rdb = record { rdb = rdb; local_map = [] }

  pub create : String → String → ℕ → SessionStore R → SessionStore R
  create token api_key now st = elim st.rdb [
    | none ↦ record st { local_map = insert token (new_session api_key now) st.local_map }
    | some r ↦
        let (r', stored) =
          c.set (prefixed token) (c.print api_key (now / second) (now / second)) r in
        record {
          rdb = some r';
          local_map =
              if stored then st.local_map else insert token (new_session api_key now) st.local_map;
        }
  ]

  -- What the value in Redis says: the key and the two times.
  pub lookup_redis : String → ℕ → R → R × String
  lookup_redis token now r = elim (c.get (prefixed token) r) [
    | none ↦ (r, "")
    | some val ↦
        let (api_key, created_at, last_seen) = c.scan val in
        if str_eq api_key ""
        then (r, "")
        else if ltb session_idle_ttl (now - last_seen * second)
        then (c.del (prefixed token) r, "")
        else ((c.set (prefixed token) (c.print api_key created_at (now / second)) r).0, api_key)
  ]

  pub lookup_session : String → ℕ → SessionStore R → SessionStore R × String
  unfolding use_local lookup_redis
  lookup_session token now st = if str_eq token "" then (st, "") else elim st.rdb [
    | some r ↦
        let (r', api_key) = lookup_redis token now r in (record st { rdb = some r' }, api_key)
    | none ↦
        let (m, api_key) = use_local token now st.local_map (lookup token st.local_map) in
        (record st { local_map = m }, api_key)
  ]

  pub revoke : String → SessionStore R → SessionStore R
  revoke token st = if str_eq token "" then st else elim st.rdb [
    | some r ↦ record st { rdb = some (c.del (prefixed token) r) }
    | none ↦ record st { local_map = erase token st.local_map }
  ]

  -- The worker runs it every hour, in the mode without Redis only.
  pub cleanup : ℕ → SessionStore R → SessionStore R
  unfolding is_idle
  cleanup now st = record st { local_map = keep (λ e. not (is_idle now e.1)) st.local_map }
