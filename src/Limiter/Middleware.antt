-- ===== src/Limiter/Middleware.antt =====
-- The middleware's requests do not disturb each other's clients (internal/ratelimit/ratelimit.go).
use onmi_routers.Base.{
  inl, inr, Bool-cases, Option-cases, ℕ, ◌≡◌, refl, ◌≢◌, String, false, arith, eq_iff, leb, str_eq,
  if◌then◌else◌,
}
use onmi_routers.Base.Assoc.{lookup, lookup-insert}
use onmi_routers.Limiter.{
  Limiter, take_token, allow_with_limit, Request, client_id, Keys, limited, middleware, exempt,
  key_limits, is_zero, positive_or,
}

-- Limiters that agree on their settings and on one client.
pub record IsAlike (client : String) (a b : Limiter) : Type 0 where
  pub same_limit : a.limit ≡ b.limit
  pub same_burst : a.burst ≡ b.burst
  pub same_window : a.window ≡ b.window
  pub same_bucket : lookup client a.clients ≡ lookup client b.clients

limited-IsAlike :
    (now : ℕ) (c client : String) (rpm burst : ℕ) (rl : Limiter)
    → str_eq c client ≡ false
    → IsAlike client (limited now c rpm burst rl).0 rl
unfolding limited allow_with_limit
limited-IsAlike now c client rpm burst rl other =
    let b' : ℕ = if leb burst 0 then rpm else burst in
    let new = (take_token rl.window rpm b' now (lookup c rl.clients)).0 in
    record {
      same_limit = ground arith;
      same_burst = ground arith;
      same_window = ground arith;
      same_bucket = ground (arith, lookup-insert c client new rl.clients);
    }

IsAlike-refl : (client : String) (rl : Limiter) → IsAlike client rl rl
IsAlike-refl client rl = record {
  same_limit = refl;
  same_burst = refl;
  same_window = refl;
  same_bucket = refl;
}

middleware-IsAlike :
    (am : Keys) (now : ℕ) (r : Request) (client : String) (rl : Limiter)
    → str_eq (client_id r) client ≡ false
    → IsAlike client (middleware am now r rl).0 rl
unfolding middleware
middleware-IsAlike am now r client rl other = elim (Bool-cases (exempt r.path)) [
  | inl free ↦ rw (free, middleware) (IsAlike-refl client rl)
  | inr checked ↦ elim (Option-cases (key_limits am r.client_key)) [
    | inl no_key ↦
        rw (checked, no_key, middleware)
          (limited-IsAlike now (client_id r) client rl.limit rl.burst rl other)
    | inr ((rpm, burst), found) ↦ elim (Bool-cases (is_zero rpm)) [
      | inl unlimited ↦ rw (checked, found, unlimited, middleware) (IsAlike-refl client rl)
      | inr positive ↦
          rw (checked, found, positive, middleware)
            (limited-IsAlike now (client_id r) client (positive_or rl.limit rpm)
              (positive_or rl.burst burst) rl other)
    ]
  ]
]

limited-answer :
    (now : ℕ) (client : String) (rpm burst : ℕ) (a b : Limiter)
    → IsAlike client a b
    → (limited now client rpm burst a).1 ≡ (limited now client rpm burst b).1
unfolding limited allow_with_limit
limited-answer now client rpm burst a b v = ground (arith, v.same_window, v.same_bucket)

middleware-answer :
    (am : Keys) (now : ℕ) (r : Request) (a b : Limiter)
    → IsAlike (client_id r) a b
    → (middleware am now r a).1 ≡ (middleware am now r b).1
unfolding middleware
middleware-answer am now r a b v = elim (Option-cases (key_limits am r.client_key)) [
  | inl no_key ↦ ground (
    arith,
    no_key,
    v.same_limit,
    v.same_burst,
    limited-answer now (client_id r) a.limit a.burst a b v,
  )
  | inr ((rpm, burst), found) ↦
      let limit = positive_or a.limit rpm in
      ground (
        arith,
        found,
        v.same_limit,
        v.same_burst,
        limited-answer now (client_id r) limit (positive_or a.burst burst) a b v,
      )
]

-- A request does not change what another client is told: whatever its path, key and limits, a
-- request of one client leaves the answer to a later request of a client with another identifier as
-- it was.
pub middleware_isolates :
    (am : Keys) (t now : ℕ) (q r : Request) (rl : Limiter)
    → client_id q ≢ client_id r
    → (middleware am now r (middleware am t q rl).0).1 ≡ (middleware am now r rl).1
middleware_isolates am t now q r rl other = middleware-answer am now r (middleware am t q rl).0 rl (
    middleware-IsAlike am t q (client_id r) rl (ground (arith, eq_iff (client_id q) (client_id r))))
