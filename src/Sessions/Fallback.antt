-- ===== src/Sessions/Fallback.antt =====
-- The sessions with Redis when Redis refuses a write (internal/auth/session_store.go).
use onmi_routers.Base.{ℕ, ◌/◌, ◌≡◌, refl, String, false, none, some, List, arith}
use onmi_routers.Base.Assoc.{lookup, lookup-insert_self}
use onmi_routers.Sessions.{
  Session, RedisClient, second, prefixed, new_session, lookup_redis, create, lookup_session,
}

module _ {R : Type 0} (c : RedisClient R) where
  -- A session that Redis refuses is lost: in the mode with Redis, when the write of a new session fails
  -- and Redis then has no value for the token, `create` keeps the session in the local map, but the
  -- look-up of that token at any time gives no key, since it only asks Redis.
  pub fallback_lost :
      (token api_key : String) (now later : ℕ) (r : R) (m : List (String × Session))
      → let wrote = c.set (prefixed token) (c.print api_key (now / second) (now / second)) r in
        let st' = create c token api_key now (record { rdb = some r; local_map = m }) in
        wrote.1 ≡ false
        → c.get (prefixed token) wrote.0 ≡ none
        → (lookup token st'.local_map ≡ some (new_session api_key now))
          × ((lookup_session c token later st').1 ≡ "")
  unfolding create lookup_session lookup_redis
  fallback_lost token api_key now later r m refused missing =
      let found = lookup-insert_self token (new_session api_key now) m in
      (rw (refused, found) refl, ground (arith, refused, missing))
