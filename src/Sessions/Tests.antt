-- ===== src/Sessions/Tests.antt =====
-- Examples of the sessions (internal/auth/session_store.go).
use onmi_routers.Base.{ne_of_str_eq, ◌+◌, ◌*◌, ◌≡◌, refl, String, false, none, List, [], ◌∷◌, arith}
use onmi_routers.Sessions.{RedisClient, session_idle_ttl, new_session_store}
use onmi_routers.Sessions.Held.{Timed, creates, looks, revokes, cleans, IsOrdered, expected}
use onmi_routers.Sessions.History.{answers, sessions_by_history}

-- A Redis that refuses every write.
abbrev down : RedisClient (List String)
down = record {
  set = λ k v r. (r, false);
  get = λ k r. none;
  del = λ k r. r;
  print = λ key a b. key;
  scan = λ val. (val, 0, 0);
}

-- A session that is used, left for more than its time, asked for, made again and revoked.
abbrev visits : List Timed
visits =
    (1, creates "token" "key")
    ∷ (2, creates "other" "key")
    ∷ (session_idle_ttl, looks "token")
    ∷ (session_idle_ttl + 3, cleans)
    ∷ (session_idle_ttl + session_idle_ttl, looks "token")
    ∷ (3 * session_idle_ttl + 1, looks "token")
    ∷ (3 * session_idle_ttl + 2, creates "token" "key")
    ∷ (3 * session_idle_ttl + 3, revokes "token")
    ∷ []

visits-IsOrdered : IsOrdered 0 visits
visits-IsOrdered = ground arith

sessions_by_history_example :
    answers down "token" visits (new_session_store down none) ≡ expected "token" visits none
sessions_by_history_example =
    sessions_by_history down "token" (ne_of_str_eq "token" "" refl) 0 visits visits-IsOrdered
