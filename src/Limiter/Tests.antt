-- ===== src/Limiter/Tests.antt =====
-- Examples of the rate limiter (internal/ratelimit/ratelimit.go), with a window of a minute.
use onmi_routers.Base.{arith, ◌-◌, ◌+◌, ◌*◌, ℕ, refl, List, [], ◌∷◌, inl, inr, ◌≤◌}
use onmi_routers.Limiter.{Limiter}
use onmi_routers.Limiter.Tokens.{Event, asks, ticks, run}
use onmi_routers.Limiter.Rate.{run_rate, end_time}

abbrev a_minute : ℕ
a_minute = 60 * 1_000_000_000

abbrev empty : Limiter
empty = record { limit = 600; burst = 60; window = a_minute; clients = [] }

abbrev traffic : List (ℕ × Event)
traffic =
    (1, asks "a" 60 2)
    ∷ (2, asks "a" 60 2)
    ∷ (3, asks "b" 5 5)
    ∷ (4, asks "a" 60 2)
    ∷ (5, ticks)
    ∷ (2_000_000_000, asks "a" 60 2)
    ∷ []

run_rate_example :
    (run "a" traffic empty).1 * a_minute ≤ 2 * a_minute + (end_time 0 traffic - 0) * 60
run_rate_example =
    run_rate "a" 60 2 0 traffic empty (omega arith) (omega arith) (omega arith) tt (ground arith) (
      inr (refl, refl),
      (inr (refl, refl), (inl refl, (inr (refl, refl), (tt, (inr (refl, refl), tt))))),
    )
