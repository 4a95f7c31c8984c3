-- ===== src/Limiter/Rate.antt =====
-- How much the token bucket lets through (internal/ratelimit/ratelimit.go).
use onmi_routers.Base.Assoc.{keep-IsDistinct, insert-IsDistinct, lookup, IsDistinct}
use onmi_routers.Base.{
  ℕ, ◌+◌, ◌-◌, ◌*◌, ◌≤◌, ◌≡◌, refl, String, Bool, true, false, List, [], ◌∷◌, arith, leb,
  if◌then◌else◌, All,
}
use onmi_routers.Limiter.{Limiter, take_token, allow_with_limit, cleanup}
use onmi_routers.Limiter.Tokens.{
  Event, asks, ticks, step, count_if, granted, run, avail, HasLimits, idle, avail_mono, avail-le,
  step-avail,
}

step-window : (now : ℕ) (e : Event) (rl : Limiter) → (step now e rl).0.window ≡ rl.window
unfolding step allow_with_limit cleanup
step-window now (asks c r b) rl = ground arith
step-window now ticks rl = refl

step-IsDistinct :
    (now : ℕ) (e : Event) (rl : Limiter)
    → IsDistinct rl.clients
    → IsDistinct (step now e rl).0.clients
unfolding step allow_with_limit cleanup
step-IsDistinct now (asks c r b) rl d =
    let b' : ℕ = if leb b 0 then r else b in
    let taken = take_token rl.window r b' now (lookup c rl.clients) in
    ground (arith, insert-IsDistinct c taken.0 rl.clients d)
step-IsDistinct now ticks rl d = keep-IsDistinct _ rl.clients d

-- The times do not fall, from `t` on.
abbrev pub IsOrdered : ℕ → List (ℕ × Event) → Type 0
IsOrdered t [] = Unit {0}
IsOrdered t ((now, e) ∷ es) = (t ≤ now) × IsOrdered now es

-- The time of the last event.
pub end_time : ℕ → List (ℕ × Event) → ℕ
end_time t [] = t
end_time t ((now, e) ∷ es) = end_time now es

end_time-le : (t : ℕ) (es : List (ℕ × Event)) → IsOrdered t es → t ≤ end_time t es
unfolding end_time
end_time-le t [] o = omega arith
end_time-le t ((now, e) ∷ es) o = omega (arith, o.0, end_time-le now es o.1)

count_if-mul : (b : Bool) (n w : ℕ) → count_if b n * w ≡ count_if b 0 * w + n * w
count_if-mul true n w = grind arith
count_if-mul false n w = omega arith

split_time :
    (now t last rpm : ℕ)
    → t ≤ now
    → now ≤ last
    → (last - t) * rpm ≡ (last - now) * rpm + (now - t) * rpm
split_time now t last rpm p q =
    let e : last - t ≡ (last - now) + (now - t) = omega arith in rw e (grind arith)

module _ (client : String) (rpm burst : ℕ) where
  run-avail :
      (t : ℕ) (es : List (ℕ × Event)) (rl : Limiter)
      → 1 ≤ rpm
      → 1 ≤ burst
      → burst * rl.window ≤ idle * rpm
      → IsDistinct rl.clients
      → IsOrdered t es
      → All (HasLimits client rpm burst) es
      → (run client es rl).1 * rl.window ≤ avail client rpm burst t rl + (end_time t es - t) * rpm
  unfolding run end_time
  run-avail t [] rl pr pb full d o h = omega arith
  run-avail t ((now, e) ∷ es) rl pr pb full d o h =
      let next = step now e rl in
      let same : next.0.window ≡ rl.window = step-window now e rl in
      let full' : burst * next.0.window ≤ idle * rpm = rw same full in
      let later = run-avail now es next.0 pr pb full' (step-IsDistinct now e rl d) o.1 h.1 in
      let later' : (run client es next.0).1 * rl.window
          ≤ avail client rpm burst now next.0 + (end_time now es - now) * rpm =
        rw same at later in
      omega (
        arith,
        later',
        count_if-mul (granted client e next.1) (run client es next.0).1 rl.window,
        step-avail client rpm burst now e rl pr pb full d h.0,
        avail_mono client rpm burst t now rl o.0,
        split_time now t (end_time now es) rpm o.0 (end_time-le now es o.1),
      )

  -- The rate holds over every period: whatever other clients do, and while idle clients are
  -- forgotten, a client whose requests are checked against `rpm` and `burst` is let through no more
  -- often between `t` and the last event than `burst` and what `rpm` a window makes of that time.
  -- The limits are positive, the times do not fall, no client is stored twice, and a bucket that is
  -- idle for ten minutes is full again.
  pub run_rate :
      (t : ℕ) (es : List (ℕ × Event)) (rl : Limiter)
      → 1 ≤ rpm
      → 1 ≤ burst
      → burst * rl.window ≤ idle * rpm
      → IsDistinct rl.clients
      → IsOrdered t es
      → All (HasLimits client rpm burst) es
      → (run client es rl).1 * rl.window ≤ burst * rl.window + (end_time t es - t) * rpm
  run_rate t es rl pr pb full d o h =
      omega (arith, run-avail t es rl pr pb full d o h, avail-le client rpm burst t rl)
