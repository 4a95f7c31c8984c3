-- ===== src/Limiter/Tokens.antt =====
-- What a client's bucket holds, and how a request or a pass of the clean-up changes it
-- (internal/ratelimit/ratelimit.go).
use onmi_routers.Base.{
  ℕ, suc, ◌+◌, ◌-◌, ◌*◌, ◌≤◌, ◌≡◌, ◌⊎◌, inl, inr, String, Bool, true, false, ◌&&◌, Option, none,
  some, List, [], ◌∷◌, arith, eq_iff, eq_refl, leb, str_eq, if◌then◌else◌, Bool-cases, Option-cases,
}
use onmi_routers.Limiter.{Limiter, ClientBucket, take_token, allow_with_limit, cleanup}
use onmi_routers.Base.Assoc.{lookup-keep, IsDistinct, lookup-insert, lookup-insert_self, lookup}

pub data Event : Type 0 where
  asks : String → ℕ → ℕ → Event
  ticks : Event

unfoldable pub step : ℕ → Event → Limiter → Limiter × Bool
step now (asks client rpm burst) rl = allow_with_limit now client rpm burst rl
step now ticks rl = (cleanup now rl, false)

abbrev pub count_if : Bool → ℕ → ℕ
count_if true n = suc n
count_if false n = n

-- Whether the event is a request of the client that was let through.
unfoldable pub granted : String → Event → Bool → Bool
granted client (asks c rpm burst) ok = str_eq c client && ok
granted client ticks ok = false

-- The last record, and how many requests of the client were let through.
unfoldable pub run : String → List (ℕ × Event) → Limiter → Limiter × ℕ
run client [] rl = (rl, 0)
run client ((now, e) ∷ es) rl =
    let (rl', ok) = step now e rl in
    let (rl'', n) = run client es rl' in (rl'', count_if (granted client e ok) n)

le-mul : (a w : ℕ) → 1 ≤ a → w ≤ a * w
le-mul a w h = grind arith

mul_le_mul : (a b w : ℕ) → a ≤ b → a * w ≤ b * w
mul_le_mul a b w h = grind arith

no_time : (now rpm : ℕ) → (now - now) * rpm ≡ 0
no_time now rpm = let e : now - now ≡ 0 = omega arith in rw e (omega arith)

elapsed_le : (now t last rpm : ℕ) → (now - last) * rpm ≤ (t - last) * rpm + (now - t) * rpm
elapsed_le now t last rpm =
    omega (arith, mul_le_mul (now - last) ((t - last) + (now - t)) rpm (omega arith))

-- The client's tokens if it asked now, in units of 1/window.
avail_in : ℕ → ℕ → ℕ → ℕ → Option ClientBucket → ℕ
avail_in window rpm burst now none = burst * window
avail_in window rpm burst now (some b) =
    if leb (burst * window) (b.tokens + (now - b.last_time) * rpm)
    then burst * window
    else b.tokens + (now - b.last_time) * rpm

module _ (client : String) (rpm burst : ℕ) where
  pub avail : ℕ → Limiter → ℕ
  avail now rl = avail_in rl.window rpm burst now (lookup client rl.clients)

  -- The client asks with these limits, which are positive; another may ask with any.
  abbrev pub HasLimits : ℕ × Event → Type 0
  HasLimits (now, asks c r b) = (str_eq c client ≡ false) ⊎ ((r ≡ rpm) × (b ≡ burst))
  HasLimits (now, ticks) = Unit {0}

  take_token-avail :
      (window now : ℕ) (o : Option ClientBucket)
      → 1 ≤ burst
      → let (b, ok) = take_token window rpm burst now o in
        count_if ok 0 * window + avail_in window rpm burst now (some b)
        ≤ avail_in window rpm burst now o
  unfolding take_token avail_in
  take_token-avail window now none pos = ground (arith, le-mul burst window, no_time now rpm)
  take_token-avail window now (some b) pos = ground (arith, no_time now rpm)

  avail_in_mono :
      (window t now : ℕ) (o : Option ClientBucket)
      → t ≤ now
      → avail_in window rpm burst now o ≤ avail_in window rpm burst t o + (now - t) * rpm
  unfolding avail_in
  avail_in_mono window t now none le = omega arith
  avail_in_mono window t now (some b) le = ground (arith, elapsed_le now t b.last_time rpm)

module _ (client : String) (rpm burst : ℕ) where
  pub avail_mono :
      (t now : ℕ) (rl : Limiter)
      → t ≤ now
      → avail client rpm burst now rl ≤ avail client rpm burst t rl + (now - t) * rpm
  unfolding avail
  avail_mono t now rl le =
      avail_in_mono client rpm burst rl.window t now (lookup client rl.clients) le

  pub avail-le : (t : ℕ) (rl : Limiter) → avail client rpm burst t rl ≤ burst * rl.window
  unfolding avail avail_in
  avail-le t rl = ground arith

-- Ten minutes: a client that is idle for longer is forgotten.
abbrev pub idle : ℕ
idle = 10 * 60 * 1_000_000_000

module _ (client : String) (rpm burst : ℕ) where
  asks-avail_self :
      (now : ℕ) (rl : Limiter)
      → 1 ≤ rpm
      → 1 ≤ burst
      → let (rl', ok) = allow_with_limit now client rpm burst rl in
        count_if ok 0 * rl.window + avail client rpm burst now rl' ≤ avail client rpm burst now rl
  unfolding avail allow_with_limit
  asks-avail_self now rl pr pb =
      let o = lookup client rl.clients in
      ground (
        arith,
        lookup-insert_self client (take_token rl.window rpm burst now o).0 rl.clients,
        take_token-avail client rpm burst rl.window now o pb,
      )

  asks-avail_other :
      (now : ℕ) (c : String) (r b : ℕ) (rl : Limiter)
      → str_eq c client ≡ false
      → avail client rpm burst now (allow_with_limit now c r b rl).0 ≡ avail client rpm burst now rl
  unfolding avail allow_with_limit
  asks-avail_other now c r b rl other =
      let b' : ℕ = if leb b 0 then r else b in
      ground (
        arith,
        lookup-insert c client (take_token rl.window r b' now (lookup c rl.clients)).0 rl.clients,
      )

  cleanup-avail :
      (now : ℕ) (rl : Limiter)
      → burst * rl.window ≤ idle * rpm
      → IsDistinct rl.clients
      → avail client rpm burst now (cleanup now rl) ≤ avail client rpm burst now rl
  unfolding avail avail_in cleanup
  cleanup-avail now rl full d = elim (Option-cases (lookup client rl.clients)) [
    | inl new ↦
        rw (lookup-keep client (λ c. leb (now - idle) (c.1).last_time) rl.clients d, new)
          (omega arith)
    | inr (b, old) ↦
        rw (lookup-keep client (λ c. leb (now - idle) (c.1).last_time) rl.clients d, old)
          (ground (arith, full, mul_le_mul idle (now - b.last_time) rpm))
  ]

  pub step-avail :
      (now : ℕ) (e : Event) (rl : Limiter)
      → 1 ≤ rpm
      → 1 ≤ burst
      → burst * rl.window ≤ idle * rpm
      → IsDistinct rl.clients
      → HasLimits client rpm burst (now, e)
      → let (rl', ok) = step now e rl in
        count_if (granted client e ok) 0 * rl.window + avail client rpm burst now rl'
        ≤ avail client rpm burst now rl
  unfolding step granted
  step-avail now (asks c r b) rl pr pb full d h = elim (Bool-cases (str_eq c client)) [
    | inl same ↦ elim h [
      | inl other ↦ absurd (ground arith)
      | inr (er, eb) ↦
          rw ((eq_iff c client).0 same, er, eb, eq_refl client) (asks-avail_self now rl pr pb)
    ]
    | inr other ↦ rw other (ground (arith, asks-avail_other now c r b rl other))
  ]
  step-avail now ticks rl pr pb full d h = ground (arith, cleanup-avail now rl full d)
