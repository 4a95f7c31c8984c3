-- ===== src/CfPool/Serve/Effort.antt =====
-- How many keys a request for Cloudflare touches (internal/upstream/cloudflare.go).
use onmi_routers.Base.{
  ℕ, zero, suc, ◌+◌, ◌≤◌, String, Bool, true, false, not, Option, none, some, arith, ltb, leb,
  if◌then◌else◌, length, length-append,
}
use onmi_routers.Circuit.{can_request}
use onmi_routers.CfPool.{
  CfKey, CfKeyManager, next_key, record_usage, permanent_disable, cooldown_disable, save_call,
}
use onmi_routers.CfPool.Serve.{
  Attempt, Verdict, unreachable, rejected, limited, missing, refused, broken, accepted, judge, Seen,
  nothing_seen, with_status, note, bad_body, no_keys, Answer, fails, Served, settle, Rest, finish,
  max_attempts, try_key, walk, proxy_cloudflare,
}

length-save_call : (km : CfKeyManager) (k : CfKey) → length (save_call km k) ≤ 1
unfolding save_call
length-save_call km k = ground arith

-- The calls of the store that a request made, of no more than so many.
abbrev Within : ℕ → Served × Answer → Type 0
Within m x = length x.0.calls ≤ m

settle-Within :
    (a : Attempt) (k : CfKey) (v : Verdict) (s : Served)
    → length (settle a k v s).calls ≤ length s.calls + 1
unfolding settle permanent_disable cooldown_disable record_usage
settle-Within a k unreachable s = omega arith
settle-Within a k rejected s = grind (arith, length-append, length-save_call)
settle-Within a k limited s = grind (arith, length-append, length-save_call)
settle-Within a k missing s = omega arith
settle-Within a k refused s = grind (arith, length-append, length-save_call)
settle-Within a k broken s = omega arith
settle-Within a k (accepted t) s = grind (arith, length-append, length-save_call)

if-Within :
    (m : ℕ) (b : Bool) (x y : Served × Answer)
    → Within m x
    → Within m y
    → Within m (if b then x else y)
if-Within m true x y f g = f
if-Within m false x y f g = g

finish-Within :
    (m : ℕ) (rest : Rest) (a : Attempt) (k : CfKey) (p : Seen) (s : Served) (v : Verdict)
    → length s.calls ≤ m
    → Within m (rest p s)
    → Within m (finish rest a k p s v)
unfolding finish
finish-Within m rest a k p s unreachable h g = g
finish-Within m rest a k p s rejected h g = g
finish-Within m rest a k p s limited h g = g
finish-Within m rest a k p s missing h g = if-Within m (leb 3 p.not_found) _ (rest p s) h g
finish-Within m rest a k p s refused h g = g
finish-Within m rest a k p s broken h g = g
finish-Within m rest a k p s (accepted t) h g = h

module _ (gone : ℕ → Bool) (day : ℕ → String) (ask : ℕ → CfKey → Attempt) where
  try_key-Within :
      (m : ℕ) (rest : Rest) (n : ℕ) (p : Seen) (s : Served) (o : Option CfKey)
      → length s.calls + 1 ≤ m
      → ((q : Seen) (t : Served) → length t.calls ≤ length s.calls + 1 → Within m (rest q t))
      → Within m (try_key gone day ask rest n p s o)
  unfolding try_key
  try_key-Within m rest n p s none h g = omega arith
  try_key-Within m rest n p s (some k) h g =
      let a = ask n k in
      let v = judge a.status in
      let q = note v (with_status a.status p) in
      let touched = settle-Within a k v s in
      finish-Within m rest a k q (settle a k v s) v (omega arith) (g q (settle a k v s) touched)

  walk-Within :
      (m rounds n : ℕ) (p : Seen) (s : Served)
      → length s.calls + rounds ≤ m
      → Within m (walk gone day ask rounds n p s)
  unfolding walk
  walk-Within m zero n p s h = omega arith
  walk-Within m (suc rounds) n p s h =
      let (pool, found) = next_key (day n) s.pool in
      let rest = walk gone day ask rounds (n + 1) in
      let picked = record s { pool = pool } in
      if-Within m (gone n) _ (try_key gone day ask rest n p picked found) (omega arith) (
        try_key-Within m rest n p picked found (omega arith)
          (λ q t le. walk-Within m rounds (n + 1) q t (omega arith)))

  -- However many keys the pool has, a request for Cloudflare writes at most twelve of them to the store,
  -- and at most as many as there are.
  pub proxy_cloudflare_bounded :
      (now : ℕ) (is_json : Bool) (s : Served)
      → let (after, _) = proxy_cloudflare gone day ask now is_json s in
        (length after.calls ≤ length s.calls + max_attempts)
        × (length after.calls ≤ length s.calls + length s.pool.keys)
  unfolding proxy_cloudflare
  proxy_cloudflare_bounded now is_json s =
      let (health, lets) = can_request now s.health in
      let asked = record s { health = health } in
      let n = length s.pool.keys in
      let rounds = if ltb n max_attempts then n else max_attempts in
      let few : (rounds ≤ max_attempts) × (rounds ≤ n) = ground arith in
      let walks = walk gone day ask rounds 0 nothing_seen asked in
      let m = length s.calls + rounds in
      let all : Within m (proxy_cloudflare gone day ask now is_json s) =
        if-Within m (not lets) _
          (if not is_json
            then (asked, fails bad_body)
            else if ltb rounds 1
            then (asked, fails no_keys)
            else walks)
          (omega arith)
          (if-Within m (not is_json) (asked, fails bad_body)
            (if ltb rounds 1 then (asked, fails no_keys) else walks) (omega arith)
            (if-Within m (ltb rounds 1) (asked, fails no_keys) walks (omega arith)
              (walk-Within m rounds 0 nothing_seen asked (omega arith)))) in
      (omega arith, omega arith)
