-- ===== src/CfPool/Serve/Outage.antt =====
-- Requests for Cloudflare while the network fails (internal/upstream/cloudflare.go and
-- internal/upstream/health.go).
use onmi_routers.Base.{
  ℕ, zero, suc, ◌+◌, ◌≡◌, refl, ap, ◌∙◌, String, Bool, true, false, Option, none, some, List, [],
  ◌∷◌, ltb, if◌then◌else◌, length, All,
}
use onmi_routers.Circuit.{can_request, closed, UpstreamHealth}
use onmi_routers.Circuit.Opening.{can_request-closed}
use onmi_routers.CfPool.{CfKey, next_key}
use onmi_routers.CfPool.Serve.{
  Attempt, judge, Seen, nothing_seen, with_status, note, no_keys, Answer, fails, Served, settle,
  Rest, finish, max_attempts, try_key, walk, proxy_with, proxy_cloudflare,
}

-- Every attempt fails in the network.
abbrev pub IsOutage : (ℕ → CfKey → Attempt) → Type 0
IsOutage ask = (n : ℕ) (k : CfKey) → (ask n k).status ≡ none

-- Requests one after the other, each with its time and what its attempts get.
unfoldable pub requests :
    (ℕ → Bool) → (ℕ → String) → List (ℕ × (ℕ → CfKey → Attempt)) → Served → Served
unfolding proxy_cloudflare
requests gone day [] s = s
requests gone day ((now, ask) ∷ rs) s =
    requests gone day rs (proxy_cloudflare gone day ask now true s).0

abbrev Same : UpstreamHealth → Served × Answer → Type 0
Same h x = x.0.health ≡ h

if-Same :
    (h : UpstreamHealth) (b : Bool) (x y : Served × Answer)
    → Same h x
    → Same h y
    → Same h (if b then x else y)
if-Same h true x y f g = f
if-Same h false x y f g = g

module _ (gone : ℕ → Bool) (day : ℕ → String) where
  module _ (ask : ℕ → CfKey → Attempt) (out : IsOutage ask) (h : UpstreamHealth) where
    failed_attempt :
        (rest : Rest) (a : Attempt) (k : CfKey) (p : Seen) (s : Served) (o : Option ℕ)
        → o ≡ none
        → ((q : Seen) (t : Served) → t.health ≡ h → Same h (rest q t))
        → s.health ≡ h
        → Same h (finish rest a k p (settle a k (judge o) s) (judge o))
    unfolding finish settle judge
    failed_attempt rest a k p s none e g same = g p s same
    failed_attempt rest a k p s (some t) e g same = cc

    try_key-Same :
        (rest : Rest) (n : ℕ) (p : Seen) (s : Served) (o : Option CfKey)
        → ((q : Seen) (t : Served) → t.health ≡ h → Same h (rest q t))
        → s.health ≡ h
        → Same h (try_key gone day ask rest n p s o)
    unfolding try_key
    try_key-Same rest n p s none g same = same
    try_key-Same rest n p s (some k) g same =
        let a = ask n k in
        failed_attempt rest a k (note (judge a.status) (with_status a.status p)) s a.status
          (out n k) g same

    walk-Same :
        (rounds n : ℕ) (p : Seen) (s : Served)
        → s.health ≡ h
        → Same h (walk gone day ask rounds n p s)
    unfolding walk
    walk-Same zero n p s same = same
    walk-Same (suc rounds) n p s same =
        let (pool, found) = next_key (day n) s.pool in
        let rest = walk gone day ask rounds (n + 1) in
        if-Same h (gone n) _ (try_key gone day ask rest n p (record s { pool = pool }) found) same
          (try_key-Same rest n p (record s { pool = pool }) found (walk-Same rounds (n + 1)) same)

    request-Same :
        (now : ℕ) (s : Served)
        → h.state ≡ closed
        → s.health ≡ h
        → Same h (proxy_cloudflare gone day ask now true s)
    unfolding proxy_cloudflare
    request-Same now s c same =
        let lets : can_request now s.health ≡ (h, true) =
          ap (can_request now) same ∙ can_request-closed now h c in
        let n = length s.pool.keys in
        let rounds = if ltb n max_attempts then n else max_attempts in
        let asked = record s { health = h } in
        ap (λ x. (proxy_with gone day ask now true s x).0.health) lets
        ∙ if-Same h (ltb rounds 1) (asked, fails no_keys)
            (walk gone day ask rounds 0 nothing_seen asked) refl
            (walk-Same rounds 0 nothing_seen asked refl)

  -- However many requests for Cloudflare fail in the network, one after the other, a closed circuit
  -- stays closed, with its count of errors as it was.
  pub outage_unnoticed :
      (rs : List (ℕ × (ℕ → CfKey → Attempt))) (s : Served)
      → All (λ r. IsOutage r.1) rs
      → s.health.state ≡ closed
      → (requests gone day rs s).health ≡ s.health
  unfolding requests
  outage_unnoticed [] s out c = refl
  outage_unnoticed ((now, ask) ∷ rs) s (out, outs) c =
      let same = request-Same ask out s.health now s c refl in
      outage_unnoticed rs (proxy_cloudflare gone day ask now true s).0 outs
        (ap (λ (h : UpstreamHealth). h.state) same ∙ c)
      ∙ same
