-- ===== src/CfPool/Serve/Honest.antt =====
-- What ProxyCloudflare answers (internal/upstream/cloudflare.go).
use onmi_routers.Base.{
  ℕ, zero, suc, ◌+◌, ◌≤◌, ◌<◌, ◌≡◌, refl, ap, ◌⊎◌, inl, inr, String, Bool, true, false, not, ◌&&◌,
  Option, none, some, arith, ltb, leb, ◌==◌, if◌then◌else◌, length,
}
use onmi_routers.Circuit.{can_request}
use onmi_routers.CfPool.{CfKey, next_key}
use onmi_routers.CfPool.Serve.{
  Attempt, Verdict, unreachable, rejected, limited, missing, refused, broken, accepted,
  judge_status, judge, Seen, nothing_seen, with_status, note, Reason, circuit_open, bad_body,
  no_keys, pool_exhausted, model_missing, model_missing_on_samples, rate_limited, auth_failed,
  upstream_broken, network_failed, no_healthy_reply, all_disabled, failure, Answer, served, fails,
  Served, settle, Rest, finish, max_attempts, try_key, walk, proxy_cloudflare,
}

-- What the verdict on a status says of it.
abbrev Says : ℕ → Verdict → Type 0
Says s unreachable = ⊥
Says s rejected = (s ≡ 401) ⊎ (s ≡ 403)
Says s limited = s ≡ 429
Says s missing = s ≡ 404
Says s refused = Unit
Says s broken = 500 ≤ s
Says s (accepted t) = (s ≡ t) × (s < 400)

judge_status-Says : (s : ℕ) → Says s (judge_status s)
unfolding judge_status
judge_status-Says s = ground arith

-- The same of a status that may be missing.
abbrev Tells : Option ℕ → Verdict → Type 0
Tells o unreachable = o ≡ none
Tells o rejected = (o ≡ some 401) ⊎ (o ≡ some 403)
Tells o limited = o ≡ some 429
Tells o missing = o ≡ some 404
Tells o refused = Unit
Tells o broken = (s : ℕ) × (o ≡ some s) × (500 ≤ s)
Tells o (accepted t) = (o ≡ some t) × (t < 400)

Says-Tells : (s : ℕ) (v : Verdict) → Says s v → Tells (some s) v
Says-Tells s unreachable h = elim h [ ]
Says-Tells s rejected (inl e) = inl (ap some e)
Says-Tells s rejected (inr e) = inr (ap some e)
Says-Tells s limited e = ap some e
Says-Tells s missing e = ap some e
Says-Tells s refused h = tt
Says-Tells s broken h = (s, refl, h)
Says-Tells s (accepted t) (e, h) = (ap some e, ground (arith, e, h))

judge-Tells : (o : Option ℕ) → Tells o (judge o)
unfolding judge
judge-Tells none = refl
judge-Tells (some s) = Says-Tells s (judge_status s) (judge_status-Says s)

module _ (ask : ℕ → CfKey → Attempt) where
  -- One of the attempts that a request may make got such a status.
  abbrev pub Met : (Option ℕ → Type 0) → Type 0
  Met P = (n : ℕ) × (k : CfKey) × (n < max_attempts) × P (ask n k).status

  abbrev pub MissingMet : Type 0
  MissingMet = Met (λ o. o ≡ some 404)

  abbrev pub LimitMet : Type 0
  LimitMet = Met (λ o. o ≡ some 429)

  abbrev pub AuthMet : Type 0
  AuthMet = Met (λ o. (o ≡ some 401) ⊎ (o ≡ some 403))

  abbrev pub BrokenMet : Type 0
  BrokenMet = Met (λ o. (s : ℕ) × (o ≡ some s) × (500 ≤ s))

  abbrev pub NetworkMet : Type 0
  NetworkMet = Met (λ o. o ≡ none)

  abbrev pub ReplyMet : Type 0
  ReplyMet = Met (λ o. (s : ℕ) × (o ≡ some s) × (0 < s))

  -- What an error says happened.
  abbrev pub IsHonest : Reason → Type 0
  IsHonest model_missing = MissingMet
  IsHonest model_missing_on_samples = MissingMet
  IsHonest rate_limited = LimitMet
  IsHonest auth_failed = AuthMet
  IsHonest upstream_broken = BrokenMet
  IsHonest network_failed = NetworkMet
  IsHonest no_healthy_reply = ReplyMet
  IsHonest circuit_open = Unit
  IsHonest bad_body = Unit
  IsHonest no_keys = Unit
  IsHonest pool_exhausted = Unit
  IsHonest all_disabled = Unit

  abbrev pub IsAnswer : Answer → Type 0
  IsAnswer (served id status) =
      (status < 400)
      × ((n : ℕ) × (k : CfKey) × (n < max_attempts)
          × (k.account_id ≡ id)
          × ((ask n k).status ≡ some status))
  IsAnswer (fails r) = IsHonest r

  abbrev Good : Served × Answer → Type 0
  Good x = IsAnswer x.1

  -- What the loop has seen did happen.
  abbrev Sound : Seen → Type 0
  Sound p =
      (0 < p.not_found → MissingMet)
      × ((p.saw_429 ≡ true → LimitMet)
          × ((p.saw_auth_fail ≡ true → AuthMet)
              × ((p.saw_5xx ≡ true → BrokenMet)
                  × ((p.saw_net_err ≡ true → NetworkMet) × (0 < p.last_status → ReplyMet)))))

  nothing_seen-Sound : Sound nothing_seen
  nothing_seen-Sound = (
    (λ h. ground (arith, h)),
    ((λ h. cc), ((λ h. cc), ((λ h. cc), ((λ h. cc), (λ h. ground (arith, h)))))),
  )

  if-IsHonest :
      (b : Bool) (x y : Reason)
      → (b ≡ true → IsHonest x)
      → (b ≡ false → IsHonest y)
      → IsHonest (if b then x else y)
  if-IsHonest true x y f g = f refl
  if-IsHonest false x y f g = g refl

  if-Good : (b : Bool) (x y : Served × Answer) → Good x → Good y → Good (if b then x else y)
  if-Good true x y f g = f
  if-Good false x y f g = g

  failure-IsHonest : (p : Seen) → Sound p → IsHonest (failure p)
  unfolding failure
  failure-IsHonest p (m, (l, (a, (b, (u, r))))) =
      if-IsHonest (ltb 0 p.not_found) _ _ (λ h. m (ground (arith, h)))
        (λ _.
          if-IsHonest (p.saw_429 && not p.saw_auth_fail) _ _ (λ h. l (ground (arith, h)))
            (λ _.
              if-IsHonest (p.saw_auth_fail && not p.saw_429 && not p.saw_5xx) _ _
                (λ h. a (ground (arith, h)))
                (λ _. if-IsHonest p.saw_5xx _ _ b (λ _. if-IsHonest p.saw_net_err _ _ u (λ _.
                  if-IsHonest (ltb 0 p.last_status) _ _ (λ h. r (ground (arith, h))) (λ _. tt))))))

  module _ (n : ℕ) (k : CfKey) (lt : n < max_attempts) where
    with_status-Sound :
        (o : Option ℕ) (p : Seen) → (ask n k).status ≡ o → Sound p → Sound (with_status o p)
    with_status-Sound none p e h = h
    with_status-Sound (some s) p e (m, (l, (a, (b, (u, r))))) =
        (m, (l, (a, (b, (u, (λ h. (n, k, lt, (s, e, h))))))))

    note-Sound : (v : Verdict) (p : Seen) → Tells ((ask n k).status) v → Sound p → Sound (note v p)
    unfolding note
    note-Sound unreachable p e (m, (l, (a, (b, (u, r))))) =
        (m, (l, (a, (b, ((λ _. (n, k, lt, e)), r)))))
    note-Sound rejected p e (m, (l, (a, (b, (u, r))))) =
        (m, (l, ((λ _. (n, k, lt, e)), (b, (u, r)))))
    note-Sound limited p e (m, (l, (a, (b, (u, r))))) =
        (m, ((λ _. (n, k, lt, e)), (a, (b, (u, r)))))
    note-Sound missing p e (m, (l, (a, (b, (u, r))))) =
        ((λ _. (n, k, lt, e)), (l, (a, (b, (u, r)))))
    note-Sound refused p e h = h
    note-Sound broken p e (m, (l, (a, (b, (u, r))))) = (m, (l, (a, ((λ _. (n, k, lt, e)), (u, r)))))
    note-Sound (accepted t) p e h = h

    finish-Good :
        (rest : Rest) (p : Seen) (s : Served) (v : Verdict)
        → ((q : Seen) (t : Served) → Sound q → Good (rest q t))
        → Tells ((ask n k).status) v
        → Sound p
        → Good (finish rest (ask n k) k p s v)
    unfolding finish
    finish-Good rest p s unreachable g e h = g p s h
    finish-Good rest p s rejected g e h = g p s h
    finish-Good rest p s limited g e h = g p s h
    finish-Good rest p s missing g e h =
        if-Good (leb 3 p.not_found) _ (rest p s) (n, k, lt, e) (g p s h)
    finish-Good rest p s refused g e h = g p s h
    finish-Good rest p s broken g e h = g p s h
    finish-Good rest p s (accepted t) g e h = (e.1, (n, k, lt, refl, e.0))

  module _ (gone : ℕ → Bool) (day : ℕ → String) where
    try_key-Good :
        (rest : Rest) (n : ℕ) (p : Seen) (s : Served) (o : Option CfKey)
        → n < max_attempts
        → ((q : Seen) (t : Served) → Sound q → Good (rest q t))
        → Sound p
        → Good (try_key gone day ask rest n p s o)
    unfolding try_key
    try_key-Good rest n p s none lt g h =
        if-IsHonest (n == 0) pool_exhausted (failure p) (λ _. tt) (λ _. failure-IsHonest p h)
    try_key-Good rest n p s (some k) lt g h =
        let a = ask n k in
        let v = judge a.status in
        let tells = judge-Tells a.status in
        finish-Good n k lt rest (note v (with_status a.status p)) (settle a k v s) v g tells (
          note-Sound n k lt v (with_status a.status p) tells
            (with_status-Sound n k lt a.status p refl h))

    walk-Good :
        (rounds n : ℕ) (p : Seen) (s : Served)
        → n + rounds ≤ max_attempts
        → Sound p
        → Good (walk gone day ask rounds n p s)
    unfolding walk
    walk-Good zero n p s lt h = failure-IsHonest p h
    walk-Good (suc rounds) n p s lt h =
        let (pool, found) = next_key (day n) s.pool in
        if-Good (gone n) _
          (try_key gone day ask (walk gone day ask rounds (n + 1)) n p (record s { pool = pool })
            found)
          (failure-IsHonest p h)
          (try_key-Good (walk gone day ask rounds (n + 1)) n p (record s { pool = pool }) found
            (omega arith) (λ q t. walk-Good rounds (n + 1) q t (omega arith)) h)

    -- The answer to a request for Cloudflare is true to what its twelve attempts at most met: a reply that
    -- is handed to the client is below 400 and was given to a key of the account that is named, "model not
    -- available" is answered only after a 404, "rate limited" only after a 429, "auth failed" only
    -- after a 401 or a 403, "upstream 5xx" only after a server error, "network errors" only after an attempt
    -- without a reply, and "no healthy response" only after a reply.
    pub proxy_cloudflare-IsAnswer :
        (now : ℕ) (is_json : Bool) (s : Served)
        → IsAnswer ((proxy_cloudflare gone day ask now is_json s).1)
    unfolding proxy_cloudflare
    proxy_cloudflare-IsAnswer now is_json s =
        let (health, lets) = can_request now s.health in
        let asked = record s { health = health } in
        let n = length s.pool.keys in
        let rounds = if ltb n max_attempts then n else max_attempts in
        let few : 0 + rounds ≤ max_attempts = ground arith in
        let walks = walk gone day ask rounds 0 nothing_seen asked in
        if-Good (not lets) _
          (if not is_json
            then (asked, fails bad_body)
            else if ltb rounds 1
            then (asked, fails no_keys)
            else walks)
          tt
          (if-Good (not is_json) (asked, fails bad_body)
            (if ltb rounds 1 then (asked, fails no_keys) else walks) tt
            (if-Good (ltb rounds 1) (asked, fails no_keys) walks tt
              (walk-Good rounds 0 nothing_seen asked few nothing_seen-Sound)))
