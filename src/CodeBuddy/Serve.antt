-- ===== src/CodeBuddy/Serve.antt =====
-- ProxyCodeBuddy of internal/upstream/codebuddy.go up to the answer that is handed to the client. What
-- the network, the token endpoint and the client do in an attempt is an argument; a request runs without
-- others in between.
use onmi_routers.Base.{
  ℕ, zero, suc, ◌+◌, String, Bool, ◌&&◌, ◌||◌, Option, none, some, ltb, leb, ◌==◌, if◌then◌else◌,
  length, get_elem?,
}
use onmi_routers.Combo.{contains_text}
use onmi_routers.Circuit.{UpstreamHealth, record_request, can_request}
use onmi_routers.CodeBuddy.{
  CbKey, is_oauth, RefreshReply, refresh, ensure_valid, permanent_disable, cooldown_disable,
}
use onmi_routers.CodeBuddy.Pool.{CbKeyManager, next_key, modify_key}

pub record HttpReply : Type 0 where
  pub status : ℕ
  pub body : String

-- One attempt with a key: its time, the time since the request came, the answer to an early refresh,
-- the reply, and after a 401 the answer to a refresh and the second reply; a reply is none where the
-- network failed.
pub record Attempt : Type 0 where
  pub now : ℕ
  pub latency : ℕ
  pub early : RefreshReply
  pub first : Option HttpReply
  pub renewal : RefreshReply
  pub second : Option HttpReply

-- What a reply comes to.
pub data Verdict : Type 0 where
  skips bans cools no_model : Verdict
  bad_params : String → Verdict
  broken : ℕ → Verdict
  serves : HttpReply → Verdict

unfoldable pub has_invalid_params : String → Bool
has_invalid_params b = contains_text b "11133" || contains_text b "Invalid request parameters"

unfoldable pub has_no_model : String → Bool
has_no_model b =
    contains_text b "11102"
    || contains_text b "service info not found"
    || contains_text b "model [" && contains_text b "] service info not found"

unfoldable pub is_exhausted : String → Bool
is_exhausted b = contains_text b "14018" || contains_text b "Credits exhausted"

-- A reply of 400 to 499 that is neither 401 nor 429.
unfoldable pub judge_client_error : HttpReply → Verdict
unfolding has_invalid_params has_no_model is_exhausted
judge_client_error r =
    if r.status == 403 && contains_text r.body "11140"
    then bans
    else if is_exhausted r.body
    then bans
    else if r.status == 400 && has_invalid_params r.body
    then bad_params r.body
    else if r.status == 400 && has_no_model r.body
    then no_model
    else cools

unfoldable pub judge_reply : HttpReply → Verdict
unfolding judge_client_error
judge_reply r =
    if r.status == 429
    then (if contains_text r.body "14017" then bans else cools)
    else if leb 400 r.status && ltb r.status 500
    then judge_client_error r
    else if leb 500 r.status
    then broken r.status
    else serves r

unfoldable pub judge_second : Option HttpReply → Verdict
unfolding judge_reply
judge_second none = skips
judge_second (some r) = if r.status == 401 then bans else judge_reply r

-- After a 401: an OAuth token is refreshed once, an API key is given up.
unfoldable pub judge_unauthorized : Attempt → CbKey → CbKey × Verdict
unfolding judge_second refresh
judge_unauthorized a k =
    if is_oauth k.cred_type
    then (let (k', done) = refresh a.now a.renewal k in
        if done then (k', judge_second a.second) else (k', bans))
    else (k, bans)

unfoldable pub judge_first : Attempt → CbKey → Option HttpReply → CbKey × Verdict
unfolding judge_unauthorized judge_reply
judge_first a k none = (k, skips)
judge_first a k (some r) = if r.status == 401 then judge_unauthorized a k else (k, judge_reply r)

-- An error of the early refresh does not stop the attempt.
unfoldable pub attempt_key : Attempt → CbKey → CbKey × Verdict
unfolding ensure_valid judge_first
attempt_key a k = judge_first a (ensure_valid a.now a.early k).0 a.first

-- What a verdict does to the key.
unfoldable pub settle : ℕ → Verdict → CbKey → CbKey
settle now bans k = permanent_disable k
settle now cools k = cooldown_disable now k
settle now skips k = k
settle now no_model k = k
settle now (bad_params b) k = k
settle now (broken s) k = k
settle now (serves r) k = k

-- What a verdict records with the circuit.
unfoldable pub record_verdict : Attempt → Verdict → UpstreamHealth → UpstreamHealth
record_verdict a (bad_params b) h = record_request a.now a.latency (some "cb 400 invalid params") h
record_verdict a no_model h = record_request a.now a.latency (some "cb 400 model not found") h
record_verdict a (broken s) h = record_request a.now a.latency (some "upstream") h
record_verdict a (serves r) h = record_request a.now a.latency none h
record_verdict a skips h = h
record_verdict a bans h = h
record_verdict a cools h = h

-- The answer to the client: the reply of the key at an index, an error, or nothing for one that is gone.
pub data Answer : Type 0 where
  served : ℕ → HttpReply → Answer
  params_rejected : String → Answer
  model_not_available all_keys_disabled circuit_open cancelled : Answer

pub record Served : Type 0 where
  pub pool : CbKeyManager
  pub health : UpstreamHealth

-- One attempt with the key at an index, in a pool that has moved on.
unfoldable pub try_key : Attempt → ℕ → CbKey → Served → Served × Verdict
unfolding attempt_key settle record_verdict
try_key a idx k s =
    let (k', v) = attempt_key a k in
    (
      record {
        pool = record (s.pool) { keys = modify_key (λ _. settle a.now v k') idx s.pool.keys };
        health = record_verdict a v s.health;
      },
      v,
    )

-- What a verdict means for the loop: an answer, or the rest of it.
unfoldable pub finish : (Served → Served × Answer) → ℕ → Served → Verdict → Served × Answer
finish rest idx s (bad_params b) = (s, params_rejected b)
finish rest idx s no_model = (s, model_not_available)
finish rest idx s (serves r) = (s, served idx r)
finish rest idx s skips = rest s
finish rest idx s bans = rest s
finish rest idx s cools = rest s
finish rest idx s (broken status) = rest s

module _ (gone : ℕ → Bool) (ask : ℕ → CbKey → Attempt) where
  -- The attempt `n` with the key that `Next` gave, by its index, and the rest of the loop.
  unfoldable pub try_at :
      (Served → Served × Answer) → ℕ → Served → ℕ → Option CbKey → Served × Answer
  unfolding try_key finish
  try_at rest n s idx none = (s, all_keys_disabled)
  try_at rest n s idx (some k) = let (s', v) = try_key (ask n k) idx k s in finish rest idx s' v

  unfoldable pub pick : (Served → Served × Answer) → ℕ → Served → Option ℕ → Served × Answer
  unfolding try_at
  pick rest n s none = (s, all_keys_disabled)
  pick rest n s (some idx) = try_at rest n s idx (get_elem? s.pool.keys idx)

  -- The attempts, with the rounds left, from the attempt `n` on.
  unfoldable pub walk : ℕ → ℕ → Served → Served × Answer
  unfolding next_key pick
  walk zero n s = (s, all_keys_disabled)
  walk (suc rounds) n s =
      let (pool, found) = next_key s.pool in
      if gone n
      then (s, cancelled)
      else pick (walk rounds (n + 1)) n (record s { pool = pool }) found

  -- After the circuit was asked: as many rounds as there are keys, or a refusal.
  unfoldable pub proxy_with : ℕ → Served → UpstreamHealth × Bool → Served × Answer
  unfolding walk
  proxy_with now s (health, lets) =
      if lets
      then walk (length s.pool.keys) 0 (record s { health = health })
      else (record s { health = record_request now 0 (some "circuit open") health }, circuit_open)

  unfoldable pub proxy_code_buddy : ℕ → Served → Served × Answer
  unfolding proxy_with
  proxy_code_buddy now s = proxy_with now s (can_request now s.health)
