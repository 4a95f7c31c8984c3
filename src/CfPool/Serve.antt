-- ===== src/CfPool/Serve.antt =====
-- ProxyCloudflare of internal/upstream/cloudflare.go up to the answer that is handed to the client. What
-- the network does in an attempt is an argument, a request runs without others in between, and the
-- results that a proxy is marked with are left out.
pub mod Honest
pub mod Effort
pub mod Outage
use onmi_routers.Base.{
  ℕ, zero, suc, ◌+◌, String, Bool, true, false, not, ◌&&◌, ◌||◌, Option, none, some, List, ◌++◌,
  ltb, leb, ◌==◌, if◌then◌else◌, length,
}
use onmi_routers.Circuit.{UpstreamHealth, record_request, can_request}
use onmi_routers.CfPool.{
  CfKey, CfKeyManager, StoreCall, next_key, record_usage, permanent_disable, cooldown_disable,
}

-- One attempt with a key: its day and time, the time since the request came, and the status of the
-- reply, which is none where the network failed.
pub record Attempt : Type 0 where
  pub today : String
  pub now : ℕ
  pub latency : ℕ
  pub status : Option ℕ

-- What a reply comes to.
pub data Verdict : Type 0 where
  unreachable rejected limited missing refused broken : Verdict
  accepted : ℕ → Verdict

unfoldable pub judge_status : ℕ → Verdict
judge_status s =
    if s == 401 || s == 403
    then rejected
    else if s == 429
    then limited
    else if leb 400 s && ltb s 500
    then (if s == 404 then missing else refused)
    else if leb 500 s
    then broken
    else accepted s

unfoldable pub judge : Option ℕ → Verdict
unfolding judge_status
judge none = unreachable
judge (some s) = judge_status s

-- What the loop has seen so far.
pub record Seen : Type 0 where
  pub not_found : ℕ
  pub saw_auth_fail : Bool
  pub saw_429 : Bool
  pub saw_5xx : Bool
  pub saw_net_err : Bool
  pub last_status : ℕ

abbrev pub nothing_seen : Seen
nothing_seen = record {
  not_found = 0;
  saw_auth_fail = false;
  saw_429 = false;
  saw_5xx = false;
  saw_net_err = false;
  last_status = 0;
}

abbrev pub with_status : Option ℕ → Seen → Seen
with_status none p = p
with_status (some s) p = record p { last_status = s }

unfoldable pub note : Verdict → Seen → Seen
note unreachable p = record p { saw_net_err = true }
note rejected p = record p { saw_auth_fail = true }
note limited p = record p { saw_429 = true }
note missing p = record p { not_found = p.not_found + 1 }
note refused p = p
note broken p = record p { saw_5xx = true }
note (accepted s) p = p

-- Why a request gets no reply.
pub data Reason : Type 0 where
  circuit_open bad_body no_keys pool_exhausted model_missing model_missing_on_samples : Reason
  rate_limited auth_failed upstream_broken network_failed no_healthy_reply all_disabled : Reason

-- The status that the client gets.
unfoldable pub reason_status : Reason → ℕ
reason_status circuit_open = 503
reason_status bad_body = 400
reason_status no_keys = 503
reason_status pool_exhausted = 503
reason_status model_missing = 404
reason_status model_missing_on_samples = 404
reason_status rate_limited = 429
reason_status auth_failed = 503
reason_status upstream_broken = 502
reason_status network_failed = 502
reason_status no_healthy_reply = 503
reason_status all_disabled = 503

-- The error of a loop that ended without a reply.
unfoldable pub failure : Seen → Reason
failure p =
    if ltb 0 p.not_found
    then model_missing_on_samples
    else if p.saw_429 && not p.saw_auth_fail
    then rate_limited
    else if p.saw_auth_fail && not p.saw_429 && not p.saw_5xx
    then auth_failed
    else if p.saw_5xx
    then upstream_broken
    else if p.saw_net_err
    then network_failed
    else if ltb 0 p.last_status
    then no_healthy_reply
    else all_disabled

-- The answer to the client: the reply to the key of an account, with its status, or an error.
pub data Answer : Type 0 where
  served : String → ℕ → Answer
  fails : Reason → Answer

pub record Served : Type 0 where
  pub pool : CfKeyManager
  pub health : UpstreamHealth
  pub calls : List StoreCall

abbrev pub update_pool : CfKeyManager × List StoreCall → Served → Served
update_pool (pool, calls) s = record s { pool = pool; calls = s.calls ++ calls }

-- What a verdict does to the key, the circuit and the store.
unfoldable pub settle : Attempt → CfKey → Verdict → Served → Served
settle a k unreachable s = s
settle a k rejected s = update_pool (permanent_disable k s.pool) s
settle a k limited s = update_pool (cooldown_disable a.now k s.pool) s
settle a k missing s = s
settle a k refused s = update_pool (cooldown_disable a.now k s.pool) s
settle a k broken s = record s {
  health = record_request a.now a.latency (some "upstream") s.health;
}
settle a k (accepted status) s =
    update_pool (record_usage a.today 1 k s.pool)
      (record s { health = record_request a.now a.latency none s.health })

abbrev pub Rest : Type 0
Rest = Seen → Served → Served × Answer

-- The third reply of 404 ends the loop.
unfoldable pub finish : Rest → Attempt → CfKey → Seen → Served → Verdict → Served × Answer
finish rest a k p s (accepted status) = (s, served k.account_id status)
finish rest a k p s missing =
    let on = rest p s in
    if leb 3 p.not_found
    then (
      record s { health = record_request a.now a.latency (some "model 404") s.health },
      fails model_missing,
    )
    else on
finish rest a k p s unreachable = rest p s
finish rest a k p s rejected = rest p s
finish rest a k p s limited = rest p s
finish rest a k p s refused = rest p s
finish rest a k p s broken = rest p s

abbrev pub max_attempts : ℕ
max_attempts = 12

module _ (gone : ℕ → Bool) (day : ℕ → String) (ask : ℕ → CfKey → Attempt) where
  -- The attempt `n` with the key that `Next` gave, and the rest of the loop.
  unfoldable pub try_key : Rest → ℕ → Seen → Served → Option CfKey → Served × Answer
  unfolding judge note settle finish failure
  try_key rest n p s none = (s, fails (if n == 0 then pool_exhausted else failure p))
  try_key rest n p s (some k) =
      let a = ask n k in
      let v = judge a.status in finish rest a k (note v (with_status a.status p)) (settle a k v s) v

  -- The attempts, with the rounds left, from the attempt `n` on.
  unfoldable pub walk : ℕ → ℕ → Rest
  unfolding next_key try_key failure
  walk zero n p s = (s, fails (failure p))
  walk (suc rounds) n p s =
      let (pool, found) = next_key (day n) s.pool in
      if gone n
      then (s, fails (failure p))
      else try_key (walk rounds (n + 1)) n p (record s { pool = pool }) found

  -- After the circuit was asked.
  unfoldable pub proxy_with : ℕ → Bool → Served → UpstreamHealth × Bool → Served × Answer
  unfolding walk
  proxy_with now is_json s (health, lets) =
      let asked = record s { health = health } in
      let rounds =
        if ltb (length s.pool.keys) max_attempts then length s.pool.keys else max_attempts in
      if not lets
      then (
        record s { health = record_request now 0 (some "circuit open") health },
        fails circuit_open,
      )
      else if not is_json
      then (asked, fails bad_body)
      else if ltb rounds 1
      then (asked, fails no_keys)
      else walk rounds 0 nothing_seen asked

  -- `is_json` says whether the body is read by cfTransform.
  unfoldable pub proxy_cloudflare : ℕ → Bool → Served → Served × Answer
  unfolding proxy_with
  proxy_cloudflare now is_json s = proxy_with now is_json s (can_request now s.health)
