-- ===== src/Grok/Serve.antt =====
-- ProxyGrok of internal/upstream/grok.go, up to the answer that is handed to the client. What the
-- network and the token endpoint do in an attempt is an argument, and so is whether the client is gone.
use onmi_routers.Combo.{contains_text}
use onmi_routers.Circuit.{UpstreamHealth, record_request, can_request}
use onmi_routers.Grok.{
  GrokAccount, GrokAccountManager, StoreCall, saves, Refreshed, renewed, revoked, unrefreshed,
  refreshed, Chosen, ready, refreshing, no_accounts, all_disabled, next_account, modify_account,
}
use onmi_routers.Base.{
  ℕ, zero, suc, ◌+◌, String, Bool, true, false, ◌||◌, Option, none, some, List, [], ◌∷◌, ◌++◌, leb,
  ◌==◌, if◌then◌else◌, length,
}

pub record HttpReply : Type 0 where
  pub status : ℕ
  pub text : String

-- One attempt: its time, the time since the request came, the reply, and after a 401 the refresh and the
-- reply to the second request; a reply is none where the network unrefreshed.
pub record Outcome : Type 0 where
  pub now : ℕ
  pub latency : ℕ
  pub first : Option HttpReply
  pub refresh : Refreshed
  pub second : Option HttpReply

-- What an attempt comes to.
pub data Verdict : Type 0 where
  serves : HttpReply → Verdict
  upstream_error : ℕ → Verdict
  skips bans cools : Verdict

unfoldable pub is_permanent_text : String → Bool
is_permanent_text s =
    contains_text s "spending-limit"
    || contains_text s "spending_limit"
    || contains_text s "personal-team-blocked"
    || contains_text s "banned"
    || contains_text s "suspended"
    || contains_text s "permanently"

-- A reply that is not a 401.
unfoldable pub judge_reply : HttpReply → Verdict
judge_reply r =
    if r.status == 402 || r.status == 403
    then (if r.status == 402 || is_permanent_text r.text then bans else cools)
    else if leb 500 r.status
    then upstream_error r.status
    else serves r

unfoldable pub judge_second : Option HttpReply → Verdict
unfolding judge_reply
judge_second none = skips
judge_second (some r) = if r.status == 401 then bans else judge_reply r

unfoldable pub judge_refreshed : Refreshed → Option HttpReply → Verdict
unfolding judge_second
judge_refreshed revoked second = bans
judge_refreshed unrefreshed second = skips
judge_refreshed (renewed t) second = judge_second second

unfoldable pub judge_first : Refreshed → Option HttpReply → Option HttpReply → Verdict
unfolding judge_refreshed judge_reply
judge_first refresh second none = skips
judge_first refresh second (some r) =
    if r.status == 401 then judge_refreshed refresh second else judge_reply r

unfoldable pub judge_outcome : Outcome → Verdict
unfolding judge_first
judge_outcome o = judge_first o.refresh o.second o.first

abbrev with_tokens : ℕ → Refreshed → GrokAccount → GrokAccount
with_tokens now (renewed t) a = refreshed now t a
with_tokens now revoked a = a
with_tokens now unrefreshed a = a

abbrev is_unauthorized : Option HttpReply → Bool
is_unauthorized none = false
is_unauthorized (some r) = r.status == 401

-- The account after the refresh, where there was one.
unfoldable pub renewed_account : Outcome → GrokAccount → GrokAccount
renewed_account o a = if is_unauthorized o.first then with_tokens o.now o.refresh a else a

abbrev pub disabled_by : ℕ → Verdict → GrokAccount → GrokAccount
disabled_by now (serves r) a = a
disabled_by now (upstream_error status) a = a
disabled_by now skips a = a
disabled_by now bans a = record a { disabled = true; disabled_at = none }
disabled_by now cools a = record a { disabled = true; disabled_at = some now }

abbrev pub recorded : Outcome → Verdict → UpstreamHealth → UpstreamHealth
recorded o (serves r) h = record_request o.now o.latency none h
recorded o (upstream_error status) h = record_request o.now o.latency (some "upstream error") h
recorded o skips h = h
recorded o bans h = h
recorded o cools h = h

abbrev pub saved_by : Verdict → GrokAccount → List StoreCall
saved_by (serves r) a = []
saved_by (upstream_error status) a = []
saved_by skips a = []
saved_by bans a = saves a ∷ []
saved_by cools a = saves a ∷ []

abbrev saved_tokens : Outcome → GrokAccount → List StoreCall
saved_tokens o a =
    if is_unauthorized o.first
    then elim o.refresh [
      | renewed t ↦ saves (refreshed o.now t a) ∷ []
      | revoked ↦ []
      | unrefreshed ↦ []
    ]
    else []

-- The state of a request, with the accounts that it tried and what came of it.
pub record Walk : Type 0 where
  pub pool : GrokAccountManager
  pub health : UpstreamHealth
  pub saved : List StoreCall
  pub tried : List (String × Verdict)

pub data Served : Type 0 where
  given : String → HttpReply → Served
  circuit_open exhausted gone : Served

-- The saves are those of a pool with a store.
unfoldable pub attempt_account : Outcome → GrokAccount → Walk → Walk
unfolding renewed_account judge_outcome
attempt_account o a w =
    let v = judge_outcome o in
    let change : GrokAccount → GrokAccount = λ x. disabled_by o.now v (renewed_account o x) in
    record {
      pool = record w.pool { accounts = modify_account a.email change w.pool.accounts };
      health = recorded o v w.health;
      saved = w.saved ++ saved_tokens o a ++ saved_by v (change a);
      tried = w.tried ++ (a.email, v) ∷ [];
    }

abbrev pub account_of : Chosen → Option GrokAccount
account_of (ready a) = some a
account_of (refreshing a) = some a
account_of no_accounts = none
account_of all_disabled = none

abbrev pub with_pool : GrokAccountManager → Walk → Walk
with_pool pool w = record w { pool = pool }

abbrev pub ends : GrokAccount → Verdict → Walk → Walk × Served → Walk × Served
ends a (serves r) w later = (w, given a.email r)
ends a (upstream_error status) w later = later
ends a skips w later = later
ends a bans w later = later
ends a cools w later = later

module _ (now_of : ℕ → ℕ) (is_gone : ℕ → Bool) (send : ℕ → GrokAccount → Outcome) where
  -- The loop over the attempts, with `rounds` of them left.
  unfoldable pub walk : ℕ → ℕ → Walk → Walk × Served
  walk n zero w = (w, exhausted)
  walk n (suc rounds) w =
      let (pool, chosen) = next_account (now_of n) w.pool in
      elim (account_of chosen) [
        | none ↦ if is_gone n then (w, gone) else (with_pool pool w, exhausted)
        | some a ↦
            let o = send n a in
            let w' = attempt_account o a (with_pool pool w) in
            let later = walk (n + 1) rounds w' in
            if is_gone n then (w, gone) else ends a (judge_outcome o) w' later
      ]

  -- One attempt for each account of the pool at most.
  unfoldable pub proxy_grok : ℕ → GrokAccountManager → UpstreamHealth → Walk × Served
  proxy_grok now pool health =
      let (health', allowed) = can_request now health in
      let start : Walk = record { pool = pool; health = health'; saved = []; tried = [] } in
      if allowed then walk 0 (length pool.accounts) start else (
        record start { health = record_request now 0 (some "circuit open") health' },
        circuit_open,
      )
