-- ===== src/Grok/Tests.antt =====
-- Examples of the pool of Grok accounts (internal/upstream/grok.go).
use onmi_routers.Circuit.{new_upstream_health}
use onmi_routers.Grok.{GrokAccount, GrokAccountManager, unrefreshed, next_account}
use onmi_routers.Grok.Choice.{IsPicked, next_account-IsPicked}
use onmi_routers.Grok.Serve.{Outcome, proxy_grok}
use onmi_routers.Grok.Served.{IsServed, proxy_grok-IsServed}
use onmi_routers.Base.{ℕ, ◌+◌, String, Bool, true, false, none, some, [], ◌∷◌, ◌==◌, if◌then◌else◌}

abbrev account : String → ℕ → Bool → GrokAccount
account email expires_at disabled = record {
  email = email;
  access_token = "access";
  refresh_token = "refresh";
  id_token = "";
  expires_in = 21600;
  sub = "";
  expires_at = expires_at;
  disabled = disabled;
  disabled_at = none;
}

-- One account is banned, and one expires soon.
abbrev pool : GrokAccountManager
pool = record {
  accounts =
      account "banned" 9000000000000 true
      ∷ account "near" 600000000000 false
      ∷ account "good" 9000000000000 false
      ∷ [];
  next = 1;
  stored = true;
}

next_account-IsPicked_example : IsPicked 1000 pool (next_account 1000 pool)
next_account-IsPicked_example = next_account-IsPicked 1000 pool

-- The first attempt is answered by 403 and the others by 200.
abbrev answers : ℕ → GrokAccount → Outcome
answers n a = record {
  now = 2000 + n;
  latency = 5;
  first = some (record { status = if n == 0 then 403 else 200; text = "try later" });
  refresh = unrefreshed;
  second = none;
}

proxy_grok-IsServed_example :
    IsServed 3 (proxy_grok (λ n. 1000 + n) (λ n. false) answers 1000 pool new_upstream_health)
proxy_grok-IsServed_example =
    proxy_grok-IsServed (λ n. 1000 + n) (λ n. false) answers 1000 pool new_upstream_health
