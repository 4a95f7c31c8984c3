-- ===== src/Keys/Tests.antt =====
-- Examples of the gateway's keys (internal/auth/auth.go).
use onmi_routers.Base.{
  ◌↔◌, ◌↔◌, ℕ, ◌+◌, ◌≡◌, refl, ◌≢◌, ◌⊎◌, String, true, false, not, ◌&&◌, none, some, List, [], ◌∷◌,
  arith, ltb,
}
use onmi_routers.Base.Int.{ℤ, pos}
use onmi_routers.Keys.{GatewayKeyInfo, Manager, valid}
use onmi_routers.Keys.{is_model_allowed}
use onmi_routers.Base.{Among}
use onmi_routers.Keys.Glob.{is_model_allowed-Fits, Fits}
use onmi_routers.Keys.Middleware.{Presented, presented_key, is_public, admit_admin}
use onmi_routers.Keys.Access.{IsOperator, is_pass, admit_admin-IsOperator}
use onmi_routers.Base.Assoc.{lookup}
use onmi_routers.Keys.Quota.{Call, uses, asks, removes, run, spent, is_removed, quota_enforced}

abbrev key_of : String → String → ℤ → ℕ → GatewayKeyInfo
key_of key role quota used = record {
  key = key;
  key_masked = key;
  name = "key";
  role = role;
  allowed_models = "grok-*" ∷ "auto" ∷ [];
  rpm = pos 60;
  burst = pos 10;
  token_quota = quota;
  tokens_used = used;
  requests = 0;
  created_at = 0;
  disabled = false;
}

abbrev two_keys : Manager
two_keys = record {
  keys =
      ("op", key_of "op" "admin" (pos 0) 5) ∷ ("user", key_of "user" "inference" (pos 100) 40) ∷ [];
  stored = true;
}

abbrev by_header : Presented
by_header = record {
  path = "/api/keys";
  authorization = "Bearer op";
  cookie = some "user";
  accept = "text/html";
}

admit_admin-IsOperator_example : (is_pass (admit_admin false none two_keys by_header) ≡ true) ↔ (
    (is_public "/api/keys" ≡ false)
    × (presented_key none by_header ≢ "")
    × IsOperator two_keys (presented_key none by_header))
admit_admin-IsOperator_example = admit_admin-IsOperator none two_keys by_header

-- Two uses that reach the quota, with a request and the removal of another key between them.
abbrev usage : List Call
usage = uses "user" 30 ∷ asks "user" ∷ removes "op" ∷ uses "user" 30 ∷ []

user-found : lookup "user" two_keys.keys ≡ some (key_of "user" "inference" (pos 100) 40)
unfolding lookup
user-found = refl

quota_enforced_example :
    valid "user" (run usage two_keys)
    ≡ (not (is_removed "user" usage) && ltb (40 + spent "user" usage) 100)
quota_enforced_example =
    quota_enforced "user" 100 (omega arith) usage two_keys (key_of "user" "inference" (pos 100) 40)
      (tt, (tt, (tt, (tt, tt)))) user-found refl refl (omega arith)

abbrev granted : List String
granted = "grok-*" ∷ "auto" ∷ []

is_model_allowed-Fits_example :
    (is_model_allowed granted "grok-4" ≡ true)
    ↔ ((granted ≡ []) ⊎ ((p : String) × Among p granted × Fits p "grok-4"))
is_model_allowed-Fits_example = is_model_allowed-Fits granted "grok-4"
