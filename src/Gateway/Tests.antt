-- ===== src/Gateway/Tests.antt =====
-- Examples of the chat handler (internal/proxy/proxy.go and internal/proxy/custom.go).
use onmi_routers.Base.{
  ne_of_str_eq, ℕ, ◌≡◌, refl, String, true, false, none, some, List, [], ◌∷◌, arith, ◌==◌,
  if◌then◌else◌,
}
use onmi_routers.Base.Int.{pos}
use onmi_routers.Base.Text.{trim_prefix}
use onmi_routers.Combo.{resolve, Combo}
use onmi_routers.Base.Assoc.{lookup}
use onmi_routers.Keys.{get, is_model_allowed, match_model, GatewayKeyInfo}
use onmi_routers.Gateway.{expand_grok_alias, Body, Attempt}
use onmi_routers.Gateway.Resolution.{Outside, Gateway, default_model, resolve_request}
use onmi_routers.Gateway.Handler.{cached, call_upstreams, Request, handle, refuses}
use onmi_routers.Cache.{Store}
use onmi_routers.Cache.Bound.{IsValid}
use onmi_routers.Gateway.Whitelist.{only_resolved_checked, cached_for_others}
use onmi_routers.Gateway.Writer.{captured, writes_header, writes}
use onmi_routers.Gateway.Chain.{
  try_candidate, is_final, set_context, expand_effort, resolve_with, Answer, Loop, empty_context,
  chain,
}

abbrev body_for : String → Body
body_for model = record {
  model = model;
  reasoning_effort = none;
  reasoning = false;
  stream = false;
  content = "hello";
}

abbrev answer_with : ℕ → Answer
answer_with status = record {
  calls = writes_header status ∷ writes (104 ∷ 105 ∷ []) ∷ [];
  tokens_in = some 3;
  tokens_out = some 4;
  response_body = some (104 ∷ 105 ∷ []);
}

-- The first call of a request fails and the others do not.
abbrev fails_once : ℕ → Attempt → Answer
fails_once n a = if n == 0 then answer_with 503 else answer_with 200

abbrev before : Loop
before = record {
  body = body_for "grok-4.5-high";
  model = "grok-4.5-high";
  upstream_name = "codebuddy";
  context = empty_context;
  last_recorder = none;
  attempts = [];
}

abbrev three_models : List String
three_models = "grok-4.5-high" ∷ "cf/llama-70b" ∷ "cb/glm" ∷ []

-- A key that may use the first model of the combo only.
abbrev limited_key : GatewayKeyInfo
limited_key = record {
  key = "user";
  key_masked = "user";
  name = "user";
  role = "inference";
  allowed_models = "cb/*" ∷ [];
  rpm = pos 60;
  burst = pos 10;
  token_quota = pos 0;
  tokens_used = 0;
  requests = 0;
  created_at = 0;
  disabled = false;
}

abbrev mix : Combo
mix = record {
  name = "mix";
  models = "cb/glm" ∷ "grok-4" ∷ [];
  strategy = "fallback";
  description = "";
  compression_mode = "";
}

abbrev empty_store : Store
empty_store = record {
  items = [];
  order = [];
  ttl = 100;
  max_items = 10;
  hits = 0;
  misses = 0;
  enabled = true;
}

abbrev gateway : Gateway
gateway = record {
  combos = some (record { combos = ("mix", mix) ∷ []; usage_n = []; fallback_seq = [] });
  custom = none;
  auth = some (record { keys = ("user", limited_key) ∷ []; stored = false });
  semantic_cache = some empty_store;
}

abbrev outside : Outside
outside = record {
  usd = λ m a b. 0;
  hc = none;
  incr = none;
  key_from_chat = λ m b. m;
  status_of = λ calls. 200;
  send = fails_once;
}

abbrev request : Request
request = record { body = body_for "combo/mix"; accept = ""; client_key = "user" }

request-allowed :
    refuses gateway.auth "user"
      (resolve_request outside gateway (default_model request.body)).1.model
    ≡ false
unfolding refuses resolve_request default_model get lookup is_model_allowed match_model
    expand_effort resolve resolve_with expand_grok_alias
request-allowed = refl

only_resolved_checked_example :
    let free = handle outside 1 2 request (record gateway { auth = none }) in
    ((handle outside 1 2 request gateway).reply ≡ free.reply)
    × ((handle outside 1 2 request gateway).attempts ≡ free.attempts)
only_resolved_checked_example = only_resolved_checked outside request gateway 1 2 request-allowed

empty_store-IsValid : IsValid empty_store
unfolding lookup
empty_store-IsValid = record { covered = λ k h. ground arith; bounded = omega arith }

outcome-body :
    (call_upstreams outside request gateway).0.context.response_body ≡ some (104 ∷ 105 ∷ [])
unfolding call_upstreams resolve_request resolve resolve_with default_model lookup trim_prefix
    expand_effort expand_grok_alias chain try_candidate is_final captured set_context
outcome-body = refl

-- The second request comes with a key that is not registered.
cached_for_others_example :
    let other = record request { accept = ""; client_key = "nobody" } in
    (handle outside 50 51 other (handle outside 1 2 request gateway).gateway).reply
    ≡ cached (104 ∷ 105 ∷ [])
unfolding default_model lookup
cached_for_others_example =
    cached_for_others outside request gateway 1 2 50 51 empty_store (104 ∷ 105 ∷ []) "" "nobody"
      refl empty_store-IsValid tt (omega arith) refl refl (ne_of_str_eq "combo/mix" "" refl) refl
      refl request-allowed refl outcome-body (λ p. ground arith) (omega arith)
