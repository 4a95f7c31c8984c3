-- ===== src/Combo/Tests.antt =====
-- Examples of combos (internal/proxy/combo.go).
use onmi_routers.Base.{ℕ, ◌≡◌, refl, String, true, false, Option, none, some, [], ◌∷◌, arith}
use onmi_routers.Base.Assoc.{lookup}
use onmi_routers.Combo.{Combo, HealthChecker, Registry, resolve, upstream_open}
use onmi_routers.Combo.Routing.{resolve_routes, IsRouted}

abbrev free : String → ℕ → ℕ → ℕ
free m a b = 0

-- The circuit of Grok is open.
abbrev grok_down : Option HealthChecker
grok_down = some (record {
  cf = some (record { is_open = false; avg_latency_ms = 80 });
  cb = none;
  grok = some (record { is_open = true; avg_latency_ms = 20 });
})

abbrev mix : String → Combo
mix strategy = record {
  name = "mix";
  models = "grok-4.5" ∷ "@cf/qwen" ∷ "cb/glm" ∷ [];
  strategy = strategy;
  description = "";
  compression_mode = "";
}

abbrev registry : String → Registry
registry strategy = record {
  combos = ("mix", mix strategy) ∷ [];
  usage_n = [];
  fallback_seq = ("mix", 4) ∷ [];
}

-- The circuit of Cloudflare is open, and a model that goes there by another name than @cf/ is not
-- skipped.
abbrev cf_down : Option HealthChecker
cf_down = some (record {
  cf = some (record { is_open = true; avg_latency_ms = 80 });
  cb = none;
  grok = some (record { is_open = false; avg_latency_ms = 20 });
})

not_skipped : upstream_open cf_down "@cf/qwen" ≡ true
unfolding upstream_open
not_skipped = refl

cf_unseen : upstream_open cf_down "cf/llama-70b" ≡ false
unfolding upstream_open
cf_unseen = refl

resolve_routes_example :
    (m : String) × ((resolve free grok_down none "combo/mix" (registry "latency")).1 ≡ some m)
    × IsRouted grok_down (mix "latency") m
unfolding lookup
resolve_routes_example =
    resolve_routes free grok_down none "combo/mix" (registry "latency") (mix "latency") refl refl
      (λ p. ground arith)
