-- ===== src/Gateway.antt =====
-- internal/proxy/proxy.go and internal/proxy/buffered_writer.go, with the functions on names of models
-- in internal/upstream: how a chat request is routed to the upstreams. Of the body only the model, the
-- reasoning effort, whether there is a field `reasoning`, and whether a stream is asked for are read
-- and written here; `content` stands for the rest.
pub mod Writer
pub mod Chain
pub mod Retries
pub mod Effort
pub mod Resolution
pub mod Handler
pub mod Whitelist
pub mod CustomModels
mod Tests
use onmi_routers.Base.Text.{trim_prefix}
use onmi_routers.Combo.{contains_text}
use onmi_routers.Base.Assoc.{lookup, insert, erase}
use Prim.Native.String.{◌++◌ as text_append}
use text.Mathlib.Text.{starts_with}
use onmi_routers.Base.{
  ℕ, zero, suc, ◌+◌, ◌-◌, ◌*◌, ◌/◌, ◌%◌, ◌≤◌, ◌<◌, ◌≡◌, refl, sym, ap, ◌∙◌, ◌≢◌, ◌⊎◌, inl, inr,
  String, Bool, true, false, not, ◌&&◌, ◌||◌, Option, none, some, List, [], ◌∷◌, ◌++◌, map, arith,
  eq_iff, eq_refl, ltb, leb, ◌==◌, str_eq, if◌then◌else◌, Bool-cases, Option-cases, length,
  get_elem?, drop, keep, All, All-append, contains,
}

-- ExpandGrokAlias
unfoldable pub expand_grok_alias : String → Option String
expand_grok_alias model =
    if str_eq model "grok-4.5-high" || str_eq model "grok-4.5-xhigh"
    then some "high"
    else if str_eq model "grok-4.5-medium"
    then some "medium"
    else if str_eq model "grok-4.5-low"
    then some "low"
    else if str_eq model "grok-4.5-auto"
    then some "auto"
    else if str_eq model "grok-4.5-none"
    then some "none"
    else none

unfoldable pub is_grok_model : String → Bool
is_grok_model model = starts_with model "grok-"

unfoldable pub is_cf_model : String → Bool
is_cf_model model =
    starts_with model "cf/"
    || starts_with model "@cf/"
    || starts_with model "@hf/"
    || starts_with model "llama-"
    || starts_with model "deepseek-"
    || starts_with model "qwen-"

abbrev pub cf_model_aliases : List (String × String)
cf_model_aliases =
    ("llama-70b", "@cf/meta/llama-3.3-70b-instruct-fp8-fast")
    ∷ ("llama-8b", "@cf/meta/llama-3.1-8b-instruct-fp8-fast")
    ∷ ("llama-3.1-8b", "@cf/meta/llama-3.1-8b-instruct")
    ∷ ("deepseek-r1", "@cf/deepseek-ai/deepseek-r1-distill-qwen-32b")
    ∷ ("deepseek-70b", "@cf/deepseek-ai/deepseek-r1-distill-qwen-32b")
    ∷ ("qwen-32b", "@cf/qwen/qwen2.5-coder-32b-instruct")
    ∷ ("qwen-14b", "@cf/qwen/qwen3-30b-a3b-fp8")
    ∷ ("mistral-7b", "@cf/mistral/mistral-7b-instruct-v0.1")
    ∷ ("kimi-k2.5", "@cf/moonshotai/kimi-k2.5")
    ∷ ("kimi-k2.6", "@cf/moonshotai/kimi-k2.6")
    ∷ ("kimi-k2.7-code", "@cf/moonshotai/kimi-k2.7-code")
    ∷ ("kimi-k2.7", "@cf/moonshotai/kimi-k2.7-code")
    ∷ ("glm-4.7-flash", "@cf/zai-org/glm-4.7-flash")
    ∷ ("glm-5.2", "@cf/zai-org/glm-5.2")
    ∷ ("gpt-oss-120b", "@cf/openai/gpt-oss-120b")
    ∷ ("gpt-oss-20b", "@cf/openai/gpt-oss-20b")
    ∷ ("llama-4-scout", "@cf/meta/llama-4-scout-17b-16e-instruct")
    ∷ ("gemma-4", "@cf/google/gemma-4-26b-a4b-it")
    ∷ ("nemotron-3", "@cf/nvidia/nemotron-3-120b-a12b")
    ∷ []

unfoldable pub expand_cf_alias : String → Option String
expand_cf_alias model =
    let key = trim_prefix model "cf/" in
    if str_eq model ""
    then none
    else if starts_with model "@cf/" || starts_with model "@hf/"
    then some model
    else elim (lookup key cf_model_aliases) [
      | some m ↦ some m
      | none ↦ if contains_text key "/" then some (text_append "@cf/" key) else none
    ]

-- The parsed body.
pub record Body : Type 0 where
  pub model : String
  pub reasoning_effort : Option String
  pub reasoning : Bool
  pub stream : Bool
  pub content : String

-- A call of an upstream: which one, the model that it is given beside the body (ProxyGrok only, the
-- model of the body otherwise), and the body.
pub record Attempt : Type 0 where
  pub upstream_name : String
  pub effective_model : String
  pub sent : Body

abbrev pub grok_name : String
grok_name = "grok"

abbrev pub codebuddy_name : String
codebuddy_name = "codebuddy"

abbrev pub cloudflare_name : String
cloudflare_name = "cloudflare"

abbrev attempt_on : String → Body → Attempt
attempt_on name b = record { upstream_name = name; effective_model = b.model; sent = b }

abbrev or_default : String → String → String
or_default name m = if str_eq name "" then m else name

abbrev expanded : String → Body → Body
expanded m b = elim (expand_cf_alias m) [ none ↦ b | some e ↦ record b { model = e } ]

-- The closure `dispatch`: the custom upstream, the custom name of the model, the model and the body. It
-- changes the body in place, so the attempt has the body afterwards.
unfoldable pub dispatch : String → String → String → Body → Attempt
unfolding is_cf_model is_grok_model
dispatch custom_upstream custom_model_name m b =
    if str_eq custom_upstream grok_name
    then record {
      upstream_name = grok_name;
      effective_model = or_default custom_model_name m;
      sent = if str_eq custom_model_name "" then b else record b { model = custom_model_name };
    }
    else if str_eq custom_upstream codebuddy_name
    then attempt_on codebuddy_name (
        if str_eq custom_model_name ""
        then b
        else record b { model = text_append "cb/" custom_model_name })
    else if is_cf_model m
    then attempt_on cloudflare_name (expanded m b)
    else if is_grok_model m
    then record { upstream_name = grok_name; effective_model = m; sent = b }
    else attempt_on codebuddy_name b
