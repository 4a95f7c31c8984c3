-- ===== src/Cost.antt =====
-- internal/cost/cost.go: the prices of models. A price is in thousandths of a dollar for a million
-- tokens, so what the source computes in float64 is exact here, in billionths of a dollar.
-- `lower` is `strings.ToLower`.
pub mod Prefixes
mod Tests
use Prim.Native.String.{len}
use text.Mathlib.Text.{starts_with}
use onmi_routers.Base.{
  ℕ, zero, suc, ◌+◌, ◌-◌, ◌*◌, ◌/◌, ◌%◌, ◌≤◌, ◌<◌, ◌≡◌, refl, sym, ap, ◌∙◌, ◌≢◌, ◌⊎◌, inl, inr,
  String, Bool, true, false, not, ◌&&◌, ◌||◌, Option, none, some, List, [], ◌∷◌, ◌++◌, map, arith,
  eq_iff, eq_refl, ltb, leb, ◌==◌, str_eq, if◌then◌else◌, Bool-cases, Option-cases, length,
  get_elem?, drop, keep, All, All-append, contains,
}

pub record Price : Type 0 where
  pub input : ℕ
  pub output : ℕ

abbrev pub price : ℕ → ℕ → Price
price input output = record { input = input; output = output }

abbrev pub Table : Type 0
Table = List (String × Price)

abbrev pub table : Table
table =
    ("grok-4.5", price 3000 15000)
    ∷ ("grok-4.1", price 500 1500)
    ∷ ("grok-4", price 5000 15000)
    ∷ ("grok-3", price 300 750)
    ∷ ("grok-3-mini", price 100 400)
    ∷ ("grok-code", price 500 1500)
    ∷ ("grok-2", price 2000 10000)
    ∷ ("cb/", price 350 1050)
    ∷ ("gpt-5", price 1250 10000)
    ∷ ("gpt-4.1", price 2000 8000)
    ∷ ("gpt-4o", price 2500 10000)
    ∷ ("o3", price 10000 40000)
    ∷ ("o4", price 5000 20000)
    ∷ ("gpt-4o-mini", price 150 600)
    ∷ ("claude-opus-4", price 15000 75000)
    ∷ ("claude-sonnet-4", price 3000 15000)
    ∷ ("claude-haiku-4", price 800 4000)
    ∷ ("gemini-2.5-pro", price 1250 10000)
    ∷ ("gemini-2.5-flash", price 300 2500)
    ∷ ("gemini-2.0-flash", price 100 400)
    ∷ ("deepseek-reasoner", price 550 2190)
    ∷ ("deepseek-chat", price 270 1100)
    ∷ ("@cf/meta/llama-3.2-1b-instruct", price 27 201)
    ∷ ("@cf/meta/llama-3.2-3b-instruct", price 51 335)
    ∷ ("@cf/meta/llama-3.1-8b-instruct-fp8-fast", price 45 384)
    ∷ ("@cf/meta/llama-3.2-11b-vision-instruct", price 49 676)
    ∷ ("@cf/meta/llama-3.1-70b-instruct-fp8-fast", price 293 2253)
    ∷ ("@cf/meta/llama-3.3-70b-instruct-fp8-fast", price 293 2253)
    ∷ ("@cf/deepseek-ai/deepseek-r1-distill-qwen-32b", price 497 4881)
    ∷ ("@cf/mistral/mistral-7b-instruct-v0.1", price 110 190)
    ∷ ("@cf/mistralai/mistral-small-3.1-24b-instruct", price 351 555)
    ∷ ("@cf/meta/llama-3.1-8b-instruct-fp8", price 152 287)
    ∷ ("@cf/meta/llama-3.1-8b-instruct-awq", price 123 266)
    ∷ ("@cf/meta/llama-3.1-8b-instruct", price 282 827)
    ∷ ("@cf/meta/llama-3-8b-instruct-awq", price 123 266)
    ∷ ("@cf/meta/llama-3-8b-instruct", price 282 827)
    ∷ ("@cf/meta/llama-2-7b-chat-fp16", price 556 6667)
    ∷ ("@cf/meta/llama-guard-3-8b", price 484 30)
    ∷ ("@cf/meta/llama-4-scout-17b-16e-instruct", price 270 850)
    ∷ ("@cf/google/gemma-3-12b-it", price 345 556)
    ∷ ("@cf/google/gemma-4-26b-a4b-it", price 100 300)
    ∷ ("@cf/qwen/qwq-32b", price 660 1000)
    ∷ ("@cf/qwen/qwen2.5-coder-32b-instruct", price 660 1000)
    ∷ ("@cf/qwen/qwen3-30b-a3b-fp8", price 51 335)
    ∷ ("@cf/openai/gpt-oss-120b", price 350 750)
    ∷ ("@cf/openai/gpt-oss-20b", price 200 300)
    ∷ ("@cf/aisingapore/gemma-sea-lion-v4-27b-it", price 351 555)
    ∷ ("@cf/ibm-granite/granite-4.0-h-micro", price 17 112)
    ∷ ("@cf/zai-org/glm-4.7-flash", price 60 400)
    ∷ ("@cf/zai-org/glm-5.2", price 1400 4400)
    ∷ ("@cf/nvidia/nemotron-3-120b-a12b", price 500 1500)
    ∷ ("@cf/moonshotai/kimi-k2.5", price 600 3000)
    ∷ ("@cf/moonshotai/kimi-k2.6", price 950 4000)
    ∷ ("@cf/moonshotai/kimi-k2.7-code", price 950 4000)
    ∷ ("cf/llama-70b", price 293 2253)
    ∷ ("cf/llama-8b", price 45 384)
    ∷ ("cf/deepseek-r1", price 497 4881)
    ∷ ("cf/kimi-k2.5", price 600 3000)
    ∷ ("cf/kimi-k2.6", price 950 4000)
    ∷ ("cf/kimi-k2.7-code", price 950 4000)
    ∷ ("cf/glm-4.7-flash", price 60 400)
    ∷ ("cf/glm-5.2", price 1400 4400)
    ∷ ("cf/gpt-oss-120b", price 350 750)
    ∷ ("cf/gpt-oss-20b", price 200 300)
    ∷ ("@cf/", price 0 0)
    ∷ ("cf/", price 0 0)
    ∷ ("combo/", price 1000 5000)
    ∷ []

-- The inner loop of the sort: the place `i` holds `e` and is compared with every later place.
pub pull : String × Price → Table → (String × Price) × Table
pull e [] = (e, [])
pull e (f ∷ rest) =
    let swapped = pull f rest in
    let kept = pull e rest in
    if ltb (len e.0) (len f.0) then (swapped.0, e ∷ swapped.1) else (kept.0, f ∷ kept.1)

-- The outer loop, with `rounds` places left.
pub sort_from : ℕ → Table → Table
unfolding pull
sort_from zero entries = entries
sort_from (suc rounds) [] = []
sort_from (suc rounds) (e ∷ rest) = let pulled = pull e rest in pulled.0 ∷ sort_from rounds pulled.1

-- What `ensureBuilt` makes of the table, in any order in which the map gives it.
pub built : Table → Table
unfolding sort_from
built entries = sort_from (length entries) entries

pub first_prefix : String → Table → Option Price
first_prefix m [] = none
first_prefix m ((k, p) ∷ rest) = if starts_with m k then some p else first_prefix m rest

abbrev pub fallback_price : Price
fallback_price = price 1000 5000

abbrev pub or_fallback : Option Price → Price
or_fallback none = fallback_price
or_fallback (some p) = p

pub price_for : (String → String) → Table → String → Price
unfolding built first_prefix
price_for lower entries model = or_fallback (first_prefix (lower model) (built entries))

pub usd : (String → String) → Table → String → ℕ → ℕ → ℕ
unfolding price_for
usd lower entries model tokens_in tokens_out =
    let p = price_for lower entries model in tokens_in * p.input + tokens_out * p.output
