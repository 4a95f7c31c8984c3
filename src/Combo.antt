-- ===== src/Combo.antt =====
-- internal/proxy/combo.go, with the type of internal/db/db.go: combos, which are lists of models
-- under one name with a strategy that picks one of them. The registry is not nil.
-- `usd` is `cost.USD`, the price of a model for some numbers of tokens, which is only compared.
-- The counters of the process stand beside the registry; none reaches 2^63.
pub mod Routing
pub mod Turns
pub mod Catalog
pub mod Names
mod Tests
use Prim.Native.String.{len, ◌++◌ as text_append, slice}
use text.Mathlib.Text.{starts_with, find?}
use onmi_routers.Base.{
  suc, ℕ, zero, ◌+◌, ◌/◌, ◌%◌, refl, String, Bool, true, false, not, ◌&&◌, ◌||◌, Option, none, some,
  List, [], ◌∷◌, arith, ltb, leb, str_eq, if◌then◌else◌, length, get_elem?, keep,
}
use onmi_routers.Base.Int.{ℤ, pos, index_mod}
use onmi_routers.Base.Assoc.{lookup, insert}

pub record Combo : Type 0 where
  pub name : String
  pub models : List String
  pub strategy : String
  pub description : String
  pub compression_mode : String

-- The health of an upstream: whether its circuit is open, and its average latency.
pub record Status : Type 0 where
  pub is_open : Bool
  pub avg_latency_ms : ℕ

pub record HealthChecker : Type 0 where
  pub cf : Option Status
  pub cb : Option Status
  pub grok : Option Status

pub record Registry : Type 0 where
  pub combos : List (String × Combo)
  pub usage_n : List (String × ℕ)
  pub fallback_seq : List (String × ℕ)

abbrev pub count_of : Option ℕ → ℕ
count_of none = 0
count_of (some n) = n

abbrev pub contains_text : String → String → Bool
contains_text s t = elim (find? s t) [ none ↦ false | some i ↦ true ]

-- The health record of the upstream that would serve a model.
pub upstream_of : HealthChecker → String → Option Status
upstream_of hc model =
    if starts_with model "@cf/" || contains_text model "cloudflare"
    then hc.cf
    else if starts_with model "cb/" || contains_text model "codebuddy"
    then hc.cb
    else if starts_with model "grok"
    then hc.grok
    else none

-- The checker is none where it is nil.
pub status_of : Option HealthChecker → String → Option Status
unfolding upstream_of
status_of none model = none
status_of (some hc) model = upstream_of hc model

-- A name that shows no upstream counts as not open.
pub upstream_open : Option HealthChecker → String → Bool
unfolding status_of
upstream_open hc model = elim (status_of hc model) [ none ↦ false | some s ↦ s.is_open ]

pub avg_latency_ms : Option HealthChecker → String → ℕ
unfolding status_of
avg_latency_ms hc model = elim (status_of hc model) [ none ↦ 0 | some s ↦ s.avg_latency_ms ]

-- The counter's new value.
pub fallback_counter : String → Registry → Registry × ℕ
fallback_counter name r =
    let n = count_of (lookup name r.fallback_seq) + 1 in
    (record r { fallback_seq = insert name n r.fallback_seq }, n)

pub usage_count : Registry → String → ℕ
usage_count r model = count_of (lookup model r.usage_n)

pub bump_usage : String → Registry → Registry
bump_usage model r = record r {
  usage_n = insert model (count_of (lookup model r.usage_n) + 1) r.usage_n;
}

-- The loop of the strategies that compare: the first model with the least score.
pub least : (String → ℕ) → String → List String → String
least score best [] = best
least score best (m ∷ ms) = least score (if ltb (score m) (score best) then m else best) ms

abbrev pub first_or : String → List String → String
first_or m [] = m
first_or m (x ∷ xs) = x

abbrev pub is_cf : String → Bool
is_cf m = starts_with m "@cf/" || starts_with m "cf/"

-- The first model of the first tier that has one; the tiers have every healthy model.
pub by_tier : (String → ℕ → ℕ → ℕ) → String → List String → String
by_tier usd head healthy =
    let tier1 = keep (λ m. not (is_cf m)) healthy in
    let tier2 = keep (λ m. is_cf m && ltb 0 (usd m 1 1)) healthy in
    let tier3 = keep (λ m. is_cf m && leb (usd m 1 1) 0) healthy in
    first_or (first_or (first_or head tier3) tier2) tier1

pub healthy_models : Option HealthChecker → List String → List String
unfolding upstream_open
healthy_models hc models = keep (λ m. not (upstream_open hc m)) models

abbrev pub or_head : String → Option String → String
or_head h none = h
or_head h (some m) = m

-- The strategies that `Resolve` hands on, over the healthy models `h ∷ hs`.
pub pick :
    (String → ℕ → ℕ → ℕ)
    → Option HealthChecker
    → String
    → String
    → String
    → List String
    → Registry
    → Registry × String
unfolding by_tier fallback_counter least usage_count bump_usage avg_latency_ms
pick usd hc name strategy h hs r =
    let (r', n) = fallback_counter (text_append name ":rnd") r in
    let used = least (usage_count r) h hs in
    if str_eq strategy "fill_first" || str_eq strategy "priority"
    then (r, h)
    else if str_eq strategy "auto"
    then (r, by_tier usd h (h ∷ hs))
    else if str_eq strategy "random"
    then (r', or_head h (get_elem? (h ∷ hs) (n % length (h ∷ hs))))
    else if str_eq strategy "least_used"
    then (bump_usage used r, used)
    else if str_eq strategy "latency"
    then (r, least (avg_latency_ms hc) h hs)
    else if str_eq strategy "cost"
    then (r, least (λ m. usd m 1_000_000 1_000_000) h hs)
    else (r, h)

pub pick_healthy :
    (String → ℕ → ℕ → ℕ)
    → Option HealthChecker
    → Combo
    → String
    → List String
    → Registry
    → Registry × String
unfolding pick
pick_healthy usd hc c head [] r = (r, head)
pick_healthy usd hc c head (h ∷ hs) r = pick usd hc c.name c.strategy h hs r

pub is_smart : String → Bool
is_smart s =
    str_eq s "latency"
    || str_eq s "cost"
    || str_eq s "fill_first"
    || str_eq s "least_used"
    || str_eq s "random"
    || str_eq s "auto"
    || str_eq s "priority"

-- The counter of the round robin: the store's new value, where it gives one that is not zero.
pub rotation : Option ℤ → String → Registry → Registry × ℤ
unfolding fallback_counter
rotation (some (ℤ.negsuc k)) name r = (r, ℤ.negsuc k)
rotation (some (pos (suc k))) name r = (r, pos (suc k))
rotation _ name r = let (r', n) = fallback_counter name r in (r', pos n)

-- `incr` is the store's answer: none without a store, or where the call failed.
pub route :
    (String → ℕ → ℕ → ℕ)
    → Option HealthChecker
    → Option ℤ
    → String
    → Combo
    → String
    → List String
    → Registry
    → Registry × String
unfolding rotation pick_healthy healthy_models is_smart
route usd hc incr name c m ms r =
    let (r', counter) = rotation incr name r in
    if str_eq c.strategy "round_robin"
    then (r', or_head m (get_elem? (m ∷ ms) (index_mod counter (length (m ∷ ms)))))
    else if is_smart c.strategy
    then pick_healthy usd hc c m (healthy_models hc (m ∷ ms)) r
    else (r, m)

abbrev pub answer : Registry × String → Registry × Option String
answer (r, m) = (r, some m)

pub resolve_combo :
    (String → ℕ → ℕ → ℕ)
    → Option HealthChecker
    → Option ℤ
    → String
    → Option Combo
    → Registry
    → Registry × Option String
unfolding route
resolve_combo usd hc incr name none r = (r, none)
resolve_combo usd hc incr name (some c) r = elim c.models [
  | [] ↦ (r, none)
  | m ∷ ms ↦ answer (route usd hc incr name c m ms r)
]

unfoldable pub resolve :
    (String → ℕ → ℕ → ℕ)
    → Option HealthChecker
    → Option ℤ
    → String
    → Registry
    → Registry × Option String
unfolding resolve_combo
resolve usd hc incr model r =
    let name = slice model 6 (len model) in
    if starts_with model "combo/"
    then resolve_combo usd hc incr name (lookup name r.combos) r
    else (r, none)

pub after : String → List String → Option String
after failed [] = none
after failed (m ∷ []) = none
after failed (m ∷ n ∷ ms) = if str_eq m failed then some n else after failed (n ∷ ms)

pub next_in_fallback : String → String → Registry → Option String
unfolding after
next_in_fallback name failed r = elim (lookup name r.combos) [
  | none ↦ none
  | some c ↦ if str_eq c.strategy "fallback" then after failed c.models else none
]
