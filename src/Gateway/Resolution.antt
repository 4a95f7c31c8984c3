-- ===== src/Gateway/Resolution.antt =====
-- internal/proxy/proxy.go: how the model of a request is resolved.
use onmi_routers.Base.Int.{ℤ}
use onmi_routers.Base.Text.{trim_prefix}
use onmi_routers.Base.Assoc.{lookup}
use text.Mathlib.Text.{starts_with}
use onmi_routers.Combo.{Combo, Registry, HealthChecker, resolve}
use onmi_routers.Custom.{CustomRegistry}
use onmi_routers.Keys.{Manager}
use onmi_routers.Gateway.{Body, Attempt}
use onmi_routers.Gateway.Writer.{WriterCall}
use onmi_routers.Gateway.Chain.{Answer, resolve_with, expand_effort}
use onmi_routers.Base.{ℕ, String, Option, none, some, List, str_eq, if◌then◌else◌}

-- What the handler uses of the rest: the price of a model, the state of the circuits, the store's
-- counter of the round robin, `cache.KeyFromChat`, the status of gin's writer after some calls, and
-- what the upstreams do with the n-th call of a request.
pub record Outside : Type 0 where
  pub usd : String → ℕ → ℕ → ℕ
  pub hc : Option HealthChecker
  pub incr : Option ℤ
  pub key_from_chat : String → Body → String
  pub status_of : List WriterCall → ℕ
  pub send : ℕ → Attempt → Answer

-- The parts that the handler changes or reads; each is none where it is nil.
pub record Gateway : Type 0 where
  pub combos : Option Registry
  pub custom : Option CustomRegistry
  pub auth : Option Manager
  pub semantic_cache : Option onmi_routers.Cache.Store

unfoldable pub default_model : Body → Body
default_model b = if str_eq b.model "" then record b { model = "grok-4.5" } else b

-- A request on its way to an upstream.
pub record Resolved : Type 0 where
  pub model : String
  pub body : Body
  pub custom_upstream : String
  pub custom_model_name : String
  pub combo_name : String
  pub combo_strategy : String

unfoldable pub resolve_alias : Option CustomRegistry → Resolved → Resolved
resolve_alias custom r =
    let (resolved, up, mn) = resolve_with custom r.model in
    record r {
      model = resolved;
      body = if str_eq resolved r.model then r.body else record r.body { model = resolved };
      custom_upstream = up;
      custom_model_name = mn;
    }

abbrev pub strategy_of : Option Combo → String
strategy_of none = ""
strategy_of (some c) = c.strategy

unfoldable pub take_model : Option CustomRegistry → Registry → Resolved → Option String → Resolved
unfolding resolve_alias
take_model custom combos r none = r
take_model custom combos r (some next) =
    let name = trim_prefix r.model "combo/" in
    let named = starts_with r.model "combo/" in
    resolve_alias custom (record r {
      model = next;
      body = record r.body { model = next };
      combo_name = if named then name else r.combo_name;
      combo_strategy = if named then strategy_of (lookup name combos.combos) else r.combo_strategy;
    })

unfoldable pub resolve_combos : Outside → Gateway → Resolved → Option Registry × Resolved
unfolding take_model
resolve_combos o g r = elim g.combos [
  | none ↦ (none, r)
  | some combos ↦
      let (combos', next) = resolve o.usd o.hc o.incr r.model combos in
      (some combos', take_model g.custom combos' r next)
]

-- The alias, the combo with the alias of its model, and the alias of grok-4.5.
unfoldable pub resolve_request : Outside → Gateway → Body → Option Registry × Resolved
unfolding resolve_alias resolve_combos
resolve_request o g b =
    let start : Resolved = record {
      model = b.model;
      body = b;
      custom_upstream = "";
      custom_model_name = "";
      combo_name = "";
      combo_strategy = "";
    } in
    let (combos', r) = resolve_combos o g (resolve_alias g.custom start) in
    let (m, b') = expand_effort r.custom_upstream r.model r.body in
    (combos', record r { model = m; body = b' })
