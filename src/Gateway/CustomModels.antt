-- ===== src/Gateway/CustomModels.antt =====
-- Custom models on their way to an upstream (internal/proxy/custom.go and internal/proxy/proxy.go).
use onmi_routers.Base.{◌≡◌, refl, ap, ◌∙◌, String, Bool, true, none, some, arith}
use onmi_routers.Base.Text.{trim_space}
use onmi_routers.Base.Assoc.{lookup, insert, lookup-insert_self}
use onmi_routers.Custom.{
  CustomModel, CustomRegistry, resolve_custom, alias_target, add_model, tidy_custom, routed,
}
use onmi_routers.Gateway.{Body, cloudflare_name, dispatch}

add_model-adds :
    (saves : String → CustomModel → Bool) (id : String) (cm : CustomModel) (r : CustomRegistry)
    → (add_model saves id cm r).1 ≡ true
    → (add_model saves id cm r).0
      ≡ record r { models = insert (trim_space id) (tidy_custom (trim_space id) cm) r.models }
unfolding add_model
add_model-adds saves id cm r added = ground (arith, added)

found-resolve :
    (id : String) (cm : CustomModel) (r : CustomRegistry)
    → lookup id r.aliases ≡ none
    → resolve_custom id (record r { models = insert id cm r.models }) ≡ routed id (some cm)
unfolding resolve_custom alias_target
found-resolve id cm r free = ground (arith, free, lookup-insert_self id cm r.models)

added-resolve :
    (saves : String → CustomModel → Bool) (id : String) (cm : CustomModel) (r : CustomRegistry)
    → (add_model saves id cm r).1 ≡ true
    → lookup (trim_space id) r.aliases ≡ none
    → resolve_custom (trim_space id) (add_model saves id cm r).0
      ≡ routed (trim_space id) (some (tidy_custom (trim_space id) cm))
added-resolve saves id cm r added free =
    ap (resolve_custom (trim_space id)) (add_model-adds saves id cm r added)
    ∙ found-resolve (trim_space id) (tidy_custom (trim_space id) cm) r free

tidy_custom-upstream :
    (id : String) (cm : CustomModel) → (tidy_custom id cm).upstream ≡ trim_space cm.upstream
unfolding tidy_custom
tidy_custom-upstream id cm = refl

cloudflare-dispatch :
    (mn m : String) (b : Body) → dispatch cloudflare_name mn m b ≡ dispatch "" "" m b
unfolding dispatch
cloudflare-dispatch mn m b = refl

-- A custom model for Cloudflare has no effect on the routing: `add_model` takes an entry whose upstream
-- is "cloudflare", but whatever its name of the model, a request for it, if the id is not an alias as
-- well, is sent as if there were no custom model, to the upstream that the id's prefix gives.
pub cloudflare_ignored :
    (saves : String → CustomModel → Bool) (id : String) (cm : CustomModel) (r : CustomRegistry)
    (b : Body)
    → (add_model saves id cm r).1 ≡ true
    → lookup (trim_space id) r.aliases ≡ none
    → trim_space cm.upstream ≡ cloudflare_name
    → let (m, up, mn) = resolve_custom (trim_space id) (add_model saves id cm r).0 in
      (m ≡ trim_space id) × (dispatch up mn m b ≡ dispatch "" "" (trim_space id) b)
cloudflare_ignored saves id cm r b added free cf =
    rw (added-resolve saves id cm r added free, tidy_custom-upstream (trim_space id) cm, cf)
      (refl, cloudflare-dispatch _ (trim_space id) b)
