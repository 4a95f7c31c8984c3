-- ===== src/Custom.antt =====
-- internal/proxy/custom.go, with the type of internal/db/db.go: custom models and aliases. The registry
-- is not nil. `saves` and `deletes` say whether the store, where there is one, did the call.
use onmi_routers.Base.Text.{trim_space, trim_prefix}
use onmi_routers.Combo.Catalog.{valid_name}
use onmi_routers.Base.Assoc.{lookup, insert, erase}
use onmi_routers.Base.{
  String, Bool, true, false, not, ◌&&◌, ◌||◌, Option, none, some, List, [], ◌∷◌, str_eq,
  if◌then◌else◌,
}

pub record CustomModel : Type 0 where
  pub upstream : String
  pub model_name : String
  pub owned_by : String
  pub capabilities : List String

pub record CustomRegistry : Type 0 where
  pub models : List (String × CustomModel)
  pub aliases : List (String × String)

abbrev pub new_custom_registry : CustomRegistry
new_custom_registry = record { models = []; aliases = [] }

-- What the store loads, none where the call failed.
unfoldable pub load_custom :
    Option (List (String × CustomModel))
    → Option (List (String × String))
    → CustomRegistry
    → CustomRegistry × Bool
load_custom none aliases r = (r, false)
load_custom (some models) none r = (r, false)
load_custom (some models) (some aliases) r = (record { models = models; aliases = aliases }, true)

-- The alias of a model, in one hop; an empty target counts as none.
unfoldable pub alias_target : String → CustomRegistry → String
alias_target model r = elim (lookup model r.aliases) [
  | none ↦ model
  | some target ↦ if str_eq target "" then model else target
]

abbrev pub routed : String → Option CustomModel → String × String × String
routed model none = (model, "", "")
routed model (some cm) = (model, cm.upstream, cm.model_name)

-- The model, the upstream and the name of the model there, both empty for the default routing.
unfoldable pub resolve_custom : String → CustomRegistry → String × String × String
unfolding alias_target
resolve_custom model r =
    let resolved = alias_target model r in routed resolved (lookup resolved r.models)

abbrev pub owner : CustomModel → String
owner cm = if str_eq cm.owned_by "" then cm.upstream else cm.owned_by

-- The id and the owner of each.
unfoldable pub list_models : List (String × CustomModel) → List (String × String)
list_models [] = []
list_models ((id, cm) ∷ ms) = (id, owner cm) ∷ list_models ms

abbrev pub known_upstream : String → Bool
known_upstream u = str_eq u "codebuddy" || str_eq u "grok" || str_eq u "cloudflare"

abbrev pub default_name : String → String → String
default_name id u =
    if str_eq u "codebuddy"
    then trim_prefix id "cb/"
    else if str_eq u "cloudflare"
    then trim_prefix (trim_prefix id "cf/") "@"
    else id

unfoldable pub tidy_custom : String → CustomModel → CustomModel
tidy_custom id cm =
    let u = trim_space cm.upstream in
    let n = trim_space cm.model_name in
    let o = trim_space cm.owned_by in
    record {
      upstream = u;
      model_name = if str_eq n "" then default_name id u else n;
      owned_by = if str_eq o "" then u else o;
      capabilities = cm.capabilities;
    }

unfoldable pub add_model :
    (String → CustomModel → Bool) → String → CustomModel → CustomRegistry → CustomRegistry × Bool
unfolding tidy_custom
add_model saves given cm r =
    let id = trim_space given in
    let cm' = tidy_custom id cm in
    if valid_name id && known_upstream cm'.upstream && saves id cm'
    then (record r { models = insert id cm' r.models }, true)
    else (r, false)

unfoldable pub delete_model : (String → Bool) → String → CustomRegistry → CustomRegistry × Bool
delete_model deletes id r =
    if deletes id then (record r { models = erase id r.models }, true) else (r, false)

unfoldable pub add_alias :
    (String → String → Bool) → String → String → CustomRegistry → CustomRegistry × Bool
add_alias saves given_alias given_target r =
    let a = trim_space given_alias in
    let target = trim_space given_target in
    if valid_name a && valid_name target && not (str_eq a target) && saves a target
    then (record r { aliases = insert a target r.aliases }, true)
    else (r, false)

unfoldable pub delete_alias : (String → Bool) → String → CustomRegistry → CustomRegistry × Bool
delete_alias deletes a r =
    if deletes a then (record r { aliases = erase a r.aliases }, true) else (r, false)
