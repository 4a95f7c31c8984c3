-- ===== src/Tunnel/Handlers.antt =====
-- The endpoints of the tunnel (internal/handlers/tunnels.go). No manager is none, as is a body that is
-- not JSON; `to_lower` is strings.ToLower.
use onmi_routers.Base.{ℕ, String, Option, none, some, List, [], ◌∷◌, str_eq, if◌then◌else◌}
use Prim.Native.String.{◌++◌ as text_append}
use onmi_routers.Base.Text.{trim_space}
use onmi_routers.Tunnel.{
  Config, Env, Sys, Reply, ok, err, Mode, mode_none, mode_quick, unknown, mode_of, is_valid, Status,
}
use onmi_routers.Tunnel.Stored.{load_config}
use onmi_routers.Tunnel.Calls.{enable, disable, restart, status}

pub record TunnelEnableInput : Type 0 where
  pub mode : String
  pub cloudflare_api_token : String
  pub cloudflare_account_id : String
  pub cloudflare_zone_id : String
  pub tunnel_domain : String

-- A status code with an error, the names of missing fields, or the status of the tunnel, where that
-- could be read.
pub data Response : Type 0 where
  failed : ℕ → String → Response
  lacking : List String → Response
  shown : Option Status → Response

-- An empty text keeps the value that is stored.
unfoldable pub merged : String → String → String
merged input stored = if str_eq (trim_space input) "" then stored else trim_space input

unfoldable pub merge : TunnelEnableInput → Mode → Config → Config
unfolding merged
merge i mode cfg = record cfg {
  mode = mode;
  cloudflare_api_token = merged i.cloudflare_api_token cfg.cloudflare_api_token;
  cloudflare_account_id = merged i.cloudflare_account_id cfg.cloudflare_account_id;
  cloudflare_zone_id = merged i.cloudflare_zone_id cfg.cloudflare_zone_id;
  tunnel_domain = merged i.tunnel_domain cfg.tunnel_domain;
}

abbrev unless_set : String → String → List String → List String
unless_set value name rest = if str_eq value "" then name ∷ rest else rest

unfoldable pub missing : Mode → Config → List String
missing mode_none c = []
missing mode_quick c = []
missing (unknown t) c = []
missing _ c = unless_set c.cloudflare_api_token "cloudflare_api_token" (
    unless_set c.cloudflare_account_id "cloudflare_account_id" (
      unless_set c.cloudflare_zone_id "cloudflare_zone_id"
        (unless_set c.tunnel_domain "tunnel_domain" [])))

unfoldable pub requested_mode : (String → String) → TunnelEnableInput → Mode
unfolding mode_of
requested_mode to_lower i =
    let t = trim_space (to_lower i.mode) in if str_eq t "" then mode_quick else mode_of t

module _ {P C R T : Type 0} (env : Env P C R T) where
  abbrev pub read : Sys P C R → Option Status
  read s = elim (status env s) [ ok st ↦ some st | err e ↦ none ]

  abbrev pub answered : Reply (Unit {0}) × Sys P C R → Response × Sys P C R
  answered (err e, s) = (failed 500 e, s)
  answered (ok u, s) = (shown (read s), s)

  unfoldable pub handle_status : Sys P C R → Response
  unfolding status
  handle_status s = elim (status env s) [ err e ↦ failed 500 e | ok st ↦ shown (some st) ]

  -- The merged configuration, which has every field that its mode needs.
  unfoldable pub enable_complete : ℕ → Config → List String → Sys P C R → Response × Sys P C R
  unfolding enable status
  enable_complete now cfg [] s = answered (enable env now cfg s)
  enable_complete now cfg (f ∷ fs) s = (lacking (f ∷ fs), s)

  -- With the stored configuration, or the error of reading it.
  unfoldable pub enable_loaded :
      ℕ → TunnelEnableInput → Mode → Reply Config → Sys P C R → Response × Sys P C R
  unfolding enable_complete merge missing
  enable_loaded now i mode (err e) s = (failed 500 (text_append "load config: " e), s)
  enable_loaded now i mode (ok cfg) s =
      enable_complete now (merge i mode cfg) (missing mode (merge i mode cfg)) s

  unfoldable pub handle_enable :
      (String → String) → ℕ → Option TunnelEnableInput → Sys P C R → Response × Sys P C R
  unfolding enable_loaded requested_mode load_config is_valid
  handle_enable to_lower now none s = (failed 400 "invalid JSON", s)
  handle_enable to_lower now (some i) s =
      let mode = requested_mode to_lower i in
      if is_valid mode
      then enable_loaded now i mode (load_config env s.manager s.stored) s
      else (failed 400 "invalid mode; must be none|quick|named|hybrid", s)

  unfoldable pub handle_disable : ℕ → Sys P C R → Response × Sys P C R
  unfolding disable status
  handle_disable now s = answered (disable env now s)

  unfoldable pub handle_restart : ℕ → Sys P C R → Response × Sys P C R
  unfolding restart status
  handle_restart now s = answered (restart env now s)
