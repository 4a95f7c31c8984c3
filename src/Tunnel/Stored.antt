-- ===== src/Tunnel/Stored.antt =====
-- The configuration in Redis (internal/tunnel/manager.go, LoadConfig and SaveConfig).
use Prim.Native.String.{len, slice, ◌++◌ as text_append}
use onmi_routers.Base.Text.{trim_space}
use onmi_routers.Base.{ℕ, ◌-◌, String, Option, none, some, leb, str_eq, if◌then◌else◌}
use onmi_routers.Tunnel.{
  Config, Manager, Env, Reply, ok, err, mode_none, is_valid, zero_config, redis_config_key,
}

module _ {P C R T : Type 0} (env : Env P C R T) where
  -- An unknown mode is read as none.
  abbrev pub known : Config → Config
  known cfg = if is_valid cfg.mode then cfg else record cfg { mode = mode_none }

  unfoldable pub decoded : Option T → Reply Config
  decoded none = ok zero_config
  decoded (some raw) = elim (env.unmarshal raw) [
    | none ↦ err "decode config"
    | some cfg ↦ ok (known cfg)
  ]

  unfoldable pub load_config : Manager → R → Reply Config
  load_config m r =
      if m.redis
      then elim (env.get redis_config_key r) [
        | err e ↦ err (text_append "redis GET: " e)
        | ok value ↦ decoded value
      ]
      else ok zero_config

  -- What `SaveConfig` writes into the configuration that it is given.
  unfoldable pub stamped : ℕ → Manager → Config → Config
  stamped now m cfg = record cfg {
    updated_at = now;
    upstream_url = if str_eq cfg.upstream_url "" then m.upstream_url else cfg.upstream_url;
  }

  unfoldable pub save_config : ℕ → Manager → Config → R → Reply (Unit {0}) × R
  unfolding stamped
  save_config now m cfg r =
      if m.redis
      then (let (reply, r') = env.set redis_config_key (env.marshal (stamped now m cfg)) r in
          elim reply [ err e ↦ (err (text_append "redis SET: " e), r') | ok u ↦ (ok tt, r') ])
      else (err "redis not initialised", r)

pub mask_token : String → String
unfolding trim_space
mask_token tok =
    let t = trim_space tok in
    if str_eq t ""
    then ""
    else if leb (len t) 12
    then "***"
    else text_append (slice t 0 6) (text_append "…" (slice t (len t - 4) (len t)))
