-- ===== src/Tunnel/Calls.antt =====
-- The calls of the manager (internal/tunnel/manager.go): `Enable`, `Disable`, `Restart`, `AutoStart`,
-- `Shutdown` and `Status`.
use onmi_routers.Base.{ℕ, Bool, false, not, Option, none, some, ◌++◌, map, str_eq, if◌then◌else◌}
use Prim.Native.String.{◌++◌ as text_append}
use onmi_routers.Tunnel.{
  Config, Env, Sys, M, Reply, ok, err, pure, wrap, ◌>>◌, Mode, mode_none, mode_quick, mode_named,
  mode_hybrid, unknown, is_valid, Status,
}
use onmi_routers.Tunnel.Ring
use onmi_routers.Tunnel.Stored.{load_config, save_config}
use onmi_routers.Tunnel.Start.{start_quick, start_named, stop_all}

-- Hybrid fails only if both parts fail.
unfoldable pub both_failed : Reply (Unit {0}) → Reply (Unit {0}) → Reply (Unit {0})
both_failed (ok u) r = ok tt
both_failed (err q) (ok u) = ok tt
both_failed (err q) (err n) =
    err (text_append "hybrid start: quick=" (text_append q (text_append " named=" n)))

-- The stored configuration, without mode and address.
unfoldable pub disabled : Config → Config
disabled cfg = record cfg { mode = mode_none; quick_url = "" }

module _ {P C R T : Type 0} (env : Env P C R T) where
  unfoldable pub start_hybrid : M (Sys P C R) (Unit {0})
  unfolding both_failed
  start_hybrid s =
      let (q, s') = start_quick env s in let (n, s'') = start_named env s' in (both_failed q n, s'')

  unfoldable pub start_mode : Mode → M (Sys P C R) (Unit {0})
  unfolding start_hybrid
  start_mode mode_none = pure tt
  start_mode mode_quick = wrap "quick start: " (start_quick env)
  start_mode mode_named = wrap "named start: " (start_named env)
  start_mode mode_hybrid = start_hybrid
  start_mode (unknown t) = pure tt

  unfoldable pub save : ℕ → M (Sys P C R) (Unit {0})
  unfolding save_config
  save now s =
      let (reply, r) = save_config env now s.manager s.cfg s.stored in
      (reply, record s { stored = r })

  -- Everything is stopped, and the address of the gateway is filled in.
  unfoldable pub prepared : Config → Sys P C R → Sys P C R
  unfolding stop_all
  prepared cfg s =
      let s' = stop_all env s in
      record s' {
        cfg = record cfg {
          upstream_url =
              if str_eq cfg.upstream_url "" then s.manager.upstream_url else cfg.upstream_url;
        };
      }

  unfoldable pub enable : ℕ → Config → M (Sys P C R) (Unit {0})
  unfolding is_valid prepared start_mode save
  enable now cfg s =
      if is_valid cfg.mode
      then (do start_mode cfg.mode; wrap "save config: " (save now)) (prepared cfg s)
      else (err "invalid mode", s)

  unfoldable pub disable : ℕ → M (Sys P C R) (Unit {0})
  unfolding stop_all load_config save disabled
  disable now s =
      let s' = stop_all env s in
      elim (load_config env s'.manager s'.stored) [
        | err e ↦ (err e, s')
        | ok cfg ↦ save now (record s' { cfg = disabled cfg })
      ]

  -- A mode that is not none is enabled again.
  unfoldable pub reapply : ℕ → Config → Mode → M (Sys P C R) (Unit {0})
  unfolding enable
  reapply now cfg mode_none s = (ok tt, s)
  reapply now cfg mode s = enable now cfg s

  unfoldable pub restart : ℕ → M (Sys P C R) (Unit {0})
  unfolding load_config reapply
  restart now s = elim (load_config env s.manager s.stored) [
    | err e ↦ (err e, s)
    | ok cfg ↦ reapply now cfg cfg.mode s
  ]

  -- At boot: an error is logged, and no more.
  unfoldable pub auto_start : ℕ → Sys P C R → Sys P C R
  unfolding load_config reapply
  auto_start now s = elim (load_config env s.manager s.stored) [
    | err e ↦ s
    | ok cfg ↦ (reapply now cfg cfg.mode s).1
  ]

  unfoldable pub shutdown : Sys P C R → Sys P C R
  unfolding stop_all
  shutdown s = stop_all env s

  abbrev pub is_running : Option ℕ → P → Bool
  is_running none p = false
  is_running (some pid) p = not (env.exited pid p)

  unfoldable pub status_of : Sys P C R → Config → Status
  unfolding Ring.snapshot
  status_of s cfg =
      let m = s.manager in
      record {
        mode = cfg.mode;
        quick_running = is_running m.quick_cmd s.processes;
        named_running = is_running m.named_cmd s.processes;
        quick_url = if str_eq m.quick_url "" then cfg.quick_url else m.quick_url;
        tunnel_domain = cfg.tunnel_domain;
        tunnel_id = cfg.tunnel_id;
        upstream_url = cfg.upstream_url;
        has_api_token = not (str_eq cfg.cloudflare_api_token "");
        has_account = not (str_eq cfg.cloudflare_account_id "");
        has_zone = not (str_eq cfg.cloudflare_zone_id "");
        updated_at = cfg.updated_at;
        logs =
            map (text_append "[quick] ") (Ring.snapshot m.quick_log)
            ++ map (text_append "[named] ") (Ring.snapshot m.named_log);
      }

  unfoldable pub status : Sys P C R → Reply Status
  unfolding load_config status_of
  status s = elim (load_config env s.manager s.stored) [
    | err e ↦ err e
    | ok cfg ↦ ok (status_of s cfg)
  ]
