-- ===== src/Tunnel/Named.antt =====
-- The control plane of a named tunnel (internal/tunnel/manager.go): the tunnel, its ingress rules and
-- its DNS record. A text that is the error of a call of the SDK passes through.
use onmi_routers.Base.{
  String, Bool, not, ◌&&◌, Option, none, some, List, [], ◌∷◌, str_eq, if◌then◌else◌, get_elem?,
}
use Prim.Native.String.{◌++◌ as text_append}
use onmi_routers.Tunnel.{
  Config, Manager, Env, Sys, M, Reply, ok, err, pure, guard, wrap, ◌>>=◌, ◌>>◌, tunnel_name,
}

abbrev is_empty : String → Bool
is_empty s = str_eq s ""

-- A text behind a pointer that is not nil, and not empty.
pub filled : Option String → Option String
filled none = none
filled (some t) = if is_empty t then none else some t

unfoldable pub upstream_of : Manager → Config → String
upstream_of m cfg = if is_empty cfg.upstream_url then m.upstream_url else cfg.upstream_url

-- The catch-all stands last.
pub ingress_rules : String → String → List (String × String)
ingress_rules domain upstream = (domain, upstream) ∷ ("", "http_status:404") ∷ []

pub cname_target : String → String
cname_target tunnel_id = text_append tunnel_id ".cfargotunnel.com"

pub is_complete : Config → Bool
is_complete c =
    not (is_empty c.cloudflare_api_token)
    && not (is_empty c.cloudflare_account_id)
    && not (is_empty c.cloudflare_zone_id)
    && not (is_empty c.tunnel_domain)

module _ {P C R T : Type 0} (env : Env P C R T) where
  -- A call of the SDK.
  unfoldable pub api : {A : Type 0} → (C → Reply A × C) → M (Sys P C R) A
  api call s = let next = call s.cloud in (next.0, record s { cloud = next.1 })

  unfoldable pub fetch_token : String → M (Sys P C R) (Option String)
  fetch_token id s = api (env.token_get s.cfg.cloudflare_api_token s.cfg.cloudflare_account_id id) s

  unfoldable pub fail : {A : Type 0} → String → M (Sys P C R) A
  fail e s = (err e, s)

  unfoldable pub need_id : Option String → M (Sys P C R) String
  unfolding filled
  need_id created = elim (filled created) [
    | none ↦ fail "empty tunnel ID from API"
    | some id ↦ pure id
  ]

  -- The token of a new tunnel, which a missing one makes an error.
  unfoldable pub need_token : String → String → Option String → M (Sys P C R) (String × String)
  unfolding filled
  need_token e id token = elim (filled token) [ none ↦ fail e | some t ↦ pure (id, t) ]

  unfoldable pub create_tunnel : M (Sys P C R) (String × String)
  unfolding fetch_token need_token filled
  create_tunnel = do
    created ← wrap "Tunnels.Cloudflared.New: " (λ s.
        api (env.tunnel_new s.cfg.cloudflare_api_token s.cfg.cloudflare_account_id tunnel_name) s)
    id ← need_id created
    token ← wrap "Tunnels.Cloudflared.Token.Get: " (fetch_token id)
    need_token "Tunnels.Cloudflared.Token.Get: " id token

  -- After the fetch for the tunnel that is known: a token, or the creation of a tunnel.
  unfoldable pub reuse_or_create : String → Reply (Option String) → M (Sys P C R) (String × String)
  unfolding create_tunnel filled
  reuse_or_create id (err e) = create_tunnel
  reuse_or_create id (ok token) = elim (filled token) [
    | none ↦ create_tunnel
    | some t ↦ pure (id, t)
  ]

  unfoldable pub create_or_reuse_tunnel : M (Sys P C R) (String × String)
  unfolding fetch_token reuse_or_create create_tunnel
  create_or_reuse_tunnel s =
      if is_empty s.cfg.tunnel_id
      then create_tunnel s
      else (let next = fetch_token s.cfg.tunnel_id s in
          reuse_or_create s.cfg.tunnel_id next.0 next.1)

  unfoldable pub configure_ingress : String → String → M (Sys P C R) (Unit {0})
  unfolding ingress_rules
  configure_ingress tunnel_id upstream s =
      api
        (env.ingress_update s.cfg.cloudflare_api_token s.cfg.cloudflare_account_id tunnel_id
          (ingress_rules s.cfg.tunnel_domain upstream))
        s

  -- The record of the name that there is first is updated, and one is made where there is none.
  unfoldable pub update_or_create : String → List String → M (Sys P C R) (Unit {0})
  unfolding cname_target
  update_or_create tunnel_id ids s =
      let c = s.cfg in
      let existing : String = elim (get_elem? ids 0) [ none ↦ "" | some id ↦ id ] in
      if is_empty existing
      then api
          (env.dns_new c.cloudflare_api_token c.cloudflare_zone_id c.tunnel_domain
            (cname_target tunnel_id))
          s
      else api
          (env.dns_update c.cloudflare_api_token c.cloudflare_zone_id existing c.tunnel_domain
            (cname_target tunnel_id))
          s

  unfoldable pub route_dns : String → M (Sys P C R) (Unit {0})
  unfolding update_or_create
  route_dns tunnel_id = do
    ids ← wrap "list DNS: " (λ s.
        api (env.dns_list s.cfg.cloudflare_api_token s.cfg.cloudflare_zone_id s.cfg.tunnel_domain)
          s)
    update_or_create tunnel_id ids

  unfoldable pub keep_tunnel : String × String → M (Sys P C R) (Unit {0})
  keep_tunnel (id, token) s =
      (ok tt, record s { cfg = record (s.cfg) { tunnel_id = id; tunnel_token = token } })

  -- What os.Stat says of the binary.
  unfoldable pub binary_found : Option String → M (Sys P C R) (Unit {0})
  binary_found none s = (ok tt, s)
  binary_found (some e) s = (err (text_append "cloudflared binary not found at " e), s)

  unfoldable pub check_binary : M (Sys P C R) (Unit {0})
  unfolding binary_found
  check_binary s = binary_found (env.stat s.manager.cloudflared_path s.processes) s

  -- `startNamed` up to the process: the token to run with.
  unfoldable pub prepare_named : M (Sys P C R) String
  unfolding is_complete check_binary create_or_reuse_tunnel keep_tunnel configure_ingress route_dns
      upstream_of
  prepare_named = do
    (λ s.
        guard (is_complete s.cfg)
          "named tunnel requires CloudflareAPIToken, CloudflareAccountID, CloudflareZoneID, and TunnelDomain"
          s)
    check_binary
    tunnel ← wrap "create/reuse tunnel: " create_or_reuse_tunnel
    keep_tunnel tunnel
    wrap "configure ingress: " (λ s. configure_ingress (tunnel.0) (upstream_of s.manager s.cfg) s)
    wrap "route DNS: " (route_dns (tunnel.0))
    pure (tunnel.1)
