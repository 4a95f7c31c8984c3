-- ===== src/Tunnel/Steady.antt =====
-- What the control plane of a named tunnel leaves alone (internal/tunnel/manager.go).
use onmi_routers.Base.{
  ◌≡◌, String, Bool, true, false, Option, none, some, List, arith, str_eq, if◌then◌else◌,
}
use onmi_routers.Tunnel.{pure, guard, wrap, Env, Sys, M, Reply, ok, err, ◌>>=◌}
use onmi_routers.Tunnel.Named.{
  api, fail, need_id, fetch_token, need_token, create_tunnel, reuse_or_create,
  create_or_reuse_tunnel, configure_ingress, update_or_create, route_dns, keep_tunnel, check_binary,
  prepare_named, filled, upstream_of,
}

module _ {P C R : Type 0} where
  -- Only the account at Cloudflare and the tunnel of the configuration may differ.
  pub record Same (s t : Sys P C R) : Type 0 where
    pub manager : t.manager ≡ s.manager
    pub processes : t.processes ≡ s.processes
    pub stored : t.stored ≡ s.stored
    pub mode : t.cfg.mode ≡ s.cfg.mode
    pub api_token : t.cfg.cloudflare_api_token ≡ s.cfg.cloudflare_api_token
    pub account : t.cfg.cloudflare_account_id ≡ s.cfg.cloudflare_account_id
    pub zone : t.cfg.cloudflare_zone_id ≡ s.cfg.cloudflare_zone_id
    pub domain : t.cfg.tunnel_domain ≡ s.cfg.tunnel_domain
    pub url : t.cfg.quick_url ≡ s.cfg.quick_url
    pub upstream : t.cfg.upstream_url ≡ s.cfg.upstream_url

  unfoldable pub Steady : {A : Type 0} → M (Sys P C R) A → Type 0
  Steady m = (s : Sys P C R) → Same s (m s).1

  pub Same-refl : (s : Sys P C R) → Same s s
  Same-refl s = ground arith

  pub Same-trans : (s t u : Sys P C R) → Same s t → Same t u → Same s u
  Same-trans s t u a b = ground arith

  -- The rest of a call, where its first part has ended in a state.
  abbrev rest_of : {B A : Type 0} → Reply A → (A → M (Sys P C R) B) → Sys P C R → Sys P C R
  rest_of {B} r f t =
      let whole : Reply B × Sys P C R = elim r [ ok a ↦ f a t | err e ↦ (err e, t) ] in whole.1

  rest_of-Same :
      {A B : Type 0} (f : A → M (Sys P C R) B) (s t : Sys P C R) (r : Reply A)
      → Same s t
      → ((a : A) → Steady (f a))
      → Same s (rest_of r f t)
  unfolding Steady
  rest_of-Same f s t (ok a) h k = Same-trans s t (f a t).1 h (k a t)
  rest_of-Same f s t (err e) h k = h

  Steady-bind :
      {A B : Type 0} (m : M (Sys P C R) A) (f : A → M (Sys P C R) B)
      → Steady m
      → ((a : A) → Steady (f a))
      → Steady (m >>= f)
  unfolding Steady ◌>>=◌
  Steady-bind m f hm hf s = rest_of-Same f s (m s).1 (m s).0 (hm s) hf

  cloud-Same : (s : Sys P C R) (c : C) → Same s (record s { cloud = c })
  cloud-Same s c = ground arith

  Steady-filled :
      {B : Type 0} (o : Option String) (m : M (Sys P C R) B) (f : String → M (Sys P C R) B)
      → Steady m
      → ((t : String) → Steady (f t))
      → Steady (elim o [ none ↦ m | some t ↦ f t ])
  Steady-filled none m f a b = a
  Steady-filled (some t) m f a b = b t

module _ {P C R T : Type 0} (env : Env P C R T) where
  pure-Steady : {A : Type 0} (a : A) → Steady {P = P} {C = C} {R = R} (pure a)
  unfolding Steady pure
  pure-Steady a s = Same-refl s

  fail-Steady : (A : Type 0) (e : String) → Steady (fail env {A = A} e)
  unfolding Steady fail
  fail-Steady A e s = Same-refl s

  guard-Steady : (b : Sys P C R → Bool) (e : String) → Steady (λ s. guard (b s) e s)
  unfolding Steady guard
  guard-Steady b e s = Same-refl s

  api-Steady : {A : Type 0} (f : Sys P C R → C → Reply A × C) → Steady (λ s. api env (f s) s)
  unfolding Steady api
  api-Steady f s = cloud-Same s _

  wrap-Steady : {A : Type 0} (t : String) (m : M (Sys P C R) A) → Steady m → Steady (wrap t m)
  unfolding Steady wrap
  wrap-Steady t m h s = h s

  fetch_token-Steady : (id : String) → Steady (fetch_token env id)
  unfolding Steady fetch_token api
  fetch_token-Steady id s = cloud-Same s _

  need_token-Steady : (e id : String) (token : Option String) → Steady (need_token env e id token)
  unfolding need_token
  need_token-Steady e id token =
      Steady-filled (filled token) _ _ (fail-Steady _ _) (λ t. pure-Steady _)

  need_id-Steady : (o : Option String) → Steady (need_id env o)
  unfolding need_id
  need_id-Steady o = Steady-filled (filled o) _ _ (fail-Steady _ _) (λ t. pure-Steady _)

  create_tunnel-Steady : Steady (create_tunnel env)
  unfolding create_tunnel
  create_tunnel-Steady = Steady-bind _ _ (wrap-Steady _ _ (api-Steady _)) λ created.
      Steady-bind _ _ (need_id-Steady created)
        λ id. Steady-bind _ _ (wrap-Steady _ _ (fetch_token-Steady id)) (need_token-Steady _ id)

  reuse_or_create-Steady :
      (id : String) (r : Reply (Option String)) → Steady (reuse_or_create env id r)
  unfolding reuse_or_create
  reuse_or_create-Steady id (err e) = create_tunnel-Steady
  reuse_or_create-Steady id (ok token) =
      Steady-filled (filled token) _ _ create_tunnel-Steady (λ t. pure-Steady _)

  if-Same :
      {A : Type 0} (b : Bool) (s : Sys P C R) (x y : A × Sys P C R)
      → Same s x.1
      → Same s y.1
      → Same s (if b then x else y).1
  if-Same true s x y h k = h
  if-Same false s x y h k = k

  create_or_reuse_tunnel-Steady : Steady (create_or_reuse_tunnel env)
  unfolding Steady create_or_reuse_tunnel
  create_or_reuse_tunnel-Steady s =
      if-Same (str_eq s.cfg.tunnel_id "") s (create_tunnel env s) _ (create_tunnel-Steady s) (
        Same-trans s _ _ (fetch_token-Steady s.cfg.tunnel_id s) (
          unfold Steady in
          reuse_or_create-Steady s.cfg.tunnel_id (fetch_token env s.cfg.tunnel_id s).0
            (fetch_token env s.cfg.tunnel_id s).1))

  update_or_create-Steady : (id : String) (ids : List String) → Steady (update_or_create env id ids)
  unfolding Steady update_or_create api
  update_or_create-Steady id ids s = if-Same _ s _ _ (cloud-Same s _) (cloud-Same s _)

  route_dns-Steady : (id : String) → Steady (route_dns env id)
  unfolding route_dns
  route_dns-Steady id =
      Steady-bind _ _ (wrap-Steady _ _ (api-Steady _)) (update_or_create-Steady id)

  check_binary-Steady : Steady (check_binary env)
  unfolding Steady check_binary
  check_binary-Steady s = ground arith

  keep_tunnel-Steady : (t : String × String) → Steady (keep_tunnel env t)
  unfolding Steady keep_tunnel
  keep_tunnel-Steady (id, token) s = ground arith

  configure-Steady :
      (id : String) → Steady (λ s. configure_ingress env id (upstream_of s.manager s.cfg) s)
  unfolding Steady configure_ingress api
  configure-Steady id s = cloud-Same s _

  -- Until it starts the process, `startNamed` leaves everything else alone.
  pub prepare_named-Steady : Steady (prepare_named env)
  unfolding prepare_named
  prepare_named-Steady = Steady-bind _ _ (guard-Steady _ _) λ _.
      Steady-bind _ _ check_binary-Steady λ _.
        Steady-bind _ _ (wrap-Steady _ _ create_or_reuse_tunnel-Steady) λ t.
          Steady-bind _ _ (keep_tunnel-Steady t) λ _.
            Steady-bind _ _ (wrap-Steady _ _ (configure-Steady (t.0)))
              λ _. Steady-bind _ _ (wrap-Steady _ _ (route_dns-Steady (t.0))) λ _. pure-Steady _
