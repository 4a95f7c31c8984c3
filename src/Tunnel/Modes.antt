-- ===== src/Tunnel/Modes.antt =====
-- What a success of the manager's calls means for what runs and what is stored
-- (internal/tunnel/manager.go).
use onmi_routers.Base.{
  ℕ, ◌≡◌, refl, sym, ap, ◌∙◌, String, Bool, true, false, none, some, arith, if◌then◌else◌,
}
use mathlib.Core.Path.{subst}
use onmi_routers.Tunnel.{
  prefixed, Config, Manager, Env, Sys, Reply, ok, err, wrap, ◌>>=◌, mode_none, is_valid,
  redis_config_key,
}
use onmi_routers.Tunnel.Stored.{load_config, save_config, stamped, decoded}
use onmi_routers.Tunnel.Start.{stop_all}
use onmi_routers.Tunnel.Calls.{
  start_mode, save, prepared, enable, disabled, disable, reapply, restart, auto_start,
}
use onmi_routers.Tunnel.Processes.{IsOs, Kept}
use onmi_routers.Tunnel.Running.{
  IsOwned, stop_all-IsClear, start_mode-IsOwned, Runs, start_mode-Runs, start_mode-Kept,
}

-- What `Enable` stores of the configuration that it was given.
pub record IsStored (now : ℕ) (given c : Config) : Type 0 where
  pub mode : c.mode ≡ given.mode
  pub api_token : c.cloudflare_api_token ≡ given.cloudflare_api_token
  pub account : c.cloudflare_account_id ≡ given.cloudflare_account_id
  pub zone : c.cloudflare_zone_id ≡ given.cloudflare_zone_id
  pub domain : c.tunnel_domain ≡ given.tunnel_domain
  pub url : c.quick_url ≡ given.quick_url
  pub updated : c.updated_at ≡ now

-- What is stored by `Disable`.
pub record IsDisabled (before after : Config) : Type 0 where
  pub mode : after.mode ≡ mode_none
  pub url : after.quick_url ≡ ""
  pub api_token : after.cloudflare_api_token ≡ before.cloudflare_api_token
  pub account : after.cloudflare_account_id ≡ before.cloudflare_account_id
  pub zone : after.cloudflare_zone_id ≡ before.cloudflare_zone_id
  pub domain : after.tunnel_domain ≡ before.tunnel_domain
  pub tunnel : after.tunnel_id ≡ before.tunnel_id
  pub token : after.tunnel_token ≡ before.tunnel_token

module _ {P C R : Type 0} where
  -- JSON gives a configuration back, and Redis a value that it has taken.
  pub record IsStore {T : Type 0} (env : Env P C R T) : Type 0 where
    pub unmarshal-marshal : (c : Config) → env.unmarshal (env.marshal c) ≡ some c
    pub get-set :
        (k : String) (v : T) (r : R)
        → (env.set k v r).0 ≡ ok tt
        → env.get k (env.set k v r).1 ≡ ok (some v)

module _ {P C R T : Type 0} (env : Env P C R T) (store : IsStore env) where
  -- What was saved is loaded, with its stamp.
  pub load_config-save_config :
      (now : ℕ) (m : Manager) (cfg : Config) (r : R)
      → is_valid cfg.mode ≡ true
      → (save_config env now m cfg r).0 ≡ ok tt
      → load_config env m (save_config env now m cfg r).1 ≡ ok (stamped env now m cfg)
  unfolding save_config load_config decoded stamped
  load_config-save_config now m cfg r v h = ground (
    arith,
    store.unmarshal-marshal (stamped env now m cfg),
    store.get-set redis_config_key (env.marshal (stamped env now m cfg)) r,
  )

module _ {P C R T : Type 0} (env : Env P C R T) where
  -- The state in which `Enable` saves.
  abbrev pub started : Config → Sys P C R → Sys P C R
  started cfg s = (start_mode env cfg.mode (prepared env cfg s)).1

  abbrev pub stored_after : ℕ → Sys P C R → Reply (Unit {0}) × R
  stored_after now t = save_config env now t.manager t.cfg t.stored

  abbrev finished : ℕ → Reply (Unit {0}) → Sys P C R → Reply (Unit {0}) × Sys P C R
  finished now r s = elim r [ ok u ↦ wrap "save config: " (save env now) s | err e ↦ (err e, s) ]

  prefixed-ok : (t : String) (r : Reply (Unit {0})) → prefixed t r ≡ ok tt → r ≡ ok tt
  prefixed-ok t (ok tt) h = refl
  prefixed-ok t (err e) h = absurd (ground arith)

  finished-ok :
      (now : ℕ) (r : Reply (Unit {0})) (s : Sys P C R)
      → (finished now r s).0 ≡ ok tt
      → (r ≡ ok tt)
        × ((stored_after now s).0 ≡ ok tt)
        × ((finished now r s).1 ≡ record s { stored = (stored_after now s).1 })
  unfolding wrap save
  finished-ok now (ok tt) s h = (refl, prefixed-ok _ _ h, refl)
  finished-ok now (err e) s h = absurd (ground arith)

  if-ok :
      (b : Bool) (e : String) (x : Reply (Unit {0}) × Sys P C R) (s : Sys P C R)
      → (if b then x else (err e, s)).0 ≡ ok tt
      → (b ≡ true) × (x.0 ≡ ok tt) × ((if b then x else (err e, s)).1 ≡ x.1)
  if-ok true e x s h = (refl, h, refl)
  if-ok false e x s h = absurd (ground arith)

  pub enable-ok :
      (now : ℕ) (cfg : Config) (s : Sys P C R)
      → (enable env now cfg s).0 ≡ ok tt
      → let t = started cfg s in
        (is_valid cfg.mode ≡ true)
        × ((start_mode env cfg.mode (prepared env cfg s)).0 ≡ ok tt)
        × ((stored_after now t).0 ≡ ok tt)
        × ((enable env now cfg s).1 ≡ record t { stored = (stored_after now t).1 })
  unfolding enable ◌>>=◌
  enable-ok now cfg s h =
      let p = prepared env cfg s in
      let r = start_mode env cfg.mode p in
      let valid = if-ok (is_valid cfg.mode) _ (finished now (r.0) (r.1)) s h in
      let done = finished-ok now (r.0) (r.1) (valid.1) in
      (valid.0, done.0, done.1, valid.2 ∙ done.2)

module _ {P C R T : Type 0} (env : Env P C R T) {alive : ℕ → P → Bool} (os : IsOs env alive)
    (store : IsStore env) where
  pub enable_stores :
      (now : ℕ) (cfg : Config) (s : Sys P C R)
      → (enable env now cfg s).0 ≡ ok tt
      → let t = (enable env now cfg s).1 in
        (c : Config) × (load_config env t.manager t.stored ≡ ok c) × IsStored now cfg c
  unfolding prepared stamped
  enable_stores now cfg s h =
      let (valid, began, saved, after) = enable-ok env now cfg s h in
      let t = started env cfg s in
      let kept : Kept (prepared env cfg s) t =
        start_mode-Kept env alive os cfg.mode (prepared env cfg s) in
      let c = stamped env now t.manager t.cfg in
      let same : t.cfg.mode ≡ cfg.mode = kept.mode in
      let loaded =
        load_config-save_config env store now t.manager t.cfg t.stored (rw same valid) saved in
      (
        c,
        subst (λ (u : Sys P C R). load_config env u.manager u.stored ≡ ok c) (sym after) loaded,
        record {
          mode = kept.mode;
          api_token = kept.api_token;
          account = kept.account;
          zone = kept.zone;
          domain = kept.domain;
          url = kept.url;
          updated = refl;
        },
      )

  pub enable-Runs :
      (now : ℕ) (cfg : Config) (s : Sys P C R)
      → (enable env now cfg s).0 ≡ ok tt
      → Runs cfg.mode ((enable env now cfg s).1.manager)
  unfolding prepared stop_all
  enable-Runs now cfg s h =
      let (valid, began, saved, after) = enable-ok env now cfg s h in
      subst (λ (u : Sys P C R). Runs cfg.mode u.manager) (sym after)
        (start_mode-Runs env alive os cfg.mode (prepared env cfg s) valid refl refl began)

  -- Enabling does what it says: where every subprocess that is alive is one that the manager has, and
  -- `Enable` gives no error, the mode is one of the four, the manager has the processes that the mode asks
  -- for (none, the quick or the named one alone, or in hybrid mode at least one of the two), no other
  -- subprocess is alive, so that all of before have ended, and the configuration that is loaded next has
  -- the mode, the credentials, the domain and the address of the one given, also in the mode none, stamped
  -- with the time.
  pub enable_applies :
      (now : ℕ) (cfg : Config) (s : Sys P C R)
      → IsOwned env alive s
      → (enable env now cfg s).0 ≡ ok tt
      → let t = (enable env now cfg s).1 in
        Runs cfg.mode t.manager
        × IsOwned env alive t
        × ((c : Config) × (load_config env t.manager t.stored ≡ ok c) × IsStored now cfg c)
  unfolding prepared stop_all
  enable_applies now cfg s owned h =
      let (valid, began, saved, after) = enable-ok env now cfg s h in
      let p = prepared env cfg s in
      let none_left : IsOwned env alive p =
        λ q on. absurd (let dead = stop_all-IsClear env alive os s owned q in cc) in
      let owns : IsOwned env alive (started env cfg s) =
        start_mode-IsOwned env alive os cfg.mode p none_left in
      (
        enable-Runs now cfg s h,
        subst (IsOwned env alive) (sym after) owns,
        enable_stores now cfg s h,
      )

  abbrev Stays : ℕ → Config → Reply (Unit {0}) × Sys P C R → Type 0
  Stays later before r =
      let t = r.1 in
      (t.manager.quick_cmd ≡ none)
      × (t.manager.named_cmd ≡ none)
      × ((c : Config) × (load_config env t.manager t.stored ≡ ok c) × IsDisabled before c)
      × (restart env later t ≡ (ok tt, t))
      × (auto_start env later t ≡ t)

  -- Where the stored mode is none, nothing is started again.
  none_again :
      (later : ℕ) (t : Sys P C R) (c : Config)
      → load_config env t.manager t.stored ≡ ok c
      → c.mode ≡ mode_none
      → (restart env later t ≡ (ok tt, t)) × (auto_start env later t ≡ t)
  unfolding restart auto_start reapply
  none_again later t c loaded mode =
      let still : reapply env later c c.mode t ≡ (ok tt, t) =
        ap (λ m. reapply env later c m t) mode in
      let again = λ (r : Reply Config).
        let x : Reply (Unit {0}) × Sys P C R = elim r [
          | err e ↦ (err e, t)
          | ok cfg ↦ reapply env later cfg cfg.mode t
        ] in
        x in
      let boot = λ (r : Reply Config).
        let x : Sys P C R = elim r [ err e ↦ t | ok cfg ↦ (reapply env later cfg cfg.mode t).1 ] in
        x in
      (ap again loaded ∙ still, ap boot loaded ∙ ap (λ x. x.1) still)

  save-Stays :
      (now later : ℕ) (s : Sys P C R) (before : Config)
      → let d = record (stop_all env s) { cfg = disabled before } in
        (save env now d).0 ≡ ok tt → Stays later before (save env now d)
  unfolding save stop_all disabled stamped is_valid
  save-Stays now later s before h =
      let d = record (stop_all env s) { cfg = disabled before } in
      let t = (save env now d).1 in
      let c = stamped env now d.manager d.cfg in
      let loaded : load_config env t.manager t.stored ≡ ok c =
        load_config-save_config env store now d.manager d.cfg d.stored refl h in
      let again = none_again later t c loaded refl in
      (refl, refl, (c, loaded, ground arith), again.0, again.1)

  disable_loaded :
      (now : ℕ) (s : Sys P C R) (before : Config)
      → load_config env s.manager s.stored ≡ ok before
      → disable env now s ≡ save env now (record (stop_all env s) { cfg = disabled before })
  unfolding disable stop_all load_config
  disable_loaded now s before e =
      let s' = stop_all env s in
      let next = λ (r : Reply Config).
        let x : Reply (Unit {0}) × Sys P C R = elim r [
          | err e ↦ (err e, s')
          | ok cfg ↦ save env now (record s' { cfg = disabled cfg })
        ] in
        x in
      ap next e

  -- Disabling stays: where `Disable` gives no error, the manager has no process, the configuration that
  -- is loaded next has the mode none, no address, and the credentials, the domain and the tunnel that
  -- were stored before, and neither a restart nor a start at boot changes anything.
  pub disable_stays :
      (now later : ℕ) (s : Sys P C R) (before : Config)
      → load_config env s.manager s.stored ≡ ok before
      → (disable env now s).0 ≡ ok tt
      → let t = (disable env now s).1 in
        (t.manager.quick_cmd ≡ none)
        × (t.manager.named_cmd ≡ none)
        × ((c : Config) × (load_config env t.manager t.stored ≡ ok c) × IsDisabled before c)
        × (restart env later t ≡ (ok tt, t))
        × (auto_start env later t ≡ t)
  disable_stays now later s before e h =
      let same = disable_loaded now s before e in
      subst (Stays later before) (sym same)
        (save-Stays now later s before (subst (λ r. r.0 ≡ ok tt) same h))
