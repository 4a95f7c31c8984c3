-- ===== src/Tunnel/Stale.antt =====
-- The address that is shown of a quick tunnel (internal/tunnel/manager.go, internal/handlers/tunnels.go).
use onmi_routers.Base.{
  ℕ, ◌≡◌, refl, sym, ap, ◌∙◌, inl, inr, String, Bool, false, Option, none, some, List, [], ◌∷◌,
  arith, str_eq, if◌then◌else◌,
}
use mathlib.Core.Path.{subst}
use onmi_routers.Tunnel.{Config, Env, Sys, Reply, ok, err, mode_named, is_valid, Status}
use onmi_routers.Tunnel.Stored.{load_config}
use onmi_routers.Tunnel.Start.{stop_all}
use onmi_routers.Tunnel.Calls.{prepared, enable, status_of, status, is_running}
use onmi_routers.Tunnel.Handlers.{
  shown, TunnelEnableInput, answered, read, merge, missing, requested_mode, enable_complete,
  enable_loaded, handle_enable, failed,
}
use onmi_routers.Tunnel.Processes.{IsOs, Kept}
use onmi_routers.Tunnel.Running.{Runs, start_mode-Kept}
use onmi_routers.Tunnel.Modes.{IsStore, enable-ok, started, enable-Runs, enable_stores}

-- A status that shows the address of a quick tunnel that does not run.
abbrev ShowsStale : String → Option Status → Type 0
ShowsStale url o =
    (st : Status) × (o ≡ some st)
    × (st.mode ≡ mode_named)
    × (st.quick_running ≡ false)
    × (st.quick_url ≡ url)

module _ {P C R T : Type 0} (env : Env P C R T) where
  answered-shown :
      (r : Reply (Unit {0}) × Sys P C R) {o : Option Status}
      → (answered env r).0 ≡ shown o
      → (r.0 ≡ ok tt) × (o ≡ read env r.1)
  answered-shown (ok tt, s) h = (refl, ground arith)
  answered-shown (err e, s) h = absurd (ground arith)

  complete-shown :
      (now : ℕ) (cfg : Config) (fields : List String) (s : Sys P C R) {o : Option Status}
      → (enable_complete env now cfg fields s).0 ≡ shown o
      → ((enable env now cfg s).0 ≡ ok tt) × (o ≡ read env (enable env now cfg s).1)
  unfolding enable_complete
  complete-shown now cfg [] s h = answered-shown (enable env now cfg s) h
  complete-shown now cfg (f ∷ fs) s h = absurd (ground arith)

  valid_loaded :
      (to_lower : String → String) (now : ℕ) (i : TunnelEnableInput) (s : Sys P C R) (cfg : Config)
      → requested_mode to_lower i ≡ mode_named
      → load_config env s.manager s.stored ≡ ok cfg
      → handle_enable env to_lower now (some i) s ≡ enable_loaded env now i mode_named (ok cfg) s
  unfolding handle_enable is_valid
  valid_loaded to_lower now i s cfg m e =
      ap
        (λ k.
          if is_valid k
          then enable_loaded env now i k (load_config env s.manager s.stored) s
          else (failed 400 "invalid mode; must be none|quick|named|hybrid", s))
        m
      ∙ ap (λ r. enable_loaded env now i mode_named r s) e

  read_loaded :
      (t : Sys P C R) (c : Config)
      → load_config env t.manager t.stored ≡ ok c
      → read env t ≡ some (status_of env t c)
  unfolding status
  read_loaded t c e =
      let shows = λ (r : Reply Config).
        let x : Option Status =
          elim (elim r as (λ _. Reply Status) [ err e ↦ err e | ok c ↦ ok (status_of env t c) ]) [
            | ok st ↦ some st
            | err e ↦ none
          ] in
        x in
      ap shows e

  status_of-mode : (t : Sys P C R) (c : Config) → (status_of env t c).mode ≡ c.mode
  unfolding status_of
  status_of-mode t c = refl

  status_of_idle :
      (t : Sys P C R) (c : Config)
      → t.manager.quick_cmd ≡ none
      → t.manager.quick_url ≡ ""
      → ((status_of env t c).quick_running ≡ false) × ((status_of env t c).quick_url ≡ c.quick_url)
  unfolding status_of
  status_of_idle t c q u =
      (ap (λ o. is_running env o t.processes) q, ap (λ k. if str_eq k "" then c.quick_url else k) u)

module _ {P C R T : Type 0} (env : Env P C R T) {alive : ℕ → P → Bool} (os : IsOs env alive)
    (store : IsStore env) where
  -- Nothing shows an address of its own after the start of a named tunnel.
  enabled-no_address :
      (now : ℕ) (cfg : Config) (s : Sys P C R)
      → (enable env now cfg s).0 ≡ ok tt
      → (enable env now cfg s).1.manager.quick_url ≡ ""
  unfolding prepared stop_all
  enabled-no_address now cfg s h =
      let (valid, began, saved, after) = enable-ok env now cfg s h in
      let kept : Kept (prepared env cfg s) (started env cfg s) =
        start_mode-Kept env alive os cfg.mode (prepared env cfg s) in
      ap (λ (t : Sys P C R). t.manager.quick_url) after
      ∙ elim (kept.shown) [ inl e ↦ e | inr e ↦ e ]

  named-ShowsStale :
      (now : ℕ) (cfg : Config) (s : Sys P C R)
      → cfg.mode ≡ mode_named
      → (enable env now cfg s).0 ≡ ok tt
      → ShowsStale cfg.quick_url (read env (enable env now cfg s).1)
  named-ShowsStale now cfg s m h =
      let t = (enable env now cfg s).1 in
      let runs = enable-Runs env os store now cfg s h in
      let (c, loaded, is) = enable_stores env os store now cfg s h in
      let idle = subst (λ k. Runs k t.manager) m runs in
      let shows = status_of_idle env t c (idle.0) (enabled-no_address now cfg s h) in
      (
        status_of env t c,
        read_loaded env t c loaded,
        status_of-mode env t c ∙ is.mode ∙ m,
        shows.0,
        shows.1 ∙ is.url,
      )

  -- A defect of the endpoints: `Enable` never clears the stored address. Where an address of a quick
  -- tunnel is stored, a request for a named tunnel that succeeds shows it, though no quick tunnel runs.
  pub address_stale :
      (to_lower : String → String) (now : ℕ) (i : TunnelEnableInput) (s : Sys P C R) (cfg : Config)
      (o : Option Status)
      → requested_mode to_lower i ≡ mode_named
      → load_config env s.manager s.stored ≡ ok cfg
      → (handle_enable env to_lower now (some i) s).0 ≡ shown o
      → ShowsStale cfg.quick_url o
  unfolding enable_loaded merge
  address_stale to_lower now i s cfg o m e h =
      let same = valid_loaded env to_lower now i s cfg m e in
      let given = merge i mode_named cfg in
      let done =
        complete-shown env now given (missing mode_named given) s
          (subst (λ r. r.0 ≡ shown o) same h) in
      subst (ShowsStale cfg.quick_url) (sym (done.1)) (named-ShowsStale now given s refl (done.0))
