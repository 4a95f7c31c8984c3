-- ===== src/Tunnel/Histories.antt =====
-- The calls of the endpoints of the tunnel, at boot, at the end and in between, each by itself
-- (internal/handlers/tunnels.go, internal/tunnel/manager.go).
use onmi_routers.Base.{
  ℕ, ◌≡◌, String, Bool, true, false, Option, none, some, List, [], ◌∷◌, if◌then◌else◌,
}
use onmi_routers.Tunnel.Stored.{load_config}
use onmi_routers.Tunnel.{
  mode_none, mode_quick, mode_named, mode_hybrid, unknown, Mode, Config, Env, Sys, Reply, ok, err,
  wrap, ◌>>=◌, is_valid,
}
use onmi_routers.Tunnel.Start.{stop_all, capture_url, captured}
use onmi_routers.Tunnel.Calls.{
  disabled, restart, disable, reapply, start_mode, save, prepared, enable, auto_start, shutdown,
}
use onmi_routers.Tunnel.Handlers.{
  missing, merge, failed, requested_mode, enable_complete, answered, enable_loaded,
  TunnelEnableInput, handle_enable, handle_disable, handle_restart,
}
use onmi_routers.Tunnel.Processes.{IsOs}
use onmi_routers.Tunnel.Running.{IsClear, IsOwned, stop_all-IsClear, start_mode-IsOwned}

-- What can happen to the manager. `exits` is the end of a process by itself, `captures` the address of
-- a quick tunnel that has come, from whichever start.
pub data Call : Type 0 where
  posts_enable : ℕ → Option TunnelEnableInput → Call
  posts_disable : ℕ → Call
  posts_restart : ℕ → Call
  boots : ℕ → Call
  shuts_down : Call
  captures : ℕ → String → Call
  exits : ℕ → Call

module _ {P C R T : Type 0} (env : Env P C R T) (exit : ℕ → P → P) where
  module _ (to_lower : String → String) where
    unfoldable pub step : Call → Sys P C R → Sys P C R
    step (posts_enable now i) s = (handle_enable env to_lower now i s).1
    step (posts_disable now) s = (handle_disable env now s).1
    step (posts_restart now) s = (handle_restart env now s).1
    step (boots now) s = auto_start env now s
    step shuts_down s = shutdown env s
    step (captures now url) s = capture_url env now url s
    step (exits pid) s = record s { processes = exit pid s.processes }

module _ {P C R T : Type 0} (env : Env P C R T) (alive : ℕ → P → Bool) (exit : ℕ → P → P) where
  module _ (os : IsOs env alive)
      (exit_adds : (pid q : ℕ) (p : P) → alive q (exit pid p) ≡ true → alive q p ≡ true)
      (to_lower : String → String) where
    abbrev Owned : Sys P C R → Type 0
    Owned = IsOwned env alive

    if-Owned :
        {A : Type 0} (b : Bool) (x y : A × Sys P C R)
        → Owned (x.1)
        → Owned (y.1)
        → Owned ((if b then x else y).1)
    if-Owned true x y h k = h
    if-Owned false x y h k = k

    stop_all-Owned : (s : Sys P C R) → Owned s → Owned (stop_all env s)
    stop_all-Owned s o q h = absurd (let dead = stop_all-IsClear env alive os s o q in cc)

    abbrev saved : ℕ → Reply (Unit {0}) → Sys P C R → Reply (Unit {0}) × Sys P C R
    saved now r s = elim r [ ok u ↦ wrap "save config: " (save env now) s | err e ↦ (err e, s) ]

    saved-Owned :
        (now : ℕ) (r : Reply (Unit {0})) (s : Sys P C R) → Owned s → Owned ((saved now r s).1)
    unfolding save wrap
    saved-Owned now (ok u) s o = o
    saved-Owned now (err e) s o = o

    enable-Owned :
        (now : ℕ) (cfg : Config) (s : Sys P C R) → Owned s → Owned ((enable env now cfg s).1)
    unfolding enable ◌>>=◌ prepared
    enable-Owned now cfg s o =
        let p = prepared env cfg s in
        let r = start_mode env cfg.mode p in
        if-Owned (is_valid cfg.mode) (saved now (r.0) (r.1)) (err _, s)
          (saved-Owned now (r.0) (r.1)
            (start_mode-IsOwned env alive os cfg.mode p (stop_all-Owned s o)))
          o

    loaded-Keeps :
        (Q : Sys P C R → Type 0) (r : Reply Config) (f : Config → Reply (Unit {0}) × Sys P C R)
        (s : Sys P C R)
        → Q s
        → ((c : Config) → Q ((f c).1))
        → Q (
            let x : Reply (Unit {0}) × Sys P C R = elim r [ err e ↦ (err e, s) | ok c ↦ f c ] in
            x.1)
    loaded-Keeps Q (ok c) f s o h = h c
    loaded-Keeps Q (err e) f s o h = o

    answered-Keeps :
        (Q : Sys P C R → Type 0) (r : Reply (Unit {0}) × Sys P C R)
        → Q (r.1)
        → Q ((answered env r).1)
    answered-Keeps Q (ok u, s) o = o
    answered-Keeps Q (err e, s) o = o

    -- Nothing but the end of everything happens to the processes.
    disable-Keeps :
        (Q : Sys P C R → Type 0) (now : ℕ) (s : Sys P C R)
        → ((cfg : Config) (r : R) → Q (record (stop_all env s) { cfg = cfg; stored = r }))
        → Q (stop_all env s)
        → Q ((disable env now s).1)
    unfolding disable save
    disable-Keeps Q now s h o =
        let s' = stop_all env s in
        loaded-Keeps Q (load_config env s'.manager s'.stored)
          (λ c. save env now (record s' { cfg = disabled c })) s' o (λ c. h _ _)

    disable-Owned : (now : ℕ) (s : Sys P C R) → Owned s → Owned ((disable env now s).1)
    disable-Owned now s o =
        disable-Keeps Owned now s (λ c r. stop_all-Owned s o) (stop_all-Owned s o)

    reapply-Owned :
        (now : ℕ) (cfg : Config) (mode : Mode) (s : Sys P C R)
        → Owned s
        → Owned ((reapply env now cfg mode s).1)
    unfolding reapply
    reapply-Owned now cfg mode_none s o = o
    reapply-Owned now cfg mode_quick s o = enable-Owned now cfg s o
    reapply-Owned now cfg mode_named s o = enable-Owned now cfg s o
    reapply-Owned now cfg mode_hybrid s o = enable-Owned now cfg s o
    reapply-Owned now cfg (unknown t) s o = enable-Owned now cfg s o

    restart-Owned : (now : ℕ) (s : Sys P C R) → Owned s → Owned ((restart env now s).1)
    unfolding restart
    restart-Owned now s o =
        loaded-Keeps Owned (load_config env s.manager s.stored) (λ c. reapply env now c c.mode s) s
          o (λ c. reapply-Owned now c c.mode s o)

    booted-Owned :
        (now : ℕ) (r : Reply Config) (s : Sys P C R)
        → Owned s
        → Owned (elim r [ err e ↦ s | ok c ↦ (reapply env now c c.mode s).1 ])
    booted-Owned now (ok c) s o = reapply-Owned now c c.mode s o
    booted-Owned now (err e) s o = o

    captured-Owned :
        (now : ℕ) (url : String) (r : Reply Config) (s : Sys P C R)
        → Owned s
        → Owned (captured env now url r s)
    unfolding captured
    captured-Owned now url (ok c) s o = o
    captured-Owned now url (err e) s o = o

    enable_complete-Owned :
        (now : ℕ) (cfg : Config) (fields : List String) (s : Sys P C R)
        → Owned s
        → Owned ((enable_complete env now cfg fields s).1)
    unfolding enable_complete
    enable_complete-Owned now cfg [] s o =
        answered-Keeps Owned (enable env now cfg s) (enable-Owned now cfg s o)
    enable_complete-Owned now cfg (f ∷ fs) s o = o

    posted-Owned :
        (now : ℕ) (i : TunnelEnableInput) (mode : Mode) (r : Reply Config) (s : Sys P C R)
        → Owned s
        → Owned ((enable_loaded env now i mode r s).1)
    unfolding enable_loaded
    posted-Owned now i mode (ok c) s o =
        enable_complete-Owned now (merge i mode c) (missing mode (merge i mode c)) s o
    posted-Owned now i mode (err e) s o = o

    pub step-Owned : (c : Call) (s : Sys P C R) → Owned s → Owned (step env exit to_lower c s)
    unfolding step handle_enable handle_disable handle_restart auto_start shutdown capture_url
    step-Owned (posts_enable now none) s o = o
    step-Owned (posts_enable now (some i)) s o =
        let mode = requested_mode to_lower i in
        if-Owned (is_valid mode)
          (enable_loaded env now i mode (load_config env s.manager s.stored) s) (failed 400 _, s)
          (posted-Owned now i mode (load_config env s.manager s.stored) s o) o
    step-Owned (posts_disable now) s o =
        answered-Keeps Owned (disable env now s) (disable-Owned now s o)
    step-Owned (posts_restart now) s o =
        answered-Keeps Owned (restart env now s) (restart-Owned now s o)
    step-Owned (boots now) s o = booted-Owned now (load_config env s.manager s.stored) s o
    step-Owned shuts_down s o = stop_all-Owned s o
    step-Owned (captures now url) s o =
        captured-Owned now url (load_config env s.manager s.stored) s o
    step-Owned (exits pid) s o = λ q h. o q (exit_adds pid q s.processes h)

    -- A disable, whatever it answers, and a shutdown end everything.
    pub ended-IsClear :
        (t : Sys P C R) (now : ℕ)
        → IsOwned env alive t
        → IsClear env alive ((handle_disable env now t).1.processes)
          × IsClear env alive ((shutdown env t).processes)
    unfolding handle_disable shutdown
    ended-IsClear t now owned = (
      answered-Keeps (λ u. IsClear env alive u.processes) (disable env now t)
          (disable-Keeps (λ u. IsClear env alive u.processes) now t
            (λ c r. stop_all-IsClear env alive os t owned) (stop_all-IsClear env alive os t owned)),
      stop_all-IsClear env alive os t owned,
    )
