-- ===== src/Tunnel/Running.antt =====
-- Which subprocesses run after the calls of the manager (internal/tunnel/manager.go).
use onmi_routers.Base.{
  ℕ, ◌≡◌, sym, ap, ◌∙◌, ◌≢◌, ◌⊎◌, inl, inr, Bool, true, false, Option, none, some, arith,
  Bool-cases,
}
use mathlib.Core.Path.{subst}
use mathlib.Core.Option.{some-injective}
use onmi_routers.Tunnel.{
  is_valid, Manager, Env, Sys, Reply, ok, pure, wrap, Mode, mode_none, mode_quick, mode_named,
  mode_hybrid, unknown,
}
use onmi_routers.Tunnel.Start.{start_quick, start_named, kill_gracefully, stop_all}
use onmi_routers.Tunnel.Calls.{both_failed, start_hybrid, start_mode}
use onmi_routers.Tunnel.Processes.{
  IsOs, NamedStart, Kept, Kept-trans, start_quick-IsStart, start_named-IsStart,
}

-- The processes that the manager has in a mode.
abbrev pub Runs : Mode → Manager → Type 0
Runs mode_none m = (m.quick_cmd ≡ none) × (m.named_cmd ≡ none)
Runs mode_quick m = ((pid : ℕ) × (m.quick_cmd ≡ some pid)) × (m.named_cmd ≡ none)
Runs mode_named m = (m.quick_cmd ≡ none) × ((pid : ℕ) × (m.named_cmd ≡ some pid))
Runs mode_hybrid m = ((pid : ℕ) × (m.quick_cmd ≡ some pid)) ⊎ ((pid : ℕ) × (m.named_cmd ≡ some pid))
Runs (unknown t) m = ⊥

module _ {P C R T : Type 0} (env : Env P C R T) (alive : ℕ → P → Bool) where
  -- Every process that is alive is one that the manager has; and none is alive.
  abbrev pub IsOwned : Sys P C R → Type 0
  IsOwned s =
      (q : ℕ)
      → alive q s.processes ≡ true
      → (s.manager.quick_cmd ≡ some q) ⊎ (s.manager.named_cmd ≡ some q)

  abbrev pub IsClear : P → Type 0
  IsClear p = (q : ℕ) → alive q p ≡ false

  module _ (os : IsOs env alive) where
    killed-Ends :
        (pid q : ℕ) (p : P)
        → alive q (kill_gracefully env (some pid) p) ≡ true
        → (alive q p ≡ true) × (pid ≢ q)
    unfolding kill_gracefully
    killed-Ends pid q p h =
        let p' = env.interrupt pid p in
        let p'' = (env.wait pid p').1 in
        (
          ground (arith, os.wait_adds pid q p', os.interrupt_adds pid q p, os.kill_adds pid q p''),
          λ e.
              let dead : alive pid (kill_gracefully env (some pid) p) ≡ false =
                ground (arith, os.exited_dead pid p, os.waited pid p', os.killed pid p'') in
              let same : alive pid (kill_gracefully env (some pid) p) ≡ true =
                subst (λ x. alive x (kill_gracefully env (some pid) p) ≡ true) (sym e) h in
              cc,
        )

    pub kill_gracefully-Ends :
        (o : Option ℕ) (q : ℕ) (p : P)
        → alive q (kill_gracefully env o p) ≡ true
        → (alive q p ≡ true) × (o ≢ some q)
    unfolding kill_gracefully
    kill_gracefully-Ends none q p h = (h, λ e. cc)
    kill_gracefully-Ends (some pid) q p h =
        let end = killed-Ends pid q p h in (end.0, λ e. end.1 (some-injective pid q e))

    -- Whatever the manager has is stopped.
    pub stop_all-IsClear : (s : Sys P C R) → IsOwned s → IsClear ((stop_all env s).processes)
    unfolding stop_all
    stop_all-IsClear s owned q = elim (Bool-cases (alive q ((stop_all env s).processes))) [
      | inl h ↦
          let m = s.manager in
          let n =
            kill_gracefully-Ends m.named_cmd q (kill_gracefully env m.quick_cmd s.processes) h in
          let k = kill_gracefully-Ends m.quick_cmd q s.processes (n.0) in
          absurd (elim (owned q (k.0)) [ inl e ↦ k.1 e | inr e ↦ n.1 e ])
      | inr h ↦ h
    ]

    pub start_quick-IsOwned : (s : Sys P C R) → IsOwned s → IsOwned (start_quick env s).1
    start_quick-IsOwned s owned q h =
        let start = start_quick-IsStart env alive os s in
        let other = start.1 in
        elim (start.2) [
          | inl (pid, done, idle, runs, adds) ↦ elim (adds q h) [
            | inl e ↦ inl (runs ∙ ap some e)
            | inr old ↦ elim (owned q old) [ inl e ↦ absurd (cc) | inr e ↦ inr (other ∙ e) ]
          ]
          | inr (e, failed, was, older) ↦ elim (owned q (older q h)) [
            | inl e' ↦ inl (was ∙ e')
            | inr e' ↦ inr (other ∙ e')
          ]
        ]

    pub NamedStart-Owned :
        (s : Sys P C R) (r : Reply (Unit {0}) × Sys P C R)
        → NamedStart env alive s r
        → IsOwned s
        → IsOwned r.1
    NamedStart-Owned s r start owned q h =
        let other = start.1 in
        elim (start.2) [
          | inl (pid, done, idle, runs, adds) ↦ elim (adds q h) [
            | inl e ↦ inr (runs ∙ ap some e)
            | inr old ↦ elim (owned q old) [ inl e ↦ inl (other ∙ e) | inr e ↦ absurd (cc) ]
          ]
          | inr (e, failed, was, older) ↦ elim (owned q (older q h)) [
            | inl e' ↦ inl (other ∙ e')
            | inr e' ↦ inr (was ∙ e')
          ]
        ]

    pub start_named-IsOwned : (s : Sys P C R) → IsOwned s → IsOwned (start_named env s).1
    start_named-IsOwned s owned =
        NamedStart-Owned s (start_named env s) (start_named-IsStart env alive os s) owned

    -- A start in a mode, where nothing runs.
    pub start_mode-IsOwned :
        (mode : Mode) (s : Sys P C R) → IsOwned s → IsOwned (start_mode env mode s).1
    unfolding start_mode wrap pure start_hybrid
    start_mode-IsOwned mode_none s o = o
    start_mode-IsOwned mode_quick s o = start_quick-IsOwned s o
    start_mode-IsOwned mode_named s o = start_named-IsOwned s o
    start_mode-IsOwned mode_hybrid s o =
        start_named-IsOwned (start_quick env s).1 (start_quick-IsOwned s o)
    start_mode-IsOwned (unknown t) s o = o

    Kept-refl : (s : Sys P C R) → Kept s s
    Kept-refl s = ground arith

    pub start_mode-Kept : (mode : Mode) (s : Sys P C R) → Kept s (start_mode env mode s).1
    unfolding start_mode wrap pure start_hybrid
    start_mode-Kept mode_none s = Kept-refl s
    start_mode-Kept mode_quick s = (start_quick-IsStart env alive os s).0
    start_mode-Kept mode_named s = (start_named-IsStart env alive os s).0
    start_mode-Kept mode_hybrid s =
        Kept-trans s (start_quick env s).1 _ (start_quick-IsStart env alive os s).0
          (start_named-IsStart env alive os (start_quick env s).1).0
    start_mode-Kept (unknown t) s = Kept-refl s

    pub start_mode-Runs :
        (mode : Mode) (s : Sys P C R)
        → is_valid mode ≡ true
        → s.manager.quick_cmd ≡ none
        → s.manager.named_cmd ≡ none
        → (start_mode env mode s).0 ≡ ok tt
        → Runs mode ((start_mode env mode s).1.manager)
    unfolding start_mode wrap pure start_hybrid is_valid both_failed
    start_mode-Runs mode_none s v q n h = (q, n)
    start_mode-Runs mode_quick s v q n h =
        let start = start_quick-IsStart env alive os s in
        let other = start.1 in
        elim (start.2) [
          | inl (pid, done, idle, runs, adds) ↦ ((pid, runs), other ∙ n)
          | inr (e, failed, was, older) ↦ absurd (ground arith)
        ]
    start_mode-Runs mode_named s v q n h =
        let start = start_named-IsStart env alive os s in
        let other = start.1 in
        elim (start.2) [
          | inl (pid, done, idle, runs, adds) ↦ (other ∙ q, (pid, runs))
          | inr (e, failed, was, older) ↦ absurd (ground arith)
        ]
    start_mode-Runs mode_hybrid s v q n h =
        let named = start_named-IsStart env alive os (start_quick env s).1 in
        let start = start_quick-IsStart env alive os s in
        let other = start.1 in
        elim (start.2) [
          | inl (pid, done, idle, runs, adds) ↦ inl (pid, named.1 ∙ runs)
          | inr (e, failed, was, older) ↦ elim (named.2) [
            | inl (pid, done, idle, runs, adds) ↦ inr (pid, runs)
            | inr (e', failed', was', older') ↦ absurd (ground arith)
          ]
        ]
    start_mode-Runs (unknown t) s v q n h = absurd (cc)
