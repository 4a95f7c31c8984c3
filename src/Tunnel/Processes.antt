-- ===== src/Tunnel/Processes.antt =====
-- The starts and the ends of the tunnel's subprocesses (internal/tunnel/manager.go).
use onmi_routers.Base.{
  ℕ, ◌≡◌, refl, sym, ap, ◌∙◌, ◌⊎◌, inl, inr, String, Bool, true, false, Option, none, some, List,
  arith,
}
use mathlib.Core.Path.{subst}
use onmi_routers.Tunnel.{Env, Sys, M, Reply, ok, err, guard, ◌>>=◌}
use onmi_routers.Tunnel.Named.{prepare_named, binary_found, check_binary}
use onmi_routers.Tunnel.Start.{
  run_named, start_named, exec_named, quick_started, named_started, exec_quick, start_quick,
  is_none,
}
use onmi_routers.Tunnel.Steady.{prepare_named-Steady, Steady, Same, Same-refl}

module _ {P C R : Type 0} where
  -- What the manager needs of processes: a start adds at most the process that it gives, no other call
  -- adds one, and one that has exited, that was waited for, or that was killed is not alive.
  pub record IsOs {T : Type 0} (env : Env P C R T) (alive : ℕ → P → Bool) : Type 0 where
    pub exited_dead : (pid : ℕ) (p : P) → env.exited pid p ≡ true → alive pid p ≡ false
    pub exec_adds :
        (path : String) (args : List String) (p : P) (pid q : ℕ)
        → (env.exec path args p).0 ≡ ok pid
        → alive q (env.exec path args p).1 ≡ true
        → (pid ≡ q) ⊎ (alive q p ≡ true)
    pub exec_fails :
        (path : String) (args : List String) (p : P) (e : String) (q : ℕ)
        → (env.exec path args p).0 ≡ err e
        → alive q (env.exec path args p).1 ≡ true
        → alive q p ≡ true
    pub interrupt_adds :
        (pid q : ℕ) (p : P) → alive q (env.interrupt pid p) ≡ true → alive q p ≡ true
    pub wait_adds : (pid q : ℕ) (p : P) → alive q (env.wait pid p).1 ≡ true → alive q p ≡ true
    pub waited :
        (pid : ℕ) (p : P) → (env.wait pid p).0 ≡ true → alive pid (env.wait pid p).1 ≡ false
    pub kill_adds : (pid q : ℕ) (p : P) → alive q (env.kill pid p) ≡ true → alive q p ≡ true
    pub killed : (pid : ℕ) (p : P) → alive pid (env.kill pid p) ≡ false

  -- A start leaves all but its own process, and the tunnel of the configuration, as it is.
  pub record Kept (s t : Sys P C R) : Type 0 where
    pub redis : t.manager.redis ≡ s.manager.redis
    pub upstream : t.manager.upstream_url ≡ s.manager.upstream_url
    pub stored : t.stored ≡ s.stored
    pub mode : t.cfg.mode ≡ s.cfg.mode
    pub api_token : t.cfg.cloudflare_api_token ≡ s.cfg.cloudflare_api_token
    pub account : t.cfg.cloudflare_account_id ≡ s.cfg.cloudflare_account_id
    pub zone : t.cfg.cloudflare_zone_id ≡ s.cfg.cloudflare_zone_id
    pub domain : t.cfg.tunnel_domain ≡ s.cfg.tunnel_domain
    pub url : t.cfg.quick_url ≡ s.cfg.quick_url
    pub shown : (t.manager.quick_url ≡ s.manager.quick_url) ⊎ (t.manager.quick_url ≡ "")
    pub address : t.cfg.upstream_url ≡ s.cfg.upstream_url

  pub Kept-trans : (s t u : Sys P C R) → Kept s t → Kept t u → Kept s u
  Kept-trans s t u a b = ground arith

  Same-Kept : (s t : Sys P C R) → Same s t → Kept s t
  Same-Kept s t h = ground arith

module _ {P C R T : Type 0} (env : Env P C R T) (alive : ℕ → P → Bool) where
  -- Every process alive in one state is alive in another.
  abbrev pub Older : P → P → Type 0
  Older p p' = (q : ℕ) → alive q p' ≡ true → alive q p ≡ true

  -- A start that fails, and one that gives a process in place of none.
  abbrev pub Failed : Sys P C R → Reply (Unit {0}) × Sys P C R → Option ℕ → Option ℕ → Type 0
  Failed s r was now =
      (e : String) × (r.0 ≡ err e) × (now ≡ was) × Older s.processes (r.1.processes)

  abbrev pub Launched : Sys P C R → Reply (Unit {0}) × Sys P C R → Option ℕ → Option ℕ → Type 0
  Launched s r was now =
      (pid : ℕ) × (r.0 ≡ ok tt)
      × (was ≡ none)
      × (now ≡ some pid)
      × ((q : ℕ) → alive q (r.1.processes) ≡ true → (pid ≡ q) ⊎ (alive q s.processes ≡ true))

  abbrev pub IsStart :
      Sys P C R → Reply (Unit {0}) × Sys P C R → Option ℕ → Option ℕ → Option ℕ → Option ℕ → Type 0
  IsStart s r was now other other' =
      Kept s (r.1) × (other' ≡ other) × (Launched s r was now ⊎ Failed s r was now)

  abbrev pub QuickStart : Sys P C R → Reply (Unit {0}) × Sys P C R → Type 0
  QuickStart s r =
      IsStart s r s.manager.quick_cmd (r.1.manager.quick_cmd) s.manager.named_cmd
        (r.1.manager.named_cmd)

  abbrev pub NamedStart : Sys P C R → Reply (Unit {0}) × Sys P C R → Type 0
  NamedStart s r =
      IsStart s r s.manager.named_cmd (r.1.manager.named_cmd) s.manager.quick_cmd
        (r.1.manager.quick_cmd)

  module _ (os : IsOs env alive) where
    -- A start that is refused before the process.
    refused : (s : Sys P C R) (e : String) → QuickStart s (err e, s) × NamedStart s (err e, s)
    refused s e =
        let same = Same-Kept s s (Same-refl s) in
        let none_new : Older s.processes s.processes = λ q h. h in
        ((same, refl, inr (e, refl, refl, none_new)), (same, refl, inr (e, refl, refl, none_new)))

    abbrev Run : Type 0
    Run = Reply (Unit {0}) × Sys P C R

    test-bind :
        (Q : Run → Type 0) (b : Bool) (e : String) (k : M (Sys P C R) (Unit {0})) (s : Sys P C R)
        → Q (err e, s)
        → (b ≡ true → Q (k s))
        → Q ((guard b e >>= λ _. k) s)
    unfolding ◌>>=◌ guard
    test-bind Q true e k s h f = f refl
    test-bind Q false e k s h f = h

    guard-bind :
        (Q : Run → Type 0) (b : Sys P C R → Bool) (e : String) (k : M (Sys P C R) (Unit {0}))
        (s : Sys P C R)
        → Q (err e, s)
        → (b s ≡ true → Q (k s))
        → Q (((λ s. guard (b s) e s) >>= λ _. k) s)
    unfolding ◌>>=◌ guard
    guard-bind Q b e k s h f = test-bind Q (b s) e k s h f

    found-bind :
        (Q : Run → Type 0) (o : Option String) (k : M (Sys P C R) (Unit {0})) (s : Sys P C R)
        → ((e : String) → Q (err e, s))
        → Q (k s)
        → Q ((binary_found env o >>= λ _. k) s)
    unfolding ◌>>=◌ binary_found
    found-bind Q none k s h f = f
    found-bind Q (some e) k s h f = h _

    check-bind :
        (Q : Run → Type 0) (k : M (Sys P C R) (Unit {0})) (s : Sys P C R)
        → ((e : String) → Q (err e, s))
        → Q (k s)
        → Q ((check_binary env >>= λ _. k) s)
    unfolding ◌>>=◌ check_binary
    check-bind Q k s h f = found-bind Q (env.stat s.manager.cloudflared_path s.processes) k s h f

    quick_started-IsStart :
        (s : Sys P C R) (r : Reply ℕ) (p : P)
        → s.manager.quick_cmd ≡ none
        → ((pid q : ℕ) → r ≡ ok pid → alive q p ≡ true → (pid ≡ q) ⊎ (alive q s.processes ≡ true))
        → ((e : String) (q : ℕ) → r ≡ err e → alive q p ≡ true → alive q s.processes ≡ true)
        → QuickStart s (quick_started env (r, p) s)
    unfolding quick_started
    quick_started-IsStart s (ok pid) p idle adds fails =
        (ground arith, refl, inl (pid, refl, idle, refl, λ q h. adds pid q refl h))
    quick_started-IsStart s (err e) p idle adds fails =
        (ground arith, refl, inr (_, refl, refl, λ q h. fails e q refl h))

    named_started-IsStart :
        (s : Sys P C R) (r : Reply ℕ) (p : P)
        → s.manager.named_cmd ≡ none
        → ((pid q : ℕ) → r ≡ ok pid → alive q p ≡ true → (pid ≡ q) ⊎ (alive q s.processes ≡ true))
        → ((e : String) (q : ℕ) → r ≡ err e → alive q p ≡ true → alive q s.processes ≡ true)
        → NamedStart s (named_started env (r, p) s)
    unfolding named_started
    named_started-IsStart s (ok pid) p idle adds fails =
        (ground arith, refl, inl (pid, refl, idle, refl, λ q h. adds pid q refl h))
    named_started-IsStart s (err e) p idle adds fails =
        (ground arith, refl, inr (_, refl, refl, λ q h. fails e q refl h))

    is_none→none : (o : Option ℕ) → is_none o ≡ true → o ≡ none
    is_none→none none h = refl
    is_none→none (some p) h = cc

    exec_quick-IsStart :
        (s : Sys P C R) → s.manager.quick_cmd ≡ none → QuickStart s (exec_quick env s)
    unfolding exec_quick
    exec_quick-IsStart s idle =
        quick_started-IsStart s _ _ idle (os.exec_adds _ _ _) (os.exec_fails _ _ _)

    exec_named-IsStart :
        (token : String) (s : Sys P C R)
        → s.manager.named_cmd ≡ none
        → NamedStart s (exec_named env token s)
    unfolding exec_named
    exec_named-IsStart token s idle =
        named_started-IsStart s _ _ idle (os.exec_adds _ _ _) (os.exec_fails _ _ _)

    pub start_quick-IsStart : (s : Sys P C R) → QuickStart s (start_quick env s)
    unfolding start_quick
    start_quick-IsStart s =
        let no : (e : String) → QuickStart s (err e, s) = λ e. (refused s e).0 in
        guard-bind (QuickStart s) _ _ _ s (no _) λ _. check-bind (QuickStart s) _ s no (
          guard-bind (QuickStart s) (λ s. is_none s.manager.quick_cmd) _ (exec_quick env) s (no _)
            λ idle. exec_quick-IsStart s (is_none→none _ idle))

    -- A start after a part that leaves the processes alone.
    later-IsStart : (s t : Sys P C R) (r : Run) → Same s t → NamedStart t r → NamedStart s r
    later-IsStart s t r same (kept, other, how) = (
      Kept-trans s t (r.1) (Same-Kept s t same) kept,
      other ∙ ap (λ m. m.quick_cmd) same.manager,
      later how,
    )
      where
        was : t.manager.named_cmd ≡ s.manager.named_cmd
        was = ap (λ m. m.named_cmd) same.manager

        later :
            Launched t r t.manager.named_cmd (r.1.manager.named_cmd)
              ⊎ Failed t r t.manager.named_cmd (r.1.manager.named_cmd)
            → Launched s r s.manager.named_cmd (r.1.manager.named_cmd)
              ⊎ Failed s r s.manager.named_cmd (r.1.manager.named_cmd)
        later (inl (pid, done, idle, runs, adds)) = inl (
          pid,
          done,
          sym was ∙ idle,
          runs,
          λ q h. subst (λ p. (pid ≡ q) ⊎ (alive q p ≡ true)) same.processes (adds q h),
        )
        later (inr (e, failed, kept', old)) =
            inr (
              e,
              failed,
              kept' ∙ was,
              λ q h. subst (λ p. alive q p ≡ true) same.processes (old q h),
            )

    pub run_named-IsStart : (token : String) (s : Sys P C R) → NamedStart s (run_named env token s)
    unfolding run_named
    run_named-IsStart token s =
        guard-bind (NamedStart s) (λ s. is_none s.manager.named_cmd) _ (exec_named env token) s
          ((refused s _).1) λ idle. exec_named-IsStart token s (is_none→none _ idle)

    abbrev after_prepare : Reply String → Sys P C R → Run
    after_prepare r t = elim r [ ok token ↦ run_named env token t | err e ↦ (err e, t) ]

    after_prepare-IsStart : (r : Reply String) (t : Sys P C R) → NamedStart t (after_prepare r t)
    after_prepare-IsStart (ok token) t = run_named-IsStart token t
    after_prepare-IsStart (err e) t = (refused t e).1

    pub start_named-IsStart : (s : Sys P C R) → NamedStart s (start_named env s)
    unfolding start_named ◌>>=◌ Steady
    start_named-IsStart s =
        let r = prepare_named env s in
        later-IsStart s (r.1) (after_prepare (r.0) (r.1)) (prepare_named-Steady env s)
          (after_prepare-IsStart (r.0) (r.1))
