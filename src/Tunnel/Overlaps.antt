-- ===== src/Tunnel/Overlaps.antt =====
-- Calls of the tunnel that overlap (internal/tunnel/manager.go): `Enable` and the calls that end in it
-- hold the lock only while the processes are taken away or one is put in place, and others may come in
-- between.
use onmi_routers.Base.{
  ℕ, ◌≡◌, refl, sym, ap, ◌∙◌, ◌≢◌, ◌⊎◌, inl, inr, String, Bool, true, false, not, ◌&&◌, ◌||◌,
  Option, none, some, List, [], ◌∷◌, ◌++◌, arith, ◌==◌,
}
use mathlib.Core.Path.{subst}
use mathlib.Core.Option.{some-injective}
use onmi_routers.Tunnel.{Config, Env, Sys, Manager}
use onmi_routers.Tunnel.Named.{prepare_named}
use onmi_routers.Tunnel.Start.{start_quick, run_named, kill_gracefully}
use onmi_routers.Tunnel.Calls.{save, shutdown}
use onmi_routers.Tunnel.Handlers.{handle_disable}
use onmi_routers.Tunnel.Steady.{prepare_named-Steady, Steady, Same}
use onmi_routers.Tunnel.Processes.{IsOs, run_named-IsStart}
use onmi_routers.Tunnel.Running.{
  IsClear, IsOwned, kill_gracefully-Ends, start_quick-IsOwned, NamedStart-Owned,
}
use onmi_routers.Tunnel.Histories.{Call, step, step-Owned, ended-IsClear}

-- A whole call, or a part of one that others overlap: `takes` is the part of stopAll under the lock,
-- `kills` the end of a process that it took, and the others are what `Enable` does then, with the
-- configuration that it was given.
pub data Move : Type 0 where
  whole : Call → Move
  takes : Move
  kills : ℕ → Move
  starts_quick : Config → Move
  prepares : Config → Move
  starts_named : String → Move
  saves : ℕ → Config → Move

abbrev pub pids : Option ℕ → List ℕ
pids none = []
pids (some pid) = pid ∷ []

abbrev pub is_in : ℕ → List ℕ → Bool
is_in q [] = false
is_in q (pid ∷ ps) = pid == q || is_in q ps

-- A process that is alive and that no stop has taken.
abbrev pub outside {ℓ} : {P : Type ℓ} → (ℕ → P → Bool) → List ℕ → ℕ → P → Bool
outside alive taken q p = alive q p && not (is_in q taken)

module _ {P C R T : Type 0} (env : Env P C R T) (exit : ℕ → P → P)
    (to_lower : String → String) where
  -- The state, and the processes that stops have taken.
  unfoldable pub move : Move → Sys P C R × List ℕ → Sys P C R × List ℕ
  unfolding step
  move (whole c) (s, taken) = (step env exit to_lower c s, taken)
  move takes (s, taken) = (
    record s {
      manager = record (s.manager) { quick_cmd = none; named_cmd = none; quick_url = "" };
    },
    pids s.manager.quick_cmd ++ (pids s.manager.named_cmd ++ taken),
  )
  move (kills pid) (s, taken) =
      (record s { processes = kill_gracefully env (some pid) s.processes }, taken)
  move (starts_quick cfg) (s, taken) = ((start_quick env (record s { cfg = cfg })).1, taken)
  move (prepares cfg) (s, taken) = ((prepare_named env (record s { cfg = cfg })).1, taken)
  move (starts_named token) (s, taken) = ((run_named env token s).1, taken)
  move (saves now cfg) (s, taken) = ((save env now (record s { cfg = cfg })).1, taken)

  unfoldable pub moves : List Move → Sys P C R × List ℕ → Sys P C R × List ℕ
  unfolding move
  moves [] x = x
  moves (m ∷ ms) x = moves ms (move m x)

module _ {P C R T : Type 0} (env : Env P C R T) (alive : ℕ → P → Bool) (os : IsOs env alive) where
  both_true : (a b : Bool) → (a && b) ≡ true → (a ≡ true) × (b ≡ true)
  both_true true true h = (refl, refl)
  both_true true false h = cc
  both_true false b h = cc

  and_true : (a b : Bool) → a ≡ true → b ≡ true → (a && b) ≡ true
  and_true true true f g = refl
  and_true true false f g = cc
  and_true false b f g = cc

  still_in : (a a' b : Bool) → (a' ≡ true → a ≡ true) → (a' && b) ≡ true → (a && b) ≡ true
  still_in a true b f h = rw (f refl) h
  still_in a false b f h = cc

  not_in : (a b : Bool) → a ≡ false → (a && b) ≡ false
  not_in a b h = rw h refl

  -- The machine, with the taken processes out of sight.
  outside-IsOs : (taken : List ℕ) → IsOs env (outside alive taken)
  outside-IsOs taken = record {
    exited_dead = λ pid p h. not_in _ _ (os.exited_dead pid p h);
    exec_adds = λ path args p pid q h k.
        elim (os.exec_adds path args p pid q h
          (both_true (alive q (env.exec path args p).1) (not (is_in q taken)) k).0) [
            | inl same ↦ inl same
            | inr old ↦ inr (
                and_true (alive q p) (not (is_in q taken)) old
                  (both_true (alive q (env.exec path args p).1) (not (is_in q taken)) k).1)
          ];
    exec_fails = λ path args p e q h k. still_in _ _ _ (os.exec_fails path args p e q h) k;
    interrupt_adds = λ pid q p h. still_in _ _ _ (os.interrupt_adds pid q p) h;
    wait_adds = λ pid q p h. still_in _ _ _ (os.wait_adds pid q p) h;
    waited = λ pid p h. not_in _ _ (os.waited pid p h);
    kill_adds = λ pid q p h. still_in _ _ _ (os.kill_adds pid q p) h;
    killed = λ pid p. not_in _ _ (os.killed pid p);
  }

  is_in-append : (q : ℕ) (ps ts : List ℕ) → is_in q (ps ++ ts) ≡ (is_in q ps || is_in q ts)
  is_in-append q [] ts = refl
  is_in-append q (pid ∷ ps) ts = ground (arith, is_in-append q ps ts)

  not_or : (a b : Bool) → not (a || b) ≡ true → (a ≡ false) × (not b ≡ true)
  not_or true b h = cc
  not_or false b h = (refl, h)

  not_taken : (q : ℕ) (o : Option ℕ) → is_in q (pids o) ≡ false → o ≢ some q
  not_taken q none h = λ e. cc
  not_taken q (some pid) h =
      λ e. let same : pid ≡ q = some-injective pid q e in ground (arith, h, same)

  -- What the manager has is among the taken ones afterwards.
  takes-Owned :
      (s : Sys P C R) (taken : List ℕ)
      → IsOwned env (outside alive taken) s
      → IsOwned env
          (outside alive (pids s.manager.quick_cmd ++ (pids s.manager.named_cmd ++ taken)))
          (record s {
            manager = record (s.manager) { quick_cmd = none; named_cmd = none; quick_url = "" };
          })
  takes-Owned s taken owned q h =
      let m = s.manager in
      let ts = pids m.named_cmd ++ taken in
      let (on, free) = both_true (alive q s.processes) _ h in
      let (no_quick, rest) =
        not_or (is_in q (pids m.quick_cmd)) (is_in q ts)
          (ap not (sym (is_in-append q (pids m.quick_cmd) ts)) ∙ free) in
      let (no_named, still) =
        not_or (is_in q (pids m.named_cmd)) (is_in q taken)
          (ap not (sym (is_in-append q (pids m.named_cmd) taken)) ∙ rest) in
      absurd (elim (owned q (rw (on, still) refl)) [
        | inl e ↦ not_taken q m.quick_cmd no_quick e
        | inr e ↦ not_taken q m.named_cmd no_named e
      ])

  Same-Owned :
      (live : ℕ → P → Bool) (s t : Sys P C R) → Same s t → IsOwned env live s → IsOwned env live t
  Same-Owned live s t same owned q h =
      let was = owned q (subst (λ p. live q p ≡ true) same.processes h) in
      subst (λ (m : Manager). (m.quick_cmd ≡ some q) ⊎ (m.named_cmd ≡ some q)) (sym same.manager)
        was

  steady : (s : Sys P C R) → Same s (prepare_named env s).1
  unfolding Steady
  steady s = prepare_named-Steady env s

  module _ (exit : ℕ → P → P)
      (exit_adds : (pid q : ℕ) (p : P) → alive q (exit pid p) ≡ true → alive q p ≡ true)
      (to_lower : String → String) where
    outside_adds :
        (taken : List ℕ) (pid q : ℕ) (p : P)
        → outside alive taken q (exit pid p) ≡ true
        → outside alive taken q p ≡ true
    outside_adds taken pid q p h = still_in _ _ _ (exit_adds pid q p) h

    abbrev Owned : Sys P C R × List ℕ → Type 0
    Owned x = IsOwned env (outside alive x.1) x.0

    move-Owned :
        (m : Move) (s : Sys P C R) (taken : List ℕ)
        → Owned (s, taken)
        → Owned (move env exit to_lower m (s, taken))
    unfolding move save
    move-Owned (whole c) s taken o =
        step-Owned env (outside alive taken) exit (outside-IsOs taken) (outside_adds taken) to_lower
          c s o
    move-Owned takes s taken o = takes-Owned s taken o
    move-Owned (kills pid) s taken o = λ q h.
        o q
          (kill_gracefully-Ends env (outside alive taken) (outside-IsOs taken) (some pid) q
            s.processes h).0
    move-Owned (starts_quick cfg) s taken o =
        start_quick-IsOwned env (outside alive taken) (outside-IsOs taken) (record s { cfg = cfg })
          o
    move-Owned (prepares cfg) s taken o =
        Same-Owned (outside alive taken) (record s { cfg = cfg }) _
          (steady (record s { cfg = cfg })) o
    move-Owned (starts_named token) s taken o =
        NamedStart-Owned env (outside alive taken) (outside-IsOs taken) s (run_named env token s)
          (run_named-IsStart env (outside alive taken) (outside-IsOs taken) token s) o
    move-Owned (saves now cfg) s taken o = o

    moves-Owned :
        (ms : List Move) (x : Sys P C R × List ℕ) → Owned x → Owned (moves env exit to_lower ms x)
    unfolding moves
    moves-Owned [] x o = o
    moves-Owned (m ∷ ms) x o = moves-Owned ms (move env exit to_lower m x) (move-Owned m x.0 x.1 o)

    -- No subprocess is lost, also where calls overlap: where every subprocess that is alive is one that
    -- the manager has or one that a stop has taken to end it, this still holds after any requests to
    -- enable, disable and restart, starts at boot, shutdowns, addresses that come late and processes that
    -- end by themselves, with any parts of other calls in between, in any order and with any failures;
    -- and after one more disable, whatever it answers, or a shutdown, with which no other call overlaps,
    -- none is alive but those that earlier stops have taken.
    pub moves-IsOwned :
        (ms : List Move) (s : Sys P C R) (taken : List ℕ) (now : ℕ)
        → IsOwned env (outside alive taken) s
        → let (t, ending) = moves env exit to_lower ms (s, taken) in
          IsOwned env (outside alive ending) t
          × IsClear env (outside alive ending) ((handle_disable env now t).1.processes)
          × IsClear env (outside alive ending) ((shutdown env t).processes)
    moves-IsOwned ms s taken now o =
        let (t, ending) = moves env exit to_lower ms (s, taken) in
        let owned = moves-Owned ms (s, taken) o in
        let ends =
          ended-IsClear env (outside alive ending) exit (outside-IsOs ending) (outside_adds ending)
            to_lower t now owned in
        (owned, ends.0, ends.1)
