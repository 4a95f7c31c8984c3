-- ===== src/Tunnel/Start.antt =====
-- The subprocesses (internal/tunnel/manager.go): their start, their output and their end.
use onmi_routers.Base.{
  ℕ, String, Bool, true, false, not, ◌&&◌, ◌||◌, Option, none, some, List, [], ◌∷◌, str_eq,
  if◌then◌else◌,
}
use Prim.Native.String.{◌++◌ as text_append}
use onmi_routers.Tunnel.{Config, Reply, Env, Sys, M, ok, err, guard, ◌>>=◌, ◌>>◌, RingBuffer}
use onmi_routers.Tunnel.Ring
use onmi_routers.Tunnel.Stored.{load_config, save_config}
use onmi_routers.Tunnel.Named.{upstream_of, check_binary, prepare_named}

abbrev pub is_none : Option ℕ → Bool
is_none none = true
is_none (some p) = false

-- The arguments of the quick tunnel's process.
pub quick_args : String → List String
quick_args upstream =
    "tunnel" ∷ "--no-autoupdate" ∷ "--url" ∷ upstream ∷ "--metrics" ∷ "127.0.0.1:0" ∷ []

pub named_args : String → List String
named_args token = "tunnel" ∷ "--no-autoupdate" ∷ "run" ∷ "--token" ∷ token ∷ []

module _ {P C R T : Type 0} (env : Env P C R T) where
  -- After the start of the process.
  unfoldable pub quick_started : Reply ℕ × P → M (Sys P C R) (Unit {0})
  quick_started (err e, p) s = (err (text_append "exec: " e), record s { processes = p })
  quick_started (ok pid, p) s = (
    ok tt,
    record s {
      processes = p;
      manager = record (s.manager) {
        quick_cmd = some pid;
        quick_log = Ring.reset s.manager.quick_log;
        quick_url = "";
      };
    },
  )

  -- The part under the lock: a process in place of none.
  unfoldable pub exec_quick : M (Sys P C R) (Unit {0})
  unfolding quick_args upstream_of quick_started
  exec_quick s =
      let m = s.manager in
      quick_started (env.exec m.cloudflared_path (quick_args (upstream_of m s.cfg)) s.processes) s

  unfoldable pub start_quick : M (Sys P C R) (Unit {0})
  unfolding check_binary exec_quick
  start_quick = do
    (λ s. guard (not (str_eq s.manager.cloudflared_path "")) "cloudflared binary path not set" s)
    check_binary env
    (λ s. guard (is_none s.manager.quick_cmd) "quick tunnel already running" s)
    exec_quick

  unfoldable pub named_started : Reply ℕ × P → M (Sys P C R) (Unit {0})
  named_started (err e, p) s = (err (text_append "exec: " e), record s { processes = p })
  named_started (ok pid, p) s = (
    ok tt,
    record s {
      processes = p;
      manager = record (s.manager) {
        named_cmd = some pid;
        named_log = Ring.reset s.manager.named_log;
      };
    },
  )

  unfoldable pub exec_named : String → M (Sys P C R) (Unit {0})
  unfolding named_args named_started
  exec_named token s =
      named_started (env.exec s.manager.cloudflared_path (named_args token) s.processes) s

  -- The part under the lock.
  unfoldable pub run_named : String → M (Sys P C R) (Unit {0})
  unfolding exec_named
  run_named token = do
    (λ s. guard (is_none s.manager.named_cmd) "named tunnel already running" s)
    exec_named token

  unfoldable pub start_named : M (Sys P C R) (Unit {0})
  unfolding prepare_named run_named
  start_named = do token ← prepare_named env; run_named token

  unfoldable pub kill_gracefully : Option ℕ → P → P
  kill_gracefully none p = p
  kill_gracefully (some pid) p =
      if env.exited pid p
      then p
      else (let (done, p') = env.wait pid (env.interrupt pid p) in
          if done then p' else env.kill pid p')

  unfoldable pub stop_all : Sys P C R → Sys P C R
  unfolding kill_gracefully
  stop_all s =
      let m = s.manager in
      record s {
        manager = record m { quick_cmd = none; named_cmd = none; quick_url = "" };
        processes = kill_gracefully m.named_cmd (kill_gracefully m.quick_cmd s.processes);
      }

  -- The address is kept, and stored where the configuration can be read.
  unfoldable pub captured : ℕ → String → Reply Config → Sys P C R → Sys P C R
  unfolding save_config
  captured now url (err e) s = record s { manager = record (s.manager) { quick_url = url } }
  captured now url (ok cfg) s = record s {
    manager = record (s.manager) { quick_url = url };
    stored = (save_config env now s.manager (record cfg { quick_url = url }) s.stored).1;
  }

  -- The goroutine that waits for the address of the quick tunnel, when it has come.
  unfoldable pub capture_url : ℕ → String → Sys P C R → Sys P C R
  unfolding load_config captured
  capture_url now url s = captured now url (load_config env s.manager s.stored) s

-- The loop of `consume`: the lines go to the ring, and the first address that the channel, of one
-- place, has room for is sent. `find_url` is `quickURLRe.FindString`.
pub consume :
    (String → String) → List String → Bool → RingBuffer × Option String → RingBuffer × Option String
consume find_url [] sent (ring, channel) = (ring, channel)
consume find_url (line ∷ lines) sent (ring, none) =
    let found = not sent && not (str_eq (find_url line) "") in
    consume find_url lines (sent || found)
      (Ring.add line ring, if found then some (find_url line) else none)
consume find_url (line ∷ lines) sent (ring, some url) =
    consume find_url lines sent (Ring.add line ring, some url)
