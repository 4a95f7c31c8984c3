-- ===== src/Tunnel/Tests.antt =====
-- Examples of the tunnel (internal/tunnel/manager.go, internal/handlers/tunnels.go).
use onmi_routers.Base.{
  ℕ, ◌+◌, ◌≡◌, refl, ap, inl, String, Bool, true, false, not, ◌&&◌, ◌||◌, Option, none, some, List,
  [], ◌∷◌, ◌++◌, map, arith, ◌==◌,
}
use onmi_routers.Tunnel.{
  Config, Env, Sys, ok, wrap, pure, guard, ◌>>=◌, mode_named, zero_config, Status, is_valid,
  mode_of,
}
use onmi_routers.Tunnel.Ring.{new_manager, new_ring_buffer, reset, snapshot, trim_line}
use onmi_routers.Tunnel.Logs.{adds, last_of, snapshot-adds}
use onmi_routers.Tunnel.Named.{api, need_id}
use onmi_routers.Base.Text.{trim_space}
use onmi_routers.Tunnel.Start.{start_named}
use onmi_routers.Tunnel.Stored.{load_config, decoded}
use onmi_routers.Tunnel.Calls.{status, status_of, enable, disable, restart, auto_start, shutdown}
use onmi_routers.Tunnel.Handlers.{
  Response, shown, TunnelEnableInput, handle_enable, handle_disable, requested_mode,
}
use onmi_routers.Tunnel.Processes.{IsOs}
use onmi_routers.Tunnel.Running.{IsOwned, IsClear, Runs}
use onmi_routers.Tunnel.Histories.{
  step, posts_enable, posts_disable, posts_restart, boots, captures, exits,
}
use onmi_routers.Tunnel.Overlaps.{
  outside, Move, whole, takes, kills, prepares, starts_named, saves, move, moves, moves-IsOwned,
}
use onmi_routers.Tunnel.Modes.{IsStore, IsStored, IsDisabled, enable_applies, disable_stays}
use onmi_routers.Tunnel.Stale.{address_stale}

snapshot-adds_example :
    snapshot (adds ("b" ∷ "c" ∷ "d" ∷ []) (reset (adds ("a" ∷ []) (new_ring_buffer 2))))
    ≡ last_of 2 (map trim_line ("b" ∷ "c" ∷ "d" ∷ []))
snapshot-adds_example = snapshot-adds 1 ("a" ∷ []) ("b" ∷ "c" ∷ "d" ∷ [])

-- The number of the next process, and the processes that are alive.
abbrev Table : Type 0
Table = ℕ × (ℕ → Bool)

abbrev end : ℕ → Table → Table
end pid p = (p.0, λ q. not (pid == q) && p.1 q)

abbrev alive : ℕ → Table → Bool
alive q p = p.1 q

-- A machine on which every process starts and stops as asked, an account where every call succeeds,
-- and a Redis that holds one configuration.
abbrev host : Env Table (Unit {0}) (Option Config) Config
host = record {
  stat = λ path p. none;
  exec = λ path args p. (ok (p.0), (p.0 + 1, λ q. p.0 == q || p.1 q));
  exited = λ pid p. not (p.1 pid);
  interrupt = λ pid p. p;
  wait = λ pid p. (true, end pid p);
  kill = end;
  get = λ k r. ok r;
  set = λ k v r. (ok tt, some v);
  marshal = λ c. c;
  unmarshal = some;
  token_get = λ t a id c. (ok (some "token"), c);
  tunnel_new = λ t a n c. (ok (some "id"), c);
  ingress_update = λ t a id rules c. (ok tt, c);
  dns_list = λ t z n c. (ok [], c);
  dns_update = λ t z id n v c. (ok tt, c);
  dns_new = λ t z n v c. (ok tt, c);
}

host-IsOs : IsOs host alive
host-IsOs = record {
  exited_dead = λ pid p h. ground arith;
  exec_adds = λ path args p pid q h k. ground arith;
  exec_fails = λ path args p e q h k. absurd (ground arith);
  interrupt_adds = λ pid q p h. h;
  wait_adds = λ pid q p h. ground arith;
  waited = λ pid p h. ground arith;
  kill_adds = λ pid q p h. ground arith;
  killed = λ pid p. ground arith;
}

host-IsStore : IsStore host
host-IsStore = record { unmarshal-marshal = λ c. refl; get-set = λ k v r h. refl }

-- A gateway with nothing running, and what is stored.
abbrev gateway : Config → Sys Table (Unit {0}) (Option Config)
gateway c = record {
  manager = new_manager true "/usr/local/bin/cloudflared" "http://127.0.0.1:8080";
  cfg = zero_config;
  processes = (1, λ q. false);
  cloud = tt;
  stored = some c;
}

abbrev named_config : Config
named_config = record zero_config {
  mode = mode_named;
  cloudflare_api_token = "secret";
  cloudflare_account_id = "account";
  cloudflare_zone_id = "zone";
  tunnel_domain = "ai.example.com";
  quick_url = "https://old.trycloudflare.com";
}

abbrev named_input : TunnelEnableInput
named_input = record {
  mode = "named";
  cloudflare_api_token = "";
  cloudflare_account_id = "";
  cloudflare_zone_id = "";
  tunnel_domain = "";
}

abbrev same_text : String → String
same_text s = s

-- A gateway whose quick tunnel runs.
abbrev busy : Sys Table (Unit {0}) (Option Config)
busy =
    let idle = gateway named_config in
    record idle {
      manager = record (idle.manager) { quick_cmd = some 1 };
      processes = (2, λ q. 1 == q);
    }

busy-IsOwned : IsOwned host alive busy
busy-IsOwned q h = inl (ap some (ground (arith, h)))

-- The quick tunnel runs, and an enabling overlaps with a disabling.
abbrev overlapping : List Move
overlapping =
    takes
    ∷ prepares named_config
    ∷ whole (posts_disable 1)
    ∷ starts_named "token"
    ∷ kills 1
    ∷ saves 2 named_config
    ∷ []

abbrev overtaken : Sys Table (Unit {0}) (Option Config) × List ℕ
overtaken = moves host end same_text overlapping (busy, [])

-- The process that was started behind the disabling runs on.
overtaken_alive :
    (alive 2 (overtaken.0.processes) ≡ true) × (overtaken.0.manager.named_cmd ≡ some 2)
unfolding moves move step onmi_routers.Tunnel.Calls.save onmi_routers.Tunnel.Start.kill_gracefully
    onmi_routers.Tunnel.Start.run_named ◌>>=◌ guard handle_disable
    onmi_routers.Tunnel.Named.prepare_named wrap api need_id pure new_manager decoded
overtaken_alive = (refl, refl)

abbrev traffic : List Move
traffic =
    whole (posts_enable 1 (some named_input))
    ∷ whole (captures 2 "https://a.trycloudflare.com")
    ∷ takes
    ∷ whole (posts_restart 3)
    ∷ kills 2
    ∷ whole (exits 1)
    ∷ whole (boots 4)
    ∷ []

-- Three named processes are started on the way, and the last of them is alive.
traffic-alive : alive 4 ((moves host end same_text traffic (busy, [])).0.processes) ≡ true
unfolding moves move step auto_start onmi_routers.Tunnel.Handlers.handle_restart
    onmi_routers.Tunnel.Start.capture_url handle_enable trim_space new_manager decoded ◌>>=◌ wrap
    start_named guard api need_id pure
traffic-alive = refl

moves-IsOwned_example :
    let (t, ending) = moves host end same_text (traffic ++ overlapping) (busy, []) in
    IsOwned host (outside alive ending) t
    × IsClear host (outside alive ending) ((handle_disable host 5 t).1.processes)
    × IsClear host (outside alive ending) ((shutdown host t).processes)
moves-IsOwned_example =
    moves-IsOwned host alive host-IsOs end (λ pid q p h. ground arith) same_text
      (traffic ++ overlapping) busy [] 5 (λ q h. inl (ap some (ground (arith, h))))

enabled_named : (enable host 7 named_config busy).0 ≡ ok tt
unfolding enable ◌>>=◌ wrap guard pure api new_manager start_named need_id
enabled_named = refl

-- The quick tunnel has ended and the named one runs.
enabled_alive :
    let p = (enable host 7 named_config busy).1.processes in
    (alive 1 p ≡ false) × (alive 2 p ≡ true)
unfolding enable ◌>>=◌ wrap guard pure api new_manager start_named need_id
enabled_alive = (refl, refl)

enable_applies_example :
    let t = (enable host 7 named_config busy).1 in
    Runs mode_named t.manager
    × IsOwned host alive t
    × ((c : Config) × (load_config host t.manager t.stored ≡ ok c) × IsStored 7 named_config c)
enable_applies_example =
    enable_applies host host-IsOs host-IsStore 7 named_config busy busy-IsOwned enabled_named

disabled_named : (disable host 8 (gateway named_config)).0 ≡ ok tt
unfolding disable new_manager decoded
disabled_named = refl

loaded_named :
    load_config host (gateway named_config).manager (gateway named_config).stored ≡ ok named_config
unfolding load_config new_manager is_valid decoded
loaded_named = refl

disable_stays_example :
    let t = (disable host 8 (gateway named_config)).1 in
    (t.manager.quick_cmd ≡ none)
    × (t.manager.named_cmd ≡ none)
    × ((c : Config) × (load_config host t.manager t.stored ≡ ok c) × IsDisabled named_config c)
    × (restart host 9 t ≡ (ok tt, t))
    × (auto_start host 9 t ≡ t)
disable_stays_example =
    disable_stays host host-IsOs host-IsStore 8 9 (gateway named_config) named_config loaded_named
      disabled_named

abbrev posted : Response × Sys Table (Unit {0}) (Option Config)
posted = handle_enable host same_text 7 (some named_input) (gateway named_config)

posted_mode : requested_mode same_text named_input ≡ mode_named
unfolding requested_mode mode_of trim_space
posted_mode = refl

abbrev shown_status : Response → Option Status
shown_status (shown o) = o
shown_status r = none

posted_shown : posted.0 ≡ shown (shown_status (posted.0))
unfolding handle_enable ◌>>=◌ wrap guard pure api new_manager requested_mode mode_of start_named
    need_id decoded status status_of trim_space
posted_shown = refl

address_stale_example :
    (st : Status) × (shown_status (posted.0) ≡ some st)
    × (st.mode ≡ mode_named)
    × (st.quick_running ≡ false)
    × (st.quick_url ≡ "https://old.trycloudflare.com")
address_stale_example =
    address_stale host host-IsOs host-IsStore same_text 7 named_input (gateway named_config)
      named_config (shown_status (posted.0)) posted_mode loaded_named posted_shown
