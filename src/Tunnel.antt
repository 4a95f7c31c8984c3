-- ===== src/Tunnel.antt =====
-- internal/tunnel/manager.go and internal/handlers/tunnels.go: the Cloudflare tunnel. This file has the
-- data; the children have the log ring, the stored configuration, the control plane of a named tunnel,
-- the subprocesses, the calls of the manager and the handlers. A process is its number.
pub mod Ring
pub mod Stored
pub mod Named
pub mod Start
pub mod Calls
pub mod Handlers
pub mod Slots
pub mod Logs
pub mod Steady
pub mod Processes
pub mod Running
pub mod Histories
pub mod Overlaps
pub mod Modes
pub mod Stale
mod Tests
use onmi_routers.Base.{
  ℕ, zero, suc, ◌+◌, ◌-◌, ◌*◌, ◌/◌, ◌%◌, ◌≤◌, ◌<◌, ◌≡◌, refl, sym, ap, ◌∙◌, ◌≢◌, ◌⊎◌, inl, inr,
  String, Bool, true, false, not, ◌&&◌, ◌||◌, Option, none, some, List, [], ◌∷◌, ◌++◌, map, arith,
  eq_iff, eq_refl, ltb, leb, ◌==◌, str_eq, if◌then◌else◌, Bool-cases, Option-cases, length,
  get_elem?, drop, keep, All, All-append, contains,
}
use Prim.Native.String.{◌++◌ as text_append}

-- `unknown` is a text that is none of the four modes.
pub data Mode : Type 0 where
  mode_none mode_quick mode_named mode_hybrid : Mode
  unknown : String → Mode

pub is_valid : Mode → Bool
is_valid mode_none = true
is_valid mode_quick = true
is_valid mode_named = true
is_valid mode_hybrid = true
is_valid (unknown t) = false

-- `Mode(t)` of the source.
unfoldable pub mode_of : String → Mode
mode_of t =
    if str_eq t "none"
    then mode_none
    else if str_eq t "quick"
    then mode_quick
    else if str_eq t "named"
    then mode_named
    else if str_eq t "hybrid"
    then mode_hybrid
    else unknown t

abbrev pub tunnel_name : String
tunnel_name = "foxrouters"

abbrev pub redis_config_key : String
redis_config_key = "fr:tunnel:config"

abbrev pub log_ring_size : ℕ
log_ring_size = 400

pub record Config : Type 0 where
  pub mode : Mode
  pub cloudflare_api_token : String
  pub cloudflare_account_id : String
  pub cloudflare_zone_id : String
  pub tunnel_domain : String
  pub tunnel_id : String
  pub tunnel_token : String
  pub quick_url : String
  pub upstream_url : String
  pub updated_at : ℕ

-- `&Config{Mode: ModeNone}`
abbrev pub zero_config : Config
zero_config = record {
  mode = mode_none;
  cloudflare_api_token = "";
  cloudflare_account_id = "";
  cloudflare_zone_id = "";
  tunnel_domain = "";
  tunnel_id = "";
  tunnel_token = "";
  quick_url = "";
  upstream_url = "";
  updated_at = 0;
}

pub record Status : Type 0 where
  pub mode : Mode
  pub quick_running : Bool
  pub named_running : Bool
  pub quick_url : String
  pub tunnel_domain : String
  pub tunnel_id : String
  pub upstream_url : String
  pub has_api_token : Bool
  pub has_account : Bool
  pub has_zone : Bool
  pub updated_at : ℕ
  pub logs : List String

-- `start` is the field `start` of the source, an index.
pub record RingBuffer : Type 0 where
  pub buf : List String
  pub size : ℕ
  pub start : ℕ
  pub count : ℕ

-- `redis` is whether the client is not nil.
pub record Manager : Type 0 where
  pub redis : Bool
  pub cloudflared_path : String
  pub upstream_url : String
  pub quick_cmd : Option ℕ
  pub quick_log : RingBuffer
  pub quick_url : String
  pub named_cmd : Option ℕ
  pub named_log : RingBuffer

-- A result with an error.
pub data Reply (A : Type 0) : Type 0 where
  ok : A → Reply A
  err : String → Reply A

-- What the manager calls: processes `P`, the account at Cloudflare `C`, Redis `R`,
-- whose values are JSON texts `T`.
pub record Env (P C R T : Type 0) : Type 0 where
  -- os.Stat of a path: its error.
  pub stat : String → P → Option String
  -- exec.Command with both pipes, and Start.
  pub exec : String → List String → P → Reply ℕ × P
  -- ProcessState is set.
  pub exited : ℕ → P → Bool
  -- Signal(os.Interrupt)
  pub interrupt : ℕ → P → P
  -- Whether Process.Wait returns within five seconds.
  pub wait : ℕ → P → Bool × P
  -- Process.Kill, and Process.Wait without a limit.
  pub kill : ℕ → P → P
  -- The value of a key, none for redis.Nil.
  pub get : String → R → Reply (Option T)
  pub set : String → T → R → Reply (Unit {0}) × R
  pub marshal : Config → T
  pub unmarshal : T → Option Config
  -- Tunnels.Cloudflared.Token.Get, by API token, account and tunnel; none is a nil pointer.
  pub token_get : String → String → String → C → Reply (Option String) × C
  -- Tunnels.Cloudflared.New, by API token, account and name: the ID, or none for nil.
  pub tunnel_new : String → String → String → C → Reply (Option String) × C
  -- Configurations.Update, by API token, account and tunnel, to host names and their services.
  pub ingress_update : String → String → String → List (String × String) → C → Reply (Unit {0}) × C
  -- DNS.Records: the IDs of a zone's records of a name; a record of name and content is updated or made.
  pub dns_list : String → String → String → C → Reply (List String) × C
  pub dns_update : String → String → String → String → String → C → Reply (Unit {0}) × C
  pub dns_new : String → String → String → String → C → Reply (Unit {0}) × C

-- What a call of the manager sees: the configuration is the one it was given, behind a pointer.
pub record Sys (P C R : Type 0) : Type 0 where
  pub manager : Manager
  pub cfg : Config
  pub processes : P
  pub cloud : C
  pub stored : R

-- A call with an error; what was changed before an error stays changed.
abbrev pub M : Type 0 → Type 0 → Type 0
M S A = S → Reply A × S

infixl 5 ◌>>=◌ ◌>>◌
unfoldable pub ◌>>=◌ : {S A B : Type 0} → M S A → (A → M S B) → M S B
◌>>=◌ m f s = let next = m s in elim (next.0) [ ok a ↦ f a next.1 | err e ↦ (err e, next.1) ]

abbrev pub ◌>>◌ : {S B : Type 0} → M S (Unit {0}) → M S B → M S B
m >> k = m >>= λ _. k

unfoldable pub pure : {S A : Type 0} → A → M S A
pure a s = (ok a, s)

unfoldable pub guard : {S : Type 0} → Bool → String → M S (Unit {0})
guard b e s = (if b then ok tt else err e, s)

-- fmt.Errorf("text: %w", err)
abbrev pub prefixed : {A : Type 0} → String → Reply A → Reply A
prefixed t (ok a) = ok a
prefixed t (err e) = err (text_append t e)

unfoldable pub wrap : {S A : Type 0} → String → M S A → M S A
wrap t m s = let next = m s in (prefixed t next.0, next.1)
