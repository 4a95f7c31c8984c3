-- ===== src/ProxyPool.antt =====
-- internal/proxy/pool.go: the pool of outgoing proxies. Its types, and how entries are validated.
-- A port is not negative; a time is a number. `strings.ToLower` is the argument `lower`.
pub mod Operations
pub mod Rotation
pub mod Validation
pub mod Consistency
pub mod Calls
pub mod Histories
pub mod Failures
mod Tests
use Prim.Native.String.{len}
use onmi_routers.Base.{
  ◌≡◌, refl, ◌⊎◌, inl, inr, ℕ, zero, ◌+◌, ◌-◌, ◌*◌, String, Bool, true, false, not, ◌&&◌, ◌||◌,
  List, [], ◌∷◌, ◌++◌, arith, ltb, leb, str_eq, if◌then◌else◌, length, contains,
}
use onmi_routers.Base.Text.{trim_space, contains_any}

pub record ProxyEntry : Type 0 where
  pub id : String
  pub protocol : String
  pub host : String
  pub port : ℕ
  pub username : String
  pub password : String
  pub enabled : Bool
  pub label : String
  pub upstreams : List String
  pub created_at : ℕ
  pub last_used_at : ℕ
  pub fail_count : ℕ

abbrev pub proxy_fail_threshold : ℕ
proxy_fail_threshold = 5

pub valid_upstream : String → Bool
valid_upstream u = str_eq u "all" || str_eq u "grok" || str_eq u "codebuddy"

any_upstream : String → List String → Bool
any_upstream upstream [] = false
any_upstream upstream (u ∷ us) = str_eq u "all" || str_eq u upstream || any_upstream upstream us

pub applies_to : ProxyEntry → String → Bool
unfolding any_upstream
applies_to e upstream = leb (length e.upstreams) 0 || any_upstream upstream e.upstreams

pub masked : ProxyEntry → ProxyEntry
masked e = if str_eq e.password "" then e else record e { password = "***" }

pub data Error : Type 0 where
  bad_upstream bad_protocol no_host long_host bad_host bad_port long_label long_credentials : Error
  no_id not_found no_random none_enabled store_failed no_transport : Error

pub data Result {ℓ} (A : Type ℓ) : Type ℓ where
  ok : A → Result A
  err : Error → Result A

pub Result-cases {ℓ} :
    {A : Type ℓ} (r : Result A) → ((e : Error) × (r ≡ err e)) ⊎ ((a : A) × (r ≡ ok a))
Result-cases (ok a) = inr (a, refl)
Result-cases (err e) = inl (e, refl)

module _ (lower : String → String) where
  -- The loop of `normaliseUpstreams`, with the values that are in `out` already.
  pub clean_upstreams : List String → List String → List String
  clean_upstreams out [] = out
  clean_upstreams out (s ∷ rest) =
      let v = lower (trim_space s) in
      clean_upstreams (if str_eq v "" || contains v out then out else out ++ v ∷ []) rest

  pub normalise_upstreams : List String → List String
  normalise_upstreams given =
      let out = clean_upstreams [] given in
      if leb (length out) 0 || contains "all" out then "all" ∷ [] else out

abbrev pub all_valid : List String → Bool
all_valid [] = true
all_valid (u ∷ us) = valid_upstream u && all_valid us

-- The space, tab, carriage return, line feed, slash and backslash.
abbrev pub structural : List ℕ
structural = 32 ∷ 9 ∷ 13 ∷ 10 ∷ 47 ∷ 92 ∷ []

pub check_fields : ProxyEntry → Result ProxyEntry
check_fields e =
    if not (all_valid e.upstreams)
    then err bad_upstream
    else if not (str_eq e.protocol "http" || str_eq e.protocol "socks5")
    then err bad_protocol
    else if str_eq e.host ""
    then err no_host
    else if ltb 253 (len e.host)
    then err long_host
    else if contains_any e.host structural
    then err bad_host
    else if ltb e.port 1 || ltb 65535 e.port
    then err bad_port
    else if ltb 64 (len e.label)
    then err long_label
    else if ltb 256 (len e.username) || ltb 256 (len e.password)
    then err long_credentials
    else ok e

pub normalised : (String → String) → ProxyEntry → ProxyEntry
normalised lower e = record e {
  protocol = lower (trim_space e.protocol);
  host = trim_space e.host;
  label = trim_space e.label;
  username = trim_space e.username;
  upstreams = normalise_upstreams lower e.upstreams;
}

-- The entry with its fields normalised, or the first fault found.
pub validate_entry : (String → String) → ProxyEntry → Result ProxyEntry
unfolding check_fields normalised
validate_entry lower e = check_fields (normalised lower e)
