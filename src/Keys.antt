-- ===== src/Keys.antt =====
-- internal/auth/auth.go: the gateway's API keys. A time is a number; the usage counters do not reach
-- 2^63. A method is one step, and returns the calls of the store that it makes; without a store there
-- are none. A slice that is nil is `none` where the source tells it from an empty one.
pub mod Glob
pub mod Middleware
pub mod Access
pub mod Quota
mod Tests
use Prim.Native.Char.{code}
use Prim.Native.String.{len, slice, ◌++◌ as text_append}
use text.Mathlib.Text.{find?, starts_with}
use onmi_routers.Base.Int.{ℤ, pos, negsuc}
use onmi_routers.Base.Assoc.{lookup, insert, erase}
use onmi_routers.Base.{
  ◌==◌, ℕ, zero, suc, ◌+◌, ◌-◌, ◌*◌, ◌/◌, ◌%◌, ◌≤◌, ◌<◌, ◌≡◌, refl, sym, ap, ◌∙◌, ◌≢◌, ◌⊎◌, inl,
  inr, String, Bool, true, false, not, ◌&&◌, ◌||◌, Option, none, some, List, [], ◌∷◌, ◌++◌, map,
  arith, eq_iff, eq_refl, ltb, leb, ◌==◌, str_eq, if◌then◌else◌, Bool-cases, Option-cases, length,
  get_elem?, drop, keep, All, All-append, contains,
}

pub record GatewayKeyInfo : Type 0 where
  pub key : String
  pub key_masked : String
  pub name : String
  pub role : String
  pub allowed_models : List String
  pub rpm : ℤ
  pub burst : ℤ
  pub token_quota : ℤ
  pub tokens_used : ℕ
  pub requests : ℕ
  pub created_at : ℕ
  pub disabled : Bool

pub data StoreCall : Type 0 where
  saves : GatewayKeyInfo → StoreCall
  deletes : String → StoreCall
  adds_tokens : String → ℕ → StoreCall
  adds_request : String → StoreCall

-- `stored` says whether there is a store.
pub record Manager : Type 0 where
  pub keys : List (String × GatewayKeyInfo)
  pub stored : Bool

abbrev pub calls : Manager → List StoreCall → List StoreCall
calls am cs = if am.stored then cs else []

abbrev pub role_admin : String
role_admin = "admin"

abbrev pub role_inference : String
role_inference = "inference"

abbrev pub mask_key : String → String
mask_key key =
    if ltb 12 (len key)
    then text_append (slice key 0 8) (text_append "..." (slice key (len key - 4) (len key)))
    else key

-- The pattern without a last "*", where it has one.
pub star_prefix : String → Option String
star_prefix String.[] = none
star_prefix (String.◌∷◌ c String.[]) = if code c == 42 then some String.[] else none
star_prefix (String.◌∷◌ c (String.◌∷◌ d s)) = elim (star_prefix (String.◌∷◌ d s)) [
  | none ↦ none
  | some before ↦ some (String.◌∷◌ c before)
]

-- The branch of the source for "/*" comes after this test and is never reached.
unfoldable pub match_model : String → String → Bool
unfolding star_prefix
match_model pattern model =
    str_eq pattern model
    || elim (star_prefix pattern) [ none ↦ false | some before ↦ starts_with model before ]

pub any_match : String → List String → Bool
any_match model [] = false
any_match model (p ∷ ps) = match_model p model || any_match model ps

unfoldable pub is_model_allowed : List String → String → Bool
unfolding any_match
is_model_allowed allowed model = leb (length allowed) 0 || any_match model allowed

pub valid : String → Manager → Bool
valid key am = elim (lookup key am.keys) [ none ↦ false | some info ↦ not info.disabled ]

unfoldable pub get : String → Manager → Option GatewayKeyInfo
get key am = lookup key am.keys

pub lookup_key : String → Manager → Option (ℤ × ℤ)
lookup_key key am = elim (lookup key am.keys) [ none ↦ none | some i ↦ some (i.rpm, i.burst) ]

pub count_admins : List (String × GatewayKeyInfo) → ℕ
count_admins [] = 0
count_admins ((k, i) ∷ ks) =
    let rest = count_admins ks in
    if str_eq i.role role_admin && not i.disabled then rest + 1 else rest

-- What a caller gives for a new key or an update.
pub record KeyFields : Type 0 where
  pub name : String
  pub role : String
  pub allowed_models : Option (List String)
  pub rpm : ℤ
  pub burst : ℤ
  pub token_quota : ℤ

abbrev or_empty : Option (List String) → List String
or_empty none = []
or_empty (some l) = l

pub new_key : String → KeyFields → ℕ → GatewayKeyInfo
new_key key f now = record {
  key = key;
  key_masked = mask_key key;
  name = f.name;
  role = if str_eq f.role "" then role_inference else f.role;
  allowed_models = or_empty f.allowed_models;
  rpm = f.rpm;
  burst = f.burst;
  token_quota = f.token_quota;
  tokens_used = 0;
  requests = 0;
  created_at = now;
  disabled = false;
}

pub add_with_role : String → KeyFields → ℕ → Manager → Manager × List StoreCall
unfolding new_key
add_with_role key f now am =
    let info = new_key key f now in
    (record am { keys = insert key info am.keys }, calls am (saves info ∷ []))

pub remove : String → Manager → Manager × List StoreCall
remove key am = (record am { keys = erase key am.keys }, calls am (deletes key ∷ []))

abbrev from_zero : ℤ → ℤ → ℤ
from_zero old (pos n) = pos n
from_zero old (negsuc n) = old

abbrev given {ℓ} : {A : Type ℓ} → A → Option A → A
given old none = old
given old (some new) = new

pub updated : KeyFields → Option Bool → GatewayKeyInfo → GatewayKeyInfo
updated f disabled i = record i {
  name = if str_eq f.name "" then i.name else f.name;
  role = if str_eq f.role role_admin || str_eq f.role role_inference then f.role else i.role;
  allowed_models = given i.allowed_models f.allowed_models;
  rpm = from_zero i.rpm f.rpm;
  burst = from_zero i.burst f.burst;
  token_quota = from_zero i.token_quota f.token_quota;
  disabled = given i.disabled disabled;
  key_masked = mask_key i.key;
}

pub update : String → KeyFields → Option Bool → Manager → Manager × Bool × List StoreCall
unfolding updated
update key f disabled am = elim (lookup key am.keys) [
  | none ↦ (am, false, [])
  | some i ↦
      let i' = updated f disabled i in
      (record am { keys = insert key i' am.keys }, true, calls am (saves i' ∷ []))
]

abbrev is_over : ℤ → ℕ → Bool
is_over (pos q) used = ltb 0 q && leb q used
is_over (negsuc q) used = false

pub use_tokens : ℕ → GatewayKeyInfo → GatewayKeyInfo
use_tokens amount i =
    let used = i.tokens_used + amount in
    record i {
      tokens_used = used;
      requests = i.requests + 1;
      disabled = if is_over i.token_quota used then true else i.disabled;
    }

pub increment_tokens : String → ℕ → Manager → Manager × List StoreCall
unfolding use_tokens
increment_tokens key amount am = elim (lookup key am.keys) [
  | none ↦ (am, [])
  | some i ↦
      let i' = use_tokens amount i in
      let counts = adds_tokens key amount ∷ adds_request key ∷ [] in
      (
        record am { keys = insert key i' am.keys },
        calls am (if i'.disabled then counts ++ (saves i' ∷ []) else counts),
      )
]

pub increment_requests : String → Manager → Manager × List StoreCall
increment_requests key am = elim (lookup key am.keys) [
  | none ↦ (am, [])
  | some i ↦ (
    record am { keys = insert key (record i { requests = i.requests + 1 }) am.keys },
    calls am (adds_request key ∷ []),
  )
]

-- The first key of the list that is shown so; the source takes the keys in no certain order.
by_mask : String → List (String × GatewayKeyInfo) → Option String
by_mask shown [] = none
by_mask shown ((k, i) ∷ ks) =
    if str_eq i.key_masked shown || str_eq (mask_key k) shown then some k else by_mask shown ks

pub resolve_key : String → Manager → Option String
unfolding by_mask
resolve_key shown am = elim (lookup shown am.keys) [
  | some i ↦ some shown
  | none ↦ by_mask shown am.keys
]
