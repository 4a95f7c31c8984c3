-- ===== src/CfPool.antt =====
-- internal/upstream/cloudflare.go: the pool of Cloudflare accounts (`CFKeyManager`).
-- A time is a number of nanoseconds and 0 is Go's zero time; a day is the text of its date. The
-- source's quotas are float64; here they are whole numbers of some unit, so rounding is not modelled,
-- and `unknown_quota` is what the source takes as remaining where no limit is known. A key is found
-- by its account's identifier, and each operation returns the calls of the store that it makes.
pub mod Choice
pub mod Cooldown
pub mod Accounts
pub mod Serve
pub mod Stored
mod Tests
use onmi_routers.Base.{
  rotate, ℕ, zero, ◌+◌, ◌-◌, ◌*◌, ◌%◌, refl, String, Bool, true, false, not, ◌&&◌, ◌||◌, Option,
  none, some, List, [], ◌∷◌, ◌++◌, map, arith, ltb, leb, str_eq, if◌then◌else◌, length, keep,
}
use Prim.Native.String.{◌++◌ as text_append, slice}
use onmi_routers.Base.Text.{trim_space}

pub record CfKey : Type 0 where
  pub account_id : String
  pub token : String
  pub disabled : Bool
  pub disabled_at : ℕ
  pub quota_limit : ℕ
  pub quota_used : ℕ
  pub quota_date : String
  pub total_reqs : ℕ

-- `stored` says whether the pool has a store.
pub record CfKeyManager : Type 0 where
  pub keys : List CfKey
  pub next : ℕ
  pub stored : Bool

pub data StoreCall : Type 0 where
  saves : CfKey → StoreCall
  deletes : String → StoreCall

pub new_cf_key_manager : Bool → CfKeyManager
new_cf_key_manager stored = record { keys = []; next = 0; stored = stored }

-- 1e9 of the source, and the cooldown of upstream.go.
abbrev pub unknown_quota : ℕ
unknown_quota = 1_000_000_000

abbrev pub cf_cooldown_duration : ℕ
cf_cooldown_duration = 10 * 60 * 1_000_000_000

pub save_call : CfKeyManager → CfKey → List StoreCall
save_call km k = if km.stored then saves k ∷ [] else []

pub delete_call : CfKeyManager → String → List StoreCall
delete_call km id = if km.stored then deletes id ∷ [] else []

pub quota_remaining : CfKey → ℕ
quota_remaining k = if leb k.quota_limit 0 then 0 else k.quota_limit - k.quota_used

-- A new day sets the estimate back.
pub new_day : String → CfKey → CfKey
new_day today k =
    if str_eq k.quota_date today then k else record k { quota_date = today; quota_used = 0 }

pub use_quota : String → ℕ → CfKey → CfKey
unfolding new_day
use_quota today amount k =
    let k' = new_day today k in
    record k' { quota_used = k'.quota_used + amount; total_reqs = k'.total_reqs + 1 }

pub replace : CfKey → List CfKey → List CfKey
replace k [] = []
replace k (j ∷ ks) = if str_eq j.account_id k.account_id then k ∷ ks else j ∷ replace k ks

-- `recordUsage` on the key that a request holds, given in its present state, which for a key of the
-- pool is the state that it has there. It is written to the store even where the pool no longer has
-- it.
pub record_usage : String → ℕ → CfKey → CfKeyManager → CfKeyManager × List StoreCall
unfolding use_quota replace save_call
record_usage today amount k km =
    let k' = use_quota today amount k in (record km { keys = replace k' km.keys }, save_call km k')

-- The remaining quota as `Next` counts it.
pub remaining : CfKey → ℕ
remaining k = if leb k.quota_limit 0 then unknown_quota else k.quota_limit - k.quota_used

-- `Next` sets back the estimates of the keys that are not disabled.
pub refresh : String → CfKey → CfKey
unfolding new_day
refresh today k = if k.disabled then k else new_day today k

pub usable : CfKey → Bool
unfolding remaining
usable k = not k.disabled && ltb 0 (remaining k)

-- The loop of `Next`, with the best key so far.
pub choose : Option CfKey → List CfKey → Option CfKey
unfolding usable remaining
choose best [] = best
choose none (k ∷ ks) = choose (if usable k then some k else none) ks
choose (some b) (k ∷ ks) =
    choose (some (if usable k && ltb (remaining b) (remaining k) then k else b)) ks

pub next_key : String → CfKeyManager → CfKeyManager × Option CfKey
unfolding choose refresh
next_key today km =
    let n = length km.keys in
    let ks = map (refresh today) km.keys in
    let best = choose none (rotate (km.next % n) ks) in
    if leb n 0 then (km, none) else (
      record km { keys = ks; next = elim best [ none ↦ km.next | some k ↦ (km.next + 1) % n ] },
      best,
    )

pub has_account : String → List CfKey → Bool
has_account id [] = false
has_account id (k ∷ ks) = str_eq k.account_id id || has_account id ks

pub new_key : String → String → CfKey
new_key id token = record {
  account_id = id;
  token = token;
  disabled = false;
  disabled_at = 0;
  quota_limit = 0;
  quota_used = 0;
  quota_date = "";
  total_reqs = 0;
}

-- The account's identifier; one that is not given is made of the token's first eight
-- bytes (which cut no character, where the token is ASCII).
abbrev pub account_of : String → String → String
account_of id token = if str_eq id "" then text_append "acct-" (slice token 0 8) else id

-- Whether the key was added, and how many there are.
pub add_key : String → String → CfKeyManager → CfKeyManager × (Bool × ℕ) × List StoreCall
unfolding has_account new_key save_call
add_key id token km =
    let token' = trim_space token in
    let id' = account_of (trim_space id) token' in
    let k = new_key id' token' in
    let n = length km.keys in
    if str_eq token' "" || has_account id' km.keys
    then (km, (false, n), [])
    else (record km { keys = km.keys ++ k ∷ [] }, (true, n + 1), save_call km k)

pub remove_first : String → List CfKey → List CfKey
remove_first id [] = []
remove_first id (k ∷ ks) = if str_eq k.account_id id then ks else k ∷ remove_first id ks

pub delete_key : String → CfKeyManager → CfKeyManager × Bool × List StoreCall
unfolding has_account remove_first delete_call
delete_key id km =
    if has_account id km.keys
    then (record km { keys = remove_first id km.keys }, true, delete_call km id)
    else (km, false, [])

-- Whether a temporary cooldown is over.
pub cooled : ℕ → CfKey → Bool
cooled now k = k.disabled && ltb 0 k.disabled_at && ltb cf_cooldown_duration (now - k.disabled_at)

pub reenable : ℕ → String → CfKey → CfKey
unfolding new_day cooled
reenable now today k = new_day today (if cooled now k then record k { disabled = false } else k)

pub save_changed : CfKeyManager → ℕ → String → List CfKey → List StoreCall
unfolding save_call reenable cooled
save_changed km now today [] = []
save_changed km now today (k ∷ ks) =
    let rest = save_changed km now today ks in
    if cooled now k || not (str_eq k.quota_date today)
    then save_call km (reenable now today k) ++ rest
    else rest

pub reenable_cooldowns : ℕ → String → CfKeyManager → CfKeyManager × List StoreCall
unfolding reenable save_changed
reenable_cooldowns now today km =
    (record km { keys = map (reenable now today) km.keys }, save_changed km now today km.keys)

pub is_permanent : CfKey → Bool
is_permanent k = k.disabled && leb k.disabled_at 0

pub delete_permanent : CfKeyManager → List CfKey → List StoreCall
unfolding is_permanent delete_call
delete_permanent km [] = []
delete_permanent km (k ∷ ks) =
    let rest = delete_permanent km ks in
    if is_permanent k then delete_call km k.account_id ++ rest else rest

-- The pool without the keys that are disabled for good, and how many they were.
pub cleanup_disabled : CfKeyManager → CfKeyManager × ℕ × List StoreCall
unfolding is_permanent delete_permanent
cleanup_disabled km = (
  record km { keys = keep (λ k. not (is_permanent k)) km.keys },
  length (keep is_permanent km.keys),
  delete_permanent km km.keys,
)

-- `permanentDisableCF` and `cooldownDisableCF`, on the key that a request holds, in its present state.
pub permanent_disable : CfKey → CfKeyManager → CfKeyManager × List StoreCall
unfolding replace save_call
permanent_disable k km =
    let k' = record k { disabled = true; disabled_at = 0 } in
    (record km { keys = replace k' km.keys }, save_call km k')

pub cooldown_disable : ℕ → CfKey → CfKeyManager → CfKeyManager × List StoreCall
unfolding replace save_call
cooldown_disable now k km =
    let k' = record k { disabled = true; disabled_at = now } in
    (record km { keys = replace k' km.keys }, save_call km k')
