-- ===== src/CodeBuddy.antt =====
-- CBKey of internal/upstream/codebuddy.go: a credential of CodeBuddy with its credits and its
-- cooldown. The children have the pool and the requests. A time is a number of nanoseconds, and Go's
-- zero time is none; credits are whole units, and what is below zero is 0.
pub mod Pool
pub mod Serve
pub mod Stream
pub mod Turns
pub mod Served
pub mod Outage
pub mod Credits
pub mod Permanent
mod Tests
use Prim.Native.String.{len, slice, ◌++◌ as text_append}
use onmi_routers.Base.Text.{trim_space}
use onmi_routers.Base.{
  ℕ, zero, suc, ◌+◌, ◌-◌, ◌*◌, ◌/◌, ◌%◌, ◌≤◌, ◌<◌, ◌≡◌, refl, sym, ap, ◌∙◌, ◌≢◌, ◌⊎◌, inl, inr,
  String, Bool, true, false, not, ◌&&◌, ◌||◌, Option, none, some, List, [], ◌∷◌, ◌++◌, map, arith,
  eq_iff, eq_refl, ltb, leb, ◌==◌, str_eq, if◌then◌else◌, Bool-cases, Option-cases, length,
  length-append, get_elem?, drop, keep, All, All-append, contains,
}

pub data CredType : Type 0 where
  api_key oauth : CredType

abbrev pub is_oauth : CredType → Bool
is_oauth api_key = false
is_oauth oauth = true

-- CB_CREDIT_LIMIT, REFRESH_BUFFER and PRE_WARM_WINDOW of upstream.go.
abbrev pub credit_limit_default : ℕ
credit_limit_default = 240

abbrev pub minute : ℕ
minute = 60 * 1_000_000_000

abbrev pub refresh_buffer_time : ℕ
refresh_buffer_time = 10 * minute

abbrev pub pre_warm_window : ℕ
pre_warm_window = 30 * minute

-- `api` is the field Key, the API key or the email of an OAuth account.
pub record CbKey : Type 0 where
  pub api : String
  pub cred_type : CredType
  pub access_token : String
  pub refresh_token : String
  pub expires_at : Option ℕ
  pub email : String
  pub disabled : Bool
  pub disabled_at : Option ℕ
  pub credits_used : ℕ
  pub total_reqs : ℕ
  pub credit_limit : ℕ
  pub credits_remain : ℕ
  pub package_name : String
  pub cycle_end : String
  pub meter_status : ℕ
  pub meter_synced_at : Option ℕ

-- &CBKey{Key: api, CredType: CBAuthAPIKey}
abbrev pub new_key : String → CbKey
new_key api = record {
  api = api;
  cred_type = api_key;
  access_token = "";
  refresh_token = "";
  expires_at = none;
  email = "";
  disabled = false;
  disabled_at = none;
  credits_used = 0;
  total_reqs = 0;
  credit_limit = 0;
  credits_remain = 0;
  package_name = "";
  cycle_end = "";
  meter_status = 0;
  meter_synced_at = none;
}

abbrev pub oauth_account : String → String → String → Option ℕ → CbKey
oauth_account email access refresh expires = record (new_key email) {
  cred_type = oauth;
  access_token = access;
  refresh_token = refresh;
  expires_at = expires;
  email = email;
}

-- The limit of the meter, or the default where it was never synchronised.
unfoldable pub limit_of : CbKey → ℕ
limit_of k = if ltb 0 k.credit_limit then k.credit_limit else credit_limit_default

pub mask_cb_key : String → String
mask_cb_key key =
    if ltb 12 (len key)
    then text_append (slice key 0 8) (text_append "..." (slice key (len key - 4) (len key)))
    else key

pub display_id : CbKey → String
unfolding mask_cb_key
display_id k =
    if is_oauth k.cred_type
    then (if str_eq k.email "" then k.api else k.email)
    else mask_cb_key k.api

pub auth_header : CbKey → String
auth_header k = text_append "Bearer " (if is_oauth k.cred_type then k.access_token else k.api)

-- Whether a time is past another less a margin.
abbrev pub past_less : ℕ → ℕ → Option ℕ → Bool
past_less now margin none = false
past_less now margin (some t) = ltb (t - margin) now

unfoldable pub is_expired : ℕ → CbKey → Bool
is_expired now k = is_oauth k.cred_type && past_less now refresh_buffer_time k.expires_at

abbrev pub is_zero : Option ℕ → Bool
is_zero none = true
is_zero (some t) = false

-- Disabled with no time: for good.
unfoldable pub is_permanent : CbKey → Bool
is_permanent k = k.disabled && is_zero k.disabled_at

unfoldable pub permanent_disable : CbKey → CbKey
permanent_disable k = record k { disabled = true; disabled_at = none }

unfoldable pub cooldown_disable : ℕ → CbKey → CbKey
cooldown_disable now k = record k { disabled = true; disabled_at = some now }

-- The estimate of what remains, where the meter was read.
unfoldable pub remain_after : ℕ → CbKey → ℕ
remain_after used k =
    if not (is_zero k.meter_synced_at) && ltb 0 k.credit_limit
    then k.credit_limit - used
    else k.credits_remain

unfoldable pub add_credits : ℕ → CbKey → CbKey
unfolding limit_of remain_after permanent_disable
add_credits c k =
    let used = k.credits_used + c in
    let k' = record k {
      credits_used = used;
      total_reqs = k.total_reqs + 1;
      credits_remain = remain_after used k;
    } in
    if leb (limit_of k) used then permanent_disable k' else k'

-- What the token endpoint answers: nothing, a status that is not 200, a body that is not JSON, or the
-- envelope.
pub data RefreshReply : Type 0 where
  no_reply garbled : RefreshReply
  refused : ℕ → RefreshReply
  envelope : (code : ℕ) (access refresh : String) (expires_in : ℕ) → RefreshReply

abbrev second : ℕ
second = 1_000_000_000

-- The tokens of an envelope that is in order.
unfoldable pub renew : ℕ → String → String → ℕ → CbKey → CbKey
renew now access refresh expires_in k = record k {
  access_token = access;
  refresh_token = if str_eq refresh "" then k.refresh_token else refresh;
  expires_at =
      some (now + (if ltb 0 expires_in then expires_in * second else 365 * 24 * 60 * 60 * second));
}

unfoldable pub refresh_locked : ℕ → RefreshReply → CbKey → CbKey × Bool
unfolding renew
refresh_locked now (envelope code access refresh expires_in) k =
    if str_eq k.refresh_token "" || not (code == 0) || str_eq access ""
    then (k, false)
    else (renew now access refresh expires_in k, true)
refresh_locked now no_reply k = (k, false)
refresh_locked now garbled k = (k, false)
refresh_locked now (refused status) k = (k, false)

-- The key, and whether there was no error.
unfoldable pub refresh : ℕ → RefreshReply → CbKey → CbKey × Bool
unfolding refresh_locked
refresh now reply k = if is_oauth k.cred_type then refresh_locked now reply k else (k, true)

unfoldable pub ensure_valid : ℕ → RefreshReply → CbKey → CbKey × Bool
unfolding is_expired refresh
ensure_valid now reply k = if is_expired now k then refresh now reply k else (k, true)

-- An account of the meter; the precise numbers are texts.
pub record MeterAccount : Type 0 where
  pub package_name : String
  pub capacity_size : ℕ
  pub capacity_used : ℕ
  pub capacity_remain : ℕ
  pub capacity_size_precise : String
  pub capacity_used_precise : String
  pub capacity_remain_precise : String
  pub cycle_end_time : String
  pub status : ℕ

-- What the meter answers; a body that is JSON has a code and accounts.
pub data MeterReply : Type 0 where
  no_meter bad_body : MeterReply
  meter_status_code : ℕ → MeterReply
  accounts : (code : ℕ) (found : List MeterAccount) → MeterReply

-- parseCBMeterAccount, after the status.
unfoldable pub meter_account : MeterReply → Option MeterAccount
meter_account (accounts code []) = none
meter_account (accounts code (a ∷ rest)) = if code == 0 then some a else none
meter_account no_meter = none
meter_account bad_body = none
meter_account (meter_status_code n) = none

-- `parse` is strconv.ParseFloat.
unfoldable pub parse_float_or : (String → Option ℕ) → String → ℕ → ℕ
parse_float_or parse s fallback =
    if str_eq (trim_space s) ""
    then fallback
    else elim (parse (trim_space s)) [ none ↦ fallback | some v ↦ v ]

unfoldable pub read_meter : (String → Option ℕ) → ℕ → MeterAccount → CbKey → CbKey
unfolding parse_float_or permanent_disable
read_meter parse now a k =
    let size = parse_float_or parse a.capacity_size_precise a.capacity_size in
    let remain = parse_float_or parse a.capacity_remain_precise a.capacity_remain in
    let k' = record k {
      credits_used = parse_float_or parse a.capacity_used_precise a.capacity_used;
      credit_limit = if ltb 0 size then size else k.credit_limit;
      credits_remain = remain;
      package_name = a.package_name;
      cycle_end = a.cycle_end_time;
      meter_status = a.status;
      meter_synced_at = some now;
    } in
    if a.status == 3 || leb remain 0 then permanent_disable k' else k'

unfoldable pub meter_read : (String → Option ℕ) → ℕ → Option MeterAccount → CbKey → CbKey × Bool
unfolding read_meter
meter_read parse now none k = (k, false)
meter_read parse now (some a) k = (read_meter parse now a k, true)

-- An OAuth token that cannot be refreshed ends the synchronisation.
unfoldable pub sync_credits :
    (String → Option ℕ) → ℕ → RefreshReply → MeterReply → CbKey → CbKey × Bool
unfolding ensure_valid meter_read meter_account
sync_credits parse now reply meter k =
    let (k', fresh) = ensure_valid now reply k in
    if fresh then meter_read parse now (meter_account meter) k' else (k', false)
