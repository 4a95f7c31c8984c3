-- ===== src/CodeBuddy/Pool.antt =====
-- CBKeyManager of internal/upstream/codebuddy.go. The saves to the store are not in the state: each
-- operation that changes a key saves it.
use Prim.Native.String.{len}
use onmi_routers.Base.Text.{trim_space}
use onmi_routers.Base.{
  ℕ, zero, suc, ◌+◌, ◌-◌, ◌*◌, ◌%◌, String, Bool, true, false, not, ◌&&◌, ◌||◌, Option, none, some,
  List, [], ◌∷◌, ◌++◌, map, ltb, str_eq, if◌then◌else◌, length, get_elem?, keep,
}
use onmi_routers.CodeBuddy.{
  CbKey, oauth, is_oauth, new_key, oauth_account, is_permanent, is_zero, past_less, pre_warm_window,
  minute, refresh_buffer_time, RefreshReply, MeterReply, refresh, sync_credits, mask_cb_key,
}

pub record CbKeyManager : Type 0 where
  pub keys : List CbKey
  pub next : ℕ

pub new_cb_key_manager : CbKeyManager
new_cb_key_manager = record { keys = []; next = 0 }

abbrev pub is_enabled : Option CbKey → Bool
is_enabled none = false
is_enabled (some k) = not k.disabled

-- The loop of `Next` from round `i` on, with the rounds left: the index of the first key that is not
-- disabled.
unfoldable pub find_enabled : List CbKey → ℕ → ℕ → ℕ → Option ℕ
find_enabled keys next i zero = none
find_enabled keys next i (suc rounds) =
    let idx = (next + i) % length keys in
    let later = find_enabled keys next (i + 1) rounds in
    if is_enabled (get_elem? keys idx) then some idx else later

unfoldable pub moved_to : CbKeyManager → Option ℕ → CbKeyManager
moved_to km none = km
moved_to km (some idx) = record km { next = (idx + 1) % length km.keys }

-- The pool, and the index of the key; none where there is no key or all are disabled.
unfoldable pub next_key : CbKeyManager → CbKeyManager × Option ℕ
unfolding find_enabled moved_to
next_key km =
    let found = find_enabled km.keys km.next 0 (length km.keys) in (moved_to km found, found)

-- The key at an index is changed in place.
unfoldable pub modify_key : (CbKey → CbKey) → ℕ → List CbKey → List CbKey
modify_key f i [] = []
modify_key f zero (k ∷ ks) = f k ∷ ks
modify_key f (suc i) (k ∷ ks) = k ∷ modify_key f i ks

abbrev pub matches_key : String → CbKey → Bool
matches_key s k =
    str_eq k.api s
    || is_oauth k.cred_type && str_eq k.email s
    || ltb 12 (len k.api) && str_eq (mask_cb_key k.api) s

pub resolve_in : String → List CbKey → String
resolve_in s [] = ""
resolve_in s (k ∷ ks) = let rest = resolve_in s ks in if matches_key s k then k.api else rest

pub resolve_key : String → CbKeyManager → String
unfolding resolve_in
resolve_key s km = resolve_in s km.keys

unfoldable pub has_api : String → List CbKey → Bool
has_api s [] = false
has_api s (k ∷ ks) = str_eq k.api s || has_api s ks

-- The pool, whether the key was added, and the number of keys.
unfoldable pub add_key : String → CbKeyManager → CbKeyManager × Bool × ℕ
unfolding has_api
add_key text km =
    let api = trim_space text in
    if str_eq api "" || has_api api km.keys
    then (km, false, length km.keys)
    else (record km { keys = km.keys ++ new_key api ∷ [] }, true, length km.keys + 1)

abbrev pub is_account : String → CbKey → Bool
is_account email k = str_eq k.api email || is_oauth k.cred_type && str_eq k.email email

-- New tokens for an account that is there; it is enabled again.
abbrev pub retoken : CbKey → CbKey → CbKey
retoken new k = record k {
  cred_type = oauth;
  access_token = new.access_token;
  refresh_token = new.refresh_token;
  expires_at = new.expires_at;
  email = new.api;
  disabled = false;
  disabled_at = none;
}

-- The first entry of the account gets the tokens; none where there is no entry.
unfoldable pub update_account : CbKey → List CbKey → Option (List CbKey)
update_account new [] = none
update_account new (k ∷ ks) =
    let rest = update_account new ks in
    if is_account new.api k
    then some (retoken new k ∷ ks)
    else elim rest [ none ↦ none | some ks' ↦ some (k ∷ ks') ]

-- tryEagerRefresh: the account with fresh tokens, or as it was given.
unfoldable pub try_eager_refresh : ℕ → RefreshReply → CbKey → CbKey
unfolding refresh
try_eager_refresh now reply probe =
    let (k, done) = refresh now reply probe in
    if done
      && not (str_eq k.access_token "")
      && not (str_eq k.refresh_token "")
      && not (is_zero k.expires_at)
    then k
    else probe

-- A time before another, or no time, is before it.
abbrev pub is_before : Option ℕ → ℕ → Bool
is_before none t = true
is_before (some e) t = ltb e t

unfoldable pub eager : ℕ → RefreshReply → CbKey → CbKey
unfolding try_eager_refresh
eager now reply k =
    if is_before k.expires_at (now + refresh_buffer_time) then try_eager_refresh now reply k else k

-- The account among the keys, or a new key.
abbrev pub put_with : CbKey → CbKeyManager → Option (List CbKey) → CbKeyManager × Bool × ℕ
put_with new km (some ks) = (record km { keys = ks }, false, length km.keys)
put_with new km none = (record km { keys = km.keys ++ new ∷ [] }, true, length km.keys + 1)

unfoldable pub put_account : CbKey → CbKeyManager → CbKeyManager × Bool × ℕ
unfolding update_account
put_account new km = put_with new km (update_account new km.keys)

unfoldable pub add_oauth_account :
    ℕ → RefreshReply → String → String → String → Option ℕ → CbKeyManager → CbKeyManager × Bool × ℕ
unfolding eager put_account
add_oauth_account now reply email access refresh_token expires km =
    let e = trim_space email in
    let a = trim_space access in
    let r = trim_space refresh_token in
    if str_eq e "" || str_eq a "" || str_eq r ""
    then (km, false, length km.keys)
    else put_account (eager now reply (oauth_account e a r expires)) km

-- Longer ago than ten minutes.
abbrev pub is_over : ℕ → Option ℕ → Bool
is_over now none = false
is_over now (some t) = ltb (10 * minute) (now - t)

abbrev pub reenable : ℕ → CbKey → CbKey
reenable now k =
    if k.disabled && is_over now k.disabled_at then record k { disabled = false } else k

unfoldable pub reenable_cooldowns : ℕ → CbKeyManager → CbKeyManager
reenable_cooldowns now km = record km { keys = map (reenable now) km.keys }

-- Whether the worker that refreshes tokens ahead of time takes the key.
unfoldable pub needs_refresh : ℕ → CbKey → Bool
unfolding is_permanent
needs_refresh now k =
    is_oauth k.cred_type && not (is_permanent k) && past_less now pre_warm_window k.expires_at

abbrev pub pre_warmed : ℕ → (CbKey → RefreshReply) → CbKey → CbKey
pre_warmed now reply k = if needs_refresh now k then (refresh now (reply k) k).0 else k

-- One tick of CBOAuthRefreshWorker; the refreshes touch one key each.
unfoldable pub pre_warm : ℕ → (CbKey → RefreshReply) → CbKeyManager → CbKeyManager
pre_warm now reply km = record km { keys = map (pre_warmed now reply) km.keys }

abbrev pub synced :
    (String → Option ℕ) → ℕ → (CbKey → RefreshReply) → (CbKey → MeterReply) → CbKey → CbKey
synced parse now reply meter k =
    if is_permanent k then k else (sync_credits parse now (reply k) (meter k) k).0

-- syncAllCBCredits, with no delays.
unfoldable pub sync_all_cb_credits :
    (String → Option ℕ)
    → ℕ
    → (CbKey → RefreshReply)
    → (CbKey → MeterReply)
    → CbKeyManager
    → CbKeyManager
sync_all_cb_credits parse now reply meter km = record km {
  keys = map (synced parse now reply meter) km.keys;
}

unfoldable pub delete_in : String → List CbKey → Option (List CbKey)
delete_in s [] = none
delete_in s (k ∷ ks) =
    let rest = delete_in s ks in
    if str_eq k.api s then some ks else elim rest [ none ↦ none | some ks' ↦ some (k ∷ ks') ]

unfoldable pub delete_key : String → CbKeyManager → CbKeyManager × Bool
unfolding delete_in
delete_key s km = elim (delete_in s km.keys) [
  | none ↦ (km, false)
  | some ks ↦ (record km { keys = ks }, true)
]

-- The pool without the keys that are disabled for good, and their number.
unfoldable pub cleanup_disabled : CbKeyManager → CbKeyManager × ℕ
cleanup_disabled km =
    let kept = keep (λ k. not (is_permanent k)) km.keys in
    (record km { keys = kept }, length km.keys - length kept)
