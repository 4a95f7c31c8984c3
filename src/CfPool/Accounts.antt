-- ===== src/CfPool/Accounts.antt =====
-- The accounts stay distinct over any operations (internal/upstream/cloudflare.go).
use onmi_routers.Base.{
  ℕ, ◌≡◌, refl, inl, inr, String, Bool, true, false, ◌||◌, List, [], ◌∷◌, ◌++◌, map, arith, eq_iff,
  leb, str_eq, Bool-cases, length, keep,
}
use onmi_routers.CfPool.{
  save_call, delete_call, saves, deletes, trim_space, CfKey, CfKeyManager, new_cf_key_manager,
  new_day, use_quota, replace, record_usage, refresh, next_key, has_account, new_key, account_of,
  add_key, remove_first, delete_key, reenable, reenable_cooldowns, cleanup_disabled,
  permanent_disable, cooldown_disable,
}

-- No two keys are of one account.
abbrev pub IsUnique : List CfKey → Type 0
IsUnique [] = Unit {0}
IsUnique (k ∷ ks) = (has_account k.account_id ks ≡ false) × IsUnique ks

-- `record_usage` and the disabling functions act on any key that a request holds.
pub data Call : Type 0 where
  adds : String → String → Call
  drops : String → Call
  picks : String → Call
  uses : String → ℕ → CfKey → Call
  bans : CfKey → Call
  cools : ℕ → CfKey → Call
  ticks : ℕ → String → Call
  cleans : Call

pub step : Call → CfKeyManager → CfKeyManager
step (adds id token) km = (add_key id token km).0
step (drops id) km = (delete_key id km).0
step (picks today) km = (next_key today km).0
step (uses today amount k) km = (record_usage today amount k km).0
step (bans k) km = (permanent_disable k km).0
step (cools now k) km = (cooldown_disable now k km).0
step (ticks now today) km = (reenable_cooldowns now today km).0
step cleans km = (cleanup_disabled km).0

pub run : List Call → CfKeyManager → CfKeyManager
run [] km = km
run (c ∷ cs) km = run cs (step c km)

module _ (f : CfKey → CfKey) (same : (k : CfKey) → (f k).account_id ≡ k.account_id) where
  has-map : (id : String) (ks : List CfKey) → has_account id (map f ks) ≡ has_account id ks
  unfolding has_account
  has-map id [] = refl
  has-map id (k ∷ ks) = ground (arith, same k, has-map id ks)

  map-IsUnique : (ks : List CfKey) → IsUnique ks → IsUnique (map f ks)
  map-IsUnique [] u = tt
  map-IsUnique (k ∷ ks) u = (rw (has-map (f k).account_id ks, same k) u.0, map-IsUnique ks u.1)

has-replace :
    (id : String) (k : CfKey) (ks : List CfKey) → has_account id (replace k ks) ≡ has_account id ks
unfolding has_account replace
has-replace id k [] = refl
has-replace id k (j ∷ ks) = ground (arith, has-replace id k ks, eq_iff j.account_id k.account_id)

replace-IsUnique : (k : CfKey) (ks : List CfKey) → IsUnique ks → IsUnique (replace k ks)
unfolding replace
replace-IsUnique k [] u = tt
replace-IsUnique k (j ∷ ks) u = elim (Bool-cases (str_eq j.account_id k.account_id)) [
  | inl hit ↦ rw hit (ground (arith, u.0, eq_iff j.account_id k.account_id), u.1)
  | inr miss ↦
      rw miss (ground (arith, u.0, has-replace j.account_id k ks), replace-IsUnique k ks u.1)
]

has-append :
    (id : String) (ks : List CfKey) (k : CfKey)
    → has_account id (ks ++ k ∷ []) ≡ (has_account id ks || str_eq k.account_id id)
unfolding has_account
has-append id [] k = ground arith
has-append id (j ∷ ks) k = ground (arith, has-append id ks k)

append-IsUnique :
    (ks : List CfKey) (k : CfKey)
    → IsUnique ks
    → has_account k.account_id ks ≡ false
    → IsUnique (ks ++ k ∷ [])
unfolding has_account
append-IsUnique [] k u new = (refl, tt)
append-IsUnique (j ∷ ks) k u new = (
  ground (
    arith,
    u.0,
    new,
    has-append j.account_id ks k,
    eq_iff k.account_id j.account_id,
    eq_iff j.account_id k.account_id,
  ),
  append-IsUnique ks k u.1 (ground (arith, new)),
)

has-remove :
    (id j : String) (ks : List CfKey)
    → has_account id ks ≡ false
    → has_account id (remove_first j ks) ≡ false
unfolding has_account remove_first
has-remove id j [] h = h
has-remove id j (k ∷ ks) h = ground (arith, h, has-remove id j ks)

remove-IsUnique : (id : String) (ks : List CfKey) → IsUnique ks → IsUnique (remove_first id ks)
unfolding remove_first
remove-IsUnique id [] u = tt
remove-IsUnique id (k ∷ ks) u = elim (Bool-cases (str_eq k.account_id id)) [
  | inl hit ↦ rw hit u.1
  | inr miss ↦ rw miss (has-remove k.account_id id ks u.0, remove-IsUnique id ks u.1)
]

has-keep :
    (id : String) (f : CfKey → Bool) (ks : List CfKey)
    → has_account id ks ≡ false
    → has_account id (keep f ks) ≡ false
unfolding has_account
has-keep id f [] h = h
has-keep id f (k ∷ ks) h = ground (arith, h, has-keep id f ks)

keep-IsUnique : (f : CfKey → Bool) (ks : List CfKey) → IsUnique ks → IsUnique (keep f ks)
keep-IsUnique f [] u = tt
keep-IsUnique f (k ∷ ks) u = elim (Bool-cases (f k)) [
  | inl hit ↦ rw hit (has-keep k.account_id f ks u.0, keep-IsUnique f ks u.1)
  | inr miss ↦ rw miss (keep-IsUnique f ks u.1)
]

new_day-id : (today : String) (k : CfKey) → (new_day today k).account_id ≡ k.account_id
unfolding new_day
new_day-id today k = ground arith

refresh-id : (today : String) (k : CfKey) → (refresh today k).account_id ≡ k.account_id
unfolding refresh
refresh-id today k = ground (arith, new_day-id today k)

reenable-id :
    (now : ℕ) (today : String) (k : CfKey) → (reenable now today k).account_id ≡ k.account_id
unfolding reenable new_day
reenable-id now today k = ground arith

add-IsUnique :
    (id token : String) (km : CfKeyManager)
    → IsUnique km.keys
    → IsUnique (add_key id token km).0.keys
unfolding add_key new_key
add-IsUnique id token km u =
    let token' = trim_space token in
    let id' = account_of (trim_space id) token' in
    elim (Bool-cases (str_eq token' "" || has_account id' km.keys)) [
      | inl refused ↦ rw refused u
      | inr new ↦ rw new (append-IsUnique km.keys (new_key id' token') u (ground (arith, new)))
    ]

delete-IsUnique :
    (id : String) (km : CfKeyManager) → IsUnique km.keys → IsUnique (delete_key id km).0.keys
unfolding delete_key
delete-IsUnique id km u = elim (Bool-cases (has_account id km.keys)) [
  | inl hit ↦ rw hit (remove-IsUnique id km.keys u)
  | inr miss ↦ rw miss u
]

next-IsUnique :
    (today : String) (km : CfKeyManager) → IsUnique km.keys → IsUnique (next_key today km).0.keys
unfolding next_key
next-IsUnique today km u = elim (Bool-cases (leb (length km.keys) 0)) [
  | inl empty ↦ rw empty u
  | inr more ↦ rw more (map-IsUnique (refresh today) (refresh-id today) km.keys u)
]

step-IsUnique : (c : Call) (km : CfKeyManager) → IsUnique km.keys → IsUnique (step c km).keys
unfolding step record_usage permanent_disable cooldown_disable reenable_cooldowns cleanup_disabled
step-IsUnique (adds id token) km u = add-IsUnique id token km u
step-IsUnique (drops id) km u = delete-IsUnique id km u
step-IsUnique (picks today) km u = next-IsUnique today km u
step-IsUnique (uses today amount k) km u = replace-IsUnique (use_quota today amount k) km.keys u
step-IsUnique (bans k) km u = replace-IsUnique _ km.keys u
step-IsUnique (cools now k) km u = replace-IsUnique _ km.keys u
step-IsUnique (ticks now today) km u =
    map-IsUnique (reenable now today) (reenable-id now today) km.keys u
step-IsUnique cleans km u = keep-IsUnique _ km.keys u

run_from-IsUnique :
    (cs : List Call) (km : CfKeyManager) → IsUnique km.keys → IsUnique (run cs km).keys
unfolding run
run_from-IsUnique [] km u = u
run_from-IsUnique (c ∷ cs) km u = run_from-IsUnique cs (step c km) (step-IsUnique c km u)

-- No account stands in the pool twice: after any operations on a new pool, in any order, with
-- requests that use and disable keys which may have left the pool meanwhile.
pub run-IsUnique :
    (stored : Bool) (cs : List Call) → IsUnique (run cs (new_cf_key_manager stored)).keys
unfolding new_cf_key_manager
run-IsUnique stored cs = run_from-IsUnique cs (new_cf_key_manager stored) tt

has-remove_self :
    (id : String) (ks : List CfKey) → IsUnique ks → has_account id (remove_first id ks) ≡ false
unfolding has_account remove_first
has-remove_self id [] u = refl
has-remove_self id (k ∷ ks) u =
    ground (arith, u.0, has-remove_self id ks u.1, eq_iff k.account_id id)

-- A deleted account can come back: the request that still holds the key writes it to the store
-- after the deletion, as the last call, so a restart loads it again, while the pool has it no more.
pub deleted_returns :
    (today : String) (amount : ℕ) (k : CfKey) (km : CfKeyManager)
    → IsUnique km.keys
    → has_account k.account_id km.keys ≡ true
    → km.stored ≡ true
    → let (km₁, gone, calls₁) = delete_key k.account_id km in
      let (km₂, calls₂) = record_usage today amount k km₁ in
      (gone ≡ true)
      × (calls₁ ≡ deletes k.account_id ∷ [])
      × (calls₂ ≡ saves (use_quota today amount k) ∷ [])
      × (has_account k.account_id km₂.keys ≡ false)
unfolding delete_key record_usage save_call delete_call
deleted_returns today amount k km u here on = ground (
  arith,
  here,
  on,
  has-remove_self k.account_id km.keys u,
  has-replace k.account_id (use_quota today amount k) (remove_first k.account_id km.keys),
)
