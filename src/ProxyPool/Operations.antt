-- ===== src/ProxyPool/Operations.antt =====
-- internal/proxy/pool.go: the pool's state and its operations.
-- `db` says how the store answers a call: `none` is a pool with no store; of a store, a call is
-- answered by an error or by none. Each operation returns the calls it makes, in order. The pool is
-- not nil, and a method runs under the pool's lock, as one step.
use onmi_routers.Base.{
  ◌^◌, ℕ, ◌+◌, ◌-◌, ◌%◌, String, Bool, false, not, ◌&&◌, Option, none, some, List, [], ◌∷◌, ◌++◌,
  map, leb, ◌==◌, str_eq, if◌then◌else◌, length, get_elem?, keep,
}
use onmi_routers.Base.Int.{ℤ, index_mod}
use onmi_routers.Base.Assoc.{lookup, insert, erase}
use onmi_routers.ProxyPool.{
  ProxyEntry, proxy_fail_threshold, applies_to, masked, Error, Result, ok, err, validate_entry,
}

pub data StoreCall : Type 0 where
  saves : ProxyEntry → StoreCall
  deletes : String → StoreCall
  sets_fail_count : String → ℕ → StoreCall
  touches : String → ℕ → StoreCall

abbrev pub Db : Type 0
Db = Option (StoreCall → Bool)

-- `transports` holds, by id, the entry that the cached transport was built from.
pub record ProxyPool : Type 0 where
  pub entries : List ProxyEntry
  pub enabled : List ProxyEntry
  pub rr_index : ℕ
  pub transports : List (String × ProxyEntry)

unfoldable pub new_proxy_pool : ProxyPool
new_proxy_pool = record { entries = []; enabled = []; rr_index = 0; transports = [] }

unfoldable pub rebuild_enabled : ProxyPool → ProxyPool
rebuild_enabled p = record p { enabled = keep (λ e. e.enabled) p.entries }

-- A pool, an answer, and the calls of the store.
abbrev pub Outcome : Type 0 → Type 0
Outcome A = ProxyPool × A × List StoreCall

-- What a fallible call of the store does to the result.
abbrev pub store_result {ℓ} : {A : Type ℓ} → Db → StoreCall → A → Result A
store_result none call a = ok a
store_result (some fails) call a = if fails call then err Error.store_failed else ok a

abbrev pub store_calls : Db → StoreCall → List StoreCall
store_calls none call = []
store_calls (some fails) call = call ∷ []

unfoldable pub find : String → List ProxyEntry → Option ProxyEntry
find id [] = none
find id (e ∷ es) = if str_eq e.id id then some e else find id es

-- Changes the first entry with the id.
unfoldable pub modify : String → (ProxyEntry → ProxyEntry) → List ProxyEntry → List ProxyEntry
modify id f [] = []
modify id f (e ∷ es) = if str_eq e.id id then f e ∷ es else e ∷ modify id f es

-- `Load`, on what the store returned; entries from before scoping apply to all upstreams.
unfoldable pub dto_to_entry : ProxyEntry → ProxyEntry
dto_to_entry d = if leb (length d.upstreams) 0 then record d { upstreams = "all" ∷ [] } else d

unfoldable pub load : Option (Result (List ProxyEntry)) → ProxyPool → Result ProxyPool
unfolding rebuild_enabled dto_to_entry
load none p = ok (rebuild_enabled (record p { entries = [] }))
load (some (err e)) p = err e
load (some (ok dtos)) p = ok (rebuild_enabled (record p { entries = map dto_to_entry dtos }))

unfoldable pub list : ProxyPool → List ProxyEntry
list p = map masked p.entries

unfoldable pub get : String → ProxyPool → Option ProxyEntry
unfolding find
get id p =
    if str_eq id ""
    then none
    else elim (find id p.entries) [ none ↦ none | some e ↦ some (masked e) ]

unfoldable pub add_entry : Db → ProxyEntry → ProxyPool → Outcome (Result ProxyEntry)
unfolding rebuild_enabled
add_entry db e p = elim (store_result db (saves e) e) [
  | err x ↦ (p, err x, store_calls db (saves e))
  | ok _ ↦
      (rebuild_enabled (record p { entries = p.entries ++ e ∷ [] }), ok e, store_calls db (saves e))
]

-- `random` is the identifier that the random source gave, or none where it failed.
unfoldable pub add :
    (String → String)
    → Db
    → Option String
    → ℕ
    → ProxyEntry
    → ProxyPool
    → Outcome (Result ProxyEntry)
add lower db random now given p = elim (validate_entry lower given) [
  | err x ↦ (p, err x, [])
  | ok e ↦ elim random [
    | none ↦ (p, err Error.no_random, [])
    | some id ↦ add_entry db (record e { id = id; created_at = now; fail_count = 0 }) p
  ]
]

-- The fields of an update; the upstreams are none where the client does not send them.
pub record Update : Type 0 where
  pub protocol : String
  pub host : String
  pub port : ℕ
  pub username : String
  pub password : String
  pub enabled : Bool
  pub label : String
  pub upstreams : Option (List String)

abbrev given_or {ℓ} : {A : Type ℓ} → A → Option A → A
given_or a none = a
given_or a (some b) = b

unfoldable pub merge : ProxyEntry → Update → ProxyEntry
merge e u = record e {
  protocol = if str_eq u.protocol "" then e.protocol else u.protocol;
  host = if str_eq u.host "" then e.host else u.host;
  port = if u.port == 0 then e.port else u.port;
  username = u.username;
  label = u.label;
  password = if str_eq u.password "***" then e.password else u.password;
  enabled = u.enabled;
  upstreams = given_or e.upstreams u.upstreams;
}

update_entry : Db → String → ProxyEntry → ProxyPool → Outcome (Result ProxyEntry)
unfolding rebuild_enabled modify
update_entry db id e p =
    let p' = rebuild_enabled (record p { entries = modify id (λ _. e) p.entries }) in
    (
      record p' { transports = erase id p'.transports },
      store_result db (saves e) e,
      store_calls db (saves e),
    )

unfoldable pub update :
    (String → String) → Db → String → Update → ProxyPool → Outcome (Result ProxyEntry)
unfolding find merge update_entry
update lower db id given p =
    if str_eq id "" then (p, err Error.no_id, []) else elim (find id p.entries) [
      | none ↦ (p, err Error.not_found, [])
      | some e ↦ elim (validate_entry lower (merge e given)) [
        | err x ↦ (p, err x, [])
        | ok e' ↦ update_entry db id (record e' { fail_count = 0 }) p
      ]
    ]

unfoldable pub delete : Db → String → ProxyPool → Outcome (Result (Unit {0}))
unfolding find rebuild_enabled
delete db id p = if str_eq id "" then (p, err Error.no_id, []) else elim (find id p.entries) [
  | none ↦ (p, err Error.not_found, [])
  | some e ↦
      let p' =
        rebuild_enabled (record p { entries = keep (λ e. not (str_eq e.id id)) p.entries }) in
      (
        record p' { transports = erase id p'.transports },
        store_result db (deletes id) tt,
        store_calls db (deletes id),
      )
]

unfoldable pub flip : ProxyEntry → ProxyEntry
flip e = record e { enabled = not e.enabled; fail_count = if e.enabled then e.fail_count else 0 }

-- The new state of the flag stands beside the result, which the source returns on an error too.
unfoldable pub toggle : Db → String → ProxyPool → Outcome (Bool × Result (Unit {0}))
unfolding find rebuild_enabled modify flip
toggle db id p = elim (find id p.entries) [
  | none ↦ (p, (false, err Error.not_found), [])
  | some e ↦
      let e' = flip e in
      (
        rebuild_enabled (record p { entries = modify id flip p.entries }),
        (e'.enabled, store_result db (saves e') tt),
        store_calls db (saves e'),
      )
]

abbrev pub u64 : ℕ
u64 = 2 ^ 64

-- The cursor: the shared counter's new value where the store gives one, or the pool's own.
unfoldable pub cursor : Option (Option ℤ) → ℕ → ProxyPool → ProxyPool × ℕ
cursor (some (some v)) n p = (p, index_mod v n)
cursor _ n p =
    let v = (p.rr_index + 1) % u64 in (record p { rr_index = v }, (v + u64 - 1) % u64 % n)

unfoldable pub scoped : String → ProxyPool → List ProxyEntry
scoped upstream p = keep (λ e. applies_to e upstream) p.enabled

-- `incr` is the answer to `IncrProxyRR`: none without a store, `some none` where the call failed.
-- The touch of `last_used_at` is made later, by a goroutine.
unfoldable pub next : Option (Option ℤ) → ℕ → String → ProxyPool → Outcome (Option ProxyEntry)
unfolding cursor scoped
next incr now upstream p =
    let candidates = scoped upstream p in
    let (p', idx) = cursor incr (length candidates) p in
    let entry = get_elem? candidates idx in
    if leb (length candidates) 0 then (p, none, []) else (
      p',
      entry,
      elim incr [ none ↦ [] | some _ ↦ elim entry [ none ↦ [] | some e ↦ touches e.id now ∷ [] ] ],
    )

unfoldable pub failed : ProxyEntry → ProxyEntry
failed e =
    let e' = record e { fail_count = e.fail_count + 1 } in
    if leb proxy_fail_threshold e'.fail_count && e.enabled
    then record e' { enabled = false }
    else e'

unfoldable pub auto_disabled : ProxyEntry → Bool
auto_disabled e = leb proxy_fail_threshold (e.fail_count + 1) && e.enabled

unfoldable pub mark_failed : Db → String → ProxyPool → ProxyPool × List StoreCall
unfolding find rebuild_enabled modify failed auto_disabled
mark_failed db id p = if str_eq id "" then (p, []) else elim (find id p.entries) [
  | none ↦ (p, [])
  | some e ↦
      let p' = record p { entries = modify id failed p.entries } in
      if auto_disabled e
      then (
        record (rebuild_enabled p') { transports = erase id p'.transports },
        store_calls db (saves (failed e)),
      )
      else (p', store_calls db (sets_fail_count id (failed e).fail_count))
]

unfoldable pub forgive : ProxyEntry → ProxyEntry
forgive e = record e { fail_count = 0 }

unfoldable pub mark_success : Db → String → ProxyPool → ProxyPool × List StoreCall
unfolding find modify forgive
mark_success db id p = if str_eq id "" then (p, []) else elim (find id p.entries) [
  | none ↦ (p, [])
  | some e ↦ if e.fail_count == 0 then (p, []) else (
    record p { entries = modify id forgive p.entries },
    store_calls db (sets_fail_count id 0),
  )
]

-- `builds` says whether a transport for the entry can be built.
unfoldable pub transport :
    (ProxyEntry → Bool) → ProxyEntry → ProxyPool → ProxyPool × Result ProxyEntry
transport builds e p = elim (lookup e.id p.transports) [
  | some built ↦ (p, ok built)
  | none ↦
      if builds e
      then (record p { transports = insert e.id e p.transports }, ok e)
      else (p, err Error.no_transport)
]
