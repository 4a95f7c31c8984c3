-- ===== src/Cache.antt =====
-- internal/cache/semantic.go: the response cache. A time is a number of nanoseconds and an argument
-- of the call; a body is a list of bytes. The store is not nil. `key_from_chat` of the source, a
-- hash of the request, is what a caller passes as the key.
pub mod Bound
pub mod Lookups
pub mod Stale
mod Tests
use onmi_routers.Base.{
  ℕ, ◌+◌, ◌*◌, String, Bool, true, not, ◌||◌, List, [], ◌∷◌, ◌++◌, Option, none, some, str_eq, leb,
  ltb, length, if◌then◌else◌,
}
use onmi_routers.Base.Assoc.{lookup, insert, erase}

pub record Entry : Type 0 where
  pub body : List ℕ
  pub expires_at : ℕ

pub record Store : Type 0 where
  pub items : List (String × Entry)
  pub order : List String
  pub ttl : ℕ
  pub max_items : ℕ
  pub hits : ℕ
  pub misses : ℕ
  pub enabled : Bool

-- `New`; an argument that is not positive is 0 here.
pub new_store : ℕ → ℕ → Store
new_store ttl max_items = record {
  items = [];
  order = [];
  ttl = if leb ttl 0 then 5 * 60 * 1_000_000_000 else ttl;
  max_items = if leb max_items 0 then 256 else max_items;
  hits = 0;
  misses = 0;
  enabled = true;
}

pub set_enabled : Bool → Store → Store
set_enabled v s = record s { enabled = v }

miss : Store → Store × Option (List ℕ)
miss s = (record s { misses = s.misses + 1 }, none)

get_entry : ℕ → String → Option Entry → Store → Store × Option (List ℕ)
unfolding miss
get_entry now key none s = miss s
get_entry now key (some e) s =
    if ltb e.expires_at now
    then miss (record s { items = erase key s.items })
    else (record s { hits = s.hits + 1 }, some e.body)

pub get : ℕ → String → Store → Store × Option (List ℕ)
unfolding get_entry miss
get now key s =
    if str_eq key ""
    then (s, none)
    else if not s.enabled
    then miss s
    else get_entry now key (lookup key s.items) s

abbrev is_none {ℓ} : {A : Type ℓ} → Option A → Bool
is_none none = true
is_none (some a) = Bool.false

-- The loop of `Put`: the oldest keys go while there are more than `max_items` entries.
pub evict : ℕ → List (String × Entry) → List String → List (String × Entry) × List String
evict max_items items [] = (items, [])
evict max_items items (old ∷ rest) =
    let later = evict max_items (erase old items) rest in
    if ltb max_items (length items) then later else (items, old ∷ rest)

abbrev is_empty {ℓ} : {A : Type ℓ} → List A → Bool
is_empty [] = true
is_empty (x ∷ xs) = Bool.false

pub store_entry : ℕ → String → List ℕ → Store → Store
unfolding evict
store_entry now key body s =
    let order = if is_none (lookup key s.items) then s.order ++ key ∷ [] else s.order in
    let items = insert key (record { body = body; expires_at = now + s.ttl }) s.items in
    let kept = evict s.max_items items order in record s { items = kept.0; order = kept.1 }

pub put : ℕ → String → List ℕ → Store → Store
unfolding store_entry
put now key body s =
    if str_eq key "" || is_empty body
    then s
    else if not s.enabled
    then s
    else store_entry now key body s

pub data Call : Type 0 where
  gets : String → Call
  puts : String → List ℕ → Call
  enables : Bool → Call

pub step : ℕ → Call → Store → Store
step now (gets key) s = (get now key s).0
step now (puts key body) s = put now key body s
step now (enables v) s = set_enabled v s

pub run : List (ℕ × Call) → Store → Store
run [] s = s
run ((now, c) ∷ cs) s = run cs (step now c s)
