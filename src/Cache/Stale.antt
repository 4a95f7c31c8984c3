-- ===== src/Cache/Stale.antt =====
-- A key stays in the order of eviction when its entry expires (internal/cache/semantic.go), and what
-- comes of it.
use onmi_routers.Base.{
  refl, zero, eq_iff, length-append, ◌≢◌, ◌≤◌, ◌<◌, true, suc, ℕ, ◌+◌, ◌≡◌, String, List, [], ◌∷◌,
  ◌++◌, none, length, eq_refl, arith,
}
use onmi_routers.Base.Assoc.{lookup-insert_self, lookup, insert, erase, lookup-erase}
use onmi_routers.Cache.{Entry, Store, get, put, evict, store_entry}

evict-none :
    (n : ℕ) (key : String) (items : List (String × Entry)) (order : List String)
    → lookup key items ≡ none
    → lookup key (evict n items order).0 ≡ none
unfolding evict
evict-none n key items [] h = h
evict-none n key items (old ∷ order) h =
    ground (arith, evict-none n key (erase old items) order, lookup-erase old key items)

length-insert_new :
    (k : String) (e : Entry) (items : List (String × Entry))
    → lookup k items ≡ none
    → length (insert k e items) ≡ length items + 1
unfolding lookup insert
length-insert_new k e [] h = omega arith
length-insert_new k e ((j, g) ∷ items) h = ground (arith, length-insert_new k e items)

store_entry-stale :
    (now : ℕ) (key : String) (body : List ℕ) (s : Store) (rest : List String)
    → lookup key s.items ≡ none
    → s.order ≡ key ∷ rest
    → length s.items ≡ s.max_items
    → lookup key (store_entry now key body s).items ≡ none
unfolding store_entry
store_entry-stale now key body s rest new first full =
    let e : Entry = record { body = body; expires_at = now + s.ttl } in
    rw (new, first, evict)
      (ground (
        arith,
        length-insert_new key e s.items,
        evict-none s.max_items key (erase key (insert key e s.items)) (rest ++ key ∷ []),
        lookup-erase key key (insert key e s.items),
        eq_refl key,
      ))

-- A new entry can be lost at once: where the cache is full and the key, whose old entry expired, is
-- still the first in the order of eviction, no lookup finds what was just put.
pub put_lost :
    (now later : ℕ) (key : String) (body : List ℕ) (s : Store) (rest : List String)
    → lookup key s.items ≡ none
    → s.order ≡ key ∷ rest
    → length s.items ≡ s.max_items
    → (get later key (put now key body s)).1 ≡ none
unfolding get put
put_lost now later key body s rest new first full =
    ground (arith, store_entry-stale now key body s rest new first full)

-- Puts an entry, and looks it up after it has expired; `n` times.
pub rounds : ℕ → ℕ → String → List ℕ → Store → Store
rounds zero now key body s = s
rounds (suc n) now key body s =
    rounds n (now + s.ttl + 1) key body (get (now + s.ttl + 1) key (put now key body s)).0

evict_fits :
    (n : ℕ) (items : List (String × Entry)) (order : List String)
    → length items ≤ n
    → evict n items order ≡ (items, order)
unfolding evict
evict_fits n items [] h = refl
evict_fits n items (old ∷ order) h = ground arith

erase_missing :
    (key : String) (items : List (String × Entry))
    → lookup key items ≡ none
    → erase key items ≡ items
unfolding lookup erase
erase_missing key [] h = refl
erase_missing key ((j, e) ∷ items) h = ground (arith, erase_missing key items)

erase-insert_new :
    (key : String) (e : Entry) (items : List (String × Entry))
    → lookup key items ≡ none
    → erase key (insert key e items) ≡ items
unfolding lookup insert erase
erase-insert_new key e [] h = ground (arith, eq_refl key)
erase-insert_new key e ((j, f) ∷ items) h =
    ground (arith, erase-insert_new key e items, eq_refl key)

module _ (now : ℕ) (key : String) (body : List ℕ) (s : Store) where
  store_entry_fits :
      lookup key s.items ≡ none
      → length s.items < s.max_items
      → let s' = store_entry now key body s in
        (s'.items ≡ insert key (record { body = body; expires_at = now + s.ttl }) s.items)
        × (s'.order ≡ s.order ++ key ∷ [])
        × (s'.enabled ≡ s.enabled)
        × (s'.max_items ≡ s.max_items)
  unfolding store_entry
  store_entry_fits new room =
      let e : Entry = record { body = body; expires_at = now + s.ttl } in
      ground (
        arith,
        evict_fits s.max_items (insert key e s.items) (s.order ++ key ∷ []),
        length-insert_new key e s.items,
      )

  round_lem :
      s.enabled ≡ true
      → key ≢ ""
      → body ≢ []
      → lookup key s.items ≡ none
      → length s.items < s.max_items
      → let s' = (get (now + s.ttl + 1) key (put now key body s)).0 in
        (s'.items ≡ s.items)
        × (s'.order ≡ s.order ++ key ∷ [])
        × (s'.enabled ≡ true)
        × (s'.max_items ≡ s.max_items)
  unfolding get put
  round_lem on named full new room =
      let e : Entry = record { body = body; expires_at = now + s.ttl } in
      ground (
        arith,
        eq_iff key "",
        store_entry_fits new room,
        lookup-insert_self key e s.items,
        erase-insert_new key e s.items,
      )

-- The order of eviction grows without bound: each round in which an entry is put and then found
-- expired adds one more copy of its key, while the stored entries stay as they were, and the maximum
-- is never reached.
pub rounds_grow :
    (n now : ℕ) (key : String) (body : List ℕ) (s : Store)
    → s.enabled ≡ true
    → key ≢ ""
    → body ≢ []
    → lookup key s.items ≡ none
    → length s.items < s.max_items
    → let s' = rounds n now key body s in
      (s'.items ≡ s.items) × (length s'.order ≡ length s.order + n)
unfolding rounds
rounds_grow zero now key body s on named full new room = (refl, omega arith)
rounds_grow (suc n) now key body s on named full new room = ground (
  arith,
  round_lem now key body s on named full new room,
  rounds_grow n (now + s.ttl + 1) key body (get (now + s.ttl + 1) key (put now key body s)).0,
  length-append s.order (key ∷ []),
)
