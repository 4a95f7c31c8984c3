-- ===== src/Cache/Lookups.antt =====
-- What a lookup in the cache returns (internal/cache/semantic.go).
use onmi_routers.Cache.Bound.{IsValid}
use onmi_routers.Base.{
  Option, contains-append, Option-cases, ◌⊎◌, ◌+◌, ℕ, ◌≤◌, ◌≡◌, refl, ◌≢◌, String, true, false,
  List, [], ◌∷◌, ◌++◌, none, some, Bool-cases, inl, inr, ltb, length, contains, eq_iff, eq_refl,
  str_eq, arith,
}
use onmi_routers.Base.Assoc.{
  IsDistinct, erase-IsDistinct, insert-IsDistinct, lookup-insert_self, lookup, insert, erase,
  lookup-insert, lookup-erase,
}
use onmi_routers.Cache.{put, Store, store_entry, get, Entry, evict}

erase_all :
    (k : String) (items : List (String × Entry))
    → ((j : String) → lookup j items ≢ none → str_eq k j ≡ true)
    → IsDistinct items
    → length items ≤ 1
unfolding lookup
erase_all k [] h d = omega arith
erase_all k ((i, e) ∷ []) h d = omega arith
erase_all k ((i, e) ∷ (j, f) ∷ items) h d =
    absurd (
      ground
        (arith, h i, h j, eq_refl i, eq_refl j, eq_iff i j, eq_iff j i, eq_iff k i, eq_iff k j))

-- A key that stands in the order of eviction at the end only outlives the loop.
evict_keeps_last :
    (n : ℕ) (key : String) (e : Entry) (items : List (String × Entry)) (order : List String)
    → 1 ≤ n
    → IsDistinct items
    → ((j : String) → lookup j items ≢ none → contains j (order ++ key ∷ []) ≡ true)
    → contains key order ≡ false
    → lookup key items ≡ some e
    → lookup key (evict n items (order ++ key ∷ [])).0 ≡ some e
unfolding evict
evict_keeps_last n key e items [] pos d c fresh at =
    ground (arith, erase_all key items (λ j h. ground (arith, c j h)) d)
evict_keeps_last n key e items (old ∷ order) pos d c fresh at =
    elim (Bool-cases (ltb n (length items))) [
      | inl more ↦ rw more (
          evict_keeps_last n key e (erase old items) order pos (erase-IsDistinct old items d)
            (λ j h. ground (arith, c j, lookup-erase old j items)) (ground arith)
            (ground (arith, lookup-erase old key items)))
      | inr fits ↦ rw fits at
    ]

evict_fits :
    (n : ℕ) (items : List (String × Entry)) (order : List String)
    → length items ≤ n
    → (evict n items order).0 ≡ items
unfolding evict
evict_fits n items [] h = refl
evict_fits n items (old ∷ order) h = ground arith

length-insert_old :
    (k : String) (e f : Entry) (items : List (String × Entry))
    → lookup k items ≡ some f
    → length (insert k e items) ≡ length items
unfolding lookup insert
length-insert_old k e f [] h = cc
length-insert_old k e f ((j, g) ∷ items) h = ground (arith, length-insert_old k e f items)

-- What `put` stored: the new entry, where the key is stored or not in the order of eviction.
store_entry-lookup :
    (now : ℕ) (key : String) (body : List ℕ) (s : Store)
    → IsValid s
    → IsDistinct s.items
    → 1 ≤ s.max_items
    → (lookup key s.items ≢ none) ⊎ (contains key s.order ≡ false)
    → lookup key (store_entry now key body s).items
      ≡ some (record { body = body; expires_at = now + s.ttl })
unfolding store_entry
store_entry-lookup now key body s v d pos free = elim (Option-cases (lookup key s.items)) [
  | inl new ↦
      let e : Entry = record { body = body; expires_at = now + s.ttl } in
      rw new (
        evict_keeps_last s.max_items key e (insert key e s.items) s.order pos
          (insert-IsDistinct key e s.items d)
          (λ j h. ground (
            arith,
            v.covered j,
            lookup-insert key j e s.items,
            contains-append j s.order (key ∷ []),
          ))
          (ground arith) (lookup-insert_self key e s.items))
  | inr (f, old) ↦
      let e : Entry = record { body = body; expires_at = now + s.ttl } in
      rw old (
        ground (
          arith,
          lookup-insert_self key e s.items,
          evict_fits s.max_items (insert key e s.items) s.order,
          length-insert_old key e f s.items,
          v.bounded,
        ))
]

module _ (now later : ℕ) (key : String) (body : List ℕ) (s : Store) where
  get-store_entry :
      lookup key (store_entry now key body s).items
        ≡ some (record { body = body; expires_at = now + s.ttl })
      → s.enabled ≡ true
      → key ≢ ""
      → later ≤ now + s.ttl
      → (get later key (store_entry now key body s)).1 ≡ some body
  unfolding get store_entry
  get-store_entry at on named fresh = ground (arith, eq_iff key "")

  -- What is put can be had back for as long as it lives: on a well-formed store that is enabled and
  -- has room for one entry, `get` returns the body that was put, if the key and the body are not
  -- empty, the key was stored already or is not in the order of eviction, and the lookup comes no
  -- later than `ttl` after the `put`.
  pub get-put :
      IsValid s
      → IsDistinct s.items
      → 1 ≤ s.max_items
      → (lookup key s.items ≢ none) ⊎ (contains key s.order ≡ false)
      → s.enabled ≡ true
      → key ≢ ""
      → body ≢ []
      → later ≤ now + s.ttl
      → (get later key (put now key body s)).1 ≡ some body
  unfolding put
  get-put v d pos free on named full fresh = ground (
    arith,
    eq_iff key "",
    get-store_entry (store_entry-lookup now key body s v d pos free) on named fresh,
  )

abbrev pub Hits : ℕ → String → Store → Store × Option (List ℕ) → Type 0
Hits now key s (s', answer) =
    (e : Entry) × (s.enabled ≡ true)
    × (lookup key s.items ≡ some e)
    × (now ≤ e.expires_at)
    × (answer ≡ some e.body)
    × (s'.hits ≡ s.hits + 1)
    × (s'.items ≡ s.items)

abbrev pub Misses : String → Store → Store × Option (List ℕ) → Type 0
Misses key s (s', answer) =
    (answer ≡ none)
    × (s'.misses ≡ s.misses + 1)
    × (((s.enabled ≡ false) × (s'.items ≡ s.items)) ⊎ (lookup key s'.items ≡ none))

-- A lookup under a key that is not empty answers only while the cache is enabled, and only from a
-- stored entry that has not expired, which counts as a hit and changes no entry. Every other lookup
-- counts as a miss: the cache is disabled and keeps its entries, or nothing is stored under the key
-- afterwards, since an entry that is found expired is dropped.
pub get_answers :
    (now : ℕ) (key : String) (s : Store)
    → key ≢ ""
    → Hits now key s (get now key s) ⊎ Misses key s (get now key s)
unfolding get
get_answers now key s named = elim (Bool-cases s.enabled) [
  | inr off ↦ inr (
    ground (arith, eq_iff key ""),
    ground (arith, eq_iff key ""),
    inl (off, ground (arith, eq_iff key "")),
  )
  | inl on ↦ elim (Option-cases (lookup key s.items)) [
    | inl missing ↦ inr (
      ground (arith, eq_iff key ""),
      ground (arith, eq_iff key ""),
      inr (ground (arith, eq_iff key "")),
    )
    | inr (e, found) ↦ elim (Bool-cases (ltb e.expires_at now)) [
      | inl expired ↦ inr (
        ground (arith, eq_iff key ""),
        ground (arith, eq_iff key ""),
        inr (ground (arith, eq_iff key "", lookup-erase key key s.items, eq_refl key)),
      )
      | inr lives ↦ inl (
        e,
        on,
        found,
        ground arith,
        ground (arith, eq_iff key ""),
        ground (arith, eq_iff key ""),
        ground (arith, eq_iff key ""),
      )
    ]
  ]
]

-- A lookup of a key that is not stored only counts a miss.
pub get-unknown :
    (now : ℕ) (key : String) (s : Store)
    → key ≢ ""
    → s.enabled ≡ true
    → lookup key s.items ≡ none
    → get now key s ≡ (record s { misses = s.misses + 1 }, none)
unfolding get
get-unknown now key s named on missing = ground (arith, eq_iff key "", named, on, missing)

pub put-enabled :
    (now : ℕ) (key : String) (body : List ℕ) (s : Store) → (put now key body s).enabled ≡ s.enabled
unfolding put store_entry
put-enabled now key body s = ground arith
