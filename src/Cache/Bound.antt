-- ===== src/Cache/Bound.antt =====
-- The cache never holds more than its maximum (internal/cache/semantic.go).
use onmi_routers.Base.{
  All, ℕ, ◌∙◌, leb, if◌then◌else◌, ◌≤◌, ◌≡◌, refl, ◌≢◌, String, true, List, [], ◌∷◌, ◌++◌, none,
  Bool-cases, Option-cases, inl, inr, ltb, length, contains, contains-append, eq_iff, eq_refl,
  arith,
}
use onmi_routers.Base.Assoc.{lookup, insert, erase, lookup-insert, lookup-erase}
use onmi_routers.Cache.{
  Entry, Store, Call, gets, puts, enables, new_store, get, put, set_enabled, evict, store_entry,
  step, run,
}

-- Every key that is stored is in the order of eviction.
abbrev pub IsCovered : List (String × Entry) → List String → Type 0
IsCovered items order = (k : String) → lookup k items ≢ none → contains k order ≡ true

pub record IsValid (s : Store) : Type 0 where
  pub covered : IsCovered s.items s.order
  pub bounded : length s.items ≤ s.max_items

covered_empty : (items : List (String × Entry)) → IsCovered items [] → items ≡ []
unfolding lookup
covered_empty [] c = refl
covered_empty ((k, e) ∷ items) c = absurd (ground (arith, c k, eq_refl k))

erase-IsCovered :
    (old : String) (items : List (String × Entry)) (rest : List String)
    → IsCovered items (old ∷ rest)
    → IsCovered (erase old items) rest
erase-IsCovered old items rest c k h = ground (arith, c k, lookup-erase old k items)

pub evict-IsValid :
    (n : ℕ) (items : List (String × Entry)) (order : List String)
    → IsCovered items order
    → let (items', order') = evict n items order in IsCovered items' order' × (length items' ≤ n)
unfolding evict
evict-IsValid n items [] c = (c, rw (covered_empty items c) (omega arith))
evict-IsValid n items (old ∷ rest) c = elim (Bool-cases (ltb n (length items))) [
  | inl more ↦ rw more (evict-IsValid n (erase old items) rest (erase-IsCovered old items rest c))
  | inr fits ↦ rw fits (c, ground arith)
]

insert-IsCovered :
    (key : String) (e : Entry) (items : List (String × Entry)) (order : List String)
    → IsCovered items order
    → IsCovered (insert key e items) (order ++ key ∷ [])
insert-IsCovered key e items order c k h = ground (
  arith,
  c k,
  lookup-insert key k e items,
  contains-append k order (key ∷ []),
  eq_iff key k,
  eq_refl k,
)

replace-IsCovered :
    (key : String) (e : Entry) (items : List (String × Entry)) (order : List String)
    → lookup key items ≢ none
    → IsCovered items order
    → IsCovered (insert key e items) order
replace-IsCovered key e items order old c k h =
    ground (arith, c k, c key, lookup-insert key k e items, eq_iff key k)

store_entry-IsValid :
    (now : ℕ) (key : String) (body : List ℕ) (s : Store)
    → IsValid s
    → IsValid (store_entry now key body s)
unfolding store_entry
store_entry-IsValid now key body s v = elim (Option-cases (lookup key s.items)) [
  | inl new ↦
      let kept = evict-IsValid s.max_items _ _ (insert-IsCovered key _ s.items s.order v.covered) in
      rw new (record { covered = kept.0; bounded = kept.1 })
  | inr (e, old) ↦
      let kept =
        evict-IsValid s.max_items _ _
          (replace-IsCovered key _ s.items s.order (λ n. cc) v.covered) in
      rw old (record { covered = kept.0; bounded = kept.1 })
]

length-erase-le :
    (k : String) (items : List (String × Entry)) → length (erase k items) ≤ length items
unfolding erase
length-erase-le k [] = omega arith
length-erase-le k ((j, e) ∷ items) = ground (arith, length-erase-le k items)

forget-IsCovered :
    (old : String) (items : List (String × Entry)) (order : List String)
    → IsCovered items order
    → IsCovered (erase old items) order
forget-IsCovered old items order c k h = ground (arith, c k, lookup-erase old k items)

get-IsValid : (now : ℕ) (key : String) (s : Store) → IsValid s → IsValid (get now key s).0
unfolding get
get-IsValid now key s v = record {
  covered = λ k h. ground (arith, v.covered k, forget-IsCovered key s.items s.order v.covered k);
  bounded = ground (arith, v.bounded, length-erase-le key s.items);
}

put-IsValid :
    (now : ℕ) (key : String) (body : List ℕ) (s : Store) → IsValid s → IsValid (put now key body s)
unfolding put
put-IsValid now key body s v = record {
  covered = λ k h. ground (arith, v.covered k, (store_entry-IsValid now key body s v).covered k);
  bounded = ground (arith, v.bounded, (store_entry-IsValid now key body s v).bounded);
}

step-IsValid : (now : ℕ) (c : Call) (s : Store) → IsValid s → IsValid (step now c s)
unfolding step set_enabled
step-IsValid now (gets key) s v = get-IsValid now key s v
step-IsValid now (puts key body) s v = put-IsValid now key body s v
step-IsValid now (enables b) s v = record { covered = v.covered; bounded = v.bounded }

pub run-IsValid : (cs : List (ℕ × Call)) (s : Store) → IsValid s → IsValid (run cs s)
unfolding run
run-IsValid [] s v = v
run-IsValid ((now, c) ∷ cs) s v = run-IsValid cs (step now c s) (step-IsValid now c s v)

pub new_store-IsValid : (ttl n : ℕ) → IsValid (new_store ttl n)
unfolding new_store lookup
new_store-IsValid ttl n = record { covered = λ k h. absurd (h refl); bounded = ground arith }

step-max_items : (now : ℕ) (c : Call) (s : Store) → (step now c s).max_items ≡ s.max_items
unfolding step set_enabled get put store_entry
step-max_items now (gets key) s = ground arith
step-max_items now (puts key body) s = ground arith
step-max_items now (enables b) s = refl

run-max_items : (cs : List (ℕ × Call)) (s : Store) → (run cs s).max_items ≡ s.max_items
unfolding run
run-max_items [] s = refl
run-max_items ((now, c) ∷ cs) s = run-max_items cs (step now c s) ∙ step-max_items now c s

All-covered :
    (items : List (String × Entry)) (order : List String)
    → IsCovered items order
    → All (λ c. contains c.0 order ≡ true) items
unfolding lookup
All-covered [] order c = tt
All-covered ((k, e) ∷ items) order c =
    (ground (arith, c k, eq_refl k), All-covered items order (λ j h. ground (arith, c j)))

-- After any calls on a new cache, at any times, no more entries are stored than the maximum that it
-- was made with (256 where that is not positive), and every stored key is in the order of eviction.
pub run_bounded :
    (ttl n : ℕ) (cs : List (ℕ × Call))
    → let s = run cs (new_store ttl n) in
      (length s.items ≤ (if leb n 0 then 256 else n))
      × All (λ c. contains c.0 s.order ≡ true) s.items
unfolding new_store
run_bounded ttl n cs =
    let s = run cs (new_store ttl n) in
    let v = run-IsValid cs _ (new_store-IsValid ttl n) in
    (
      omega (arith, v.bounded, run-max_items cs (new_store ttl n)),
      All-covered s.items s.order v.covered,
    )
