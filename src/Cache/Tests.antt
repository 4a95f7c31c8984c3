-- ===== src/Cache/Tests.antt =====
-- Examples of the response cache (internal/cache/semantic.go).
use onmi_routers.Base.{ℕ, ◌≤◌, ◌≡◌, String, true, List, [], ◌∷◌, arith, length, All, contains}
use onmi_routers.Base.Assoc.{lookup}
use onmi_routers.Cache.{Entry, Store, Call, gets, puts, new_store, run}
use onmi_routers.Cache.Bound.{IsValid, run_bounded}

-- A store with one place, a lifetime of ten, some entries and an order of eviction.
abbrev small : List (String × Entry) → List String → Store
small items order = record {
  items = items;
  order = order;
  ttl = 10;
  max_items = 1;
  hits = 0;
  misses = 0;
  enabled = true;
}

abbrev answer : Entry
answer = record { body = 65 ∷ []; expires_at = 20 }

abbrev calls : List (ℕ × Call)
calls =
    (1, puts "a" (1 ∷ [])) ∷ (2, puts "b" (2 ∷ [])) ∷ (3, puts "c" (3 ∷ [])) ∷ (4, gets "a") ∷ []

run_bounded_example :
    let s = run calls (new_store 10 2) in
    (length s.items ≤ 2) × All (λ c. contains c.0 s.order ≡ true) s.items
run_bounded_example = run_bounded 10 2 calls

one-IsValid : IsValid (small (("a", answer) ∷ []) ("a" ∷ []))
unfolding lookup
one-IsValid = record { covered = λ k h. ground arith; bounded = omega arith }
