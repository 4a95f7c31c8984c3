-- ===== src/ProxyPool/Rotation.antt =====
-- Which proxy `Next` gives out, and that each gets its turn (internal/proxy/pool.go).
use onmi_routers.Base.{
  turn, ◌-◌, All-get_elem?, inr, refl, get_elem?_total, ◌∙◌, inl, ◌⊎◌, ◌≤◌, zero, ◌%◌, get_elem?,
  ◌+◌, length, suc, ℕ, ◌<◌, ◌≡◌, String, true, Option, none, some, List, [], ◌∷◌, map, arith, keep,
  All,
}
use onmi_routers.Base.Int.{ℤ, index_mod-lt}
use onmi_routers.ProxyPool.{ProxyEntry, applies_to}
use onmi_routers.ProxyPool.Operations.{u64, next, scoped, ProxyPool, cursor}
use onmi_routers.ProxyPool.Consistency.{IsConsistent, sans_count}

All-enabled_map :
    (es : List ProxyEntry)
    → All (λ e. e.enabled ≡ true) (map sans_count es)
    → All (λ e. e.enabled ≡ true) es
All-enabled_map [] a = tt
All-enabled_map (e ∷ es) a = (a.0, All-enabled_map es a.1)

All-enabled_keep :
    (es : List ProxyEntry) → All (λ e. e.enabled ≡ true) (map sans_count (keep (λ e. e.enabled) es))
All-enabled_keep [] = tt
All-enabled_keep (e ∷ es) = ground (arith, All-enabled_keep es)

consistent-enabled : (p : ProxyPool) → IsConsistent p → All (λ e. e.enabled ≡ true) p.enabled
consistent-enabled p v = All-enabled_map p.enabled (rw v.enabled_kept (All-enabled_keep p.entries))

abbrev pub IsEligible : String → ProxyEntry → Type 0
IsEligible upstream e = (e.enabled ≡ true) × (applies_to e upstream ≡ true)

All-scoped :
    (upstream : String) (es : List ProxyEntry)
    → All (λ e. e.enabled ≡ true) es
    → All (IsEligible upstream) (keep (λ e. applies_to e upstream) es)
All-scoped upstream [] a = tt
All-scoped upstream (e ∷ es) a = ground (arith, All-scoped upstream es a.1)

cursor-lt : (incr : Option (Option ℤ)) (n : ℕ) (p : ProxyPool) → 0 < n → (cursor incr n p).1 < n
unfolding cursor
cursor-lt none n p h = grind arith
cursor-lt (some none) n p h = grind arith
cursor-lt (some (some v)) n p h = index_mod-lt v n h

scoped-IsEligible :
    (upstream : String) (p : ProxyPool)
    → IsConsistent p
    → All (IsEligible upstream) (scoped upstream p)
unfolding scoped
scoped-IsEligible upstream p v = All-scoped upstream p.enabled (consistent-enabled p v)

next-some :
    (incr : Option (Option ℤ)) (now : ℕ) (upstream : String) (p : ProxyPool) (e : ProxyEntry)
    → 0 < length (scoped upstream p)
    → get_elem? (scoped upstream p) (cursor incr (length (scoped upstream p)) p).1 ≡ some e
    → (next incr now upstream p).1 ≡ some e
unfolding next
next-some incr now upstream p e pos at = ground arith

next-none :
    (incr : Option (Option ℤ)) (now : ℕ) (upstream : String) (p : ProxyPool)
    → length (scoped upstream p) ≤ 0
    → (next incr now upstream p).1 ≡ none
unfolding next
next-none incr now upstream p h = ground arith

-- On a consistent pool, whatever the shared counter answers: `Next` gives out a proxy that is enabled
-- and applies to the upstream, and gives out none only if no enabled proxy applies to it.
pub next-IsEligible :
    (incr : Option (Option ℤ)) (now : ℕ) (upstream : String) (p : ProxyPool)
    → IsConsistent p
    → (((next incr now upstream p).1 ≡ none) × (scoped upstream p ≡ []))
      ⊎ ((e : ProxyEntry) × ((next incr now upstream p).1 ≡ some e) × IsEligible upstream e)
next-IsEligible incr now upstream p v = go (scoped upstream p) refl
  where
    go :
        (es : List ProxyEntry)
        → scoped upstream p ≡ es
        → (((next incr now upstream p).1 ≡ none) × (scoped upstream p ≡ []))
          ⊎ ((e : ProxyEntry) × ((next incr now upstream p).1 ≡ some e) × IsEligible upstream e)
    go [] h = inl (next-none incr now upstream p (rw h (omega arith)), h)
    go (x ∷ es) h =
        let pos : 0 < length (scoped upstream p) = rw h (omega arith) in
        let (e, at) =
          get_elem?_total (scoped upstream p) _
            (cursor-lt incr (length (scoped upstream p)) p pos) in
        inr (
          e,
          next-some incr now upstream p e pos at,
          All-get_elem? (IsEligible upstream) (scoped upstream p) _ (scoped-IsEligible upstream p v)
              at,
        )

-- The pool after `k` more picks for the upstream, with no store.
pub after_picks : ℕ → ℕ → String → ProxyPool → ProxyPool
after_picks zero now upstream p = p
after_picks (suc k) now upstream p = after_picks k now upstream (next none now upstream p).0

next-step :
    (now : ℕ) (upstream : String) (p : ProxyPool)
    → 0 < length (scoped upstream p)
    → p.rr_index + 1 < u64
    → let p' = (next none now upstream p).0 in
      (p'.rr_index ≡ p.rr_index + 1) × (scoped upstream p' ≡ scoped upstream p)
unfolding next cursor scoped
next-step now upstream p pos room = ground arith

after_picks-step :
    (k now : ℕ) (upstream : String) (p : ProxyPool)
    → 0 < length (scoped upstream p)
    → p.rr_index + k < u64
    → let p' = after_picks k now upstream p in
      (p'.rr_index ≡ p.rr_index + k) × (scoped upstream p' ≡ scoped upstream p)
unfolding after_picks
after_picks-step zero now upstream p pos room = (omega arith, refl)
after_picks-step (suc k) now upstream p pos room =
    let one = next-step now upstream p pos (omega arith) in
    let more =
      after_picks-step k now upstream (next none now upstream p).0 (rw one.1 pos)
        (omega (arith, one.0)) in
    (omega (arith, one.0, more.0), more.1 ∙ one.1)

cursor_lem : (n : ℕ) (p : ProxyPool) → p.rr_index + 1 < u64 → (cursor none n p).1 ≡ p.rr_index % n
unfolding cursor
cursor_lem n p room =
    let e : ((p.rr_index + 1) % u64 + u64 - 1) % u64 ≡ p.rr_index = omega arith in rw e refl

-- Every proxy gets its turn: with no store, and as long as the 64-bit cursor does not wrap, each of the
-- enabled proxies that apply to an upstream is given out within as many picks for that upstream as
-- there are such proxies.
pub next_turns :
    (now : ℕ) (upstream : String) (p : ProxyPool) (j : ℕ) (e : ProxyEntry)
    → p.rr_index + length (scoped upstream p) < u64
    → j < length (scoped upstream p)
    → get_elem? (scoped upstream p) j ≡ some e
    → (k : ℕ) × (k < length (scoped upstream p))
      × ((next none now upstream (after_picks k now upstream p)).1 ≡ some e)
next_turns now upstream p j e room h at =
    let n = length (scoped upstream p) in
    let (k, small, hits) = turn p.rr_index j n h in
    let (rr, same) = after_picks-step k now upstream p (omega arith) (omega arith) in
    let p' = after_picks k now upstream p in
    let c : (cursor none n p').1 ≡ j = cursor_lem n p' (omega (arith, rr)) ∙ rw rr hits in
    (k, small, next-some none now upstream p' e (rw same (omega arith)) (rw (same, c) at))
