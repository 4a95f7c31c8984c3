-- ===== src/Keys/Quota.antt =====
-- How the quota of tokens is enforced (internal/auth/auth.go).
use onmi_routers.Base.{
  ap, true, ltb, ◌&&◌, not, ◌<◌, ◌∙◌, All, ℕ, ◌+◌, ◌≡◌, refl, inl, inr, String, Bool, false, ◌||◌,
  Option, none, some, List, [], ◌∷◌, arith, eq_iff, leb, str_eq, if◌then◌else◌, Bool-cases,
}
use onmi_routers.Base.Int.{pos}
use onmi_routers.Base.Assoc.{lookup-erase, lookup, insert, lookup-insert}
use onmi_routers.Keys.{
  valid, updated, new_key, GatewayKeyInfo, Manager, KeyFields, add_with_role, remove, update,
  use_tokens, increment_tokens, increment_requests,
}

pub data Call : Type 0 where
  adds : String → KeyFields → ℕ → Call
  updates : String → KeyFields → Option Bool → Call
  removes : String → Call
  uses : String → ℕ → Call
  asks : String → Call

pub step : Call → Manager → Manager
step (adds key f now) am = (add_with_role key f now am).0
step (updates key f disabled) am = (update key f disabled am).0
step (removes key) am = (remove key am).0
step (uses key n) am = (increment_tokens key n am).0
step (asks key) am = (increment_requests key am).0

pub run : List Call → Manager → Manager
run [] am = am
run (c ∷ cs) am = run cs (step c am)

-- The key is neither added nor updated.
abbrev pub IsUsage : String → Call → Type 0
IsUsage id (adds key f now) = str_eq key id ≡ false
IsUsage id (updates key f disabled) = str_eq key id ≡ false
IsUsage id (removes key) = Unit {0}
IsUsage id (uses key n) = Unit {0}
IsUsage id (asks key) = Unit {0}

-- The tokens that a call uses of a key.
abbrev pub used_by : String → Call → ℕ
used_by id (adds key f now) = 0
used_by id (updates key f disabled) = 0
used_by id (removes key) = 0
used_by id (uses key n) = if str_eq key id then n else 0
used_by id (asks key) = 0

abbrev pub spent : String → List Call → ℕ
spent id [] = 0
spent id (c ∷ cs) = used_by id c + spent id cs

abbrev pub drops : String → Call → Bool
drops id (adds key f now) = false
drops id (updates key f disabled) = false
drops id (removes key) = str_eq key id
drops id (uses key n) = false
drops id (asks key) = false

abbrev pub is_removed : String → List Call → Bool
is_removed id [] = false
is_removed id (c ∷ cs) = drops id c || is_removed id cs

-- A key with a quota that is enabled while there is some of it left.
abbrev pub IsMetered : ℕ → GatewayKeyInfo → Type 0
IsMetered quota i = (i.token_quota ≡ pos quota) × (i.disabled ≡ leb quota i.tokens_used)

mapped : (GatewayKeyInfo → GatewayKeyInfo) → Option GatewayKeyInfo → Option GatewayKeyInfo
mapped f none = none
mapped f (some i) = some (f i)

-- What becomes of the entry of one key.
entry_after : String → Call → Option GatewayKeyInfo → Option GatewayKeyInfo
entry_after id (adds key f now) o = if str_eq key id then some (new_key key f now) else o
entry_after id (updates key f disabled) o =
    if str_eq key id then mapped (updated f disabled) o else o
entry_after id (removes key) o = if str_eq key id then none else o
entry_after id (uses key n) o = if str_eq key id then mapped (use_tokens n) o else o
entry_after id (asks key) o =
    if str_eq key id then mapped (λ i. record i { requests = i.requests + 1 }) o else o

module _ (id key : String) (am : Manager) where
  modified :
      (f : GatewayKeyInfo → GatewayKeyInfo) (o : Option GatewayKeyInfo)
      → lookup key am.keys ≡ o
      → lookup id (elim o [ none ↦ am.keys | some i ↦ insert key (f i) am.keys ])
        ≡ (if str_eq key id then mapped f (lookup id am.keys) else lookup id am.keys)
  unfolding mapped
  modified f none e = elim (Bool-cases (str_eq key id)) [
    | inl same ↦ rw (same, ← (eq_iff key id).0 same, e) refl
    | inr other ↦ rw other refl
  ]
  modified f (some i) e = elim (Bool-cases (str_eq key id)) [
    | inl same ↦ rw (lookup-insert, same, ← (eq_iff key id).0 same, e) refl
    | inr other ↦ rw (lookup-insert, other) refl
  ]

lookup-step :
    (id : String) (c : Call) (am : Manager)
    → lookup id (step c am).keys ≡ entry_after id c (lookup id am.keys)
unfolding step entry_after add_with_role update remove increment_tokens increment_requests
lookup-step id (adds key f now) am = lookup-insert key id (new_key key f now) am.keys
lookup-step id (updates key f disabled) am =
    ground (arith, modified id key am (updated f disabled) (lookup key am.keys) refl)
lookup-step id (removes key) am = lookup-erase key id am.keys
lookup-step id (uses key n) am =
    ground (arith, modified id key am (use_tokens n) (lookup key am.keys) refl)
lookup-step id (asks key) am = ground (
  arith,
  modified id key am (λ i. record i { requests = i.requests + 1 }) (lookup key am.keys) refl,
)

entry_after-none : (id : String) (c : Call) → IsUsage id c → entry_after id c none ≡ none
unfolding entry_after mapped
entry_after-none id (adds key f now) u = rw u refl
entry_after-none id (updates key f disabled) u = rw u refl
entry_after-none id (removes key) u = ground arith
entry_after-none id (uses key n) u = ground arith
entry_after-none id (asks key) u = ground arith

gone-valid :
    (id : String) (cs : List Call) (am : Manager)
    → All (IsUsage id) cs
    → lookup id am.keys ≡ none
    → valid id (run cs am) ≡ false
unfolding run valid
gone-valid id [] am u g = ground (arith, g)
gone-valid id (c ∷ cs) am u g =
    gone-valid id cs (step c am) u.1 (lookup-step id c am ∙ rw g (entry_after-none id c u.0))

dropped-entry_after :
    (id : String) (c : Call) (o : Option GatewayKeyInfo)
    → drops id c ≡ true
    → entry_after id c o ≡ none
unfolding entry_after
dropped-entry_after id (adds key f now) o d = ground (arith, d)
dropped-entry_after id (updates key f disabled) o d = ground (arith, d)
dropped-entry_after id (removes key) o d = rw d refl
dropped-entry_after id (uses key n) o d = ground (arith, d)
dropped-entry_after id (asks key) o d = ground (arith, d)

use_tokens-IsMetered :
    (n : ℕ) (i : GatewayKeyInfo) (quota : ℕ)
    → 0 < quota
    → IsMetered quota i
    → IsMetered quota (use_tokens n i)
unfolding use_tokens
use_tokens-IsMetered n i quota p m = (m.0, ground (arith, m.0, m.1))

module _ (id : String) (quota : ℕ) (p : 0 < quota) where
  entry_after-IsMetered :
      (c : Call) (i : GatewayKeyInfo)
      → IsUsage id c
      → IsMetered quota i
      → drops id c ≡ false
      → (i' : GatewayKeyInfo) × (entry_after id c (some i) ≡ some i')
        × IsMetered quota i'
        × (i'.tokens_used ≡ i.tokens_used + used_by id c)
  unfolding entry_after mapped use_tokens
  entry_after-IsMetered (adds key f now) i u m d = rw u (i, refl, m, omega arith)
  entry_after-IsMetered (updates key f disabled) i u m d = rw u (i, refl, m, omega arith)
  entry_after-IsMetered (removes key) i u m d = rw d (i, refl, m, omega arith)
  entry_after-IsMetered (uses key n) i u m d = elim (Bool-cases (str_eq key id)) [
    | inl same ↦ rw same (use_tokens n i, refl, use_tokens-IsMetered n i quota p m, refl)
    | inr other ↦ rw other (i, refl, m, omega arith)
  ]
  entry_after-IsMetered (asks key) i u m d = elim (Bool-cases (str_eq key id)) [
    | inl same ↦ rw same (record i { requests = i.requests + 1 }, refl, m, omega arith)
    | inr other ↦ rw other (i, refl, m, omega arith)
  ]

  metered-valid :
      (cs : List Call) (am : Manager) (i : GatewayKeyInfo)
      → All (IsUsage id) cs
      → lookup id am.keys ≡ some i
      → IsMetered quota i
      → valid id (run cs am) ≡ (not (is_removed id cs) && ltb (i.tokens_used + spent id cs) quota)
  unfolding run valid
  metered-valid [] am i u found m = ground (arith, found, m.1)
  metered-valid (c ∷ cs) am i u found m = elim (Bool-cases (drops id c)) [
    | inl d ↦
        let gone = lookup-step id c am ∙ dropped-entry_after id c (lookup id am.keys) d in
        rw d (gone-valid id cs (step c am) u.1 gone)
    | inr d ↦
        let (i', e, m', n) = entry_after-IsMetered c i u.0 m d in
        let found' : lookup id (step c am).keys ≡ some i' =
          lookup-step id c am ∙ ap (entry_after id c) found ∙ e in
        let later = metered-valid cs (step c am) i' u.1 found' m' in ground (arith, later, d, n)
  ]

  -- The quota is enforced to the token: from a key that is enabled and below its positive quota,
  -- through any calls that neither add nor update this key, the key is valid in the end exactly when
  -- it was not removed and the tokens that it had used and has used since are still below the quota.
  pub quota_enforced :
      (cs : List Call) (am : Manager) (i : GatewayKeyInfo)
      → All (IsUsage id) cs
      → lookup id am.keys ≡ some i
      → i.token_quota ≡ pos quota
      → i.disabled ≡ false
      → i.tokens_used < quota
      → valid id (run cs am) ≡ (not (is_removed id cs) && ltb (i.tokens_used + spent id cs) quota)
  quota_enforced cs am i u found q d below =
      metered-valid cs am i u found (q, d ∙ ground (arith, below))
