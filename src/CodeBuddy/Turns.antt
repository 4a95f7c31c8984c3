-- ===== src/CodeBuddy/Turns.antt =====
-- Which key `Next` gives out (internal/upstream/codebuddy.go).
use mathlib.Core.Path.{subst}
use onmi_routers.Base.{
  ℕ, zero, suc, ◌+◌, ◌%◌, ◌≤◌, ◌<◌, ◌≡◌, refl, sym, inl, inr, Bool, true, false, Option, none, some,
  List, [], ◌∷◌, arith, ltb, ◌==◌, if◌then◌else◌, Bool-cases, length, get_elem?, turn,
}
use onmi_routers.CodeBuddy.{CbKey}
use onmi_routers.CodeBuddy.Pool.{CbKeyManager, is_enabled, find_enabled, moved_to, next_key}

module _ (keys : List CbKey) (next : ℕ) where
  -- Whether the key in a round of a turn from the cursor on can be given out.
  abbrev pub enabled_at : ℕ → Bool
  enabled_at i = is_enabled (get_elem? keys ((next + i) % length keys))

  abbrev pub Passed : ℕ → ℕ → Type 0
  Passed from to = (j : ℕ) → from ≤ j → j < to → enabled_at j ≡ false

  abbrev IsFound : ℕ → ℕ → Option ℕ → Type 0
  IsFound from to none = Passed from to
  IsFound from to (some idx) =
      (k : ℕ) × (from ≤ k)
      × (k < to)
      × (idx ≡ (next + k) % length keys)
      × (enabled_at k ≡ true)
      × Passed from k

  more-Passed : (i to : ℕ) → enabled_at i ≡ false → Passed (i + 1) to → Passed i to
  more-Passed i to h p j le lt = elim (Bool-cases (i == j)) [
    | inl e ↦ let same : i ≡ j = ground (arith, e) in subst (λ x. enabled_at x ≡ false) same h
    | inr n ↦ let less : i + 1 ≤ j = ground (arith, n, le) in p j less lt
  ]

  later-IsFound :
      (i to : ℕ) (o : Option ℕ) → enabled_at i ≡ false → IsFound (i + 1) to o → IsFound i to o
  later-IsFound i to none h f = more-Passed i to h f
  later-IsFound i to (some idx) h (k, le, lt, e, ok, p) =
      (k, omega arith, lt, e, ok, more-Passed i k h p)

  round-IsFound :
      (i to : ℕ) (b : Bool) (o : Option ℕ)
      → enabled_at i ≡ b
      → i < to
      → IsFound (i + 1) to o
      → IsFound i to (if b then some ((next + i) % length keys) else o)
  round-IsFound i to true o h lt f =
      (i, omega arith, lt, refl, h, λ j le less. absurd (omega arith))
  round-IsFound i to false o h lt f = later-IsFound i to o h f

  find_enabled-IsFound :
      (rounds i to : ℕ) → to ≡ i + rounds → IsFound i to (find_enabled keys next i rounds)
  unfolding find_enabled
  find_enabled-IsFound zero i to e = λ j le lt. absurd (omega arith)
  find_enabled-IsFound (suc rounds) i to e =
      round-IsFound i to (enabled_at i) (find_enabled keys next (i + 1) rounds) refl (omega arith)
        (find_enabled-IsFound rounds (i + 1) to (omega arith))

-- What `Next` is to give: where it gives no key, every key is disabled and nothing has changed; else the
-- first key from the cursor on that is not disabled, and the cursor stands behind it.
abbrev pub IsNext : CbKeyManager → CbKeyManager → Option ℕ → Type 0
IsNext km km' none = (km' ≡ km) × ((j : ℕ) → is_enabled (get_elem? km.keys j) ≡ false)
IsNext km km' (some idx) =
    (k : ℕ) × (k < length km.keys)
    × (idx ≡ (km.next + k) % length km.keys)
    × (is_enabled (get_elem? km.keys idx) ≡ true)
    × Passed km.keys km.next 0 k
    × (km' ≡ record km { next = (idx + 1) % length km.keys })

out_of_range : (keys : List CbKey) (j : ℕ) → length keys ≤ j → is_enabled (get_elem? keys j) ≡ false
out_of_range [] j h = refl
out_of_range (k ∷ ks) zero h = absurd (omega arith)
out_of_range (k ∷ ks) (suc j) h = out_of_range ks j (omega arith)

found-IsNext :
    (km : CbKeyManager) (o : Option ℕ)
    → IsFound km.keys km.next 0 (length km.keys) o
    → IsNext km (moved_to km o) o
unfolding moved_to
found-IsNext km none f =
    let all : (j : ℕ) → is_enabled (get_elem? km.keys j) ≡ false = λ j.
      elim (Bool-cases (ltb j (length km.keys))) [
        | inl low ↦
            let (k, lt, e) = turn km.next j (length km.keys) (ground arith) in
            subst (λ x. is_enabled (get_elem? km.keys x) ≡ false) e (f k (omega arith) lt)
        | inr high ↦ out_of_range km.keys j (ground arith)
      ] in
    (refl, all)
found-IsNext km (some idx) (k, le, lt, e, ok, p) =
    (k, lt, e, subst (λ x. is_enabled (get_elem? km.keys x) ≡ true) (sym e) ok, p, refl)

-- `Next` turns through the keys: it gives the first key from the cursor on that is not disabled, and
-- moves the cursor behind it; it gives none only where every key is disabled, and then changes nothing.
pub next_key-IsNext : (km : CbKeyManager) → IsNext km (next_key km).0 (next_key km).1
unfolding next_key
next_key-IsNext km =
    found-IsNext km (find_enabled km.keys km.next 0 (length km.keys))
      (find_enabled-IsFound km.keys km.next (length km.keys) 0 (length km.keys) (omega arith))
