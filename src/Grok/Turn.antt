-- ===== src/Grok/Turn.antt =====
-- The first pass of `Next` (internal/upstream/grok.go).
use mathlib.Core.Path.{subst}
use onmi_routers.Grok.{GrokAccount, is_usable, find_usable}
use onmi_routers.Base.{
  ℕ, zero, suc, ◌+◌, ◌%◌, ◌≤◌, ◌<◌, ◌≡◌, refl, sym, ap, ◌∙◌, inl, inr, Bool, true, false, Option,
  none, some, List, arith, ◌==◌, Bool-cases, length, get_elem?,
}

abbrev pub usable_at : ℕ → Option GrokAccount → Bool
usable_at now none = false
usable_at now (some a) = is_usable now a

module _ (now : ℕ) (accounts : List GrokAccount) (next : ℕ) where
  -- The account in a round of a turn from the cursor on.
  abbrev pub at : ℕ → Option GrokAccount
  at i = get_elem? accounts ((next + i) % length accounts)

  abbrev pub Unusable : ℕ → ℕ → Type 0
  Unusable from to = (j : ℕ) → from ≤ j → j < to → usable_at now (at j) ≡ false

  abbrev pub IsFound : ℕ → ℕ → Option (ℕ × GrokAccount) → Type 0
  IsFound from to none = Unusable from to
  IsFound from to (some (idx, a)) =
      (k : ℕ) × (from ≤ k)
      × (k < to)
      × (idx ≡ (next + k) % length accounts)
      × (at k ≡ some a)
      × (is_usable now a ≡ true)
      × Unusable from k

  longer-Unusable :
      (from to : ℕ) → usable_at now (at from) ≡ false → Unusable (from + 1) to → Unusable from to
  longer-Unusable from to u f j le lt = elim (Bool-cases (from == j)) [
    | inl e ↦
        let same : from ≡ j = ground (arith, e) in subst (λ x. usable_at now (at x) ≡ false) same u
    | inr n ↦ let less : from + 1 ≤ j = ground (arith, n, le) in f j less lt
  ]

  later-IsFound :
      (from to : ℕ) (o : Option (ℕ × GrokAccount))
      → usable_at now (at from) ≡ false
      → IsFound (from + 1) to o
      → IsFound from to o
  later-IsFound from to none u f = longer-Unusable from to u f
  later-IsFound from to (some (idx, a)) u (k, le, lt, i, e, ok, before) =
      (k, omega arith, lt, i, e, ok, longer-Unusable from k u before)

  find_usable_skips :
      (rounds i : ℕ)
      → usable_at now (at i) ≡ false
      → find_usable now accounts next i (suc rounds) ≡ find_usable now accounts next (i + 1) rounds
  unfolding find_usable
  find_usable_skips rounds i h = ground (arith, h)

  find_usable_stops :
      (rounds i : ℕ) (a : GrokAccount)
      → at i ≡ some a
      → is_usable now a ≡ true
      → find_usable now accounts next i (suc rounds) ≡ some ((next + i) % length accounts, a)
  unfolding find_usable
  find_usable_stops rounds i a h ok = ground (arith, h, ok)

  round-IsFound :
      (rounds i to : ℕ) (o : Option GrokAccount)
      → at i ≡ o
      → i < to
      → IsFound (i + 1) to (find_usable now accounts next (i + 1) rounds)
      → IsFound i to (find_usable now accounts next i (suc rounds))
  round-IsFound rounds i to o h lt later = elim (Bool-cases (usable_at now o)) [
    | inr busy ↦
        let idle = ap (usable_at now) h ∙ busy in
        subst (IsFound i to) (sym (find_usable_skips rounds i idle))
          (later-IsFound i to _ idle later)
    | inl ok ↦ found o h ok
  ]
    where
      found :
          (o' : Option GrokAccount)
          → at i ≡ o'
          → usable_at now o' ≡ true
          → IsFound i to (find_usable now accounts next i (suc rounds))
      found none h' ok = absurd (ground (arith, ok))
      found (some a) h' ok =
          subst (IsFound i to) (sym (find_usable_stops rounds i a h' ok))
            (i, omega arith, lt, refl, h', ok, λ j le less. absurd (omega arith))

  pub find_usable-IsFound :
      (rounds i to : ℕ) → to ≡ i + rounds → IsFound i to (find_usable now accounts next i rounds)
  unfolding find_usable
  find_usable-IsFound zero i to e = λ j le lt. absurd (ground (arith, e, le, lt))
  find_usable-IsFound (suc rounds) i to e =
      round-IsFound rounds i to (at i) refl (omega arith)
        (find_usable-IsFound rounds (i + 1) to (omega arith))
