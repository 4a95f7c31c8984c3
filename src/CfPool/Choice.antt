-- ===== src/CfPool/Choice.antt =====
-- Which account `Next` chooses (internal/upstream/cloudflare.go).
use mathlib.Core.Path.{subst}
use onmi_routers.Base.{
  leb, rotate, All-rotate, Among-rotate, ◌%◌, Among, ℕ, ◌≤◌, ◌≡◌, refl, ◌⊎◌, inl, inr, String, true,
  false, ◌&&◌, Option, none, some, List, [], ◌∷◌, map, arith, ltb, Bool-cases, length, All,
}
use onmi_routers.CfPool.{CfKey, CfKeyManager, remaining, refresh, usable, choose, next_key}

-- No usable key of the list has more left than the chosen one; with none chosen, no key is usable.
abbrev pub IsBeaten : Option CfKey → CfKey → Type 0
IsBeaten none k = usable k ≡ false
IsBeaten (some b) k = (usable k ≡ false) ⊎ (remaining k ≤ remaining b)

choose-keeps :
    (b : CfKey) (ks : List CfKey)
    → (k : CfKey) × (choose (some b) ks ≡ some k) × (remaining b ≤ remaining k)
unfolding choose
choose-keeps b [] = (b, refl, omega arith)
choose-keeps b (k ∷ ks) = elim (Bool-cases (usable k && ltb (remaining b) (remaining k))) [
  | inl more ↦ let (c, e, le) = choose-keeps k ks in (c, ground (arith, e), ground arith)
  | inr less ↦ let (c, e, le) = choose-keeps b ks in (c, ground (arith, e), le)
]

choose-some-beats :
    (b c : CfKey) (ks : List CfKey)
    → choose (some b) ks ≡ some c
    → (remaining b ≤ remaining c) × All (IsBeaten (some c)) ks
unfolding choose
choose-some-beats b c [] h = (ground arith, tt)
choose-some-beats b c (k ∷ ks) h = elim (Bool-cases (usable k && ltb (remaining b) (remaining k))) [
  | inl more ↦
      let rest = choose-some-beats k c ks (ground (arith, h)) in
      (ground (arith, rest.0), (inr rest.0, rest.1))
  | inr less ↦
      let rest = choose-some-beats b c ks (ground (arith, h)) in
      (rest.0, (ground (arith, rest.0), rest.1))
]

unusable-IsBeaten : (r : Option CfKey) (k : CfKey) → usable k ≡ false → IsBeaten r k
unusable-IsBeaten none k off = off
unusable-IsBeaten (some b) k off = inl off

choose-none-beats : (r : Option CfKey) (ks : List CfKey) → choose none ks ≡ r → All (IsBeaten r) ks
unfolding choose
choose-none-beats r [] h = tt
choose-none-beats r (k ∷ ks) h = elim (Bool-cases (usable k)) [
  | inl on ↦
      let (c, e, le) = choose-keeps k ks in
      let same : some c ≡ r = ground (arith, e, h) in
      subst (λ x. All (IsBeaten x) (k ∷ ks)) same (inr le, (choose-some-beats k c ks e).1)
  | inr off ↦ (unusable-IsBeaten r k off, choose-none-beats r ks (ground (arith, h)))
]

choose-some-Among :
    (b c : CfKey) (ks : List CfKey)
    → usable b ≡ true
    → choose (some b) ks ≡ some c
    → ((c ≡ b) ⊎ Among c ks) × (usable c ≡ true)
unfolding choose
choose-some-Among b c [] on h = (inl (ground arith), ground arith)
choose-some-Among b c (k ∷ ks) on h =
    elim (Bool-cases (usable k && ltb (remaining b) (remaining k))) [
      | inl more ↦
          let (at, u) = choose-some-Among k c ks (ground arith) (ground (arith, h)) in
          (ground (arith, at), u)
      | inr less ↦
          let (at, u) = choose-some-Among b c ks on (ground (arith, h)) in (ground (arith, at), u)
    ]

choose-none-Among :
    (c : CfKey) (ks : List CfKey) → choose none ks ≡ some c → Among c ks × (usable c ≡ true)
unfolding choose
choose-none-Among c [] h = ground arith
choose-none-Among c (k ∷ ks) h = elim (Bool-cases (usable k)) [
  | inl on ↦ choose-some-Among k c ks on (ground (arith, h))
  | inr off ↦ let (at, u) = choose-none-Among c ks (ground (arith, h)) in (inr at, u)
]

abbrev pub IsChosen : List CfKey → Option CfKey → Type 0
IsChosen ks none = Unit {0}
IsChosen ks (some k) = Among k ks × (usable k ≡ true)

choose-none-IsChosen :
    (r : Option CfKey) (n : ℕ) (ks : List CfKey) → choose none (rotate n ks) ≡ r → IsChosen ks r
choose-none-IsChosen none n ks h = tt
choose-none-IsChosen (some c) n ks h =
    let (at, on) = choose-none-Among c (rotate n ks) h in (Among-rotate c n ks at, on)

map_empty : (f : CfKey → CfKey) (ks : List CfKey) → length ks ≤ 0 → map f ks ≡ []
map_empty f [] h = refl
map_empty f (k ∷ ks) h = absurd (omega (arith, h))

-- `Next` gives out a best account: whatever the pool and wherever its cursor stands, the account is one of the
-- pool's, brought up to the day, that is not disabled and has some of its quota left, and no other
-- such account has more; no account is given out only where none is usable.
pub next_best :
    (today : String) (km : CfKeyManager)
    → let (km', answer) = next_key today km in
      IsChosen (map (refresh today) km.keys) answer
      × All (IsBeaten answer) (map (refresh today) km.keys)
unfolding next_key
next_best today km =
    let ks = map (refresh today) km.keys in
    elim (Bool-cases (leb (length km.keys) 0)) [
      | inl empty ↦ rw (map_empty (refresh today) km.keys (ground arith), empty) (tt, tt)
      | inr more ↦
          let r = choose none (rotate (km.next % length km.keys) ks) in
          rw more (
            choose-none-IsChosen r (km.next % length km.keys) ks refl,
            All-rotate (IsBeaten r) (km.next % length km.keys) ks
                (choose-none-beats r (rotate (km.next % length km.keys) ks) refl),
          )
    ]
