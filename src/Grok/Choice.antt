-- ===== src/Grok/Choice.antt =====
-- Which account `Next` gives (internal/upstream/grok.go).
use onmi_routers.Base.{
  Among, ℕ, ◌+◌, ◌%◌, ◌≤◌, ◌<◌, ◌≡◌, refl, sym, ap, ◌∙◌, ◌⊎◌, inl, inr, true, false, Option, none,
  some, List, [], ◌∷◌, arith, ltb, Bool-cases, length, All,
}
use mathlib.Core.Path.{subst}
use onmi_routers.Grok.{
  next_among, no_accounts, all_disabled, refreshing, ready, Chosen, moved, GrokAccountManager,
  next_account, first_pass, second_pass, best_of, GrokAccount, is_usable, find_usable,
}
use onmi_routers.Grok.Turn.{at, Unusable, IsFound, find_usable-IsFound}

abbrev pub Within : GrokAccount → GrokAccount → Type 0
Within b a = a.disabled ≡ false → a.expires_at ≤ b.expires_at

better-Within :
    (b c : GrokAccount) (accounts : List GrokAccount)
    → b.expires_at ≤ c.expires_at
    → All (Within b) accounts
    → All (Within c) accounts
better-Within b c [] h w = tt
better-Within b c (a ∷ rest) h w = (λ e. omega (arith, w.0 e), better-Within b c rest h w.1)

best_from :
    (s : GrokAccount) (accounts : List GrokAccount)
    → (b : GrokAccount) × (best_of (some s) accounts ≡ some b)
      × ((b ≡ s) ⊎ (Among b accounts × (b.disabled ≡ false)))
      × (s.expires_at ≤ b.expires_at)
      × All (Within b) accounts
unfolding best_of
best_from s [] = (s, refl, inl refl, omega arith, tt)
best_from s (a ∷ rest) = elim (Bool-cases a.disabled) [
  | inl off ↦
      let (b, e, from, le, w) = best_from s rest in
      (b, ground (arith, off, e), kept from, le, (λ h. absurd (ground (arith, h, off)), w))
  | inr enabled ↦ elim (Bool-cases (ltb s.expires_at a.expires_at)) [
    | inl more ↦
        let (b, e, from, le, w) = best_from a rest in
        let longer : s.expires_at < a.expires_at = ground (arith, more) in
        (b, ground (arith, enabled, more, e), taken enabled from, omega arith, (λ h. le, w))
    | inr less ↦
        let (b, e, from, le, w) = best_from s rest in
        let shorter : a.expires_at ≤ s.expires_at = ground (arith, less) in
        (b, ground (arith, enabled, less, e), kept from, le, (λ h. omega arith, w))
  ]
]
  where
    kept :
        {b : GrokAccount}
        → ((b ≡ s) ⊎ (Among b rest × (b.disabled ≡ false)))
        → ((b ≡ s) ⊎ (Among b (a ∷ rest) × (b.disabled ≡ false)))
    kept (inl h) = inl h
    kept (inr (h, d)) = inr (inr h, d)

    taken :
        {b : GrokAccount}
        → a.disabled ≡ false
        → ((b ≡ a) ⊎ (Among b rest × (b.disabled ≡ false)))
        → ((b ≡ s) ⊎ (Among b (a ∷ rest) × (b.disabled ≡ false)))
    taken on (inl h) = inr (inl h, ap (λ x. x.disabled) h ∙ on)
    taken on (inr (h, d)) = inr (inr h, d)

abbrev IsBest : List GrokAccount → Option GrokAccount → Type 0
IsBest accounts none = All (λ a. a.disabled ≡ true) accounts
IsBest accounts (some b) = Among b accounts × (b.disabled ≡ false) × All (Within b) accounts

best_of-IsBest : (accounts : List GrokAccount) → IsBest accounts (best_of none accounts)
unfolding best_of
best_of-IsBest [] = tt
best_of-IsBest (a ∷ rest) = elim (Bool-cases a.disabled) [
  | inl off ↦
      subst (IsBest (a ∷ rest)) (skipped off)
        (off_first off (best_of none rest) (best_of-IsBest rest))
  | inr enabled ↦ subst (IsBest (a ∷ rest)) (sym (started enabled)) (first_best enabled)
]
  where
    skipped : a.disabled ≡ true → best_of none rest ≡ best_of none (a ∷ rest)
    skipped off = ground (arith, off)

    off_first : a.disabled ≡ true → (o : Option GrokAccount) → IsBest rest o → IsBest (a ∷ rest) o
    off_first off none h = (off, h)
    off_first off (some b) h = (inr h.0, h.1, ((λ on. absurd (ground (arith, on, off))), h.2))

    started : a.disabled ≡ false → best_of none (a ∷ rest) ≡ some (best_from a rest).0
    started enabled = ground (arith, enabled, (best_from a rest).1)

    first_best : a.disabled ≡ false → IsBest (a ∷ rest) (some (best_from a rest).0)
    first_best enabled =
        let (b, e, from, le, w) = best_from a rest in
        (
          elim from [ inl h ↦ inl h | inr h ↦ inr h.0 ],
          elim from [ inl h ↦ ap (λ x. x.disabled) h ∙ enabled | inr h ↦ h.1 ],
          ((λ h. le), w),
        )

-- What `Next` gives, by the account that it gives.
abbrev pub IsPicked : ℕ → GrokAccountManager → GrokAccountManager × Chosen → Type 0
IsPicked now am (am', ready a) =
    (k : ℕ) × (k < length am.accounts)
    × (at now am.accounts am.next k ≡ some a)
    × (is_usable now a ≡ true)
    × Unusable now am.accounts am.next 0 k
    × (am' ≡ moved ((am.next + k) % length am.accounts + 1) am)
IsPicked now am (am', refreshing a) =
    Unusable now am.accounts am.next 0 (length am.accounts)
    × Among a am.accounts
    × (a.disabled ≡ false)
    × All (Within a) am.accounts
    × (am' ≡ moved (am.next + 1) am)
IsPicked now am (am', all_disabled) = All (λ a. a.disabled ≡ true) am.accounts × (am' ≡ am)
IsPicked now am (am', no_accounts) = (am.accounts ≡ []) × (am' ≡ am)

second_pass-IsPicked :
    (now : ℕ) (am : GrokAccountManager) (o : Option GrokAccount)
    → Unusable now am.accounts am.next 0 (length am.accounts)
    → IsBest am.accounts o
    → IsPicked now am (second_pass am o)
unfolding second_pass
second_pass-IsPicked now am none u h = (h, refl)
second_pass-IsPicked now am (some a) u h = (u, h.0, h.1, h.2, refl)

first_pass-IsPicked :
    (now : ℕ) (am : GrokAccountManager) (o : Option (ℕ × GrokAccount))
    → IsFound now am.accounts am.next 0 (length am.accounts) o
    → IsPicked now am (first_pass am o)
unfolding first_pass
first_pass-IsPicked now am none u =
    second_pass-IsPicked now am (best_of none am.accounts) u (best_of-IsBest am.accounts)
first_pass-IsPicked now am (some (idx, a)) (k, le, lt, i, e, ok, before) =
    (k, lt, e, ok, before, ap (λ x. moved (x + 1) am) i)

next_among-IsPicked :
    (now : ℕ) (am : GrokAccountManager) (accounts : List GrokAccount)
    → am.accounts ≡ accounts
    → IsPicked now am (next_among now am accounts)
unfolding next_among
next_among-IsPicked now am [] e = (e, refl)
next_among-IsPicked now am (a ∷ rest) e =
    first_pass-IsPicked now am (find_usable now am.accounts am.next 0 (length am.accounts)) (
      find_usable-IsFound now am.accounts am.next (length am.accounts) 0 (length am.accounts)
        (omega arith))

-- The choice of an account: with the cursor's account first and round the list, the first that is
-- enabled and has more than ten minutes left is given and the cursor is put behind it; if there is
-- none, the one that expires last among the enabled ones is given, its refresh is started and the
-- cursor moves by one; and only without any enabled account there is none to give, which changes
-- nothing.
pub next_account-IsPicked :
    (now : ℕ) (am : GrokAccountManager) → IsPicked now am (next_account now am)
unfolding next_account
next_account-IsPicked now am = next_among-IsPicked now am am.accounts refl
