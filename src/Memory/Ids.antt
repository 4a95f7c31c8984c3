-- ===== src/Memory/Ids.antt =====
-- The numbers in the items' names (internal/memory/memory.go, itoa).
use onmi_routers.Base.{
  ◌^◌, ◌^◌, ℕ, zero, suc, ◌+◌, ◌-◌, ◌*◌, ◌/◌, ◌%◌, ◌<◌, ◌≡◌, refl, ap, ◌∙◌, inl, inr, some, List,
  [], ◌∷◌, arith, ◌==◌, Bool-cases,
}
use onmi_routers.Memory.{digits, itoa}

-- The number that some digits stand for, behind a number.
pub value : ℕ → List ℕ → ℕ
value v [] = v
value v (d ∷ ds) = value (v * 10 + (d - b'0')) ds

digits-value :
    (i n : ℕ) (b : List ℕ)
    → n < 10 ^ i
    → (r : List ℕ) × (digits i n b ≡ some r) × (value 0 r ≡ value n b)
unfolding digits value
digits-value i zero b h = (b, refl, refl)
digits-value zero (suc n) b h = absurd (omega arith)
digits-value (suc i) (suc n) b h =
    let power : 10 ^ suc i ≡ 10 * 10 ^ i = omega arith in
    let less : suc n / 10 < 10 ^ i = omega arith in
    let (r, e, v) = digits-value i (suc n / 10) ((b'0' + suc n % 10) ∷ b) less in
    let same : suc n / 10 * 10 + (b'0' + suc n % 10 - b'0') ≡ suc n = omega arith in
    (r, e, v ∙ ap (λ k. value k b) same)

-- The conversion ends within its buffer of twelve digits for every number below 10^12, and the digits
-- stand for the number.
pub itoa-value :
    (n : ℕ) → n < 1_000_000_000_000 → (r : List ℕ) × (itoa n ≡ some r) × (value 0 r ≡ n)
unfolding itoa value
itoa-value n h = elim (Bool-cases (n == 0)) [
  | inl none_left ↦ (b'0' ∷ [], rw none_left refl, ground (arith, none_left))
  | inr more ↦ let (r, e, v) = digits-value 12 n [] h in (r, rw more e, v)
]
