-- ===== src/Base/Rotation.antt =====
-- A slice read from an index on and round to it again.
use native.Mathlib.Nat.{mod-add-mod, mod-eq_of_lt, add-mod_right}
use native.Mathlib.Omega.{arith}
use onmi_routers.Base.Tests.{leb, Bool-cases}
use Prim.Native.Nat.{ℕ, zero, suc, ◌+◌, ◌-◌, ◌%◌, ◌<◌}
use mathlib.Core.Path.{◌≡◌, sym, ◌∙◌}
use mathlib.Core.Logic.{◌⊎◌, inl, inr}
use mathlib.Core.List.{List, [], ◌∷◌, ◌++◌}
use onmi_routers.Base.Lists.{drop, All}

module _ {A : Type 0} where
  abbrev pub take : ℕ → List A → List A
  take zero xs = []
  take (suc n) [] = []
  take (suc n) (x ∷ xs) = x ∷ take n xs

  -- The list read round from an index.
  abbrev pub rotate : ℕ → List A → List A
  rotate n xs = drop n xs ++ take n xs

  abbrev pub Among : A → List A → Type 0
  Among a [] = ⊥
  Among a (x ∷ xs) = (a ≡ x) ⊎ Among a xs

  pub Among-append : (a : A) (xs ys : List A) → Among a (xs ++ ys) → Among a xs ⊎ Among a ys
  Among-append a [] ys h = inr h
  Among-append a (x ∷ xs) ys (inl e) = inl (inl e)
  Among-append a (x ∷ xs) ys (inr h) = elim (Among-append a xs ys h) [
    | inl l ↦ inl (inr l)
    | inr r ↦ inr r
  ]

  pub Among-drop : (a : A) (n : ℕ) (xs : List A) → Among a (drop n xs) → Among a xs
  Among-drop a zero xs h = h
  Among-drop a (suc n) [] h = h
  Among-drop a (suc n) (x ∷ xs) h = inr (Among-drop a n xs h)

  pub Among-take : (a : A) (n : ℕ) (xs : List A) → Among a (take n xs) → Among a xs
  Among-take a zero xs h = absurd h
  Among-take a (suc n) [] h = h
  Among-take a (suc n) (x ∷ xs) (inl e) = inl e
  Among-take a (suc n) (x ∷ xs) (inr h) = inr (Among-take a n xs h)

  pub Among-rotate : (a : A) (n : ℕ) (xs : List A) → Among a (rotate n xs) → Among a xs
  Among-rotate a n xs h = elim (Among-append a (drop n xs) (take n xs) h) [
    | inl d ↦ Among-drop a n xs d
    | inr t ↦ Among-take a n xs t
  ]

  module _ {κ} (P : A → Type κ) where
    All-parts : (xs ys : List A) → All P (xs ++ ys) → All P xs × All P ys
    All-parts [] ys a = (tt, a)
    All-parts (x ∷ xs) ys a = let rest = All-parts xs ys a.1 in ((a.0, rest.0), rest.1)

    All-join : (n : ℕ) (xs : List A) → All P (take n xs) → All P (drop n xs) → All P xs
    All-join zero xs t d = d
    All-join (suc n) [] t d = d
    All-join (suc n) (x ∷ xs) t d = (t.0, All-join n xs t.1 d)

    pub All-rotate : (n : ℕ) (xs : List A) → All P (rotate n xs) → All P xs
    All-rotate n xs a =
        let parts = All-parts (drop n xs) (take n xs) a in All-join n xs parts.1 parts.0

-- The number of steps round a ring from `r` until `j` is reached.
pub turn : (r j n : ℕ) → j < n → (k : ℕ) × (k < n) × ((r + k) % n ≡ j)
turn r j n h = elim (Bool-cases (leb (r % n) j)) [
  | inl ahead ↦
      let k = j - r % n in
      let e : r % n + k ≡ j = ground arith in
      (k, omega arith, sym (mod-add-mod r n k) ∙ rw e (mod-eq_of_lt h))
  | inr behind ↦
      let k = j + n - r % n in
      let low : r % n < n = grind arith in
      let e : r % n + k ≡ j + n = ground arith in
      (k, ground arith, sym (mod-add-mod r n k) ∙ rw e (add-mod_right j n ∙ mod-eq_of_lt h))
]
