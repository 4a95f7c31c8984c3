-- ===== src/Base/Assoc.antt =====
-- Go maps with text keys, as association lists. A lookup reads the first entry of a key.
use onmi_routers.Base.{inr, inl, Bool-cases, keep, Bool}
use Prim.Native.Nat.{◌+◌, ◌≤◌}
use Prim.Native.String.{String}
use mathlib.Core.Path.{◌≡◌, refl}
use mathlib.Core.List.{List, [], ◌∷◌}
use mathlib.Core.Option.{Option, none, some}
use native.Mathlib.Omega.{arith}
use text.Mathlib.TextEquality.{eq_iff}
use text.Mathlib.TextPositions.{eq_refl}
use onmi_routers.Base.Tests.{str_eq, if◌then◌else◌}
use onmi_routers.Base.Lists.{length}

module _ {ℓ} {V : Type ℓ} where
  -- m[k], and whether k is there.
  unfoldable pub lookup : String → List (String × V) → Option V
  lookup k [] = none
  lookup k ((j, v) ∷ m) = if str_eq j k then some v else lookup k m

  -- m[k] = v
  unfoldable pub insert : String → V → List (String × V) → List (String × V)
  insert k v [] = (k, v) ∷ []
  insert k v ((j, w) ∷ m) = if str_eq j k then (k, v) ∷ m else (j, w) ∷ insert k v m

  -- delete(m, k)
  unfoldable pub erase : String → List (String × V) → List (String × V)
  erase k [] = []
  erase k ((j, w) ∷ m) = let rest = erase k m in if str_eq j k then rest else (j, w) ∷ rest

  pub lookup-insert :
      (stored wanted : String) (new : V) (entries : List (String × V))
      → lookup wanted (insert stored new entries)
        ≡ (if str_eq stored wanted then some new else lookup wanted entries)
  unfolding lookup insert
  lookup-insert stored wanted new [] = refl
  lookup-insert stored wanted new ((own, old) ∷ rest) = ground (
    arith,
    lookup-insert stored wanted new rest,
    eq_iff own stored,
    eq_iff own wanted,
    eq_iff stored wanted,
  )

  pub lookup-erase :
      (k j : String) (m : List (String × V))
      → lookup j (erase k m) ≡ (if str_eq k j then none else lookup j m)
  unfolding lookup erase
  lookup-erase k j [] = ground arith
  lookup-erase k j ((i, w) ∷ m) =
      ground (arith, eq_iff k j, eq_iff i k, eq_iff i j, lookup-erase k j m)

  pub lookup-insert_self :
      (k : String) (v : V) (m : List (String × V)) → lookup k (insert k v m) ≡ some v
  lookup-insert_self k v m = simp (lookup-insert, eq_refl)

  pub lookup-erase_self : (k : String) (m : List (String × V)) → lookup k (erase k m) ≡ none
  lookup-erase_self k m = simp (lookup-erase, eq_refl)

  pub length-insert-le :
      (k : String) (v : V) (m : List (String × V)) → length (insert k v m) ≤ length m + 1
  unfolding insert
  length-insert-le k v [] = omega arith
  length-insert-le k v ((j, w) ∷ m) = ground (arith, length-insert-le k v m)

module _ {ℓ} {V : Type ℓ} where
  -- No key stands twice, as in a Go map.
  abbrev pub IsDistinct : List (String × V) → Type ℓ
  IsDistinct [] = Unit {ℓ}
  IsDistinct ((k, v) ∷ m) = (lookup k m ≡ none) × IsDistinct m

  pub erase-IsDistinct :
      (k : String) (m : List (String × V)) → IsDistinct m → IsDistinct (erase k m)
  unfolding erase
  erase-IsDistinct k [] d = tt
  erase-IsDistinct k ((j, v) ∷ m) d = ground (arith, erase-IsDistinct k m d.1, lookup-erase k j m)

  pub insert-IsDistinct :
      (k : String) (v : V) (m : List (String × V)) → IsDistinct m → IsDistinct (insert k v m)
  unfolding insert lookup
  insert-IsDistinct k v [] d = (refl, tt)
  insert-IsDistinct k v ((j, w) ∷ m) d =
      ground (arith, insert-IsDistinct k v m d.1, lookup-insert k j v m, eq_iff j k, eq_iff k j)

  keep-missing :
      (k : String) (p : String × V → Bool) (m : List (String × V))
      → lookup k m ≡ none
      → lookup k (keep p m) ≡ none
  unfolding lookup
  keep-missing k p [] h = refl
  keep-missing k p ((j, v) ∷ m) h = ground (arith, keep-missing k p m)

  pub keep-IsDistinct :
      (p : String × V → Bool) (m : List (String × V)) → IsDistinct m → IsDistinct (keep p m)
  keep-IsDistinct p [] d = tt
  keep-IsDistinct p ((j, v) ∷ m) d = ground (arith, keep-IsDistinct p m d.1, keep-missing j p m d.0)

  abbrev pub passing : (V → Bool) → Option V → Option V
  passing p none = none
  passing p (some v) = if p v then some v else none

  -- An entry outlives a loop that deletes while it ranges exactly if it passes the test.
  pub lookup-keep :
      (k : String) (p : String × V → Bool) (m : List (String × V))
      → IsDistinct m
      → lookup k (keep p m) ≡ passing (λ v. p (k, v)) (lookup k m)
  unfolding lookup
  lookup-keep k p [] d = refl
  lookup-keep k p ((j, v) ∷ m) d = elim (Bool-cases (str_eq j k)) [
    | inl same ↦ rw (← (eq_iff j k).0 same) (ground (arith, eq_refl j, keep-missing j p m d.0))
    | inr other ↦ rw other (ground (arith, lookup-keep k p m d.1))
  ]
