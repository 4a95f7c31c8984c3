-- ===== src/Login/Cleanup.antt =====
-- The worker that drops old entries from the login limiter (login_limiter.go).
use onmi_routers.Base.{
  ℕ, ◌-◌, ◌≤◌, ◌≡◌, refl, inl, inr, String, true, Option, none, some, List, [], ◌∷◌, arith, eq_iff,
  eq_refl, leb, str_eq, if◌then◌else◌, Bool-cases, length,
}
use onmi_routers.Base.Assoc.{lookup, IsDistinct}
use onmi_routers.Login.{Entries, LoginEntry, hour, entry_of, trim, cleanup}
use onmi_routers.Login.Window.{Agrees, trim-Agrees, since}

pub cleaned : ℕ → Option LoginEntry → Option LoginEntry
cleaned now none = none
cleaned now (some e) = if leb (length (trim now e).hour_window) 0 then none else some (trim now e)

lookup-cleanup_missing :
    (now : ℕ) (ip : String) (m : Entries) → lookup ip m ≡ none → lookup ip (cleanup now m) ≡ none
unfolding cleanup lookup
lookup-cleanup_missing now ip [] h = refl
lookup-cleanup_missing now ip ((j, e) ∷ m) h = ground (arith, lookup-cleanup_missing now ip m)

pub cleanup-IsDistinct : (now : ℕ) (m : Entries) → IsDistinct m → IsDistinct (cleanup now m)
unfolding cleanup lookup
cleanup-IsDistinct now [] d = tt
cleanup-IsDistinct now ((j, e) ∷ m) d =
    ground (arith, cleanup-IsDistinct now m d.1, lookup-cleanup_missing now j m d.0)

pub lookup-cleanup :
    (now : ℕ) (ip : String) (m : Entries)
    → IsDistinct m
    → lookup ip (cleanup now m) ≡ cleaned now (lookup ip m)
unfolding cleanup lookup cleaned
lookup-cleanup now ip [] d = refl
lookup-cleanup now ip ((j, e) ∷ m) d = elim (Bool-cases (str_eq j ip)) [
  | inl same ↦
      rw (← (eq_iff j ip).0 same) (ground (arith, eq_refl j, lookup-cleanup_missing now j m d.0))
  | inr other ↦ rw other (ground (arith, lookup-cleanup now ip m d.1))
]

since-empty : (c d : ℕ) (xs : List ℕ) → c ≤ d → length (since c xs) ≤ 0 → since d xs ≡ []
since-empty c d [] h e = refl
since-empty c d (x ∷ xs) h e = ground (arith, since-empty c d xs h)

pub cleaned-Agrees :
    (now : ℕ) (passed : List ℕ) (o : Option LoginEntry)
    → Agrees now passed (entry_of o)
    → Agrees now passed (entry_of (cleaned now o))
unfolding cleaned entry_of trim
cleaned-Agrees now passed none a = a
cleaned-Agrees now passed (some e) a = elim (Bool-cases (leb (length (trim now e).hour_window) 0)) [
  | inl gone ↦ rw gone (no_entry gone)
  | inr stays ↦ rw stays (trim-Agrees now passed e a)
]
  where
    nothing :
        leb (length (trim now e).hour_window) 0 ≡ true
        → (c : ℕ) → now - hour ≤ c
        → [] ≡ since c passed
    nothing gone c h = ground (arith, a.hours c h, since-empty (now - hour) c e.hour_window h)

    no_entry : leb (length (trim now e).hour_window) 0 ≡ true → Agrees now passed (entry_of none)
    no_entry gone = record {
      minutes = λ c h. nothing gone c (omega arith);
      hours = λ c h. nothing gone c h;
    }
