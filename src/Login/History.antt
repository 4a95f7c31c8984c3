-- ===== src/Login/History.antt =====
-- The login limiter over whole histories (login_limiter.go).
use onmi_routers.Base.{
  ℕ, ◌≤◌, ◌≡◌, refl, inl, inr, String, Option, none, some, List, [], ◌∷◌, eq_iff, eq_refl, str_eq,
  if◌then◌else◌, Bool-cases,
}
use onmi_routers.Base.Assoc.{
  lookup-insert_self, lookup, insert, IsDistinct, insert-IsDistinct, lookup-insert,
}
use onmi_routers.Login.{LoginEntry, attempt_entry, entry_of, attempt, cleanup, Entries, Verdict}
use onmi_routers.Login.Window.{
  Agrees, verdict, extend, verdict-trim, attempt-Agrees-some, later-Agrees,
}
use onmi_routers.Login.Cleanup.{cleaned-Agrees, lookup-cleanup, cleanup-IsDistinct}

attempt_entry-Agrees :
    (now : ℕ) (passed : List ℕ) (o : Option LoginEntry)
    → Agrees now passed (entry_of o)
    → let (e', v) = attempt_entry now o in
      (v ≡ verdict now passed) × Agrees now (extend now v passed) e'
unfolding entry_of attempt_entry
attempt_entry-Agrees now passed none a =
    (verdict-trim now passed (entry_of none) a, attempt-Agrees-some now passed (entry_of none) a)
attempt_entry-Agrees now passed (some e) a =
    (verdict-trim now passed e a, attempt-Agrees-some now passed e a)

pub data Event : Type 0 where
  attempts : String → Event
  cleans : Event

abbrev pub Timed : Type 0
Timed = ℕ × Event

-- What the limiter told one address, in order.
pub verdicts : String → List Timed → Entries → List Verdict
verdicts ip [] m = []
verdicts ip ((now, attempts j) ∷ es) m =
    let (m', v) = attempt now j m in
    let later = verdicts ip es m' in if str_eq j ip then v ∷ later else later
verdicts ip ((now, cleans) ∷ es) m = verdicts ip es (cleanup now m)

-- What an address should be told, by its own attempts that passed.
pub expected : String → List Timed → List ℕ → List Verdict
expected ip [] passed = []
expected ip ((now, attempts j) ∷ es) passed =
    let v = verdict now passed in
    let later = expected ip es (if str_eq j ip then extend now v passed else passed) in
    if str_eq j ip then v ∷ later else later
expected ip ((now, cleans) ∷ es) passed = expected ip es passed

abbrev pub IsOrdered : ℕ → List Timed → Type 0
IsOrdered t [] = Unit {0}
IsOrdered t ((now, e) ∷ es) = (t ≤ now) × IsOrdered now es

verdicts-expected :
    (ip : String) (t : ℕ) (passed : List ℕ) (es : List Timed) (m : Entries)
    → IsDistinct m
    → IsOrdered t es
    → Agrees t passed (entry_of (lookup ip m))
    → verdicts ip es m ≡ expected ip es passed
unfolding verdicts expected attempt entry_of
verdicts-expected ip t passed [] m d o a = refl
verdicts-expected ip t passed ((now, cleans) ∷ es) m d o a =
    let a' = later-Agrees t now passed _ o.0 a in
    verdicts-expected ip now passed es (cleanup now m) (cleanup-IsDistinct now m d) o.1
      (rw (lookup-cleanup now ip m d) (cleaned-Agrees now passed (lookup ip m) a'))
verdicts-expected ip t passed ((now, attempts j) ∷ es) m d o a =
    let a' = later-Agrees t now passed _ o.0 a in
    let taken = attempt_entry now (lookup j m) in
    let d' = insert-IsDistinct j taken.0 m d in
    elim (Bool-cases (str_eq j ip)) [
      | inl mine ↦
          let e : j ≡ ip = (eq_iff j ip).0 mine in
          let mine' = attempt_entry now (lookup ip m) in
          let own = attempt_entry-Agrees now passed (lookup ip m) a' in
          let later =
            verdicts-expected ip now (extend now mine'.1 passed) es (insert ip mine'.0 m)
              (insert-IsDistinct ip mine'.0 m d) o.1 (rw (lookup-insert_self ip mine'.0 m) own.1) in
          rw (e, eq_refl ip) (cc (later, own.0))
      | inr other ↦ rw other (
          verdicts-expected ip now passed es (insert j taken.0 m) d' o.1
            (rw (lookup-insert j ip taken.0 m, other) a'))
    ]

-- Over any calls and clean-ups, at times that do not fall, every address is told exactly what its own
-- history asks for: an attempt passes when fewer than five of its attempts passed in the minute
-- before and fewer than twenty in the hour before, and otherwise it is refused for the minute, or for
-- the hour.
pub verdicts_by_history :
    (ip : String) (t : ℕ) (es : List Timed) → IsOrdered t es → verdicts ip es [] ≡ expected ip es []
unfolding lookup entry_of
verdicts_by_history ip t es o =
    verdicts-expected ip t [] es [] tt o (record { minutes = λ c h. refl; hours = λ c h. refl })
