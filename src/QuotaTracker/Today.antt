-- ===== src/QuotaTracker/Today.antt =====
-- The usage of the day (internal/quota/quota.go).
use onmi_routers.Base.{
  ℕ, ◌+◌, ◌≤◌, ◌≡◌, refl, sym, ap, ◌∙◌, inl, inr, String, Bool, List, [], ◌∷◌, arith, eq_iff, ◌==◌,
  str_eq, if◌then◌else◌, Bool-cases,
}
use mathlib.Core.Path.{subst}
use onmi_routers.Base.Assoc.{lookup, insert, lookup-insert}
use onmi_routers.QuotaTracker.{
  Snapshot, Tracker, new_tracker, reset_all, roll_day, snapshot_of, set_pool, set_credits,
  add_usage,
}

pub data Call : Type 0 where
  pools : String → ℕ → ℕ → ℕ → Bool → Call
  credits : String → ℕ → ℕ → Call
  uses : String → ℕ → ℕ → Call

pub step : ℕ → Call → Tracker → Tracker
step today (pools f a h d o) t = set_pool today f a h d o t
step today (credits f remain limit) t = set_credits today f remain limit t
step today (uses f tokens cost) t = add_usage today f tokens cost t

pub run : List (ℕ × Call) → Tracker → Tracker
run [] t = t
run ((today, c) ∷ cs) t = run cs (step today c t)

abbrev pub IsOrdered : ℕ → List (ℕ × Call) → Type 0
IsOrdered d [] = Unit {0}
IsOrdered d ((today, c) ∷ cs) = (d ≤ today) × IsOrdered today cs

-- The tokens that a call uses of a family.
abbrev pub used_by : String → Call → ℕ
used_by f (pools g a h d o) = 0
used_by f (credits g remain limit) = 0
used_by f (uses g tokens cost) = if str_eq g f then tokens else 0

-- The tokens that a family uses on a day.
pub used_on : String → ℕ → List (ℕ × Call) → ℕ
used_on f d [] = 0
used_on f d ((today, c) ∷ cs) = (if today == d then used_by f c else 0) + used_on f d cs

abbrev pub tokens : String → Tracker → ℕ
tokens f t = (snapshot_of f t.snap).tokens_today

reset-tokens :
    (f : String) (snap : List (String × Snapshot))
    → (snapshot_of f (reset_all snap)).tokens_today ≡ 0
unfolding snapshot_of reset_all lookup
reset-tokens f [] = refl
reset-tokens f ((g, s) ∷ snap) = ground (arith, reset-tokens f snap)

roll_day-tokens :
    (today : ℕ) (f : String) (t : Tracker)
    → (tokens f (roll_day today t) ≡ (if today == t.day then tokens f t else 0))
      × ((roll_day today t).day ≡ today)
unfolding roll_day
roll_day-tokens today f t = (ground (arith, reset-tokens f t.snap), ground arith)

insert-tokens :
    (f g : String) (n : ℕ) (s : Snapshot) (snap : List (String × Snapshot))
    → s.tokens_today ≡ (snapshot_of g snap).tokens_today + n
    → (snapshot_of f (insert g s snap)).tokens_today
      ≡ (snapshot_of f snap).tokens_today + (if str_eq g f then n else 0)
unfolding snapshot_of
insert-tokens f g n s snap h = elim (Bool-cases (str_eq g f)) [
  | inl same ↦
      let e : g ≡ f = (eq_iff g f).0 same in
      ground
        (arith, lookup-insert g f s snap, same, h, ap (λ x. (snapshot_of x snap).tokens_today) e)
  | inr other ↦ ground (arith, lookup-insert g f s snap, other)
]

kept-tokens :
    (f g : String) (s : Snapshot) (snap : List (String × Snapshot))
    → s.tokens_today ≡ (snapshot_of g snap).tokens_today
    → (snapshot_of f (insert g s snap)).tokens_today ≡ (snapshot_of f snap).tokens_today
kept-tokens f g s snap h = ground (arith, insert-tokens f g 0 s snap (omega (arith, h)))

plus_zero : (n : ℕ) → n ≡ n + 0
plus_zero n = omega arith

step-tokens :
    (today : ℕ) (f : String) (c : Call) (t : Tracker)
    → (tokens f (step today c t) ≡ (if today == t.day then tokens f t else 0) + used_by f c)
      × ((step today c t).day ≡ today)
unfolding step set_pool set_credits add_usage
step-tokens today f (pools g a h d o) t =
    let (rolled, day) = roll_day-tokens today f t in
    (kept-tokens f g _ (roll_day today t).snap refl ∙ rolled ∙ plus_zero _, day)
step-tokens today f (credits g remain limit) t =
    let (rolled, day) = roll_day-tokens today f t in
    (kept-tokens f g _ (roll_day today t).snap refl ∙ rolled ∙ plus_zero _, day)
step-tokens today f (uses g n cost) t =
    let (rolled, day) = roll_day-tokens today f t in
    (
      insert-tokens f g n _ (roll_day today t).snap refl
          ∙ ap (λ x. x + (if str_eq g f then n else 0)) rolled,
      day,
    )

run-day : (cs : List (ℕ × Call)) (t : Tracker) → IsOrdered t.day cs → t.day ≤ (run cs t).day
unfolding run
run-day [] t o = omega arith
run-day ((today, c) ∷ cs) t o =
    let day = (step-tokens today "" c t).1 in
    let later = run-day cs (step today c t) (subst (λ d. IsOrdered d cs) (sym day) o.1) in
    omega (arith, later, day, o.0)

run-tokens :
    (f : String) (cs : List (ℕ × Call)) (t : Tracker)
    → IsOrdered t.day cs
    → tokens f (run cs t)
      ≡ (if (run cs t).day == t.day then tokens f t else 0) + used_on f (run cs t).day cs
unfolding run used_on
run-tokens f [] t o = ground arith
run-tokens f ((today, c) ∷ cs) t o =
    let (here, day) = step-tokens today f c t in
    let o' = subst (λ d. IsOrdered d cs) (sym day) o.1 in
    let later = run-tokens f cs (step today c t) o' in
    let after = run-day cs (step today c t) o' in ground (arith, later, here, day, after, o.0)

empty-tokens : (f : String) → (snapshot_of f []).tokens_today ≡ 0
unfolding snapshot_of lookup
empty-tokens f = refl

-- The tracker counts the tokens of the day: over any calls, on days that do not fall, the tokens that
-- it has for a family are those that the family used on the day of the last call, and no others.
pub tokens_of_the_day :
    (today : ℕ) (f : String) (cs : List (ℕ × Call))
    → IsOrdered today cs
    → let t = run cs (new_tracker today) in tokens f t ≡ used_on f t.day cs
tokens_of_the_day today f cs o =
    run-tokens f cs (new_tracker today) o ∙ ground (arith, empty-tokens f)
