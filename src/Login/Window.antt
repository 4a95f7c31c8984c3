-- ===== src/Login/Window.antt =====
-- The login limiter's windows against the history of attempts that passed (login_limiter.go).
use onmi_routers.Base.{
  ℕ, ◌-◌, ◌≤◌, ◌≡◌, refl, ◌∙◌, inl, inr, some, List, [], ◌∷◌, ◌++◌, arith, ltb, leb, if◌then◌else◌,
  Bool-cases, length, keep,
}
use onmi_routers.Login.{
  record_attempt, passes, hour_limit, minute_limit, Verdict, trim, LoginEntry, attempt_entry,
  minute, hour,
}

-- The times after `c`.
abbrev pub since : ℕ → List ℕ → List ℕ
since c = keep (λ t. ltb c t)

since-since : (c d : ℕ) (xs : List ℕ) → c ≤ d → since d (since c xs) ≡ since d xs
since-since c d [] h = refl
since-since c d (x ∷ xs) h = ground (arith, since-since c d xs h)

since-append : (c : ℕ) (xs ys : List ℕ) → since c (xs ++ ys) ≡ since c xs ++ since c ys
since-append c [] ys = refl
since-append c (x ∷ xs) ys = ground (arith, since-append c xs ys)

-- The two windows agree with the history on all that is recent at `t`.
pub record Agrees (t : ℕ) (passed : List ℕ) (e : LoginEntry) : Type 0 where
  pub minutes : (c : ℕ) → t - minute ≤ c → since c e.minute_window ≡ since c passed
  pub hours : (c : ℕ) → t - hour ≤ c → since c e.hour_window ≡ since c passed

pub later-Agrees :
    (t now : ℕ) (passed : List ℕ) (e : LoginEntry)
    → t ≤ now
    → Agrees t passed e
    → Agrees now passed e
later-Agrees t now passed e le a = record {
  minutes = λ c h. a.minutes c (omega arith);
  hours = λ c h. a.hours c (omega arith);
}

pub trim-Agrees :
    (now : ℕ) (passed : List ℕ) (e : LoginEntry)
    → Agrees now passed e
    → Agrees now passed (trim now e)
unfolding trim
trim-Agrees now passed e a = record {
  minutes = λ c h. since-since (now - minute) c e.minute_window h ∙ a.minutes c h;
  hours = λ c h. since-since (now - hour) c e.hour_window h ∙ a.hours c h;
}

record-Agrees :
    (now : ℕ) (passed : List ℕ) (e : LoginEntry)
    → Agrees now passed e
    → Agrees now (passed ++ now ∷ []) (record_attempt now e)
unfolding record_attempt
record-Agrees now passed e a = record {
  minutes = λ c h. ground (
    arith,
    since-append c e.minute_window (now ∷ []),
    since-append c passed (now ∷ []),
    a.minutes c h,
  );
  hours = λ c h. ground (
    arith,
    since-append c e.hour_window (now ∷ []),
    since-append c passed (now ∷ []),
    a.hours c h,
  );
}

-- The verdict by the history alone.
pub verdict : ℕ → List ℕ → Verdict
verdict now passed =
    if leb 5 (length (since (now - minute) passed))
    then minute_limit
    else if leb 20 (length (since (now - hour) passed))
    then hour_limit
    else passes

pub extend : ℕ → Verdict → List ℕ → List ℕ
extend now passes passed = passed ++ now ∷ []
extend now minute_limit passed = passed
extend now hour_limit passed = passed

module _ (now : ℕ) (passed : List ℕ) (e : LoginEntry) (a : Agrees now passed e) where
  pub verdict-trim : (attempt_entry now (some e)).1 ≡ verdict now passed
  unfolding attempt_entry verdict
  verdict-trim =
      let b = trim-Agrees now passed e a in
      ground (arith, a.minutes (now - minute) (omega arith), a.hours (now - hour) (omega arith))

  pub attempt-Agrees-some :
      Agrees now (extend now (attempt_entry now (some e)).1 passed) (attempt_entry now (some e)).0
  unfolding attempt_entry extend
  attempt-Agrees-some =
      let b = trim-Agrees now passed e a in
      let c = record-Agrees now passed (trim now e) b in
      elim (Bool-cases (leb 5 (length (since (now - minute) e.minute_window)))) [
        | inl many ↦ rw many b
        | inr few ↦ elim (Bool-cases (leb 20 (length (since (now - hour) e.hour_window)))) [
          | inl many ↦ rw (few, many) b
          | inr few' ↦ rw (few, few') c
        ]
      ]
