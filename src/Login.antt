-- ===== src/Login.antt =====
-- login_limiter.go: at most five login attempts a minute and twenty an hour for a client's address.
-- Times are numbers of nanoseconds since some start that is at least an hour before every attempt.
pub mod Window
pub mod Cleanup
pub mod History
mod Tests
use onmi_routers.Base.{
  ℕ, zero, ◌+◌, ◌-◌, ◌*◌, refl, String, Option, none, some, List, [], ◌∷◌, ◌++◌, arith, ltb, leb,
  if◌then◌else◌, length, keep,
}
use onmi_routers.Base.Assoc.{lookup, insert}

pub record LoginEntry : Type 0 where
  pub minute_window : List ℕ
  pub hour_window : List ℕ

abbrev pub Entries : Type 0
Entries = List (String × LoginEntry)

abbrev pub minute : ℕ
minute = 60 * 1_000_000_000

abbrev pub hour : ℕ
hour = 60 * minute

-- Times after the cutoff stay.
pub trim_before : List ℕ → ℕ → List ℕ
trim_before times cutoff = keep (λ t. ltb cutoff t) times

pub data Verdict : Type 0 where
  passes minute_limit hour_limit : Verdict

pub empty_entry : LoginEntry
empty_entry = record { minute_window = []; hour_window = [] }

pub entry_of : Option LoginEntry → LoginEntry
unfolding empty_entry
entry_of none = empty_entry
entry_of (some e) = e

pub trim : ℕ → LoginEntry → LoginEntry
unfolding trim_before
trim now e = record {
  minute_window = trim_before e.minute_window (now - minute);
  hour_window = trim_before e.hour_window (now - hour);
}

pub record_attempt : ℕ → LoginEntry → LoginEntry
record_attempt now e = record {
  minute_window = e.minute_window ++ now ∷ [];
  hour_window = e.hour_window ++ now ∷ [];
}

judge : ℕ → LoginEntry → LoginEntry × Verdict
unfolding record_attempt
judge now e =
    if leb 5 (length e.minute_window)
    then (e, minute_limit)
    else if leb 20 (length e.hour_window)
    then (e, hour_limit)
    else (record_attempt now e, passes)

-- One attempt, on the entry of its address.
pub attempt_entry : ℕ → Option LoginEntry → LoginEntry × Verdict
unfolding entry_of trim judge
attempt_entry now o = judge now (trim now (entry_of o))

-- The handler of `middleware`.
pub attempt : ℕ → String → Entries → Entries × Verdict
attempt now ip entries =
    let (e, v) = attempt_entry now (lookup ip entries) in (insert ip e entries, v)

-- One pass of `cleanup`.
pub cleanup : ℕ → Entries → Entries
unfolding trim
cleanup now [] = []
cleanup now ((ip, e) ∷ entries) =
    let rest = cleanup now entries in
    let e' = trim now e in if leb (length e'.hour_window) 0 then rest else (ip, e') ∷ rest
