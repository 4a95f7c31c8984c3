-- ===== src/Sessions/Held.antt =====
-- What the holder of one session token should get (internal/auth/session_store.go).
use onmi_routers.Base.Assoc.{passing}
use onmi_routers.Sessions.{Session, session_idle_ttl, is_idle}
use onmi_routers.Base.{
  ℕ, ◌-◌, ◌≤◌, ◌<◌, ◌≡◌, refl, String, Bool, not, Option, none, some, List, [], ◌∷◌, arith, leb,
  str_eq, if◌then◌else◌,
}

pub data Event : Type 0 where
  creates : String → String → Event
  looks : String → Event
  revokes : String → Event
  cleans : Event

abbrev pub Timed : Type 0
Timed = ℕ × Event

abbrev pub IsOrdered : ℕ → List Timed → Type 0
IsOrdered t [] = Unit {0}
IsOrdered t ((now, e) ∷ es) = (t ≤ now) × IsOrdered now es

-- What one token should give: the key that it was made for and the last time at which it was used, none
-- after it was revoked.
abbrev pub Held : Type 0
Held = Option (String × ℕ)

abbrev pub is_live : ℕ → ℕ → Bool
is_live now last = leb (now - last) session_idle_ttl

abbrev pub use_held : ℕ → Held → Held × String
use_held now none = (none, "")
use_held now (some (key, last)) = if is_live now last then (some (key, now), key) else (none, "")

-- The answers that the holder of one token should get.
unfoldable pub expected : String → List Timed → Held → List String
expected token [] h = []
expected token ((now, creates t key) ∷ es) h =
    expected token es (if str_eq t token then some (key, now) else h)
expected token ((now, looks t) ∷ es) h =
    let (h', answer) = use_held now h in
    let later = expected token es (if str_eq t token then h' else h) in
    if str_eq t token then answer ∷ later else later
expected token ((now, revokes t) ∷ es) h = expected token es (if str_eq t token then none else h)
expected token ((now, cleans) ∷ es) h = expected token es h

-- A session is as it should be, or is gone because it is idle too long.
abbrev pub Agrees : ℕ → Held → Option Session → Type 0
Agrees now none none = Unit {0}
Agrees now none (some s) = session_idle_ttl < now - s.last_seen
Agrees now (some (key, last)) none = session_idle_ttl < now - last
Agrees now (some (key, last)) (some s) = (s.key ≡ key) × (s.last_seen ≡ last)

pub later-Agrees :
    (t now : ℕ) (h : Held) (o : Option Session) → t ≤ now → Agrees t h o → Agrees now h o
later-Agrees t now none none le a = tt
later-Agrees t now none (some s) le a = omega arith
later-Agrees t now (some h) none le a = omega arith
later-Agrees t now (some h) (some s) le a = a

-- What becomes of one token's session.
unfoldable pub after_use : ℕ → Option Session → Option Session × String
unfolding is_idle
after_use now none = (none, "")
after_use now (some s) =
    if is_idle now s then (none, "") else (some (record s { last_seen = now }), s.key)

pub use-Agrees :
    (now : ℕ) (h : Held) (o : Option Session)
    → Agrees now h o
    → Agrees now (use_held now h).0 (after_use now o).0 × ((after_use now o).1 ≡ (use_held now h).1)
unfolding after_use
use-Agrees now none none a = (tt, refl)
use-Agrees now none (some s) a = ground arith
use-Agrees now (some h) none a = ground arith
use-Agrees now (some h) (some s) a = ground arith

pub cleaned-Agrees :
    (now : ℕ) (h : Held) (o : Option Session)
    → Agrees now h o
    → Agrees now h (passing (λ s. not (is_idle now s)) o)
unfolding is_idle
cleaned-Agrees now h none a = a
cleaned-Agrees now none (some s) a = ground arith
cleaned-Agrees now (some h) (some s) a = ground arith
