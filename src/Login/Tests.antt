-- ===== src/Login/Tests.antt =====
-- Examples of the login limiter (login_limiter.go).
use onmi_routers.Base.{◌+◌, ◌≡◌, List, [], ◌∷◌, arith}
use onmi_routers.Login.{minute, hour}
use onmi_routers.Login.History.{
  Timed, attempts, cleans, verdicts, expected, IsOrdered, verdicts_by_history,
}

-- Six attempts of one address within a minute, another's, a pass of the clean-up, and one more.
abbrev burst : List Timed
burst =
    (hour, attempts "a")
    ∷ (hour + 1, attempts "a")
    ∷ (hour + 2, attempts "a")
    ∷ (hour + 3, attempts "a")
    ∷ (hour + 4, attempts "a")
    ∷ (hour + 5, attempts "a")
    ∷ (hour + 6, attempts "b")
    ∷ (hour + minute, cleans)
    ∷ (hour + minute + 1, attempts "a")
    ∷ []

burst-IsOrdered : IsOrdered hour burst
burst-IsOrdered = ground arith

verdicts_by_history_example : verdicts "a" burst [] ≡ expected "a" burst []
verdicts_by_history_example = verdicts_by_history "a" hour burst burst-IsOrdered
