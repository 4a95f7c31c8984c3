-- ===== src/QuotaTracker/Tests.antt =====
-- Examples of the usage of the day (internal/quota/quota.go).
use onmi_routers.Base.{ℕ, ◌≡◌, false, List, [], ◌∷◌, arith}
use onmi_routers.QuotaTracker.{new_tracker}
use onmi_routers.QuotaTracker.Today.{
  Call, pools, uses, IsOrdered, run, tokens, used_on, tokens_of_the_day,
}

abbrev two_days : List (ℕ × Call)
two_days =
    (7, uses "grok" 30 1)
    ∷ (7, uses "codebuddy" 5 1)
    ∷ (8, pools "grok" 3 2 1 false)
    ∷ (8, uses "grok" 4 1)
    ∷ (8, uses "grok" 6 1)
    ∷ []

two_days-IsOrdered : IsOrdered 7 two_days
two_days-IsOrdered = ground arith

tokens_of_the_day_example :
    let t = run two_days (new_tracker 7) in tokens "grok" t ≡ used_on "grok" t.day two_days
tokens_of_the_day_example = tokens_of_the_day 7 "grok" two_days two_days-IsOrdered
