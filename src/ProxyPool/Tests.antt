-- ===== src/ProxyPool/Tests.antt =====
-- Examples of the proxy pool (internal/proxy/pool.go). Texts are in lower case, so lowering them
-- changes nothing.
use onmi_routers.ProxyPool.Rotation.{next-IsEligible, IsEligible}
use onmi_routers.Base.Int.{negsuc}
use onmi_routers.ProxyPool.Consistency.{IsConsistent}
use onmi_routers.ProxyPool.Validation.{validate-IsWellFormed, IsWellFormed}
use onmi_routers.Base.{
  ne_of_str_eq, arith, ltb, ◌⊎◌, ◌+◌, ◌≡◌, ℕ, refl, String, List, [], ◌∷◌, some, none, true,
}
use onmi_routers.Base.Text.{trim_space, contains_any}
use onmi_routers.ProxyPool.Histories.{
  Call, loads, adds, fails, picks, toggles, removes, run, run-IsConsistent,
}
use onmi_routers.ProxyPool.Failures.{
  Mark, marks_failed, marks_success, apply_all, failures, failures_disable,
}
use onmi_routers.ProxyPool.{
  normalise_upstreams, clean_upstreams, valid_upstream, proxy_fail_threshold, ProxyEntry,
  validate_entry, ok,
}
use onmi_routers.ProxyPool.Operations.{
  new_proxy_pool, find, scoped, dto_to_entry, next, ProxyPool, Db,
}

abbrev lower : String → String
lower s = s

abbrev entry : String → ℕ → ProxyEntry
entry id n = record {
  id = id;
  protocol = "http";
  host = "10.0.0.9";
  port = 8080;
  username = "";
  password = "";
  enabled = true;
  label = "";
  upstreams = "grok" ∷ [];
  created_at = 0;
  last_used_at = 0;
  fail_count = n;
}

abbrev pool : List ProxyEntry → ProxyPool
pool es = record { entries = es; enabled = es; rr_index = 1; transports = [] }

-- A store that fails whatever it is asked.
abbrev broken : Db
broken = some (λ call. true)

entry-valid : (id : String) (n : ℕ) → validate_entry lower (entry id n) ≡ ok (entry id n)
unfolding validate_entry trim_space contains_any normalise_upstreams clean_upstreams valid_upstream
entry-valid id n = refl

entry-IsWellFormed : (id : String) (n : ℕ) → IsWellFormed (entry id n)
entry-IsWellFormed id n = validate-IsWellFormed lower (entry id n) (entry id n) (entry-valid id n)

abbrev history : List Call
history =
    loads (some (ok (entry "p1" 4 ∷ [])))
    ∷ adds (some "p2") 7 (entry "" 0)
    ∷ fails "p1"
    ∷ picks none 8 "grok"
    ∷ toggles "p2"
    ∷ removes "p1"
    ∷ []

run-IsConsistent_example : IsConsistent (run lower none (λ e. true) history new_proxy_pool)
unfolding dto_to_entry
run-IsConsistent_example =
    run-IsConsistent lower none (λ e. true) history
      ((entry-IsWellFormed "p1" 4, tt), (tt, (tt, (tt, (tt, (tt, tt))))))

abbrev two : ProxyPool
two = pool (entry "p1" 0 ∷ entry "p2" 0 ∷ [])

two-IsConsistent : IsConsistent two
two-IsConsistent = record {
  enabled_kept = refl;
  well_formed = (entry-IsWellFormed "p1" 0, (entry-IsWellFormed "p2" 0, tt));
}

next-IsEligible_example :
    (((next (some (some (negsuc 2))) 9 "grok" two).1 ≡ none) × (scoped "grok" two ≡ []))
    ⊎ ((e : ProxyEntry) × ((next (some (some (negsuc 2))) 9 "grok" two).1 ≡ some e)
        × IsEligible "grok" e)
next-IsEligible_example = next-IsEligible (some (some (negsuc 2))) 9 "grok" two two-IsConsistent

abbrev marks : List Mark
marks = marks_failed "p1" ∷ marks_failed "p2" ∷ marks_success "p2" ∷ marks_failed "p1" ∷ []

failures_disable_example :
    (e' : ProxyEntry) × (find "p1" (apply_all broken marks (pool (entry "p1" 3 ∷ []))).entries
      ≡ some e')
    × (e'.fail_count ≡ 3 + failures "p1" marks)
    × (e'.enabled ≡ ltb (3 + failures "p1" marks) proxy_fail_threshold)
unfolding find
failures_disable_example =
    failures_disable broken "p1" marks (pool (entry "p1" 3 ∷ [])) (entry "p1" 3)
      (ne_of_str_eq "p1" "" refl) (tt, (tt, (refl, (tt, tt)))) refl refl (omega arith)
