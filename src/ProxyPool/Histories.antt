-- ===== src/ProxyPool/Histories.antt =====
-- The proxy pool over any sequence of operations (internal/proxy/pool.go).
use onmi_routers.Base.{ℕ, ◌≡◌, refl, String, Bool, Option, List, [], ◌∷◌, arith, All}
use onmi_routers.Base.Int.{ℤ}
use onmi_routers.ProxyPool.{ProxyEntry, Result}
use onmi_routers.ProxyPool.Operations.{
  ProxyPool, new_proxy_pool, Db, Update, load, add, update, delete, toggle, next, mark_failed,
  mark_success, transport, cursor,
}
use onmi_routers.ProxyPool.Consistency.{IsConsistent}
use onmi_routers.ProxyPool.Calls.{
  IsTrusted, or_same, loads-IsConsistent, adds-IsConsistent, updates-IsConsistent,
  removes-IsConsistent, toggles-IsConsistent, fails-IsConsistent, succeeds-IsConsistent,
}

pub data Call : Type 0 where
  loads : Option (Result (List ProxyEntry)) → Call
  adds : Option String → ℕ → ProxyEntry → Call
  updates : String → Update → Call
  removes toggles fails succeeds : String → Call
  picks : Option (Option ℤ) → ℕ → String → Call
  connects : ProxyEntry → Call

-- What a load returns is well formed.
abbrev pub HasTrust : Call → Type 0
HasTrust (loads reply) = IsTrusted reply
HasTrust _ = Unit {0}

module _ (lower : String → String) (db : Db) (builds : ProxyEntry → Bool) where
  pub step : Call → ProxyPool → ProxyPool
  step (loads reply) p = or_same p (load reply p)
  step (adds random now e) p = (add lower db random now e p).0
  step (updates id u) p = (update lower db id u p).0
  step (removes id) p = (delete db id p).0
  step (toggles id) p = (toggle db id p).0
  step (fails id) p = (mark_failed db id p).0
  step (succeeds id) p = (mark_success db id p).0
  step (picks incr now upstream) p = (next incr now upstream p).0
  step (connects e) p = (transport builds e p).0

  pub run : List Call → ProxyPool → ProxyPool
  run [] p = p
  run (c ∷ cs) p = run cs (step c p)

  picks-entries :
      (incr : Option (Option ℤ)) (now : ℕ) (upstream : String) (p : ProxyPool)
      → let p' = (next incr now upstream p).0 in (p'.entries ≡ p.entries) × (p'.enabled ≡ p.enabled)
  unfolding next cursor
  picks-entries incr now upstream p = ground arith

  picks-IsConsistent :
      (incr : Option (Option ℤ)) (now : ℕ) (upstream : String) (p : ProxyPool)
      → IsConsistent p
      → IsConsistent (next incr now upstream p).0
  picks-IsConsistent incr now upstream p v =
      let (es, on) = picks-entries incr now upstream p in
      record { enabled_kept = rw (es, on) v.enabled_kept; well_formed = rw es v.well_formed }

  connects-entries :
      (e : ProxyEntry) (p : ProxyPool)
      → let p' = (transport builds e p).0 in (p'.entries ≡ p.entries) × (p'.enabled ≡ p.enabled)
  unfolding transport
  connects-entries e p = ground arith

  connects-IsConsistent :
      (e : ProxyEntry) (p : ProxyPool) → IsConsistent p → IsConsistent (transport builds e p).0
  connects-IsConsistent e p v =
      let (es, on) = connects-entries e p in
      record { enabled_kept = rw (es, on) v.enabled_kept; well_formed = rw es v.well_formed }

  step-IsConsistent :
      (c : Call) (p : ProxyPool) → HasTrust c → IsConsistent p → IsConsistent (step c p)
  unfolding step
  step-IsConsistent (loads reply) p t v = loads-IsConsistent lower db reply p t v
  step-IsConsistent (adds random now e) p t v = adds-IsConsistent lower db random now e p v
  step-IsConsistent (updates id u) p t v = updates-IsConsistent lower db id u p v
  step-IsConsistent (removes id) p t v = removes-IsConsistent lower db id p v
  step-IsConsistent (toggles id) p t v = toggles-IsConsistent lower db id p v
  step-IsConsistent (fails id) p t v = fails-IsConsistent lower db id p v
  step-IsConsistent (succeeds id) p t v = succeeds-IsConsistent lower db id p v
  step-IsConsistent (picks incr now upstream) p t v = picks-IsConsistent incr now upstream p v
  step-IsConsistent (connects e) p t v = connects-IsConsistent e p v

  run_from-IsConsistent :
      (cs : List Call) (p : ProxyPool) → All HasTrust cs → IsConsistent p → IsConsistent (run cs p)
  unfolding run
  run_from-IsConsistent [] p t v = v
  run_from-IsConsistent (c ∷ cs) p t v =
      run_from-IsConsistent cs (step c p) t.1 (step-IsConsistent c p t.0 v)

  -- After any operations on a new pool, where what is loaded from the store is well formed, every
  -- entry is well formed, and the enabled list has exactly the enabled entries in order, but for
  -- their counts of failures.
  pub run-IsConsistent : (cs : List Call) → All HasTrust cs → IsConsistent (run cs new_proxy_pool)
  unfolding new_proxy_pool
  run-IsConsistent cs t =
      run_from-IsConsistent cs new_proxy_pool t (record { enabled_kept = refl; well_formed = tt })
