-- ===== src/CfPool/Cooldown.antt =====
-- When a disabled account comes back (internal/upstream/cloudflare.go).
use onmi_routers.Base.{
  ℕ, ◌-◌, ◌≤◌, ◌<◌, ◌≡◌, refl, ◌∙◌, String, Bool, true, false, not, ◌&&◌, ◌||◌, Option, none, some,
  List, [], ◌∷◌, map, arith, eq_refl, ltb, leb, str_eq, if◌then◌else◌,
}
use onmi_routers.CfPool.{
  CfKey, CfKeyManager, cf_cooldown_duration, cooled, reenable, reenable_cooldowns, replace,
  permanent_disable, cooldown_disable, is_permanent, new_day,
}

-- The ticks of the worker: each a time and its day.
pub lifts : List (ℕ × String) → CfKeyManager → CfKeyManager
lifts [] km = km
lifts ((now, today) ∷ ts) km = lifts ts (reenable_cooldowns now today km).0

unfoldable pub find_key : String → List CfKey → Option CfKey
find_key id [] = none
find_key id (k ∷ ks) = if str_eq k.account_id id then some k else find_key id ks

-- Whether some tick comes after the cooldown that began at a time.
pub is_over : ℕ → List (ℕ × String) → Bool
is_over t [] = false
is_over t ((now, today) ∷ ts) = ltb cf_cooldown_duration (now - t) || is_over t ts

find-reenable :
    (now : ℕ) (today id : String) (ks : List CfKey) (k : CfKey)
    → find_key id ks ≡ some k
    → find_key id (map (reenable now today) ks) ≡ some (reenable now today k)
unfolding find_key reenable new_day
find-reenable now today id [] k h = absurd (ground (arith, h))
find-reenable now today id (j ∷ ks) k h = ground (arith, h, find-reenable now today id ks k)

reenable-state :
    (now : ℕ) (today : String) (k : CfKey)
    → let k' = reenable now today k in
      (k'.disabled ≡ (k.disabled && not (cooled now k))) × (k'.disabled_at ≡ k.disabled_at)
unfolding reenable new_day cooled
reenable-state now today k = ground arith

-- The worker ends a cooldown, and nothing else: after any ticks, an account that was disabled at a
-- time other than zero is still disabled exactly when no tick came later than ten minutes after that time,
-- and one that was disabled for good, or enabled, is as it was.
pub ticks_lift :
    (ts : List (ℕ × String)) (km : CfKeyManager) (id : String) (k : CfKey)
    → find_key id km.keys ≡ some k
    → (k' : CfKey) × (find_key id (lifts ts km).keys ≡ some k')
      × (k'.disabled_at ≡ k.disabled_at)
      × (k'.disabled ≡ (k.disabled && (leb k.disabled_at 0 || not (is_over k.disabled_at ts))))
unfolding lifts is_over reenable_cooldowns cooled
ticks_lift [] km id k h = (k, h, refl, ground arith)
ticks_lift ((now, today) ∷ ts) km id k h =
    let next = reenable now today k in
    let (on, at) = reenable-state now today k in
    let (k', found, same, off) =
      ticks_lift ts (reenable_cooldowns now today km).0 id next
        (find-reenable now today id km.keys k h) in
    (k', found, same ∙ at, ground (arith, off, on, at))

find-replace :
    (k j : CfKey) (ks : List CfKey)
    → find_key k.account_id ks ≡ some j
    → find_key k.account_id (replace k ks) ≡ some k
unfolding find_key replace
find-replace k j [] h = absurd (ground (arith, h))
find-replace k j (i ∷ ks) h = ground (arith, h, find-replace k j ks, eq_refl k.account_id)

find-permanent :
    (k : CfKey) (km : CfKeyManager)
    → find_key k.account_id km.keys ≡ some k
    → find_key k.account_id (permanent_disable k km).0.keys
      ≡ some (record k { disabled = true; disabled_at = 0 })
unfolding permanent_disable
find-permanent k km h = find-replace (record k { disabled = true; disabled_at = 0 }) k km.keys h

find-cooldown :
    (now : ℕ) (k : CfKey) (km : CfKeyManager)
    → find_key k.account_id km.keys ≡ some k
    → find_key k.account_id (cooldown_disable now k km).0.keys
      ≡ some (record k { disabled = true; disabled_at = now })
unfolding cooldown_disable
find-cooldown now k km h =
    find-replace (record k { disabled = true; disabled_at = now }) k km.keys h

-- The two ways of disabling race: where two requests with the same account fail, one with an answer
-- that disables it for good and a later one with a rate limit, the account is only on a cooldown, and
-- a tick after ten minutes puts it back into use.
pub permanent_lost :
    (k : CfKey) (km : CfKeyManager) (now later : ℕ) (today : String)
    → find_key k.account_id km.keys ≡ some k
    → 1 ≤ now
    → cf_cooldown_duration < later - now
    → let km₁ = (permanent_disable k km).0 in
      let km₂ = (cooldown_disable now (record k { disabled = true; disabled_at = 0 }) km₁).0 in
      let km₃ = (reenable_cooldowns later today km₂).0 in
      (k₁ k₃ : CfKey) × (find_key k.account_id km₁.keys ≡ some k₁)
      × (is_permanent k₁ ≡ true)
      × (find_key k.account_id km₃.keys ≡ some k₃)
      × (k₃.disabled ≡ false)
unfolding reenable_cooldowns is_permanent cooled
permanent_lost k km now later today h pos over =
    let k₁ : CfKey = record k { disabled = true; disabled_at = 0 } in
    let k₂ : CfKey = record k { disabled = true; disabled_at = now } in
    let found₁ = find-permanent k km h in
    let found₂ = find-cooldown now k₁ (permanent_disable k km).0 found₁ in
    (
      k₁,
      reenable later today k₂,
      found₁,
      refl,
      find-reenable later today k.account_id _ k₂ found₂,
      ground (arith, reenable-state later today k₂, over, pos),
    )
