-- ===== src/Grok/Served.antt =====
-- What ProxyGrok hands to a client (internal/upstream/grok.go).
use onmi_routers.Base.{
  length-append, ℕ, zero, suc, ◌+◌, ◌≤◌, ◌<◌, ◌≡◌, refl, sym, ap, ◌∙◌, ◌≢◌, ◌⊎◌, inl, inr, String,
  Bool, true, false, ◌||◌, Option, none, some, List, [], ◌∷◌, ◌++◌, arith, leb, ◌==◌, if◌then◌else◌,
  length, All, All-append,
}
use onmi_routers.Circuit.{UpstreamHealth, can_request}
use mathlib.Core.Path.{subst}
use onmi_routers.Grok.Choice.{IsPicked, next_account-IsPicked}
use onmi_routers.Grok.{
  Chosen, ready, refreshing, no_accounts, all_disabled, Refreshed, renewed, revoked, unrefreshed,
  GrokAccount, GrokAccountManager, next_account,
}
use onmi_routers.Grok.Serve.{
  HttpReply, Outcome, Verdict, serves, upstream_error, skips, bans, cools, judge_reply,
  judge_second, judge_refreshed, judge_first, judge_outcome, Walk, Served, given, circuit_open,
  exhausted, gone, attempt_account, account_of, with_pool, ends, walk, proxy_grok,
}

-- A reply that is the client's business: no refusal of the account and no failure of the upstream.
abbrev pub IsClients : HttpReply → Type 0
IsClients r = (r.status ≢ 401) × (r.status ≢ 402) × (r.status ≢ 403) × (r.status < 500)

abbrev IsFine : Verdict → Type 0
IsFine (serves r) = IsClients r
IsFine (upstream_error status) = Unit {0}
IsFine skips = Unit {0}
IsFine bans = Unit {0}
IsFine cools = Unit {0}

if-IsFine :
    (b : Bool) (x y : Verdict)
    → (b ≡ true → IsFine x)
    → (b ≡ false → IsFine y)
    → IsFine (if b then x else y)
if-IsFine true x y f g = f refl
if-IsFine false x y f g = g refl

judge_reply-IsFine : (r : HttpReply) → (r.status == 401) ≡ false → IsFine (judge_reply r)
unfolding judge_reply
judge_reply-IsFine r n =
    if-IsFine (r.status == 402 || r.status == 403) _ _
      (λ h. if-IsFine _ bans cools (λ e. tt) (λ e. tt))
      (λ other. if-IsFine (leb 500 r.status) _ _ (λ h. tt) (λ less. clients other less))
  where
    clients : (r.status == 402 || r.status == 403) ≡ false → leb 500 r.status ≡ false → IsClients r
    clients other less = (
      λ e. ground (arith, e, n),
      λ e. ground (arith, e, other),
      λ e. ground (arith, e, other),
      ground (arith, less),
    )

judge_second-IsFine : (o : Option HttpReply) → IsFine (judge_second o)
unfolding judge_second
judge_second-IsFine none = tt
judge_second-IsFine (some r) =
    if-IsFine (r.status == 401) bans (judge_reply r) (λ h. tt) (λ h. judge_reply-IsFine r h)

judge_refreshed-IsFine : (t : Refreshed) (o : Option HttpReply) → IsFine (judge_refreshed t o)
unfolding judge_refreshed
judge_refreshed-IsFine revoked o = tt
judge_refreshed-IsFine unrefreshed o = tt
judge_refreshed-IsFine (renewed t) o = judge_second-IsFine o

judge_first-IsFine :
    (t : Refreshed) (second first : Option HttpReply) → IsFine (judge_first t second first)
unfolding judge_first
judge_first-IsFine t second none = tt
judge_first-IsFine t second (some r) =
    if-IsFine (r.status == 401) _ _ (λ h. judge_refreshed-IsFine t second)
      (λ h. judge_reply-IsFine r h)

judge_outcome-IsFine : (o : Outcome) → IsFine (judge_outcome o)
unfolding judge_outcome
judge_outcome-IsFine o = judge_first-IsFine o.refresh o.second o.first

abbrev pub is_serving : Verdict → Bool
is_serving (serves r) = true
is_serving (upstream_error status) = false
is_serving skips = false
is_serving bans = false
is_serving cools = false

-- Attempts that all failed.
abbrev pub HasFailed : List (String × Verdict) → Type 0
HasFailed = All (λ t. is_serving t.1 ≡ false)

-- How a request with so many attempts at most ends: with the client's reply of its last attempt; or
-- with all of its attempts failed, of which it made as many as it may or until no account was enabled;
-- or before, when the client is gone.
abbrev pub IsServed : ℕ → Walk × Served → Type 0
IsServed most (w, given email r) =
    IsClients r
    × (length w.tried ≤ most)
    × (before : List (String × Verdict)) × HasFailed before
    × (w.tried ≡ before ++ (email, serves r) ∷ [])
IsServed most (w, circuit_open) = w.tried ≡ []
IsServed most (w, exhausted) =
    HasFailed w.tried
    × ((length w.tried ≡ most)
        ⊎ ((length w.tried ≤ most) × All (λ a. a.disabled ≡ true) w.pool.accounts))
IsServed most (w, gone) = HasFailed w.tried × (length w.tried ≤ most)

module _ (most : ℕ) where
  ends-IsServed :
      (a : GrokAccount) (v : Verdict) (w : Walk) (later : Walk × Served)
      (before : List (String × Verdict))
      → IsFine v
      → HasFailed before
      → w.tried ≡ before ++ (a.email, v) ∷ []
      → length w.tried ≤ most
      → (is_serving v ≡ false → IsServed most later)
      → IsServed most (ends a v w later)
  ends-IsServed a (serves r) w later before fine none_served e le h =
      (fine, le, before, none_served, e)
  ends-IsServed a (upstream_error status) w later before fine none_served e le h = h refl
  ends-IsServed a skips w later before fine none_served e le h = h refl
  ends-IsServed a bans w later before fine none_served e le h = h refl
  ends-IsServed a cools w later before fine none_served e le h = h refl

  if-IsServed :
      (b : Bool) (x y : Walk × Served)
      → IsServed most x
      → IsServed most y
      → IsServed most (if b then x else y)
  if-IsServed true x y f g = f
  if-IsServed false x y f g = g

  elim-IsServed :
      (o : Option GrokAccount) (x : Walk × Served) (f : GrokAccount → Walk × Served)
      → (o ≡ none → IsServed most x)
      → ((a : GrokAccount) → IsServed most (f a))
      → IsServed most (elim o as (λ _. Walk × Served) [ none ↦ x | some a ↦ f a ])
  elim-IsServed none x f g h = g refl
  elim-IsServed (some a) x f g h = h a

attempt_account-tried :
    (o : Outcome) (a : GrokAccount) (w : Walk)
    → (attempt_account o a w).tried ≡ w.tried ++ (a.email, judge_outcome o) ∷ []
unfolding attempt_account
attempt_account-tried o a w = refl

-- Where there is none to choose, every account is disabled.
disabled-none :
    (now : ℕ) (am : GrokAccountManager) (r : GrokAccountManager × Chosen)
    → IsPicked now am r
    → account_of r.1 ≡ none
    → All (λ a. a.disabled ≡ true) r.0.accounts
disabled-none now am (am', ready a) p e = absurd (ground (arith, e))
disabled-none now am (am', refreshing a) p e = absurd (ground (arith, e))
disabled-none now am (am', no_accounts) p e =
    subst (All (λ a. a.disabled ≡ true)) (sym (ap (λ x. x.accounts) p.1 ∙ p.0)) tt
disabled-none now am (am', all_disabled) p e =
    subst (λ x. All (λ a. a.disabled ≡ true) x.accounts) (sym p.1) p.0

module _ (now_of : ℕ → ℕ) (is_gone : ℕ → Bool) (send : ℕ → GrokAccount → Outcome) where
  walk-IsServed :
      (rounds n most : ℕ) (w : Walk)
      → HasFailed w.tried
      → length w.tried + rounds ≡ most
      → IsServed most (walk now_of is_gone send n rounds w)
  unfolding walk
  walk-IsServed zero n most w none_served le = (none_served, inl (omega (arith, le)))
  walk-IsServed (suc rounds) n most w none_served le =
      let picked = next_account-IsPicked (now_of n) w.pool in
      let (pool, chosen) = next_account (now_of n) w.pool in
      elim-IsServed most (account_of chosen) _ _
        (λ none_left.
          if-IsServed most (is_gone n) (w, gone) (with_pool pool w, exhausted)
            (none_served, omega (arith, le))
            (
              none_served,
              inr (omega (arith, le), disabled-none (now_of n) w.pool _ picked none_left),
            ))
        (λ a.
          let o = send n a in
          let w' = attempt_account o a (with_pool pool w) in
          let tried = attempt_account-tried o a (with_pool pool w) in
          let longer : length w'.tried ≡ length w.tried + 1 =
            ap length tried ∙ length-append w.tried ((a.email, judge_outcome o) ∷ []) in
          if-IsServed most (is_gone n) (w, gone) _ (none_served, omega (arith, le))
            (ends-IsServed most a (judge_outcome o) w' _ w.tried (judge_outcome-IsFine o)
              none_served tried (omega (arith, le, longer))
              (λ serves_not.
                walk-IsServed rounds (n + 1) most w'
                  (subst HasFailed (sym tried) (
                    All-append (λ t. is_serving t.1 ≡ false) w.tried _ none_served
                      (serves_not, tt)))
                  (omega (arith, le, longer)))))

  -- A request to Grok ends in one of these ways: the circuit refuses it and no account is tried; or an
  -- attempt gives the client a reply, whose status is below 500 and not 401, 402 or 403, so that no
  -- refusal of an account and no failure of the upstream reaches the client, and every attempt before
  -- it failed; or every attempt failed, and there was one for each account of the pool or every account
  -- is disabled; or the client is gone. There are never more attempts than accounts.
  pub proxy_grok-IsServed :
      (now : ℕ) (pool : GrokAccountManager) (health : UpstreamHealth)
      → IsServed (length pool.accounts) (proxy_grok now_of is_gone send now pool health)
  unfolding proxy_grok
  proxy_grok-IsServed now pool health =
      if-IsServed (length pool.accounts) (can_request now health).1 _ _
        (walk-IsServed (length pool.accounts) 0 (length pool.accounts) _ tt (omega arith)) refl
