-- ===== src/CodeBuddy/Permanent.antt =====
-- Keys that are disabled for good (internal/upstream/codebuddy.go).
use onmi_routers.Base.{
  ℕ, zero, suc, ◌+◌, ◌≡◌, refl, sym, ap, ◌∙◌, ◌≢◌, inl, inr, String, Bool, true, false, ◌||◌,
  Option, none, some, List, [], ◌∷◌, ◌++◌, map, arith, str_eq, if◌then◌else◌, Bool-cases, length,
  get_elem?, All,
}
use mathlib.Core.Path.{subst}
use mathlib.Core.Option.{some-injective}
use onmi_routers.Circuit.{record_request, can_request}
use onmi_routers.Base.Text.{trim_space}
use onmi_routers.CodeBuddy.{
  refresh, oauth_account, new_key, CbKey, RefreshReply, MeterReply, is_permanent,
}
use onmi_routers.CodeBuddy.Pool.{
  CbKeyManager, is_enabled, next_key, modify_key, add_key, reenable, reenable_cooldowns, pre_warmed,
  pre_warm, needs_refresh, synced, sync_all_cb_credits, add_oauth_account, put_account, put_with,
  update_account, is_account, eager, try_eager_refresh,
}
use onmi_routers.CodeBuddy.Serve.{
  Attempt, Verdict, bad_params, no_model, serves, skips, bans, cools, broken, attempt_key, settle,
  try_key, finish, try_at, pick, walk, proxy_with, proxy_code_buddy, Served, Answer, cancelled,
  circuit_open,
}
use onmi_routers.CodeBuddy.Served.{settled}
use onmi_routers.CodeBuddy.Turns.{IsNext, next_key-IsNext}

-- What happens to the pool: a request, an API key that is added, an OAuth account that is imported with
-- its tokens, and a pass of each of the three workers.
pub data Call : Type 0 where
  requests : (ℕ → Bool) → (ℕ → CbKey → Attempt) → ℕ → Call
  adds : String → Call
  imports : ℕ → RefreshReply → String → String → String → Option ℕ → Call
  reenables : ℕ → Call
  pre_warms : ℕ → (CbKey → RefreshReply) → Call
  syncs : (String → Option ℕ) → ℕ → (CbKey → RefreshReply) → (CbKey → MeterReply) → Call

abbrev in_pool : (CbKeyManager → CbKeyManager) → Served → Served
in_pool f s = record s { pool = f s.pool }

pub step : Call → Served → Served
step (requests gone ask now) s = (proxy_code_buddy gone ask now s).0
step (adds text) s = in_pool (λ km. (add_key text km).0) s
step (imports now reply email access refresh expires) s =
    in_pool (λ km. (add_oauth_account now reply email access refresh expires km).0) s
step (reenables now) s = in_pool (reenable_cooldowns now) s
step (pre_warms now reply) s = in_pool (pre_warm now reply) s
step (syncs parse now reply meter) s = in_pool (sync_all_cb_credits parse now reply meter) s

pub run : List Call → Served → Served
unfolding step
run [] s = s
run (c ∷ cs) s = run cs (step c s)

-- No account is imported that is the key's own, which would enable it again.
abbrev pub IsOther : CbKey → Call → Type 0
IsOther k (imports now reply email access refresh expires) = is_account (trim_space email) k ≡ false
IsOther k (requests gone ask now) = Unit
IsOther k (adds text) = Unit
IsOther k (reenables now) = Unit
IsOther k (pre_warms now reply) = Unit
IsOther k (syncs parse now reply meter) = Unit

refresh-api : (now : ℕ) (reply : RefreshReply) (k : CbKey) → (refresh now reply k).0.api ≡ k.api
unfolding refresh
refresh-api now reply k = ground arith

eager-api : (now : ℕ) (reply : RefreshReply) (k : CbKey) → (eager now reply k).api ≡ k.api
unfolding eager try_eager_refresh
eager-api now reply k = ground (arith, refresh-api now reply k)

get_elem?-append :
    (ks ls : List CbKey) (i : ℕ) {k : CbKey}
    → get_elem? ks i ≡ some k
    → get_elem? (ks ++ ls) i ≡ some k
get_elem?-append [] ls i e = cc
get_elem?-append (x ∷ ks) ls zero e = e
get_elem?-append (x ∷ ks) ls (suc i) e = get_elem?-append ks ls i e

get_elem?-map_same :
    (f : CbKey → CbKey) (ks : List CbKey) (i : ℕ) {k : CbKey}
    → get_elem? ks i ≡ some k
    → f k ≡ k
    → get_elem? (map f ks) i ≡ some k
get_elem?-map_same f [] i e h = cc
get_elem?-map_same f (x ∷ ks) zero e h = cc
get_elem?-map_same f (x ∷ ks) (suc i) e h = get_elem?-map_same f ks i e h

get_elem?-modify_other :
    (f : CbKey → CbKey) (i j : ℕ) (ks : List CbKey)
    → i ≢ j
    → get_elem? (modify_key f i ks) j ≡ get_elem? ks j
unfolding modify_key
get_elem?-modify_other f i j [] h = refl
get_elem?-modify_other f zero zero (k ∷ ks) h = absurd (h refl)
get_elem?-modify_other f zero (suc j) (k ∷ ks) h = refl
get_elem?-modify_other f (suc i) zero (k ∷ ks) h = refl
get_elem?-modify_other f (suc i) (suc j) (k ∷ ks) h =
    get_elem?-modify_other f i j ks (λ e. h (ap suc e))

module _ (i : ℕ) (k : CbKey) (perm : is_permanent k ≡ true) where
  -- The key stands at its place.
  abbrev Stands : Served → Type 0
  Stands s = get_elem? s.pool.keys i ≡ some k

  not_enabled :
      (ks : List CbKey) (j : ℕ)
      → get_elem? ks i ≡ some k
      → is_enabled (get_elem? ks j) ≡ true
      → j ≢ i
  unfolding is_permanent
  not_enabled ks j e ok same =
      let here : is_enabled (some k) ≡ true =
        ap is_enabled (sym e) ∙ sym (ap (λ x. is_enabled (get_elem? ks x)) same) ∙ ok in
      ground (arith, perm, here)

  finish-Stands :
      (rest : Served → Served × Answer) (idx : ℕ) (s : Served) (v : Verdict)
      → ((t : Served) → Stands t → Stands (rest t).0)
      → Stands s
      → Stands (finish rest idx s v).0
  unfolding finish
  finish-Stands rest idx s (bad_params b) g e = e
  finish-Stands rest idx s no_model g e = e
  finish-Stands rest idx s (serves r) g e = e
  finish-Stands rest idx s skips g e = g s e
  finish-Stands rest idx s bans g e = g s e
  finish-Stands rest idx s cools g e = g s e
  finish-Stands rest idx s (broken status) g e = g s e

  module _ (gone : ℕ → Bool) (ask : ℕ → CbKey → Attempt) where
    try_at-Stands :
        (rest : Served → Served × Answer) (n : ℕ) (s : Served) (idx : ℕ) (o : Option CbKey)
        → ((t : Served) → Stands t → Stands (rest t).0)
        → Stands s
        → idx ≢ i
        → Stands (try_at gone ask rest n s idx o).0
    unfolding try_at try_key
    try_at-Stands rest n s idx none g e ne = e
    try_at-Stands rest n s idx (some key) g e ne =
        let a = ask n key in
        let (key', v) = attempt_key a key in
        finish-Stands rest idx (settled a idx key' s v) v g
          (get_elem?-modify_other (λ _. settle a.now v key') idx i s.pool.keys ne ∙ e)

    pick-Stands :
        (rest : Served → Served × Answer) (n : ℕ) (s : Served) (pool : CbKeyManager) (o : Option ℕ)
        → ((t : Served) → Stands t → Stands (rest t).0)
        → Stands s
        → IsNext s.pool pool o
        → Stands (pick gone ask rest n (record s { pool = pool }) o).0
    unfolding pick
    pick-Stands rest n s pool none g e (same, all) =
        subst (λ (p : CbKeyManager). get_elem? p.keys i ≡ some k) (sym same) e
    pick-Stands rest n s pool (some idx) g e (j, lt, at, ok, p, same) =
        let keys = ap (λ (q : CbKeyManager). q.keys) same in
        try_at-Stands rest n (record s { pool = pool }) idx (get_elem? pool.keys idx) g
          (ap (λ ks. get_elem? ks i) keys ∙ e) (not_enabled s.pool.keys idx e ok)

    if-Stands :
        (b : Bool) (x y : Served × Answer) → Stands x.0 → Stands y.0 → Stands (if b then x else y).0
    if-Stands true x y h g = h
    if-Stands false x y h g = g

    walk-Stands : (rounds n : ℕ) (s : Served) → Stands s → Stands (walk gone ask rounds n s).0
    unfolding walk
    walk-Stands zero n s e = e
    walk-Stands (suc rounds) n s e =
        let (pool, found) = next_key s.pool in
        let rest = walk gone ask rounds (n + 1) in
        if-Stands (gone n) (s, cancelled) (pick gone ask rest n (record s { pool = pool }) found) e
          (pick-Stands rest n s pool found (walk-Stands rounds (n + 1)) e (next_key-IsNext s.pool))

    proxy-Stands : (now : ℕ) (s : Served) → Stands s → Stands (proxy_code_buddy gone ask now s).0
    unfolding proxy_code_buddy proxy_with
    proxy-Stands now s e =
        let (health, lets) = can_request now s.health in
        if-Stands lets (walk gone ask (length s.pool.keys) 0 (record s { health = health }))
          (record s { health = record_request now 0 (some "circuit open") health }, circuit_open)
          (walk-Stands (length s.pool.keys) 0 (record s { health = health }) e) e

  add_key-Stands :
      (text : String) (s : Served) → Stands s → Stands (in_pool (λ km. (add_key text km).0) s)
  unfolding add_key
  add_key-Stands text s e =
      ground (arith, get_elem?-append s.pool.keys (new_key (trim_space text) ∷ []) i e)

  -- The key's place after the tokens of another account are put in.
  abbrev KeptAt : ℕ → Option (List CbKey) → Type 0
  KeptAt j none = Unit
  KeptAt j (some ls) = get_elem? ls j ≡ some k

  later_kept :
      (x : CbKey) (j : ℕ) (o : Option (List CbKey))
      → KeptAt j o
      → KeptAt
          (suc j)
          (elim o as (λ _. Option (List CbKey)) [ none ↦ none | some ls ↦ some (x ∷ ls) ])
  later_kept x j none h = tt
  later_kept x j (some ls) h = h

  first_kept :
      (x : CbKey) (ks : List CbKey) (o : Option (List CbKey))
      → x ≡ k
      → KeptAt zero (elim o as (λ _. Option (List CbKey)) [ none ↦ none | some ls ↦ some (x ∷ ls) ])
  first_kept x ks none e = tt
  first_kept x ks (some ls) e = ap some e

  update_account-Stands :
      (new : CbKey) (ks : List CbKey) (j : ℕ)
      → is_account new.api k ≡ false
      → get_elem? ks j ≡ some k
      → KeptAt j (update_account new ks)
  unfolding update_account
  update_account-Stands new [] j other e = cc
  update_account-Stands new (x ∷ ks) zero other e =
      let same : x ≡ k = some-injective x k e in
      let off : is_account new.api x ≡ false = ap (is_account new.api) same ∙ other in
      rw off (first_kept x ks (update_account new ks) same)
  update_account-Stands new (x ∷ ks) (suc j) other e = elim (Bool-cases (is_account new.api x)) [
    | inl here ↦ rw here e
    | inr there ↦
        rw there (later_kept x j (update_account new ks) (update_account-Stands new ks j other e))
  ]

  put-Stands :
      (new : CbKey) (s : Served) (o : Option (List CbKey))
      → Stands s
      → KeptAt i o
      → Stands (in_pool (λ km. (put_with new km o).0) s)
  put-Stands new s none e h = get_elem?-append s.pool.keys (new ∷ []) i e
  put-Stands new s (some ls) e h = h

  import-Stands :
      (now : ℕ) (reply : RefreshReply) (email access fresh : String) (expires : Option ℕ)
      (s : Served)
      → is_account (trim_space email) k ≡ false
      → Stands s
      → Stands (in_pool (λ km. (add_oauth_account now reply email access fresh expires km).0) s)
  unfolding add_oauth_account put_account
  import-Stands now reply email access fresh expires s other e =
      let given = oauth_account (trim_space email) (trim_space access) (trim_space fresh) expires in
      let new = eager now reply given in
      let named : new.api ≡ trim_space email = eager-api now reply given in
      let kept =
        update_account-Stands new s.pool.keys i (ap (λ x. is_account x k) named ∙ other) e in
      let bad =
        str_eq (trim_space email) ""
        || str_eq (trim_space access) ""
        || str_eq (trim_space fresh) "" in
      elim (Bool-cases bad) [
        | inl h ↦ rw h e
        | inr h ↦ rw h (put-Stands new s (update_account new s.pool.keys) e kept)
      ]

  reenable_same : (now : ℕ) → reenable now k ≡ k
  unfolding is_permanent
  reenable_same now = ground (arith, perm)

  pre_warmed_same : (now : ℕ) (reply : CbKey → RefreshReply) → pre_warmed now reply k ≡ k
  unfolding needs_refresh
  pre_warmed_same now reply = ground (arith, perm)

  synced_same :
      (parse : String → Option ℕ) (now : ℕ) (reply : CbKey → RefreshReply)
      (meter : CbKey → MeterReply)
      → synced parse now reply meter k ≡ k
  synced_same parse now reply meter = ground (arith, perm)

  step-Stands : (c : Call) (s : Served) → IsOther k c → Stands s → Stands (step c s)
  unfolding step reenable_cooldowns pre_warm sync_all_cb_credits
  step-Stands (requests gone ask now) s o e = proxy-Stands gone ask now s e
  step-Stands (adds text) s o e = add_key-Stands text s e
  step-Stands (imports now reply email access fresh expires) s o e =
      import-Stands now reply email access fresh expires s o e
  step-Stands (reenables now) s o e =
      get_elem?-map_same (reenable now) s.pool.keys i e (reenable_same now)
  step-Stands (pre_warms now reply) s o e =
      get_elem?-map_same (pre_warmed now reply) s.pool.keys i e (pre_warmed_same now reply)
  step-Stands (syncs parse now reply meter) s o e =
      get_elem?-map_same (synced parse now reply meter) s.pool.keys i e
        (synced_same parse now reply meter)

  -- What is disabled for good stays so: a key that is disabled with no time stands unchanged at its place
  -- in the pool, whatever requests are served, one after the other, whatever API keys are added and OAuth
  -- accounts imported, other than its own account, which the import enables again, and however often the
  -- workers lift cooldowns, refresh tokens ahead of time and read the meter.
  pub permanent_stays :
      (cs : List Call) (s : Served)
      → All (IsOther k) cs
      → get_elem? s.pool.keys i ≡ some k
      → get_elem? (run cs s).pool.keys i ≡ some k
  unfolding run
  permanent_stays [] s o e = e
  permanent_stays (c ∷ cs) s o e = permanent_stays cs (step c s) o.1 (step-Stands c s o.0 e)
