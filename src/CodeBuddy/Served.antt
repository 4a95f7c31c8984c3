-- ===== src/CodeBuddy/Served.antt =====
-- What ProxyCodeBuddy answers (internal/upstream/codebuddy.go).
use onmi_routers.Base.{
  ℕ, zero, suc, ◌+◌, ◌<◌, ◌≡◌, refl, ap, ◌∙◌, Bool, true, false, not, Option, none, some, List, [],
  ◌∷◌, arith, if◌then◌else◌, length, get_elem?,
}
use onmi_routers.CodeBuddy.Turns.{next_key-IsNext, IsNext}
use onmi_routers.Circuit.{can_request, record_request, UpstreamHealth}
use onmi_routers.CodeBuddy.Pool.{next_key, CbKeyManager, is_enabled, modify_key}
use onmi_routers.CodeBuddy.{CbKey, RefreshReply, refresh, ensure_valid}
use onmi_routers.CodeBuddy.Serve.{
  Answer, Attempt, HttpReply, Served, Verdict, attempt_key, bad_params, bans, broken, cancelled,
  circuit_open, cools, finish, judge_client_error, judge_first, judge_reply, judge_second,
  judge_unauthorized, no_model, pick, proxy_code_buddy, record_verdict, served, serves, settle,
  skips, try_at, try_key, walk,
}

-- A refresh leaves the key enabled or disabled as it is.
refresh-disabled :
    (now : ℕ) (reply : RefreshReply) (k : CbKey) → (refresh now reply k).0.disabled ≡ k.disabled
unfolding refresh
refresh-disabled now reply k = ground arith

pub ensure_valid-disabled :
    (now : ℕ) (reply : RefreshReply) (k : CbKey)
    → (ensure_valid now reply k).0.disabled ≡ k.disabled
unfolding ensure_valid
ensure_valid-disabled now reply k = ground (arith, refresh-disabled now reply k)

-- Only a reply below 400 is handed on.
abbrev Serves : Verdict → Type 0
Serves (serves r) = r.status < 400
Serves v = Unit

judge_client_error-Serves : (r : HttpReply) → Serves (judge_client_error r)
unfolding judge_client_error
judge_client_error-Serves r = ground arith

judge_reply-Serves : (r : HttpReply) → Serves (judge_reply r)
unfolding judge_reply
judge_reply-Serves r = ground arith

second-Serves : (o : Option HttpReply) → Serves (judge_second o)
unfolding judge_second
second-Serves none = tt
second-Serves (some r) = ground (arith, judge_reply-Serves r)

unauthorized_lem :
    (a : Attempt) (k : CbKey)
    → ((judge_unauthorized a k).0.disabled ≡ k.disabled) × Serves ((judge_unauthorized a k).1)
unfolding judge_unauthorized
unauthorized_lem a k = ground (arith, refresh-disabled a.now a.renewal k, second-Serves a.second)

first_lem :
    (a : Attempt) (k : CbKey) (o : Option HttpReply)
    → ((judge_first a k o).0.disabled ≡ k.disabled) × Serves ((judge_first a k o).1)
unfolding judge_first
first_lem a k none = (refl, tt)
first_lem a k (some r) = ground (arith, judge_reply-Serves r, unauthorized_lem a k)

attempt_lem :
    (a : Attempt) (k : CbKey)
    → ((attempt_key a k).0.disabled ≡ k.disabled) × Serves ((attempt_key a k).1)
unfolding attempt_key
attempt_lem a k =
    let k' = (ensure_valid a.now a.early k).0 in
    let l = first_lem a k' a.first in (l.0 ∙ ensure_valid-disabled a.now a.early k, l.1)

pub length-modify_key :
    (f : CbKey → CbKey) (i : ℕ) (ks : List CbKey) → length (modify_key f i ks) ≡ length ks
unfolding modify_key
length-modify_key f i [] = refl
length-modify_key f zero (k ∷ ks) = refl
length-modify_key f (suc i) (k ∷ ks) = ap suc (length-modify_key f i ks)

get_elem?-modify_key :
    (f : CbKey → CbKey) (i : ℕ) (ks : List CbKey) {k : CbKey}
    → get_elem? ks i ≡ some k
    → get_elem? (modify_key f i ks) i ≡ some (f k)
unfolding modify_key
get_elem?-modify_key f i [] e = cc
get_elem?-modify_key f zero (x ∷ ks) e = cc
get_elem?-modify_key f (suc i) (x ∷ ks) e = get_elem?-modify_key f i ks e

-- The key whose reply is handed on is not disabled, the reply is no error, and the success is what the
-- circuit recorded last.
abbrev pub IsAnswer : Served → Answer → Type 0
IsAnswer s (served idx r) =
    (r.status < 400)
    × (is_enabled (get_elem? s.pool.keys idx) ≡ true)
    × ((h : UpstreamHealth) × (now : ℕ) × (latency : ℕ) × (s.health
          ≡ record_request now latency none h))
IsAnswer s a = Unit

abbrev Good : ℕ → Served × Answer → Type 0
Good m x = (length x.0.pool.keys ≡ m) × IsAnswer x.0 x.1

abbrev GoodRest : ℕ → (Served → Served × Answer) → Type 0
GoodRest m rest = (s : Served) → length s.pool.keys ≡ m → Good m (rest s)

-- The answer that a verdict can lead to.
abbrev answer : ℕ → Verdict → Answer
answer idx (serves r) = served idx r
answer idx v = cancelled

finish-Good :
    (m : ℕ) (rest : Served → Served × Answer) (idx : ℕ) (s : Served) (v : Verdict)
    → GoodRest m rest
    → length s.pool.keys ≡ m
    → IsAnswer s (answer idx v)
    → Good m (finish rest idx s v)
unfolding finish
finish-Good m rest idx s (bad_params b) g e ok = (e, tt)
finish-Good m rest idx s no_model g e ok = (e, tt)
finish-Good m rest idx s (serves r) g e ok = (e, ok)
finish-Good m rest idx s skips g e ok = g s e
finish-Good m rest idx s bans g e ok = g s e
finish-Good m rest idx s cools g e ok = g s e
finish-Good m rest idx s (broken status) g e ok = g s e

-- The state after an attempt with a verdict.
abbrev pub settled : Attempt → ℕ → CbKey → Served → Verdict → Served
settled a idx k s v = record {
  pool = record (s.pool) { keys = modify_key (λ _. settle a.now v k) idx s.pool.keys };
  health = record_verdict a v s.health;
}

settled-IsAnswer :
    (a : Attempt) (idx : ℕ) (k k' : CbKey) (s : Served) (v : Verdict)
    → get_elem? s.pool.keys idx ≡ some k
    → k'.disabled ≡ false
    → Serves v
    → IsAnswer (settled a idx k' s v) (answer idx v)
unfolding settle record_verdict
settled-IsAnswer a idx k k' s (serves r) e d h = (
  h,
  ap is_enabled (get_elem?-modify_key (λ _. k') idx s.pool.keys e) ∙ ap not d,
  (s.health, a.now, a.latency, refl),
)
settled-IsAnswer a idx k k' s (bad_params b) e d h = tt
settled-IsAnswer a idx k k' s no_model e d h = tt
settled-IsAnswer a idx k k' s skips e d h = tt
settled-IsAnswer a idx k k' s bans e d h = tt
settled-IsAnswer a idx k k' s cools e d h = tt
settled-IsAnswer a idx k k' s (broken status) e d h = tt

module _ (gone : ℕ → Bool) (ask : ℕ → CbKey → Attempt) where
  try_at-Good :
      (m : ℕ) (rest : Served → Served × Answer) (n : ℕ) (s : Served) (idx : ℕ) (o : Option CbKey)
      → GoodRest m rest
      → length s.pool.keys ≡ m
      → get_elem? s.pool.keys idx ≡ o
      → is_enabled o ≡ true
      → Good m (try_at gone ask rest n s idx o)
  unfolding try_at try_key
  try_at-Good m rest n s idx none g e at ok = (e, tt)
  try_at-Good m rest n s idx (some k) g e at ok =
      let a = ask n k in
      let (k', v) = attempt_key a k in
      let l = attempt_lem a k in
      let enabled : k'.disabled ≡ false = l.0 ∙ ground (arith, ok) in
      finish-Good m rest idx (settled a idx k' s v) v g
        (length-modify_key (λ _. settle a.now v k') idx s.pool.keys ∙ e)
        (settled-IsAnswer a idx k k' s v at enabled (l.1))

  pick-Good :
      (m : ℕ) (rest : Served → Served × Answer) (n : ℕ) (s : Served) (pool : CbKeyManager)
      (o : Option ℕ)
      → GoodRest m rest
      → length s.pool.keys ≡ m
      → IsNext s.pool pool o
      → Good m (pick gone ask rest n (record s { pool = pool }) o)
  unfolding pick
  pick-Good m rest n s pool none g e (same, all) = (ap (λ p. length p.keys) same ∙ e, tt)
  pick-Good m rest n s pool (some idx) g e (k, lt, i, ok, p, same) =
      let keys = ap (λ (q : CbKeyManager). q.keys) same in
      try_at-Good m rest n (record s { pool = pool }) idx (get_elem? pool.keys idx) g
        (ap length keys ∙ e) refl (ap (λ ks. is_enabled (get_elem? ks idx)) keys ∙ ok)

  if-Good :
      (m : ℕ) (b : Bool) (x y : Served × Answer) → Good m x → Good m y → Good m (if b then x else y)
  if-Good m true x y h k = h
  if-Good m false x y h k = k

  walk-Good : (m rounds n : ℕ) → GoodRest m (walk gone ask rounds n)
  unfolding walk
  walk-Good m zero n s e = (e, tt)
  walk-Good m (suc rounds) n s e =
      let (pool, found) = next_key s.pool in
      if-Good m (gone n) (s, cancelled)
        (pick gone ask (walk gone ask rounds (n + 1)) n (record s { pool = pool }) found) (e, tt)
        (pick-Good m (walk gone ask rounds (n + 1)) n s pool found (walk-Good m rounds (n + 1)) e
          (next_key-IsNext s.pool))

  -- What a request for CodeBuddy answers: a reply that is handed to the client is below 400, the key that
  -- gave it is among the keys and not disabled, and its success is what the circuit recorded last; no
  -- request adds a key or removes one.
  pub proxy_code_buddy-IsAnswer :
      (now : ℕ) (s : Served)
      → let (s', a) = proxy_code_buddy gone ask now s in
        (length s'.pool.keys ≡ length s.pool.keys) × IsAnswer s' a
  unfolding proxy_code_buddy
  proxy_code_buddy-IsAnswer now s =
      let (health, lets) = can_request now s.health in
      let m = length s.pool.keys in
      if-Good m lets (walk gone ask m 0 (record s { health = health }))
        (record s { health = record_request now 0 (some "circuit open") health }, circuit_open)
        (walk-Good m m 0 (record s { health = health }) refl) (refl, tt)
