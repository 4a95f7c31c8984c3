-- ===== src/CodeBuddy/Outage.antt =====
-- Requests while every key gets a server error (internal/upstream/codebuddy.go and
-- internal/upstream/health.go).
use onmi_routers.Base.{
  ℕ, zero, suc, ◌+◌, ◌≤◌, ◌<◌, ◌≡◌, refl, sym, ap, ◌∙◌, ◌⊎◌, inl, inr, String, Bool, true, false,
  not, Option, none, some, List, [], ◌∷◌, arith, ltb, if◌then◌else◌, Bool-cases, length, get_elem?,
  All, All-get_elem?,
}
use onmi_routers.CodeBuddy.Turns.{next_key-IsNext, IsNext}
use mathlib.Core.Path.{subst}
use onmi_routers.Circuit.{
  UpstreamHealth, CircuitState, closed, open_circuit, record_request, open_threshold,
}
use onmi_routers.Circuit.Opening.{
  can_request-closed, record_request-closed, record_request-open, record_request_counts,
}
use onmi_routers.CodeBuddy.{CbKey, ensure_valid}
use onmi_routers.CodeBuddy.Pool.{next_key, CbKeyManager, is_enabled, modify_key}
use onmi_routers.CodeBuddy.Serve.{
  proxy_with, cancelled, pick, proxy_code_buddy, walk, HttpReply, Attempt, Verdict, broken,
  judge_reply, judge_first, attempt_key, settle, record_verdict, try_key, finish, try_at, Served,
  Answer, all_keys_disabled,
}
use onmi_routers.CodeBuddy.Served.{ensure_valid-disabled, length-modify_key, settled}

abbrev pub IsEnabled : CbKey → Type 0
IsEnabled k = k.disabled ≡ false

-- An attempt whose first reply is a server error.
abbrev pub IsBroken : Attempt → Type 0
IsBroken a = (r : HttpReply) × (a.first ≡ some r) × (500 ≤ r.status)

broken_reply : (r : HttpReply) → 500 ≤ r.status → judge_reply r ≡ broken r.status
unfolding judge_reply
broken_reply r h = ground arith

broken_first :
    (a : Attempt) (k : CbKey) (r : HttpReply)
    → 500 ≤ r.status
    → judge_first a k (some r) ≡ (k, broken r.status)
unfolding judge_first
broken_first a k r h = ground (arith, broken_reply r h)

broken_attempt :
    (a : Attempt) (k : CbKey) (r : HttpReply)
    → a.first ≡ some r
    → 500 ≤ r.status
    → attempt_key a k ≡ ((ensure_valid a.now a.early k).0, broken r.status)
unfolding attempt_key
broken_attempt a k r e h =
    let k' = (ensure_valid a.now a.early k).0 in ap (judge_first a k') e ∙ broken_first a k' r h

All-modify_key :
    (f : CbKey → CbKey) (i : ℕ) (ks : List CbKey) {k : CbKey}
    → get_elem? ks i ≡ some k
    → IsEnabled (f k)
    → All IsEnabled ks
    → All IsEnabled (modify_key f i ks)
unfolding modify_key
All-modify_key f i [] e h a = cc
All-modify_key f zero (x ∷ ks) e h a = (subst (λ y. IsEnabled (f y)) (cc) h, a.1)
All-modify_key f (suc i) (x ∷ ks) e h a = (a.0, All-modify_key f i ks e h a.1)

-- The state of a circuit after some errors in a row.
abbrev pub after_errors : CircuitState → ℕ → ℕ → CircuitState
after_errors closed count errors =
    if ltb (count + errors) open_threshold then closed else open_circuit
after_errors st count errors = st

abbrev IsCounting : UpstreamHealth → Type 0
IsCounting h =
    ((h.state ≡ closed) × (h.consecutive_errs < open_threshold)) ⊎ (h.state ≡ open_circuit)

-- One more error.
one_error :
    (now latency rounds : ℕ) (msg : String) (h : UpstreamHealth)
    → IsCounting h
    → let h' = record_request now latency (some msg) h in
      IsCounting h'
      × (after_errors h'.state h'.consecutive_errs rounds
          ≡ after_errors h.state h.consecutive_errs (suc rounds))
one_error now latency rounds msg h (inl (s, c)) =
    let r = record_request-closed now latency msg h s c in
    let h' = record_request now latency (some msg) h in
    let before : after_errors h.state h.consecutive_errs (suc rounds)
        ≡ after_errors closed h.consecutive_errs (suc rounds) =
      ap (λ x. after_errors x h.consecutive_errs (suc rounds)) s in
    elim (Bool-cases (ltb (h.consecutive_errs + 1) open_threshold)) [
      | inl low ↦
          let st : h'.state ≡ closed = r.1 ∙ ap (λ b. if b then closed else open_circuit) low in
          (
            inl (st, ground (arith, low, r.0)),
            ap (λ x. after_errors x h'.consecutive_errs rounds) st
                ∙ ground (arith, r.0)
                ∙ sym before,
          )
      | inr high ↦
          let st : h'.state ≡ open_circuit =
            r.1 ∙ ap (λ b. if b then closed else open_circuit) high in
          (
            inr st,
            ap (λ x. after_errors x h'.consecutive_errs rounds) st
                ∙ ground (arith, high)
                ∙ sym before,
          )
    ]
one_error now latency rounds msg h (inr s) =
    let r = record_request-open now latency msg h s in
    (
      inr r,
      ap (λ x. after_errors x (record_request now latency (some msg) h).consecutive_errs rounds) r
          ∙ sym (ap (λ x. after_errors x h.consecutive_errs (suc rounds)) s),
    )

no_errors :
    (h : UpstreamHealth) → IsCounting h → h.state ≡ after_errors h.state h.consecutive_errs 0
no_errors h (inl (s, c)) =
    s ∙ ground (arith, c) ∙ sym (ap (λ x. after_errors x h.consecutive_errs 0) s)
no_errors h (inr s) = s ∙ sym (ap (λ x. after_errors x h.consecutive_errs 0) s)

-- So many errors more are recorded.
abbrev pub IsCounted : ℕ → UpstreamHealth → UpstreamHealth → Type 0
IsCounted errors h h' =
    (h'.total_requests ≡ h.total_requests + errors) × (h'.total_errors ≡ h.total_errors + errors)

-- The end of the loop after errors only.
abbrev IsOut : ℕ → UpstreamHealth → ℕ → Served × Answer → Type 0
IsOut m h errors x =
    (x.1 ≡ all_keys_disabled)
    × All IsEnabled x.0.pool.keys
    × (length x.0.pool.keys ≡ m)
    × (x.0.health.state ≡ after_errors h.state h.consecutive_errs errors)
    × IsCounted errors h x.0.health

-- A pool of so many keys, all enabled, and a circuit that counts or is open.
record IsUp (m : ℕ) (s : Served) : Type 0 where
  size : length s.pool.keys ≡ m
  enabled : All IsEnabled s.pool.keys
  counting : IsCounting s.health

first_enabled :
    (ks : List CbKey) → 0 < length ks → All IsEnabled ks → is_enabled (get_elem? ks 0) ≡ true
first_enabled [] h a = elim h [ ]
first_enabled (k ∷ ks) h a = ap not a.0

module _ (gone : ℕ → Bool) (ask : ℕ → CbKey → Attempt)
    (fails : (n : ℕ) (k : CbKey) → IsBroken (ask n k)) where
  abbrev GoesOut : ℕ → ℕ → (Served → Served × Answer) → Type 0
  GoesOut m rounds rest = (s : Served) → IsUp m s → IsOut m s.health rounds (rest s)

  try_at-IsOut :
      (m rounds : ℕ) (rest : Served → Served × Answer) (n : ℕ) (s : Served) (idx : ℕ)
      (o : Option CbKey)
      → GoesOut m rounds rest
      → IsUp m s
      → get_elem? s.pool.keys idx ≡ o
      → is_enabled o ≡ true
      → IsOut m s.health (suc rounds) (try_at gone ask rest n s idx o)
  unfolding try_at try_key finish settle record_verdict
  try_at-IsOut m rounds rest n s idx none g up e ok = absurd (cc)
  try_at-IsOut m rounds rest n s idx (some k) g up e ok =
      let a = ask n k in
      let (r, got, bad) = fails n k in
      let k' = (ensure_valid a.now a.early k).0 in
      let error = one_error a.now a.latency rounds "upstream" s.health up.counting in
      let next = settled a idx k' s (broken r.status) in
      let still : IsUp m next = record {
        size = length-modify_key (λ _. k') idx s.pool.keys ∙ up.size;
        enabled =
            All-modify_key (λ _. k') idx s.pool.keys e
              (ensure_valid-disabled a.now a.early k
                ∙ All-get_elem? IsEnabled s.pool.keys idx up.enabled e)
              up.enabled;
        counting = error.0;
      } in
      let out : IsOut m next.health rounds (rest next) = g next still in
      let one = record_request_counts a.now a.latency "upstream" s.health in
      let counts : IsCounted (suc rounds) s.health ((rest next).0.health) =
        (omega (arith, out.4.0, one.0), omega (arith, out.4.1, one.1)) in
      let here : IsOut m s.health (suc rounds) (rest next) =
        (out.0, out.1, out.2, out.3 ∙ error.1, counts) in
      let step : (k', broken r.status) ≡ attempt_key a k = sym (broken_attempt a k r got bad) in
      subst
        (λ (p : CbKey × Verdict).
          IsOut m s.health (suc rounds) (finish rest idx (settled a idx (p.0) s (p.1)) (p.1)))
        step here

  pick-IsOut :
      (m rounds : ℕ) (rest : Served → Served × Answer) (n : ℕ) (s : Served) (pool : CbKeyManager)
      (o : Option ℕ)
      → 0 < m
      → GoesOut m rounds rest
      → IsUp m s
      → IsNext s.pool pool o
      → IsOut m s.health (suc rounds) (pick gone ask rest n (record s { pool = pool }) o)
  unfolding pick
  pick-IsOut m rounds rest n s pool none pos g up (same, all) =
      let one = first_enabled s.pool.keys (rw up.size pos) up.enabled in
      absurd (let no = all 0 in cc)
  pick-IsOut m rounds rest n s pool (some idx) pos g up (k, lt, i, ok, p, same) =
      let keys = ap (λ (q : CbKeyManager). q.keys) same in
      let moved : Served = record s { pool = pool } in
      let up' : IsUp m moved = record {
        size = ap length keys ∙ up.size;
        enabled = subst (λ ks. All IsEnabled ks) (sym keys) up.enabled;
        counting = up.counting;
      } in
      try_at-IsOut m rounds rest n moved idx (get_elem? pool.keys idx) g up' refl
        (ap (λ ks. is_enabled (get_elem? ks idx)) keys ∙ ok)

  walk-IsOut :
      (there : (n : ℕ) → gone n ≡ false) (m rounds n : ℕ)
      → 0 < m
      → GoesOut m rounds (walk gone ask rounds n)
  unfolding walk
  walk-IsOut there m zero n pos s up =
      (refl, up.enabled, up.size, no_errors s.health up.counting, (omega arith, omega arith))
  walk-IsOut there m (suc rounds) n pos s up =
      let (pool, found) = next_key s.pool in
      let rest = walk gone ask rounds (n + 1) in
      subst
        (λ b.
          IsOut m s.health (suc rounds)
            (if b then (s, cancelled) else pick gone ask rest n (record s { pool = pool }) found))
        (sym (there n))
        (pick-IsOut m rounds rest n s pool found pos (walk-IsOut there m rounds (n + 1) pos) up
          (next_key-IsNext s.pool))

  abbrev IsOpened : Served → Served × Answer → Type 0
  IsOpened s x =
      (x.1 ≡ all_keys_disabled)
      × All IsEnabled x.0.pool.keys
      × (x.0.health.state ≡ after_errors closed s.health.consecutive_errs (length s.pool.keys))
      × IsCounted (length s.pool.keys) s.health x.0.health

  -- One request can open the circuit for all: with keys that are all enabled, on a circuit that is
  -- closed, where every reply is a server error and the client stays, one request records as many
  -- requests and as many errors with the circuit as there are keys, those after its opening included;
  -- the client is told that all keys are disabled, while none is, and the circuit is open if the errors
  -- in a row have come to five.
  pub outage_opens :
      (there : (n : ℕ) → gone n ≡ false) (now : ℕ) (s : Served)
      → All IsEnabled s.pool.keys
      → 0 < length s.pool.keys
      → s.health.state ≡ closed
      → s.health.consecutive_errs < open_threshold
      → let (s', a) = proxy_code_buddy gone ask now s in
        (a ≡ all_keys_disabled)
        × All IsEnabled s'.pool.keys
        × (s'.health.state ≡ (
            if ltb (s.health.consecutive_errs + length s.pool.keys) open_threshold
            then closed
            else open_circuit))
        × IsCounted (length s.pool.keys) s.health s'.health
  unfolding proxy_code_buddy
  outage_opens there now s enabled pos st low =
      let m = length s.pool.keys in
      let out =
        walk-IsOut there m m 0 pos s
          (record { size = refl; enabled = enabled; counting = inl (st, low) }) in
      let state = out.3 ∙ ap (λ x. after_errors x s.health.consecutive_errs m) st in
      subst (λ (r : UpstreamHealth × Bool). IsOpened s (proxy_with gone ask now s r))
        (sym (can_request-closed now s.health st)) (out.0, out.1, state, out.4)
