-- ===== src/CodeBuddy/Tests.antt =====
-- Examples of the CodeBuddy keys (internal/upstream/codebuddy.go).
use onmi_routers.Base.{
  ℕ, ◌+◌, ◌<◌, ◌≡◌, refl, Bool, true, false, none, some, List, [], ◌∷◌, arith, ltb, if◌then◌else◌,
  length, get_elem?, All,
}
use onmi_routers.Circuit.{closed, open_circuit, new_upstream_health, open_threshold}
use onmi_routers.CodeBuddy.{CbKey, no_reply, no_meter, new_key, is_permanent}
use onmi_routers.CodeBuddy.Pool.{CbKeyManager}
use onmi_routers.CodeBuddy.Serve.{Attempt, Served, all_keys_disabled, proxy_code_buddy}
use onmi_routers.CodeBuddy.Stream.{Line, other, done, data_line, stream, cb_collect_stream}
use onmi_routers.CodeBuddy.Served.{IsAnswer, proxy_code_buddy-IsAnswer}
use onmi_routers.CodeBuddy.Outage.{IsEnabled, IsCounted, outage_opens}
use onmi_routers.CodeBuddy.Credits.{charges, sum, last, Uses, stream_charges}
use onmi_routers.CodeBuddy.Permanent.{
  requests, adds, imports, reenables, pre_warms, syncs, run, permanent_stays,
}

abbrev banned : CbKey
banned = record (new_key "ck_banned") { disabled = true }

-- Five keys, and one that is disabled for good.
abbrev five : List CbKey
five = new_key "ck_a" ∷ new_key "ck_b" ∷ new_key "ck_c" ∷ new_key "ck_d" ∷ new_key "ck_e" ∷ []

abbrev pool_with_banned : CbKeyManager
pool_with_banned = record { keys = banned ∷ five; next = 0 }

abbrev here : ℕ → Bool
here n = false

-- Every attempt gets a status.
abbrev replies : ℕ → ℕ → CbKey → Attempt
replies status n k = record {
  now = n;
  latency = 1;
  early = no_reply;
  first = some (record { status = status; body = "" });
  renewal = no_reply;
  second = none;
}

abbrev gateway : CbKeyManager → Served
gateway pool = record { pool = pool; health = new_upstream_health }

proxy_code_buddy-IsAnswer_example :
    let (s', a) = proxy_code_buddy here (replies 200) 7 (gateway pool_with_banned) in
    (length s'.pool.keys ≡ 6) × IsAnswer s' a
proxy_code_buddy-IsAnswer_example =
    proxy_code_buddy-IsAnswer here (replies 200) 7 (gateway pool_with_banned)

abbrev pool_of_five : CbKeyManager
pool_of_five = record { keys = five; next = 2 }

fresh_closed : new_upstream_health.state ≡ closed
unfolding new_upstream_health
fresh_closed = refl

fresh_count : new_upstream_health.consecutive_errs < open_threshold
unfolding new_upstream_health
fresh_count = omega arith

outage_opens_example :
    let (s', a) = proxy_code_buddy here (replies 503) 7 (gateway pool_of_five) in
    (a ≡ all_keys_disabled)
    × All IsEnabled s'.pool.keys
    × (s'.health.state ≡ (
        if ltb (new_upstream_health.consecutive_errs + 5) open_threshold
        then closed
        else open_circuit))
    × IsCounted 5 new_upstream_health s'.health
outage_opens_example =
    outage_opens here (replies 503) (λ n k. (record { status = 503; body = "" }, refl, omega arith))
      (λ n. refl) 7 (gateway pool_of_five) (refl, (refl, (refl, (refl, (refl, tt))))) (omega arith)
      fresh_closed fresh_count

abbrev chunk : ℕ → Line
chunk c =
    data_line
      (some (record { error = none; content = "a"; reasoning = ""; finish = ""; credit = some c }))

abbrev reply_lines : List Line
reply_lines = chunk 2 ∷ other ∷ chunk 3 ∷ done ∷ other ∷ []

stream_charges_example :
    Uses
      (sum (charges reply_lines))
      (length (charges reply_lines))
      (new_key "ck_a")
      (stream reply_lines (new_key "ck_a"))
    × Uses
        (last (charges reply_lines) 0)
        (if ltb 0 (last (charges reply_lines) 0) then 1 else 0)
        (new_key "ck_a")
        (cb_collect_stream reply_lines (new_key "ck_a")).1
stream_charges_example = stream_charges reply_lines (new_key "ck_a") tt

-- The two chunks are charged together where the reply is streamed, and the second alone where not.
charged_twice : ◌≡◌ {A = List ℕ} (charges reply_lines) (2 ∷ 3 ∷ [])
unfolding charges
charged_twice = refl

permanent_banned : is_permanent banned ≡ true
unfolding is_permanent
permanent_banned = refl

permanent_stays_example :
    get_elem?
      (run
        (requests here (replies 429) 7
          ∷ adds "ck_new"
          ∷ imports 8 no_reply "a@example.com" "access" "refresh" none
          ∷ reenables 1_000_000_000_000
          ∷ pre_warms 9 (λ k. no_reply)
          ∷ syncs (λ t. none) 10 (λ k. no_reply) (λ k. no_meter)
          ∷ [])
        (gateway pool_with_banned)).pool.keys
      0
    ≡ some banned
unfolding onmi_routers.Base.Text.trim_space
permanent_stays_example =
    permanent_stays 0 banned permanent_banned
      (requests here (replies 429) 7
        ∷ adds "ck_new"
        ∷ imports 8 no_reply "a@example.com" "access" "refresh" none
        ∷ reenables 1_000_000_000_000
        ∷ pre_warms 9 (λ k. no_reply)
        ∷ syncs (λ t. none) 10 (λ k. no_reply) (λ k. no_meter)
        ∷ [])
      (gateway pool_with_banned) (tt, (tt, (refl, (tt, (tt, (tt, tt)))))) refl
