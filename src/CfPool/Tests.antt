-- ===== src/CfPool/Tests.antt =====
-- Examples of the pool of Cloudflare accounts (internal/upstream/cloudflare.go).
use onmi_routers.Base.{
  ℕ, zero, suc, ◌+◌, ◌≤◌, ◌≡◌, refl, sym, ap, ◌∙◌, inl, inr, String, Bool, true, false, Option,
  none, some, List, [], ◌∷◌, map, arith, eq_iff, ◌==◌, str_eq, if◌then◌else◌, Bool-cases, length,
  All,
}
use onmi_routers.Circuit.{new_upstream_health}
use Prim.Native.Char.{code}
use onmi_routers.Base.Int.{ℤ, pos, negsuc}
use onmi_routers.CfPool.Stored.{Codec, IsCodec, load_from_redis}
use onmi_routers.CfPool.Stored.Reload.{stored_keys, restored, load-stored}
use onmi_routers.CfPool.Serve.{Attempt, Served, max_attempts, proxy_cloudflare}
use onmi_routers.CfPool.Serve.Honest.{IsAnswer, proxy_cloudflare-IsAnswer}
use onmi_routers.CfPool.Serve.Effort.{proxy_cloudflare_bounded}
use onmi_routers.CfPool.Serve.Outage.{requests, outage_unnoticed}
use onmi_routers.CfPool.{new_cf_key_manager, next_key, refresh, CfKey, CfKeyManager}
use onmi_routers.CfPool.Choice.{next_best, IsChosen, IsBeaten}

abbrev key : String → Bool → ℕ → ℕ → CfKey
key id disabled at used = record {
  account_id = id;
  token = "t";
  disabled = disabled;
  disabled_at = at;
  quota_limit = 100;
  quota_used = used;
  quota_date = "2026-01-01";
  total_reqs = 0;
}

abbrev pool : List CfKey → CfKeyManager
pool ks = record { keys = ks; next = 1; stored = true }

abbrev three : List CfKey
three = key "a" false 0 90 ∷ key "b" true 5 0 ∷ key "c" false 0 20 ∷ []

next_best_example :
    IsChosen (map (refresh "2026-01-01") three) (next_key "2026-01-01" (pool three)).1
    × All (IsBeaten (next_key "2026-01-01" (pool three)).1) (map (refresh "2026-01-01") three)
next_best_example = next_best "2026-01-01" (pool three)

abbrev fresh : List CfKey
fresh = key "a" false 0 90 ∷ key "c" false 0 20 ∷ key "d" false 0 0 ∷ []

abbrev here : ℕ → Bool
here n = false

abbrev day : ℕ → String
day n = "2026-01-01"

-- Every attempt gets a status, or none.
abbrev replies : Option ℕ → ℕ → CfKey → Attempt
replies status n k = record { today = "2026-01-01"; now = n; latency = 1; status = status }

abbrev gateway : Served
gateway = record { pool = pool fresh; health = new_upstream_health; calls = [] }

proxy_cloudflare-IsAnswer_example :
    IsAnswer (replies (some 404)) (proxy_cloudflare here day (replies (some 404)) 0 true gateway).1
proxy_cloudflare-IsAnswer_example =
    proxy_cloudflare-IsAnswer (replies (some 404)) here day 0 true gateway

proxy_cloudflare_bounded_example :
    let (after, _) = proxy_cloudflare here day (replies (some 429)) 0 true gateway in
    (length after.calls ≤ length gateway.calls + max_attempts)
    × (length after.calls ≤ length gateway.calls + length gateway.pool.keys)
proxy_cloudflare_bounded_example =
    proxy_cloudflare_bounded here day (replies (some 429)) 0 true gateway

abbrev outage : List (ℕ × (ℕ → CfKey → Attempt))
outage = (1, replies none) ∷ (2, replies none) ∷ []

outage_unnoticed_example : (requests here day outage gateway).health ≡ gateway.health
unfolding new_upstream_health
outage_unnoticed_example =
    outage_unnoticed here day outage gateway ((λ n k. refl), ((λ n k. refl), tt)) refl

-- Numbers in base one, behind a sign.
abbrev marks : ℕ → String
marks zero = ""
marks (suc n) = String.◌∷◌ "1" (marks n)

abbrev count : String → ℕ
count String.[] = 0
count (String.◌∷◌ c s) = suc (count s)

abbrev read_marks : String → Option ℕ
read_marks String.[] = none
read_marks (String.◌∷◌ c s) = some (count s)

abbrev print_signed : ℤ → String
print_signed (pos n) = String.◌∷◌ "+" (marks n)
print_signed (negsuc n) = String.◌∷◌ "-" (marks n)

abbrev read_signed : String → Option ℤ
read_signed String.[] = none
read_signed (String.◌∷◌ c s) = some (if code c == b'+' then pos (count s) else negsuc (count s))

abbrev unary : Codec
unary = record {
  print_float = λ n. String.◌∷◌ "+" (marks n);
  parse_float = read_marks;
  print_int = print_signed;
  parse_int = read_signed;
}

count-marks : (n : ℕ) → count (marks n) ≡ n
count-marks zero = refl
count-marks (suc n) = ap suc (count-marks n)

counted_shown : (s : String) (n : ℕ) → count s ≡ suc n → str_eq s "" ≡ false
counted_shown s n h = elim (Bool-cases (str_eq s "")) [
  | inl same ↦
      let empty : s ≡ "" = ground (arith, eq_iff s "", same) in
      let none_left : suc n ≡ 0 = sym h ∙ ap count empty in absurd (omega arith)
  | inr other ↦ other
]

signed_shown : (z : ℤ) → str_eq (print_signed z) "" ≡ false
signed_shown (pos n) = counted_shown (print_signed (pos n)) (count (marks n)) refl
signed_shown (negsuc n) = counted_shown (print_signed (negsuc n)) (count (marks n)) refl

signed_read : (z : ℤ) → read_signed (print_signed z) ≡ some z
signed_read (pos n) = ap (λ k. some (pos k)) (count-marks n)
signed_read (negsuc n) = ap (λ k. some (negsuc k)) (count-marks n)

unary-IsCodec : IsCodec unary
unary-IsCodec = record {
  float_shown = λ n. signed_shown (pos n);
  float_read = λ n. ap some (count-marks n);
  int_shown = signed_shown;
  int_read = signed_read;
}

load-stored_example :
    load_from_redis unary
      (λ km. km)
      (some (
        stored_keys unary 9
          ((key "a" true 0 90, []) ∷ (key "b" true 5 0, ("token", "old") ∷ []) ∷ [])))
      (new_cf_key_manager true)
    ≡ some (record (new_cf_key_manager true) {
      keys = restored (key "a" true 0 90) ∷ restored (key "b" true 5 0) ∷ [];
    })
load-stored_example =
    load-stored unary unary-IsCodec (λ km. km) 9 (key "a" true 0 90) []
      ((key "b" true 5 0, ("token", "old") ∷ []) ∷ []) refl (refl, tt)
