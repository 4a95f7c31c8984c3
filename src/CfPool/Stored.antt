-- ===== src/CfPool/Stored.antt =====
-- How a Cloudflare account is kept in Redis: toDTO and LoadFromRedis of internal/upstream/cloudflare.go,
-- with SaveCFKey and LoadCFKeys of internal/db/db.go. Redis has a hash for each account, and `Codec` is
-- how go-redis and strconv print and read numbers.
pub mod Reload
use onmi_routers.Base.{
  ℕ, zero, suc, ◌+◌, ◌-◌, ◌*◌, ◌/◌, ◌%◌, ◌≤◌, ◌<◌, ◌≡◌, refl, sym, ap, ◌∙◌, ◌≢◌, ◌⊎◌, inl, inr,
  String, Bool, true, false, not, ◌&&◌, ◌||◌, Option, none, some, List, [], ◌∷◌, ◌++◌, map, arith,
  eq_iff, eq_refl, ltb, leb, ◌==◌, str_eq, if◌then◌else◌, Bool-cases, Option-cases, length,
  length-append, get_elem?, drop, keep, All, All-append, contains, All-get_elem?, take, rotate,
  turn, get_elem?_total,
}
use onmi_routers.Base.Int.{ℤ, pos, negsuc}
use onmi_routers.Base.Assoc.{lookup, insert}
use onmi_routers.CfPool.{CfKey, CfKeyManager}

pub record Codec : Type 0 where
  pub print_float : ℕ → String
  pub parse_float : String → Option ℕ
  pub print_int : ℤ → String
  pub parse_int : String → Option ℤ

-- What is printed is no empty text and is read again.
pub record IsCodec (c : Codec) : Type 0 where
  pub float_shown : (n : ℕ) → str_eq (c.print_float n) "" ≡ false
  pub float_read : (n : ℕ) → c.parse_float (c.print_float n) ≡ some n
  pub int_shown : (z : ℤ) → str_eq (c.print_int z) "" ≡ false
  pub int_read : (z : ℤ) → c.parse_int (c.print_int z) ≡ some z

abbrev pub Hash : Type 0
Hash = List (String × String)

abbrev pub one_second : ℕ
one_second = 1_000_000_000

-- time.Time.Unix, of which the zero time lies in the year 1.
unfoldable pub unix : ℕ → ℤ
unix t = if t == 0 then negsuc 62135596799 else pos (t / one_second)

-- time.Unix, and the zero time for what is not positive.
unfoldable pub from_unix : ℤ → ℕ
from_unix (pos n) = n * one_second
from_unix (negsuc n) = 0

-- A count is not negative.
unfoldable pub to_count : ℤ → ℕ
to_count (pos n) = n
to_count (negsuc n) = 0

-- HSet: each field of the list is written.
unfoldable pub hset : Hash → Hash → Hash
hset [] m = m
hset ((k, v) ∷ fs) m = insert k v (hset fs m)

abbrev pub text_of : Option String → String
text_of none = ""
text_of (some v) = v

-- A field, or the empty text.
unfoldable pub field : String → Hash → String
field k m = text_of (lookup k m)

abbrev pub with_some : Option CfKey → List CfKey → List CfKey
with_some none ks = ks
with_some (some k) ks = k ∷ ks

module _ (c : Codec) where
  abbrev pub fields : ℕ → CfKey → Hash
  fields now k =
      ("account_id", k.account_id)
      ∷ ("token", k.token)
      ∷ ("quota_used", c.print_float k.quota_used)
      ∷ ("quota_limit", c.print_float k.quota_limit)
      ∷ ("quota_date", k.quota_date)
      ∷ ("total_requests", c.print_int (pos k.total_reqs))
      ∷ ("disabled", if k.disabled then "1" else "0")
      ∷ ("disabled_at", c.print_int (unix k.disabled_at))
      ∷ ("updated_at", c.print_int (unix now))
      ∷ []

  unfoldable pub save_cf_key : ℕ → CfKey → Hash → Hash
  unfolding hset
  save_cf_key now k m = hset (fields now k) m

  -- A text that is empty or not read leaves the zero value.
  unfoldable pub read_float : String → ℕ
  read_float v = if str_eq v "" then 0 else elim (c.parse_float v) [ none ↦ 0 | some n ↦ n ]

  unfoldable pub read_int : (ℤ → ℕ) → String → ℕ
  read_int f v = if str_eq v "" then 0 else elim (c.parse_int v) [ none ↦ 0 | some z ↦ f z ]

  -- A hash without a token is left out.
  unfoldable pub load_key : String → Hash → Option CfKey
  unfolding field read_float read_int
  load_key id m =
      let disabled = str_eq (field "disabled" m) "true" || str_eq (field "disabled" m) "1" in
      if str_eq (field "token" m) ""
      then none
      else some (record {
        account_id = id;
        token = field "token" m;
        disabled = disabled;
        disabled_at = if disabled then read_int from_unix (field "disabled_at" m) else 0;
        quota_limit = read_float (field "quota_limit" m);
        quota_used = read_float (field "quota_used" m);
        quota_date = field "quota_date" m;
        total_reqs = read_int to_count (field "total_requests" m);
      })

  unfoldable pub load_keys : List (String × Hash) → List CfKey
  unfolding load_key
  load_keys [] = []
  load_keys ((id, m) ∷ es) = with_some (load_key id m) (load_keys es)

  -- What is in Redis is added to the keys; without any, the keys come from the environment. The
  -- answer is none where Redis cannot be read.
  unfoldable pub load_from_redis :
      (CfKeyManager → CfKeyManager)
      → Option (List (String × Hash))
      → CfKeyManager
      → Option CfKeyManager
  unfolding load_keys
  load_from_redis bootstrap none km = none
  load_from_redis bootstrap (some []) km = some (bootstrap km)
  load_from_redis bootstrap (some (e ∷ es)) km =
      some (record km { keys = km.keys ++ load_keys (e ∷ es) })
