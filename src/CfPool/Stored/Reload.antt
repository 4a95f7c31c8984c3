-- ===== src/CfPool/Stored/Reload.antt =====
-- What a restart keeps of the Cloudflare accounts (internal/upstream/cloudflare.go and
-- internal/db/db.go).
use onmi_routers.Base.{
  ℕ, ◌*◌, ◌/◌, ◌≡◌, refl, ap, ◌∙◌, inl, inr, String, Bool, true, false, ◌||◌, Option, some, List,
  [], ◌∷◌, map, arith, ◌==◌, str_eq, if◌then◌else◌, Bool-cases, All,
}
use onmi_routers.Base.Assoc.{lookup, lookup-insert}
use onmi_routers.CfPool.{CfKeyManager, new_cf_key_manager, CfKey}
use onmi_routers.Base.Int.{ℤ, pos}
use onmi_routers.CfPool.Stored.{
  load_from_redis, with_some, text_of, Codec, IsCodec, Hash, one_second, unix, from_unix, to_count,
  hset, field, fields, save_cf_key, read_float, read_int, load_key, load_keys,
}

-- The field as it is in a list of fields, or else in the hash before.
abbrev written : String → Hash → Hash → String
written w [] m = field w m
written w ((k, v) ∷ fs) m = if str_eq k w then v else written w fs m

if-text :
    (b : Bool) (v : String) (o : Option String) (t : String)
    → text_of o ≡ t
    → text_of (if b then some v else o) ≡ (if b then v else t)
if-text true v o t h = refl
if-text false v o t h = h

field-hset : (w : String) (fs m : Hash) → field w (hset fs m) ≡ written w fs m
unfolding field hset
field-hset w [] m = refl
field-hset w ((k, v) ∷ fs) m =
    ap text_of (lookup-insert k w v (hset fs m))
    ∙ if-text (str_eq k w) v (lookup w (hset fs m)) (written w fs m) (field-hset w fs m)

flag_read :
    (b : Bool) → (str_eq (if b then "1" else "0") "true" || str_eq (if b then "1" else "0") "1") ≡ b
flag_read true = refl
flag_read false = refl

from_unix-unix : (t : ℕ) → from_unix (unix t) ≡ t / one_second * one_second
unfolding from_unix unix
from_unix-unix t = elim (Bool-cases (t == 0)) [
  | inl h ↦ let e : t ≡ 0 = ground (arith, h) in rw (h, e) refl
  | inr h ↦ rw h refl
]

-- A key after a restart: the time of its cooldown in whole seconds, and none where it is not disabled.
abbrev pub restored : CfKey → CfKey
restored k = record k {
  disabled_at = if k.disabled then k.disabled_at / one_second * one_second else 0;
}

abbrev pub HasToken : CfKey → Type 0
HasToken k = str_eq k.token "" ≡ false

-- The hash of each key as it was last written, whatever it held before.
abbrev pub stored_keys : Codec → ℕ → List (CfKey × Hash) → List (String × Hash)
stored_keys c now [] = []
stored_keys c now ((k, m) ∷ ks) = (k.account_id, save_cf_key c now k m) ∷ stored_keys c now ks

module _ (c : Codec) (laws : IsCodec c) where
  float_lem : (n : ℕ) → read_float c (c.print_float n) ≡ n
  unfolding read_float
  float_lem n = rw (laws.float_shown n, laws.float_read n) refl

  int_lem : (f : ℤ → ℕ) (z : ℤ) → read_int c f (c.print_int z) ≡ f z
  unfolding read_int
  int_lem f z = rw (laws.int_shown z, laws.int_read z) refl

  load_key-save :
      (now : ℕ) (k : CfKey) (m : Hash)
      → str_eq k.token "" ≡ false
      → load_key c k.account_id (save_cf_key c now k m) ≡ some (restored k)
  unfolding load_key save_cf_key to_count
  load_key-save now k m h =
      let at = λ (w : String). field-hset w (fields c now k) m in
      rw
        (
          at "token",
          at "disabled",
          at "disabled_at",
          at "quota_limit",
          at "quota_used",
          at "quota_date",
          at "total_requests",
          h,
          flag_read k.disabled,
          int_lem from_unix (unix k.disabled_at),
          from_unix-unix k.disabled_at,
          float_lem k.quota_limit,
          float_lem k.quota_used,
          int_lem to_count (pos k.total_reqs),
        )
        refl

  load_keys-stored :
      (now : ℕ) (ks : List (CfKey × Hash))
      → All (λ e. HasToken e.0) ks
      → load_keys c (stored_keys c now ks) ≡ map (λ e. restored e.0) ks
  unfolding load_keys
  load_keys-stored now [] h = refl
  load_keys-stored now ((k, m) ∷ ks) (h, hs) =
      ap (λ o. with_some o (load_keys c (stored_keys c now ks))) (load_key-save now k m h)
      ∙ ap (λ x. restored k ∷ x) (load_keys-stored now ks hs)

  -- A manager that reads Redis as it starts has the keys that were stored, in the order in which Redis
  -- gives them: each one with its token, quota, day, count of requests and whether it is disabled, the
  -- time of a cooldown in whole seconds, and none for a key that is not disabled. Each key has a token,
  -- its hash may have held anything before, and numbers that are printed are read again.
  pub load-stored :
      (bootstrap : CfKeyManager → CfKeyManager) (now : ℕ) (k : CfKey) (m : Hash)
      (ks : List (CfKey × Hash))
      → HasToken k
      → All (λ e. HasToken e.0) ks
      → load_from_redis c bootstrap
          (some (stored_keys c now ((k, m) ∷ ks)))
          (new_cf_key_manager true)
        ≡ some (record (new_cf_key_manager true) { keys = map (λ e. restored e.0) ((k, m) ∷ ks) })
  unfolding load_from_redis new_cf_key_manager
  load-stored bootstrap now k m ks h hs =
      ap (λ x. some (record (new_cf_key_manager true) { keys = x }))
        (load_keys-stored now ((k, m) ∷ ks) (h, hs))
