-- ===== src/ProxyPool/Validation.antt =====
-- What a proxy entry that passes `validateEntry` satisfies (internal/proxy/pool.go).
use mathlib.Core.Path.{subst}
use Prim.Native.String.{len}
use onmi_routers.Base.{
  contains-append, ◌≤◌, ◌≡◌, refl, ◌≢◌, ◌⊎◌, inl, inr, String, true, false, ◌||◌, List, [], ◌∷◌,
  ◌++◌, arith, eq_iff, str_eq, Bool-cases, contains,
}
use onmi_routers.Base.Text.{trim_space, contains_any}
use onmi_routers.ProxyPool.{
  normalised, ok, validate_entry, check_fields, ProxyEntry, clean_upstreams, normalise_upstreams,
  all_valid, structural,
}

-- No text stands twice.
abbrev pub IsUnique : List String → Type 0
IsUnique [] = Unit {0}
IsUnique (u ∷ us) = (contains u us ≡ false) × IsUnique us

IsUnique-append :
    (us : List String) (v : String) → IsUnique us → contains v us ≡ false → IsUnique (us ++ v ∷ [])
IsUnique-append [] v d h = (refl, tt)
IsUnique-append (u ∷ us) v d h = (
  ground (arith, d.0, contains-append u us (v ∷ []), eq_iff v u, eq_iff u v),
  IsUnique-append us v d.1 (ground arith),
)

module _ (lower : String → String) where
  clean-IsUnique :
      (out given : List String) → IsUnique out → IsUnique (clean_upstreams lower out given)
  unfolding clean_upstreams
  clean-IsUnique out [] d = d
  clean-IsUnique out (s ∷ given) d =
      let v = lower (trim_space s) in
      elim (Bool-cases (str_eq v "" || contains v out)) [
        | inl skip ↦ rw skip (clean-IsUnique out given d)
        | inr new ↦
            rw new (clean-IsUnique (out ++ v ∷ []) given (IsUnique-append out v d (ground arith)))
      ]

pub record IsScoped (us : List String) : Type 0 where
  pub scoped : us ≢ []
  pub valid : all_valid us ≡ true
  pub unique : IsUnique us
  pub all_alone : (contains "all" us ≡ false) ⊎ (us ≡ "all" ∷ [])

pub record IsWellFormed (e : ProxyEntry) : Type 0 where
  pub known_protocol : (e.protocol ≡ "http") ⊎ (e.protocol ≡ "socks5")
  pub has_host : e.host ≢ ""
  pub host_fits : len e.host ≤ 253
  pub host_plain : contains_any e.host structural ≡ false
  pub port_range : (1 ≤ e.port) × (e.port ≤ 65535)
  pub label_fits : len e.label ≤ 64
  pub credentials_fit : (len e.username ≤ 256) × (len e.password ≤ 256)
  pub upstreams_scoped : IsScoped e.upstreams

normalise-IsScoped :
    (lower : String → String) (given : List String)
    → all_valid (normalise_upstreams lower given) ≡ true
    → IsScoped (normalise_upstreams lower given)
unfolding normalise_upstreams
normalise-IsScoped lower given v = record {
  scoped = ground arith;
  valid = v;
  unique = ground (arith, clean-IsUnique lower [] given tt);
  all_alone = ground arith;
}

check_fields-fit :
    (e e' : ProxyEntry)
    → check_fields e ≡ ok e'
    → (e ≡ e')
      × (all_valid e.upstreams ≡ true)
      × ((e.protocol ≡ "http") ⊎ (e.protocol ≡ "socks5"))
      × (e.host ≢ "")
      × (len e.host ≤ 253)
      × (contains_any e.host structural ≡ false)
      × (1 ≤ e.port)
      × (e.port ≤ 65535)
      × (len e.label ≤ 64)
      × (len e.username ≤ 256)
      × (len e.password ≤ 256)
unfolding check_fields
check_fields-fit e e' h =
    ground (arith, eq_iff e.protocol "http", eq_iff e.protocol "socks5", eq_iff e.host "")

-- An entry that passes validation is well formed: a known protocol, a host that is not empty, not too
-- long and without spaces or slashes, a port from 1 to 65535, short texts, and a list of upstreams
-- that is not empty, has known names only, none twice, and "all" only alone.
pub validate-IsWellFormed :
    (lower : String → String) (e e' : ProxyEntry) → validate_entry lower e ≡ ok e' → IsWellFormed e'
unfolding validate_entry
validate-IsWellFormed lower e e' h =
    let (same, v, p, n, hf, hp, lo, hi, lf, uf, pf) = check_fields-fit (normalised lower e) e' h in
    subst IsWellFormed same (record {
      known_protocol = p;
      has_host = n;
      host_fits = hf;
      host_plain = hp;
      port_range = (lo, hi);
      label_fits = lf;
      credentials_fit = (uf, pf);
      upstreams_scoped = normalise-IsScoped lower e.upstreams v;
    })
