-- ===== src/ProxyPool/Consistency.antt =====
-- What holds of the proxy pool between two operations (internal/proxy/pool.go).
use onmi_routers.Base.{
  ℕ, ◌≡◌, refl, inl, inr, String, Bool, none, some, List, [], ◌∷◌, ◌++◌, map, arith, str_eq,
  Bool-cases, keep, All, All-append,
}
use mathlib.Core.Path.{subst}
use onmi_routers.ProxyPool.{ProxyEntry}
use onmi_routers.ProxyPool.Validation.{IsWellFormed}
use onmi_routers.ProxyPool.Operations.{
  add_entry, ProxyPool, rebuild_enabled, saves, find, modify, Db,
}

-- An entry without its count of failures, which the enabled list does not keep up to date.
abbrev pub sans_count : ProxyEntry → ProxyEntry
sans_count e = record e { fail_count = 0 }

-- The enabled list has exactly the entries that are enabled, in order, but for their counts.
pub record IsConsistent (p : ProxyPool) : Type 0 where
  pub enabled_kept : map sans_count p.enabled ≡ map sans_count (keep (λ e. e.enabled) p.entries)
  pub well_formed : All IsWellFormed p.entries

pub All-keep {ℓ} :
    {A : Type 0} (P : A → Type ℓ) (f : A → Bool) (xs : List A) → All P xs → All P (keep f xs)
All-keep P f [] a = tt
All-keep P f (x ∷ xs) a = ground (arith, All-keep P f xs a.1)

pub modify-All :
    (id : String) (f : ProxyEntry → ProxyEntry) (es : List ProxyEntry)
    → ((e : ProxyEntry) → IsWellFormed e → IsWellFormed (f e))
    → All IsWellFormed es
    → All IsWellFormed (modify id f es)
unfolding modify
modify-All id f [] h a = tt
modify-All id f (e ∷ es) h a = elim (Bool-cases (str_eq e.id id)) [
  | inl hit ↦ rw hit (h e a.0, a.1)
  | inr miss ↦ rw miss (a.0, modify-All id f es h a.1)
]

-- A change that the enabled list need not see.
pub modify-sans_count :
    (id : String) (f : ProxyEntry → ProxyEntry) (es : List ProxyEntry)
    → ((e : ProxyEntry) → find id es ≡ some e → sans_count (f e) ≡ sans_count e)
    → map sans_count (keep (λ e. e.enabled) (modify id f es))
      ≡ map sans_count (keep (λ e. e.enabled) es)
unfolding modify find
modify-sans_count id f [] h = refl
modify-sans_count id f (e ∷ es) h = elim (Bool-cases (str_eq e.id id)) [
  | inl hit ↦ rw hit (ground (arith, h e (ground arith)))
  | inr miss ↦ rw miss (ground (arith, modify-sans_count id f es (λ e' h'. h e' (ground arith))))
]

find-All :
    (id : String) (es : List ProxyEntry) {e : ProxyEntry}
    → All IsWellFormed es
    → find id es ≡ some e
    → IsWellFormed e
unfolding find
find-All id [] a h = cc
find-All id (x ∷ es) a h = elim (Bool-cases (str_eq x.id id)) [
  | inl hit ↦ subst IsWellFormed (ground arith) a.0
  | inr miss ↦ find-All id es a.1 (ground arith)
]

-- Validity does not read the identifier, the flag, the count and the time of creation.
pub other-IsWellFormed :
    (e : ProxyEntry) (id : String) (b : Bool) (c n : ℕ)
    → IsWellFormed e
    → IsWellFormed (record e { id = id; enabled = b; created_at = c; fail_count = n })
other-IsWellFormed e id b c n w = record {
  known_protocol = w.known_protocol;
  has_host = w.has_host;
  host_fits = w.host_fits;
  host_plain = w.host_plain;
  port_range = w.port_range;
  label_fits = w.label_fits;
  credentials_fit = w.credentials_fit;
  upstreams_scoped = w.upstreams_scoped;
}

pub rebuild-IsConsistent :
    (p : ProxyPool) → All IsWellFormed p.entries → IsConsistent (rebuild_enabled p)
unfolding rebuild_enabled
rebuild-IsConsistent p a = record { enabled_kept = refl; well_formed = a }

pub add_entry-IsConsistent :
    (db : Db) (e : ProxyEntry) (p : ProxyPool)
    → IsWellFormed e
    → IsConsistent p
    → IsConsistent (add_entry db e p).0
unfolding add_entry
add_entry-IsConsistent none e p fit v =
    rebuild-IsConsistent (record p { entries = p.entries ++ e ∷ [] })
      (All-append IsWellFormed p.entries (e ∷ []) v.well_formed (fit, tt))
add_entry-IsConsistent (some fails) e p fit v = elim (Bool-cases (fails (saves e))) [
  | inl bad ↦ rw (bad, add_entry) v
  | inr done ↦
      rw (done, add_entry)
        (rebuild-IsConsistent (record p { entries = p.entries ++ e ∷ [] })
          (All-append IsWellFormed p.entries (e ∷ []) v.well_formed (fit, tt)))
]
