-- ===== src/Combo/Routing.antt =====
-- Which model a combo routes to (internal/proxy/combo.go).
use mathlib.Core.Path.{subst}
use onmi_routers.Base.{
  All, true, ◌||◌, ◌%◌, sym, ap, ltb, if◌then◌else◌, Among, ℕ, zero, suc, ◌≡◌, refl, ◌≢◌, ◌⊎◌, inl,
  inr, String, Bool, false, not, ◌&&◌, Option, none, some, List, [], ◌∷◌, arith, eq_iff, leb,
  str_eq, Bool-cases, length, get_elem?, keep,
}
use Prim.Native.String.{◌++◌ as text_append, len, slice}
use text.Mathlib.Text.{starts_with}
use onmi_routers.Base.Int.{ℤ, index_mod}
use onmi_routers.Base.Assoc.{lookup}
use onmi_routers.Combo.{
  contains_text, Status, bump_usage, fallback_counter, usage_count, avg_latency_ms, Combo,
  HealthChecker, Registry, upstream_open, least, is_cf, by_tier, healthy_models, or_head, first_or,
  pick, pick_healthy, is_smart, rotation, route, resolve, resolve_combo,
}

least-Among : (f : String → ℕ) (b : String) (ms : List String) → Among (least f b ms) (b ∷ ms)
unfolding least
least-Among f b [] = inl refl
least-Among f b (m ∷ ms) = elim (Bool-cases (ltb (f m) (f b))) [
  | inl less ↦ inr (
      subst (λ x. Among x (m ∷ ms)) (sym (ap (λ t. least f (if t then m else b) ms) less))
        (least-Among f m ms))
  | inr more ↦ ground (arith, more, least-Among f b ms)
]

keep-Among :
    (p : String → Bool) (m : String) (ms : List String)
    → Among m (keep p ms)
    → Among m ms × (p m ≡ true)
keep-Among p m [] h = absurd h
keep-Among p m (n ∷ ms) h = ground (arith, h, keep-Among p m ms)

get_elem?-Among : (ms : List String) (i : ℕ) (m : String) → get_elem? ms i ≡ some m → Among m ms
get_elem?-Among [] i m h = absurd (ground (arith, h))
get_elem?-Among (n ∷ ms) zero m h = inl (ground (arith, h))
get_elem?-Among (n ∷ ms) (suc i) m h = inr (get_elem?-Among ms i m h)

or_head-Among :
    (h : String) (hs : List String) (i : ℕ) → Among (or_head h (get_elem? (h ∷ hs) i)) (h ∷ hs)
or_head-Among h hs i = go (get_elem? (h ∷ hs) i) refl
  where
    go : (o : Option String) → get_elem? (h ∷ hs) i ≡ o → Among (or_head h o) (h ∷ hs)
    go none e = inl refl
    go (some m) e = get_elem?-Among (h ∷ hs) i m e

first_or-Among :
    (h : String) (p : String → Bool) (ms : List String)
    → Among h ms
    → Among (first_or h (keep p ms)) ms
first_or-Among h p ms a = go (keep p ms) refl
  where
    go : (ks : List String) → keep p ms ≡ ks → Among (first_or h ks) ms
    go [] e = a
    go (k ∷ ks) e = (keep-Among p k ms (rw e (inl refl))).0

by_tier-Among :
    (usd : String → ℕ → ℕ → ℕ) (h : String) (hs : List String)
    → Among (by_tier usd h (h ∷ hs)) (h ∷ hs)
unfolding by_tier
by_tier-Among usd h hs =
    first_or-Among _ (λ m. not (is_cf m)) (h ∷ hs)
      (first_or-Among _ (λ m. is_cf m && ltb 0 (usd m 1 1)) (h ∷ hs)
        (first_or-Among h (λ m. is_cf m && leb (usd m 1 1) 0) (h ∷ hs) (inl refl)))

if_Among :
    (b : Bool) (x y : Registry × String) (ms : List String)
    → Among x.1 ms
    → Among y.1 ms
    → Among (if b then x else y).1 ms
if_Among true x y ms l r = l
if_Among false x y ms l r = r

pick-Among :
    (usd : String → ℕ → ℕ → ℕ) (hc : Option HealthChecker) (name strategy h : String)
    (hs : List String) (r : Registry)
    → Among (pick usd hc name strategy h hs r).1 (h ∷ hs)
unfolding pick
pick-Among usd hc name strategy h hs r =
    let (r', n) = fallback_counter (text_append name ":rnd") r in
    let used = least (usage_count r) h hs in
    let drawn = or_head h (get_elem? (h ∷ hs) (n % length (h ∷ hs))) in
    let fast = least (avg_latency_ms hc) h hs in
    let cheap = least (λ m. usd m 1_000_000 1_000_000) h hs in
    let x₅ : Registry × String = if str_eq strategy "cost" then (r, cheap) else (r, h) in
    let x₄ : Registry × String = if str_eq strategy "latency" then (r, fast) else x₅ in
    let x₃ : Registry × String =
      if str_eq strategy "least_used" then (bump_usage used r, used) else x₄ in
    let x₂ : Registry × String = if str_eq strategy "random" then (r', drawn) else x₃ in
    let x₁ : Registry × String =
      if str_eq strategy "auto" then (r, by_tier usd h (h ∷ hs)) else x₂ in
    let ms = h ∷ hs in
    if_Among (str_eq strategy "fill_first" || str_eq strategy "priority") (r, h) x₁ ms (inl refl)
      (if_Among (str_eq strategy "auto") (r, by_tier usd h ms) x₂ ms (by_tier-Among usd h hs)
        (if_Among (str_eq strategy "random") (r', drawn) x₃ ms (or_head-Among h hs (n % length ms))
          (if_Among (str_eq strategy "least_used") (bump_usage used r, used) x₄ ms
            (least-Among (usage_count r) h hs)
            (if_Among (str_eq strategy "latency") (r, fast) x₅ ms
              (least-Among (avg_latency_ms hc) h hs)
              (if_Among (str_eq strategy "cost") (r, cheap) (r, h) ms
                (least-Among (λ m. usd m 1_000_000 1_000_000) h hs) (inl refl))))))

-- The upstreams that a name shows; the tests are made in this order.
abbrev shows_cf : String → Bool
shows_cf m = starts_with m "@cf/" || contains_text m "cloudflare"

abbrev shows_cb : String → Bool
shows_cb m = starts_with m "cb/" || contains_text m "codebuddy"

abbrev shows_grok : String → Bool
shows_grok m = starts_with m "grok"

abbrev pub IsOpen : Option Status → Type 0
IsOpen none = ⊥
IsOpen (some s) = s.is_open ≡ true

-- The first upstream that is shown has an open circuit.
abbrev pub IsFirst : Bool → Bool → Bool → HealthChecker → Type 0
IsFirst cf cb grok h =
    ((cf ≡ true) × IsOpen h.cf)
    ⊎ ((cf ≡ false) × (cb ≡ true) × IsOpen h.cb)
    ⊎ ((cf ≡ false) × (cb ≡ false) × (grok ≡ true) × IsOpen h.grok)

-- A name that shows an upstream with an open circuit.
abbrev pub IsDown : Option HealthChecker → String → Type 0
IsDown none m = ⊥
IsDown (some h) m = IsFirst (shows_cf m) (shows_cb m) (shows_grok m) h

-- A routed model: one of the combo's, and with a smart strategy one whose name shows no upstream with an
-- open circuit, unless all names do.
abbrev pub IsRouted : Option HealthChecker → Combo → String → Type 0
IsRouted hc c m =
    Among m c.models
    × ((is_smart c.strategy ≡ false) ⊎ ¬ IsDown hc m ⊎ All (λ x. IsDown hc x) c.models)

abbrev is_open_of : Option Status → Bool
is_open_of o = elim o [ none ↦ false | some s ↦ s.is_open ]

open_lem : (o : Option Status) → (is_open_of o ≡ true → IsOpen o) × (IsOpen o → is_open_of o ≡ true)
open_lem none = (λ e. absurd (cc), λ x. absurd x)
open_lem (some s) = (λ e. e, λ e. e)

IsFirst-open :
    (cf cb grok : Bool) (h : HealthChecker)
    → let o =
        is_open_of (if cf then h.cf else if cb then h.cb else if grok then h.grok else none) in
      (o ≡ true → IsFirst cf cb grok h) × (IsFirst cf cb grok h → o ≡ true)
IsFirst-open true cb grok h = (
  λ e. inl (refl, (open_lem h.cf).0 e),
  λ d. elim d [
    | inl a ↦ (open_lem h.cf).1 a.1
    | inr x ↦ elim x [ inl a ↦ absurd (let no = a.0 in cc) | inr a ↦ absurd (let no = a.0 in cc) ]
  ],
)
IsFirst-open false true grok h = (
  λ e. inr (inl (refl, refl, (open_lem h.cb).0 e)),
  λ d. elim d [
    | inl a ↦ absurd (let no = a.0 in cc)
    | inr x ↦ elim x [ inl a ↦ (open_lem h.cb).1 a.2 | inr a ↦ absurd (let no = a.1 in cc) ]
  ],
)
IsFirst-open false false true h = (
  λ e. inr (inr (refl, refl, refl, (open_lem h.grok).0 e)),
  λ d. elim d [
    | inl a ↦ absurd (let no = a.0 in cc)
    | inr x ↦ elim x [ inl a ↦ absurd (let no = a.1 in cc) | inr a ↦ (open_lem h.grok).1 a.3 ]
  ],
)
IsFirst-open false false false h = (
  λ e. absurd (cc),
  λ d. elim d [
    | inl a ↦ absurd (let no = a.0 in cc)
    | inr x ↦ elim x [ inl a ↦ absurd (let no = a.1 in cc) | inr a ↦ absurd (let no = a.2 in cc) ]
  ],
)

-- The test of the code, against what the names show.
upstream_open-IsDown :
    (hc : Option HealthChecker) (m : String)
    → (upstream_open hc m ≡ true → IsDown hc m) × (upstream_open hc m ≡ false → ¬ IsDown hc m)
unfolding upstream_open
upstream_open-IsDown none m = (λ e. absurd (cc), λ e d. d)
upstream_open-IsDown (some h) m =
    let both = IsFirst-open (shows_cf m) (shows_cb m) (shows_grok m) h in
    (both.0, λ e d. let on = both.1 d in cc)

pick_healthy-routed :
    (usd : String → ℕ → ℕ → ℕ) (hc : Option HealthChecker) (c : Combo) (m : String)
    (ms hs : List String) (r : Registry)
    → healthy_models hc (m ∷ ms) ≡ hs
    → let m' = (pick_healthy usd hc c m hs r).1 in
      Among m' (m ∷ ms) × ((upstream_open hc m' ≡ false) ⊎ (healthy_models hc (m ∷ ms) ≡ []))
unfolding pick_healthy healthy_models
pick_healthy-routed usd hc c m ms [] r e = (inl refl, inr e)
pick_healthy-routed usd hc c m ms (h ∷ hs) r e =
    let m' = (pick usd hc c.name c.strategy h hs r).1 in
    let at : Among m' (healthy_models hc (m ∷ ms)) =
      rw e (pick-Among usd hc c.name c.strategy h hs r) in
    let (here, up) = keep-Among (λ x. not (upstream_open hc x)) m' (m ∷ ms) at in
    (here, inl (ground (arith, up)))

route-routed :
    (usd : String → ℕ → ℕ → ℕ) (hc : Option HealthChecker) (incr : Option ℤ) (name : String)
    (c : Combo) (m : String) (ms : List String) (r : Registry)
    → let m' = (route usd hc incr name c m ms r).1 in
      Among m' (m ∷ ms)
      × ((is_smart c.strategy ≡ false)
          ⊎ (upstream_open hc m' ≡ false)
          ⊎ (healthy_models hc (m ∷ ms) ≡ []))
unfolding route is_smart
route-routed usd hc incr name c m ms r = elim (Bool-cases (str_eq c.strategy "round_robin")) [
  | inl turns ↦ (
    ground
        (arith, turns, or_head-Among m ms (index_mod (rotation incr name r).1 (length (m ∷ ms)))),
    inl (subst (λ s. is_smart s ≡ false) (sym ((eq_iff c.strategy "round_robin").0 turns)) refl),
  )
  | inr other ↦ elim (Bool-cases (is_smart c.strategy)) [
    | inl smart ↦
        ground (
          arith,
          other,
          smart,
          pick_healthy-routed usd hc c m ms (healthy_models hc (m ∷ ms)) r refl,
        )
    | inr plain ↦ (ground (arith, other, plain), inl plain)
  ]
]

healthy_models-empty :
    (hc : Option HealthChecker) (ms : List String)
    → healthy_models hc ms ≡ []
    → All (λ x. IsDown hc x) ms
unfolding healthy_models
healthy_models-empty hc [] h = tt
healthy_models-empty hc (m ∷ ms) h = (
  (upstream_open-IsDown hc m).0 (ground (arith, h)),
  healthy_models-empty hc ms (ground (arith, h)),
)

none_healthy {ℓ} :
    {A : Type ℓ} (hc : Option HealthChecker) (m : String) (ms : List String)
    → A ⊎ (upstream_open hc m ≡ false) ⊎ (healthy_models hc ms ≡ [])
    → A ⊎ ¬ IsDown hc m ⊎ All (λ x. IsDown hc x) ms
none_healthy hc m ms (inl a) = inl a
none_healthy hc m ms (inr (inl b)) = inr (inl ((upstream_open-IsDown hc m).1 b))
none_healthy hc m ms (inr (inr h)) = inr (inr (healthy_models-empty hc ms h))

-- A combo routes to a model of its own: for a known combo with models, whatever its strategy and the
-- counters, `Resolve` gives one of its models, and with a smart strategy one whose name shows no upstream
-- with an open circuit, unless the names of all do. A name that starts with @cf/ or contains
-- "cloudflare" shows Cloudflare, else one with cb/ or "codebuddy" CodeBuddy, else one that starts with
-- grok Grok; any other name shows none, also one that starts with cf/, @hf/ or llama- and goes to
-- Cloudflare.
pub resolve_routes :
    (usd : String → ℕ → ℕ → ℕ) (hc : Option HealthChecker) (incr : Option ℤ) (model : String)
    (r : Registry) (c : Combo)
    → starts_with model "combo/" ≡ true
    → lookup (slice model 6 (len model)) r.combos ≡ some c
    → c.models ≢ []
    → (m : String) × ((resolve usd hc incr model r).1 ≡ some m) × IsRouted hc c m
unfolding resolve resolve_combo
resolve_routes usd hc incr model r c prefixed known full = go c.models refl
  where
    go :
        (ms : List String)
        → c.models ≡ ms
        → (m : String) × ((resolve usd hc incr model r).1 ≡ some m) × IsRouted hc c m
    go [] e = absurd (full e)
    go (m ∷ ms) e =
        let name = slice model 6 (len model) in
        let at = route-routed usd hc incr name c m ms r in
        (
          (route usd hc incr name c m ms r).1,
          ground (arith, prefixed, known, e),
          rw e (at.0, none_healthy hc (route usd hc incr name c m ms r).1 (m ∷ ms) at.1),
        )
