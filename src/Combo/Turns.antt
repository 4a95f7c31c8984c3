-- ===== src/Combo/Turns.antt =====
-- The order in which models are given out (internal/proxy/combo.go).
use onmi_routers.Base.{
  eq_refl, contains, ◌++◌, false, get_elem?_total, eq_iff, ℕ, zero, suc, ◌+◌, ◌%◌, ◌<◌, ◌≡◌, refl,
  ◌∙◌, String, true, Option, none, some, List, [], ◌∷◌, arith, length, get_elem?,
}
use Prim.Native.String.{len, slice}
use text.Mathlib.Text.{starts_with}
use onmi_routers.Base.Assoc.{lookup-insert_self, lookup}
use onmi_routers.Base.Int.{index_mod}
use onmi_routers.Combo.{
  after, next_in_fallback, Combo, HealthChecker, Registry, count_of, fallback_counter, rotation,
  route, resolve, resolve_combo,
}

module _ (usd : String → ℕ → ℕ → ℕ) (hc : Option HealthChecker) where
  -- The registry after a model was resolved `k` times, with no store.
  pub resolves : ℕ → String → Registry → Registry
  resolves zero model r = r
  resolves (suc k) model r = resolves k model (resolve usd hc none model r).0

  pub seq_of : String → Registry → ℕ
  seq_of model r = count_of (lookup (slice model 6 (len model)) r.fallback_seq)

  resolve-turn :
      (model : String) (r : Registry) (c : Combo)
      → starts_with model "combo/" ≡ true
      → lookup (slice model 6 (len model)) r.combos ≡ some c
      → c.strategy ≡ "round_robin"
      → 0 < length c.models
      → let (r', m) = resolve usd hc none model r in
        (r'.combos ≡ r.combos)
        × (seq_of model r' ≡ seq_of model r + 1)
        × (m ≡ get_elem? c.models (seq_of model r % length c.models))
  unfolding resolve resolve_combo route rotation fallback_counter seq_of index_mod
  resolve-turn model r c prefixed known turns full = go c.models refl
    where
      go :
          (ms : List String)
          → c.models ≡ ms
          → let (r', m) = resolve usd hc none model r in
            (r'.combos ≡ r.combos)
            × (seq_of model r' ≡ seq_of model r + 1)
            × (m ≡ get_elem? c.models (seq_of model r % length c.models))
      go [] e = absurd (ground (arith, e, full))
      go (m ∷ ms) e =
          let name = slice model 6 (len model) in
          let n = count_of (lookup name r.fallback_seq) in
          let at = get_elem?_total (m ∷ ms) (n % length (m ∷ ms)) (grind arith) in
          ground (
            arith,
            prefixed,
            known,
            e,
            at,
            turns,
            eq_iff c.strategy "round_robin",
            lookup-insert_self name (n + 1) r.fallback_seq,
          )

  resolves-turn :
      (k : ℕ) (model : String) (r : Registry) (c : Combo)
      → starts_with model "combo/" ≡ true
      → lookup (slice model 6 (len model)) r.combos ≡ some c
      → c.strategy ≡ "round_robin"
      → 0 < length c.models
      → let r' = resolves k model r in
        (r'.combos ≡ r.combos) × (seq_of model r' ≡ seq_of model r + k)
  unfolding resolves
  resolves-turn zero model r c prefixed known turns full = (refl, omega arith)
  resolves-turn (suc k) model r c prefixed known turns full =
      let r' = (resolve usd hc none model r).0 in
      let (cs, n, m) = resolve-turn model r c prefixed known turns full in
      let (cs', n') = resolves-turn k model r' c prefixed (rw cs known) turns full in
      (cs' ∙ cs, omega (arith, n, n'))

  -- A round robin gives its models out in turn: with no store, the models that a combo resolves to
  -- go through its list in order, from where its counter stands and round again.
  pub round_robin_turns :
      (k : ℕ) (model : String) (r : Registry) (c : Combo)
      → starts_with model "combo/" ≡ true
      → lookup (slice model 6 (len model)) r.combos ≡ some c
      → c.strategy ≡ "round_robin"
      → 0 < length c.models
      → (resolve usd hc none model (resolves k model r)).1
        ≡ get_elem? c.models ((seq_of model r + k) % length c.models)
  round_robin_turns k model r c prefixed known turns full =
      let r' = resolves k model r in
      let (cs, n) = resolves-turn k model r c prefixed known turns full in
      let (cs', n', m) = resolve-turn model r' c prefixed (rw cs known) turns full in m ∙ rw n refl

after-append :
    (pre : List String) (m n : String) (post : List String)
    → contains m pre ≡ false
    → after m (pre ++ m ∷ n ∷ post) ≡ some n
unfolding after
after-append [] m n post h = ground (arith, eq_refl m)
after-append (p ∷ []) m n post h = ground (arith, h, eq_refl m, eq_iff p m, eq_iff m p)
after-append (p ∷ q ∷ pre) m n post h =
    ground (arith, h, after-append (q ∷ pre) m n post, eq_iff p m, eq_iff m p)

-- After a model that failed comes the next of its list: in a fallback combo, `NextInFallback` gives
-- the model that follows the failed one's first place, and what an earlier model is does not matter.
pub fallback_next :
    (name : String) (r : Registry) (c : Combo) (pre post : List String) (m n : String)
    → lookup name r.combos ≡ some c
    → c.strategy ≡ "fallback"
    → c.models ≡ pre ++ m ∷ n ∷ post
    → contains m pre ≡ false
    → next_in_fallback name m r ≡ some n
unfolding next_in_fallback
fallback_next name r c pre post m n known fallback models new =
    ground
      (arith, known, fallback, models, eq_iff c.strategy "fallback", after-append pre m n post new)
