-- ===== src/Combo/Names.antt =====
-- Which combos the registry takes (internal/proxy/combo.go).
use onmi_routers.Base.{
  sym, false, ℕ, ◌≤◌, ◌≡◌, refl, ◌⊎◌, inl, inr, String, Bool, true, not, ◌&&◌, Option, none, some,
  List, [], ◌∷◌, arith, str_eq, Bool-cases, length, All,
}
use mathlib.Core.Path.{subst}
use text.Mathlib.Text.{starts_with}
use onmi_routers.Base.Text.{trim_space}
use onmi_routers.Base.Assoc.{lookup, insert, erase, lookup-insert_self}
use onmi_routers.Combo.Catalog.{valid_name, known_strategy, tidy, accepts, add_combo, delete_combo}
use onmi_routers.Combo.{Combo, HealthChecker, Registry, route, is_smart}

pub data Call : Type 0 where
  adds : Bool → Combo → Call
  removes : Bool → String → Call

-- The Boolean says whether the store takes the change.
pub step : Call → Registry → Registry
step (adds saved c) r = (add_combo (λ _. saved) c r).0
step (removes gone name) r = (delete_combo (λ _. gone) name r).0

pub run : List Call → Registry → Registry
run [] r = r
run (c ∷ cs) r = run cs (step c r)

-- A combo that the registry holds under a name.
pub record IsListed (entry : String × Combo) : Type 0 where
  pub same_name : entry.0 ≡ (entry.1).name
  pub named : valid_name (entry.1).name ≡ true
  pub unprefixed : starts_with (entry.1).name "combo/" ≡ false
  pub routed : known_strategy (entry.1).strategy ≡ true
  pub some_models : 1 ≤ length (entry.1).models
  pub few_models : length (entry.1).models ≤ 32

both : (a b : Bool) → (a && b) ≡ true → (a ≡ true) × (b ≡ true)
both true true h = (refl, refl)
both true false h = absurd (ground (arith, h))
both false b h = absurd (ground (arith, h))

not-true : (b : Bool) → not b ≡ true → b ≡ false
not-true true h = absurd (ground (arith, h))
not-true false h = refl

accepts-IsListed : (c : Combo) → accepts c ≡ true → IsListed (c.name, c)
unfolding accepts
accepts-IsListed c h =
    let (h₁, g) = both _ _ h in
    let (h₂, l) = both _ _ h₁ in
    let (h₃, k) = both _ _ h₂ in
    let (v, p) = both _ _ h₃ in
    record {
      same_name = refl;
      named = v;
      unprefixed = not-true _ p;
      routed = k;
      some_models = ground (arith, g);
      few_models = ground (arith, l);
    }

All-insert {ℓ} :
    (P : String × Combo → Type ℓ) (k : String) (c : Combo) (m : List (String × Combo))
    → P (k, c)
    → All P m
    → All P (insert k c m)
unfolding insert
All-insert P k c [] p a = (p, tt)
All-insert P k c ((j, d) ∷ m) p a = elim (Bool-cases (str_eq j k)) [
  | inl hit ↦ rw hit (p, a.1)
  | inr miss ↦ rw miss (a.0, All-insert P k c m p a.1)
]

All-erase {ℓ} :
    (P : String × Combo → Type ℓ) (k : String) (m : List (String × Combo))
    → All P m
    → All P (erase k m)
unfolding erase
All-erase P k [] a = tt
All-erase P k ((j, d) ∷ m) a = elim (Bool-cases (str_eq j k)) [
  | inl hit ↦ rw hit (All-erase P k m a.1)
  | inr miss ↦ rw miss (a.0, All-erase P k m a.1)
]

add-IsListed :
    (saves : Combo → Bool) (c : Combo) (r : Registry)
    → All IsListed r.combos
    → All IsListed (add_combo saves c r).0.combos
unfolding add_combo
add-IsListed saves c r a = elim (Bool-cases (accepts (tidy c) && saves (tidy c))) [
  | inl ok ↦ rw ok (
      All-insert IsListed (tidy c).name (tidy c) r.combos
        (accepts-IsListed (tidy c) (ground (arith, ok))) a)
  | inr refused ↦ rw refused a
]

delete-IsListed :
    (deletes : String → Bool) (name : String) (r : Registry)
    → All IsListed r.combos
    → All IsListed (delete_combo deletes name r).0.combos
unfolding delete_combo
delete-IsListed deletes name r a =
    elim (Bool-cases (not (str_eq (trim_space name) "") && deletes (trim_space name))) [
      | inl ok ↦ rw ok (All-erase IsListed (trim_space name) r.combos a)
      | inr refused ↦ rw refused a
    ]

step-IsListed : (c : Call) (r : Registry) → All IsListed r.combos → All IsListed (step c r).combos
unfolding step
step-IsListed (adds saved c) r a = add-IsListed (λ _. saved) c r a
step-IsListed (removes gone name) r a = delete-IsListed (λ _. gone) name r a

-- Whatever is added and removed, and however the store answers, every combo of the registry stands
-- under its own name, which is valid and does not begin with "combo/", has a known strategy, and has
-- from one to 32 models.
pub run-IsListed :
    (cs : List Call) (r : Registry) → All IsListed r.combos → All IsListed (run cs r).combos
unfolding run
run-IsListed [] r a = a
run-IsListed (c ∷ cs) r a = run-IsListed cs (step c r) (step-IsListed c r a)

-- A combo that is refused changes nothing, and one that is added is found under its trimmed name,
-- with its models trimmed: the cache changes only where the store took the combo.
pub add_combo_lem :
    (saves : Combo → Bool) (c : Combo) (r : Registry)
    → let (r', added) = add_combo saves c r in
      ((added ≡ false) × (r' ≡ r))
      ⊎ ((added ≡ true)
          × (saves (tidy c) ≡ true)
          × (lookup (tidy c).name r'.combos ≡ some (tidy c)))
unfolding add_combo
add_combo_lem saves c r = elim (Bool-cases (accepts (tidy c) && saves (tidy c))) [
  | inl ok ↦ inr (
    ground (arith, ok),
    ground (arith, ok),
    ground (arith, ok, lookup-insert_self (tidy c).name (tidy c) r.combos),
  )
  | inr refused ↦ inl (ground (arith, refused), ground (arith, refused))
]

-- Three of the strategies that a combo may be added with are never applied: such a combo always
-- routes to its first model, whatever the health of that model's upstream, and changes no counter.
pub unrouted_strategies :
    (usd : String → ℕ → ℕ → ℕ) (hc : Option HealthChecker) (name : String) (c : Combo) (m : String)
    (ms : List String) (r : Registry)
    → (c.strategy ≡ "cost_latency_balanced")
      ⊎ (c.strategy ≡ "throughput")
      ⊎ (c.strategy ≡ "success_rate")
    → (known_strategy c.strategy ≡ true) × (route usd hc none name c m ms r ≡ (r, m))
unfolding route known_strategy is_smart
unrouted_strategies usd hc name c m ms r (inl e) =
    subst
      (λ x.
        (known_strategy x ≡ true)
        × (route usd hc none name (record c { strategy = x }) m ms r ≡ (r, m)))
      (sym e) (refl, refl)
unrouted_strategies usd hc name c m ms r (inr (inl e)) =
    subst
      (λ x.
        (known_strategy x ≡ true)
        × (route usd hc none name (record c { strategy = x }) m ms r ≡ (r, m)))
      (sym e) (refl, refl)
unrouted_strategies usd hc name c m ms r (inr (inr e)) =
    subst
      (λ x.
        (known_strategy x ≡ true)
        × (route usd hc none name (record c { strategy = x }) m ms r ≡ (r, m)))
      (sym e) (refl, refl)
