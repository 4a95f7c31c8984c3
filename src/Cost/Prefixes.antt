-- ===== src/Cost/Prefixes.antt =====
-- The price of a model is that of its longest prefix (internal/cost/cost.go).
use onmi_routers.Base.{
  ◌↔◌, ◌↔◌, Among, ℕ, zero, suc, ◌≤◌, ◌≡◌, refl, sym, ◌⊎◌, inl, inr, String, true, false, List, [],
  ◌∷◌, arith, ltb, Bool-cases, length, All,
}
use mathlib.Core.Path.{subst}
use Prim.Native.String.{len}
use text.Mathlib.Text.{starts_with}
use onmi_routers.Cost.{
  Price, Table, pull, sort_from, built, first_prefix, fallback_price, or_fallback, price_for,
}

abbrev Shorter : ℕ → String × Price → Type 0
Shorter n e = len e.0 ≤ n

Shorter-All : (m n : ℕ) (es : Table) → m ≤ n → All (Shorter m) es → All (Shorter n) es
Shorter-All m n [] h a = tt
Shorter-All m n (e ∷ es) h a = (omega (arith, a.0), Shorter-All m n es h a.1)

-- The entry that is pulled is the longest.
pull-longest :
    (e : String × Price) (es : Table)
    → (len e.0 ≤ len (pull e es).0.0) × All (Shorter (len (pull e es).0.0)) (pull e es).1
unfolding pull
pull-longest e [] = (omega arith, tt)
pull-longest e (f ∷ es) = elim (Bool-cases (ltb (len e.0) (len f.0))) [
  | inl less ↦
      let rest = pull-longest f es in
      rw less (ground (arith, less, rest.0), (ground (arith, less, rest.0), rest.1))
  | inr more ↦
      let rest = pull-longest e es in rw more (rest.0, (ground (arith, more, rest.0), rest.1))
]

past_head : {P M S : Type 0} → M ⊎ S → M ⊎ (P ⊎ S)
past_head (inl m) = inl m
past_head (inr s) = inr (inr s)

module _ {P Q R M S : Type 0} where
  swap_sum : ((Q ⊎ R) ↔ (M ⊎ S)) → ((P ⊎ (Q ⊎ R)) ↔ (M ⊎ (P ⊎ S)))
  swap_sum h = (to, from)
    where
      to : P ⊎ (Q ⊎ R) → M ⊎ (P ⊎ S)
      to (inl p) = inr (inl p)
      to (inr k) = past_head (h.0 k)

      from : M ⊎ (P ⊎ S) → P ⊎ (Q ⊎ R)
      from (inl m) = inr (h.1 (inl m))
      from (inr (inl p)) = inl p
      from (inr (inr s)) = inr (h.1 (inr s))

module _ {P Q R M S : Type 0} where
  keep_sum : ((P ⊎ R) ↔ (M ⊎ S)) → ((P ⊎ (Q ⊎ R)) ↔ (M ⊎ (Q ⊎ S)))
  keep_sum h = (λ k. moved.0 (swapped k), λ k. swapped_back (moved.1 k))
    where
      moved : (Q ⊎ (P ⊎ R)) ↔ (M ⊎ (Q ⊎ S))
      moved = swap_sum h

      swapped : P ⊎ (Q ⊎ R) → Q ⊎ (P ⊎ R)
      swapped (inl p) = inr (inl p)
      swapped (inr (inl q)) = inl q
      swapped (inr (inr r)) = inr (inr r)

      swapped_back : Q ⊎ (P ⊎ R) → P ⊎ (Q ⊎ R)
      swapped_back (inl q) = inr (inl q)
      swapped_back (inr (inl p)) = inl p
      swapped_back (inr (inr r)) = inr (inr r)

pull-Among :
    (x e : String × Price) (es : Table)
    → (Among x (e ∷ es)) ↔ (Among x ((pull e es).0 ∷ (pull e es).1))
unfolding pull
pull-Among x e [] = ((λ h. h), (λ h. h))
pull-Among x e (f ∷ es) = elim (Bool-cases (ltb (len e.0) (len f.0))) [
  | inl less ↦ rw less (swap_sum (pull-Among x f es))
  | inr more ↦ rw more (keep_sum (pull-Among x e es))
]

length-pull : (e : String × Price) (es : Table) → length (pull e es).1 ≡ length es
unfolding pull
length-pull e [] = refl
length-pull e (f ∷ es) = ground (arith, length-pull e es, length-pull f es)

sort_from-Among :
    (rounds : ℕ) (x : String × Price) (es : Table) → Among x es ↔ Among x (sort_from rounds es)
unfolding sort_from
sort_from-Among zero x es = ((λ h. h), (λ h. h))
sort_from-Among (suc rounds) x [] = ((λ h. h), (λ h. h))
sort_from-Among (suc rounds) x (e ∷ es) =
    let pulled = pull-Among x e es in
    let rest = sort_from-Among rounds x (pull e es).1 in
    ((λ h. onto rest.0 (pulled.0 h)), (λ h. pulled.1 (onto rest.1 h)))
  where
    onto : {M A B : Type 0} → (A → B) → M ⊎ A → M ⊎ B
    onto f (inl m) = inl m
    onto f (inr a) = inr (f a)

-- Every entry is as long as each that comes after it.
IsDescending : Table → Type 0
IsDescending [] = Unit {0}
IsDescending (e ∷ es) = All (Shorter (len e.0)) es × IsDescending es

All-Among : {A : Type 0} (Q : A → Type 0) (es : List A) → ((x : A) → Among x es → Q x) → All Q es
All-Among Q [] h = tt
All-Among Q (e ∷ es) h = (h e (inl refl), All-Among Q es (λ x k. h x (inr k)))

Among-All : {A : Type 0} (Q : A → Type 0) (x : A) (es : List A) → All Q es → Among x es → Q x
Among-All Q x [] a h = absurd h
Among-All Q x (e ∷ es) a (inl h) = subst Q (sym h) a.0
Among-All Q x (e ∷ es) a (inr h) = Among-All Q x es a.1 h

sort_from-IsDescending :
    (rounds : ℕ) (es : Table) → length es ≤ rounds → IsDescending (sort_from rounds es)
unfolding sort_from IsDescending
sort_from-IsDescending zero [] h = tt
sort_from-IsDescending zero (e ∷ es) h = absurd (omega (arith, h))
sort_from-IsDescending (suc rounds) [] h = tt
sort_from-IsDescending (suc rounds) (e ∷ es) h =
    let longest = (pull-longest e es).1 in
    (
      All-Among (Shorter (len (pull e es).0.0)) (sort_from rounds (pull e es).1) (λ x k.
          Among-All (Shorter (len (pull e es).0.0)) x (pull e es).1 longest
            ((sort_from-Among rounds x (pull e es).1).1 k)),
      sort_from-IsDescending rounds (pull e es).1 (omega (arith, length-pull e es)),
    )

abbrev IsLongest : String → Table → String → Type 0
IsLongest m es k = All (λ e. starts_with m e.0 ≡ true → len e.0 ≤ len k) es

-- A price for a text: that of its longest prefix among the entries, or the fallback without one.
abbrev pub IsPrice : String → Table → Price → Type 0
IsPrice m es p =
    (All (λ e. starts_with m e.0 ≡ false) es × (p ≡ fallback_price))
    ⊎ ((k : String) × Among (k, p) es × (starts_with m k ≡ true) × IsLongest m es k)

Shorter-IsLongest : (m k : String) (es : Table) → All (Shorter (len k)) es → IsLongest m es k
Shorter-IsLongest m k [] a = tt
Shorter-IsLongest m k (e ∷ es) a = ((λ h. a.0), Shorter-IsLongest m k es a.1)

later-IsPrice :
    (m : String) (e : String × Price) (es : Table) (p : Price)
    → starts_with m e.0 ≡ false
    → IsPrice m es p
    → IsPrice m (e ∷ es) p
later-IsPrice m e es p miss (inl (a, h)) = inl ((miss, a), h)
later-IsPrice m e es p miss (inr (k, at, h, a)) =
    inr (k, inr at, h, ((λ hit. absurd (ground (arith, hit, miss))), a))

first_prefix-IsPrice :
    (m : String) (es : Table) → IsDescending es → IsPrice m es (or_fallback (first_prefix m es))
unfolding first_prefix IsDescending
first_prefix-IsPrice m [] d = inl (tt, refl)
first_prefix-IsPrice m ((k, p) ∷ es) d = elim (Bool-cases (starts_with m k)) [
  | inl hit ↦
      subst (IsPrice m ((k, p) ∷ es)) (found hit)
        (inr (k, inl refl, hit, ((λ h. omega arith), Shorter-IsLongest m k es d.0)))
  | inr miss ↦ subst (IsPrice m ((k, p) ∷ es)) (passed miss) (
      later-IsPrice m (k, p) es (or_fallback (first_prefix m es)) miss
        (first_prefix-IsPrice m es d.1))
]
  where
    found : starts_with m k ≡ true → p ≡ or_fallback (first_prefix m ((k, p) ∷ es))
    found hit = rw hit refl

    passed :
        starts_with m k ≡ false
        → or_fallback (first_prefix m es) ≡ or_fallback (first_prefix m ((k, p) ∷ es))
    passed miss = rw miss refl

moved-IsPrice :
    (m : String) (es fs : Table) (p : Price)
    → ((x : String × Price) → Among x es ↔ Among x fs)
    → IsPrice m es p
    → IsPrice m fs p
moved-IsPrice m es fs p same (inl (a, h)) =
    inl (
      All-Among _ fs (λ x at. Among-All (λ e. starts_with m e.0 ≡ false) x es a ((same x).1 at)),
      h,
    )
moved-IsPrice m es fs p same (inr (k, at, h, a)) = inr (
  k,
  (same (k, p)).0 at,
  h,
  All-Among _ fs (λ x there.
      Among-All (λ e. starts_with m e.0 ≡ true → len e.0 ≤ len k) x es a ((same x).1 there)),
)

-- A model has the price of its longest prefix: in whatever order the map of prices is read into the
-- list that is sorted by exchanges and searched, the price of a model is that of an entry whose key
-- the model in lower case begins with and which is no shorter than any other such key, and the
-- fallback price if there is no such key.
pub price_for-IsPrice :
    (lower : String → String) (entries : Table) (model : String)
    → IsPrice (lower model) entries (price_for lower entries model)
unfolding price_for built
price_for-IsPrice lower entries model =
    let sorted = sort_from (length entries) entries in
    moved-IsPrice (lower model) sorted entries (price_for lower entries model)
      (λ x. let same = sort_from-Among (length entries) x entries in (same.1, same.0))
      (first_prefix-IsPrice (lower model) sorted
        (sort_from-IsDescending (length entries) entries (omega arith)))
