-- ===== src/Keys/Glob.antt =====
-- What a key's list of allowed models means (internal/auth/auth.go).
use Prim.Native.Char.{code, Char}
use mathlib.Core.Path.{subst}
use text.Mathlib.TextLemmas.{nil-append, cons-append}
use Prim.Native.String.{◌++◌ as text_append, char_at}
use text.Mathlib.TextEquality.{starts_with_iff, Char-path}
use text.Mathlib.TextBridge.{IsPrefix}
use onmi_routers.Base.{
  Among, ◌↔◌, ◌↔◌, ◌≡◌, refl, sym, ap, ◌∙◌, ◌≢◌, ◌⊎◌, inl, inr, String, true, Option, none, some,
  List, [], ◌∷◌, arith, eq_iff, ◌==◌, str_eq, Bool-cases, Option-cases,
}
use onmi_routers.Keys.{star_prefix, match_model, any_match, is_model_allowed}

-- A model fits a pattern: it is the pattern, or begins with what stands before the pattern's last
-- star.
abbrev pub Fits : String → String → Type 0
Fits pattern model =
    (pattern ≡ model)
    ⊎ ((before : String) × (pattern ≡ text_append before "*") × IsPrefix before model)

abbrev ap_some : Char → Option String → Option String
ap_some c none = none
ap_some c (some s) = some (String.◌∷◌ c s)

star_lone : star_prefix "*" ≡ some String.[]
unfolding star_prefix
star_lone = refl

star_char : (c : Char) → (code c == 42) ≡ true → ◌≡◌ {A = String} (String.◌∷◌ c String.[]) "*"
star_char c h = ap (λ x. String.◌∷◌ x String.[]) (Char-path c (char_at "*" 0) (ground (arith, h)))

star_prefix-some : (p before : String) → star_prefix p ≡ some before → p ≡ text_append before "*"
unfolding star_prefix
star_prefix-some String.[] before h = absurd (ground (arith, h))
star_prefix-some (String.◌∷◌ c String.[]) before h = elim (Bool-cases (code c == 42)) [
  | inl star ↦
      let e : String.[] ≡ before = ground (arith, h, star) in
      star_char c star ∙ sym (nil-append "*") ∙ ap (λ x. text_append x "*") e
  | inr other ↦ absurd (ground (arith, h, other))
]
star_prefix-some (String.◌∷◌ c (String.◌∷◌ d s)) before h =
    elim (Option-cases (star_prefix (String.◌∷◌ d s))) [
      | inl none_there ↦ absurd (ground (arith, h, none_there))
      | inr (rest, there) ↦
          let e : String.◌∷◌ c rest ≡ before = ground (arith, h, there) in
          ap (λ x. String.◌∷◌ c x) (star_prefix-some (String.◌∷◌ d s) rest there)
          ∙ sym (cons-append c rest "*")
          ∙ ap (λ x. text_append x "*") e
    ]

longer :
    (c : Char) (s : String)
    → star_prefix s ≢ none
    → star_prefix (String.◌∷◌ c s) ≡ ap_some c (star_prefix s)
unfolding star_prefix
longer c String.[] h = absurd (h refl)
longer c (String.◌∷◌ d s) h = ground arith

star_prefix-append : (before : String) → star_prefix (text_append before "*") ≡ some before
star_prefix-append String.[] = ap star_prefix (nil-append "*") ∙ star_lone
star_prefix-append (String.◌∷◌ c s) =
    let rest = star_prefix-append s in
    ap star_prefix (cons-append c s "*")
    ∙ longer c (text_append s "*") (λ e. cc)
    ∙ ap (ap_some c) rest

match_model-Fits :
    (pattern model : String) → (match_model pattern model ≡ true) ↔ Fits pattern model
unfolding match_model
match_model-Fits pattern model = (to, from)
  where
    to : match_model pattern model ≡ true → Fits pattern model
    to h = elim (Option-cases (star_prefix pattern)) [
      | inl plain ↦ inl (ground (arith, h, plain, eq_iff pattern model))
      | inr (before, star) ↦ elim (Bool-cases (str_eq pattern model)) [
        | inl same ↦ inl ((eq_iff pattern model).0 same)
        | inr other ↦ inr (
          before,
          star_prefix-some pattern before star,
          (starts_with_iff model before).0 (ground (arith, h, star, other)),
        )
      ]
    ]

    from : Fits pattern model → match_model pattern model ≡ true
    from (inl e) = ground (arith, (eq_iff pattern model).1 e)
    from (inr (before, e, begins)) =
        let star : star_prefix pattern ≡ some before =
          ap star_prefix e ∙ star_prefix-append before in
        ground (arith, star, (starts_with_iff model before).1 begins)

any_match→Fits :
    (model : String) (ps : List String)
    → any_match model ps ≡ true
    → (p : String) × Among p ps × Fits p model
unfolding any_match
any_match→Fits model [] h = absurd (ground (arith, h))
any_match→Fits model (p ∷ ps) h = elim (Bool-cases (match_model p model)) [
  | inl here ↦ (p, inl refl, (match_model-Fits p model).0 here)
  | inr no_match ↦
      let (q, at, fits) = any_match→Fits model ps (ground (arith, h, no_match)) in (q, inr at, fits)
]

Fits→any_match :
    (model p : String) (ps : List String) → Among p ps → Fits p model → any_match model ps ≡ true
unfolding any_match
Fits→any_match model p [] at fits = absurd at
Fits→any_match model p (q ∷ ps) (inl e) fits =
    ground (arith, (match_model-Fits q model).1 (subst (λ x. Fits x model) e fits))
Fits→any_match model p (q ∷ ps) (inr at) fits = ground (arith, Fits→any_match model p ps at fits)

-- A key may use a model exactly when its list of allowed models is empty, or has the model itself or
-- a pattern that ends in a star after a text which the model begins with.
pub is_model_allowed-Fits :
    (allowed : List String) (model : String)
    → (is_model_allowed allowed model ≡ true)
      ↔ ((allowed ≡ []) ⊎ ((p : String) × Among p allowed × Fits p model))
unfolding is_model_allowed
is_model_allowed-Fits [] model = (λ h. inl refl, λ h. refl)
is_model_allowed-Fits (p ∷ ps) model = (
  λ h. inr (any_match→Fits model (p ∷ ps) (ground (arith, h))),
  λ h. elim h [
    | inl e ↦ absurd (ground (arith, e))
    | inr (q, at, fits) ↦ ground (arith, Fits→any_match model q (p ∷ ps) at fits)
  ],
)
