-- ===== src/Csrf/Origins.antt =====
-- Which requests the guard against forged requests lets pass (csrf_guard.go).
use onmi_routers.Base.{
  ℕ, ◌≡◌, refl, sym, ap, ◌∙◌, ◌≢◌, ◌⊎◌, inl, inr, Bool, true, false, ◌&&◌, Option, none, some, List,
  [], ◌∷◌, ◌++◌, arith, ◌==◌, if◌then◌else◌, Bool-cases, All,
}
use onmi_routers.Csrf.{
  Bool, ℕ, List, passes, blocked, Request, separator, after_prefix, after_first, before_slash,
  same_text, same_origin, is_safe, has_bearer, csrf_guard,
}

same_text_refl : (s : List ℕ) → same_text s s ≡ true
unfolding same_text
same_text_refl [] = refl
same_text_refl (a ∷ s) = ground (arith, same_text_refl s)

test_sound : (a b : ℕ) → (a == b) ≡ true → a ≡ b
test_sound a b h = ground arith

same_text_sound : (s t : List ℕ) → same_text s t ≡ true → s ≡ t
unfolding same_text
same_text_sound [] [] e = refl
same_text_sound [] (b ∷ t) e = cc
same_text_sound (a ∷ s) [] e = cc
same_text_sound (a ∷ s) (b ∷ t) e = elim (Bool-cases (a == b)) [
  | inl h ↦
      let tails : same_text s t ≡ true = sym (ap (λ x. x && same_text s t) h) ∙ e in
      ap (λ x. x ∷ s) (test_sound a b h) ∙ ap (λ x. b ∷ x) (same_text_sound s t tails)
  | inr h ↦ cc
]

same_text_complete : (s t : List ℕ) → same_text s t ≡ false → s ≢ t
same_text_complete s t h e =
    let here : same_text s t ≡ true = sym (ap (λ x. same_text s x) e) ∙ same_text_refl s in cc

-- A path of an address is empty or starts with a slash.
abbrev pub starts_path : List ℕ → Bool
starts_path [] = true
starts_path (a ∷ s) = a == b'/'

abbrev pub url : List ℕ → List ℕ → List ℕ → List ℕ
url scheme host path = scheme ++ (separator ++ (host ++ path))

before_slash-host :
    (host path : List ℕ)
    → All (λ a. a ≢ b'/') host
    → starts_path path ≡ true
    → before_slash (host ++ path) ≡ host
unfolding before_slash
before_slash-host [] [] hs hp = refl
before_slash-host [] (a ∷ path) hs hp = rw hp refl
before_slash-host (a ∷ host) path hs hp = ground (arith, hs.0, before_slash-host host path hs.1 hp)

after_first-scheme :
    (scheme rest : List ℕ)
    → All (λ a. a ≢ b':') scheme
    → after_first separator (scheme ++ (separator ++ rest)) ≡ some rest
unfolding after_first after_prefix
after_first-scheme [] rest hs = refl
after_first-scheme (a ∷ scheme) rest hs = ground (arith, hs.0, after_first-scheme scheme rest hs.1)

same_origin-url :
    (scheme host path target : List ℕ)
    → All (λ a. a ≢ b':') scheme
    → All (λ a. a ≢ b'/') host
    → starts_path path ≡ true
    → same_origin (url scheme host path) target ≡ same_text host target
unfolding same_origin
same_origin-url scheme host path target hs hh hp =
    let compare = λ (o : Option (List ℕ)).
      let rest : List ℕ = elim o [ some rest ↦ rest | none ↦ url scheme host path ] in
      same_text (before_slash rest) target in
    ap compare (after_first-scheme scheme (host ++ path) hs)
    ∙ ap (λ h. same_text h target) (before_slash-host host path hh hp)

-- The address that a request names: its Origin header, or else its Referer header.
abbrev pub named_address : Request → List ℕ
named_address r = if same_text r.origin [] then r.referer else r.origin

guard_compares :
    (r : Request)
    → is_safe r.method ≡ false
    → r.cookie ≡ true
    → has_bearer r ≡ false
    → same_text (named_address r) [] ≡ false
    → csrf_guard r ≡ (if same_origin (named_address r) r.host then passes else blocked)
unfolding csrf_guard
guard_compares r safe cookie unkeyed named = elim (Bool-cases (same_text r.origin [])) [
  | inl h ↦ ground (arith, safe, cookie, unkeyed, named, h)
  | inr h ↦ ground (arith, safe, cookie, unkeyed, named, h)
]

url-named : (scheme host path : List ℕ) → same_text (url scheme host path) [] ≡ false
unfolding same_text
url-named [] host path = refl
url-named (a ∷ scheme) host path = refl

-- A request other than GET, HEAD and OPTIONS that comes with the cookie of the session and without a
-- Bearer key, and whose Origin header, or else its Referer header, is an address of a scheme without a
-- colon, a host without a slash and a path, passes the guard if that host is the one it is sent to, and
-- is blocked if it is another.
pub guard_admits :
    (r : Request) (scheme host path : List ℕ)
    → is_safe r.method ≡ false
    → r.cookie ≡ true
    → has_bearer r ≡ false
    → named_address r ≡ url scheme host path
    → All (λ a. a ≢ b':') scheme
    → All (λ a. a ≢ b'/') host
    → starts_path path ≡ true
    → (host ≡ r.host) × (csrf_guard r ≡ passes) ⊎ (host ≢ r.host) × (csrf_guard r ≡ blocked)
guard_admits r scheme host path safe cookie unkeyed named hs hh hp =
    let there : same_text (named_address r) [] ≡ false =
      ap (λ a. same_text a []) named ∙ url-named scheme host path in
    let compared : same_origin (named_address r) r.host ≡ same_text host r.host =
      ap (λ a. same_origin a r.host) named ∙ same_origin-url scheme host path r.host hs hh hp in
    let decided : csrf_guard r ≡ (if same_text host r.host then passes else blocked) =
      guard_compares r safe cookie unkeyed there
      ∙ ap (λ b. if b then passes else blocked) compared in
    elim (Bool-cases (same_text host r.host)) [
      | inl h ↦
          inl (same_text_sound host r.host h, decided ∙ ap (λ b. if b then passes else blocked) h)
      | inr h ↦
          inr
            (same_text_complete host r.host h, decided ∙ ap (λ b. if b then passes else blocked) h)
    ]
