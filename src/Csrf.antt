-- ===== src/Csrf.antt =====
-- csrf_guard.go: the guard against forged requests. A text is the list of its characters; the cookie of
-- the session is there or not, and a header that is missing is the empty text.
pub mod Origins
mod Tests
use onmi_routers.Base.{
  ◌&&◌, ◌&&◌, false, ◌==◌, ◌||◌, true, none, ◌||◌, [], ◌==◌, ◌∷◌, ◌∷◌, str_eq, Option, not, some,
  if◌then◌else◌, if◌then◌else◌, List, Bool, String, ℕ,
}

pub data Verdict : Type 0 where
  passes : Verdict
  blocked : Verdict

pub record Request : Type 0 where
  pub method : String
  pub cookie : Bool
  pub authorization : List ℕ
  pub host : List ℕ
  pub origin : List ℕ
  pub referer : List ℕ

-- What follows a prefix.
unfoldable pub after_prefix : List ℕ → List ℕ → Option (List ℕ)
after_prefix [] s = some s
after_prefix (p ∷ ps) [] = none
after_prefix (p ∷ ps) (a ∷ s) = if p == a then after_prefix ps s else none

-- What follows the first place of a text in another.
unfoldable pub after_first : List ℕ → List ℕ → Option (List ℕ)
unfolding after_prefix
after_first mark [] = after_prefix mark []
after_first mark (a ∷ s) =
    let later = after_first mark s in
    elim (after_prefix mark (a ∷ s)) [ some rest ↦ some rest | none ↦ later ]

unfoldable pub before_slash : List ℕ → List ℕ
before_slash [] = []
before_slash (a ∷ s) = if a == b'/' then [] else a ∷ before_slash s

unfoldable pub same_text : List ℕ → List ℕ → Bool
same_text [] [] = true
same_text [] (b ∷ t) = false
same_text (a ∷ s) [] = false
same_text (a ∷ s) (b ∷ t) = a == b && same_text s t

abbrev pub separator : List ℕ
separator = b':' ∷ b'/' ∷ b'/' ∷ []

abbrev pub bearer : List ℕ
bearer = b'B' ∷ b'e' ∷ b'a' ∷ b'r' ∷ b'e' ∷ b'r' ∷ 32 ∷ []

unfoldable pub same_origin : List ℕ → List ℕ → Bool
unfolding after_first before_slash same_text
same_origin url host =
    let rest : List ℕ = elim (after_first separator url) [ some rest ↦ rest | none ↦ url ] in
    same_text (before_slash rest) host

unfoldable pub is_safe : String → Bool
is_safe method = str_eq method "GET" || str_eq method "HEAD" || str_eq method "OPTIONS"

unfoldable pub has_bearer : Request → Bool
unfolding after_prefix
has_bearer r = elim (after_prefix bearer r.authorization) [ some rest ↦ true | none ↦ false ]

unfoldable pub csrf_guard : Request → Verdict
unfolding same_origin is_safe has_bearer
csrf_guard r =
    if is_safe r.method
    then passes
    else if not r.cookie
    then passes
    else if has_bearer r
    then passes
    else if same_text r.origin [] && same_text r.referer []
    then passes
    else if not (same_text r.origin [])
    then (if same_origin r.origin r.host then passes else blocked)
    else if not (same_text r.referer []) && not (same_origin r.referer r.host)
    then blocked
    else passes
