-- ===== src/Csrf/Tests.antt =====
-- Examples of the guard against forged requests (csrf_guard.go).
use onmi_routers.Base.{ℕ, ◌≡◌, refl, ◌≢◌, ◌⊎◌, true, List, [], ◌∷◌, ◌++◌}
use Prim.{tt}
use onmi_routers.Csrf.{Request, is_safe, has_bearer, same_text, csrf_guard, passes, blocked}
use onmi_routers.Csrf.Origins.{guard_admits}

abbrev scheme : List ℕ
scheme = b'h' ∷ b't' ∷ b't' ∷ b'p' ∷ []

abbrev own_host : List ℕ
own_host = b'g' ∷ b'w' ∷ b':' ∷ b'8' ∷ b'0' ∷ []

abbrev other_host : List ℕ
other_host = b'x' ∷ b'y' ∷ []

-- A request with the cookie of the session that a page of another host sends.
abbrev forged : Request
forged = record {
  method = "POST";
  cookie = true;
  authorization = [];
  host = own_host;
  origin = scheme ++ b':' ∷ b'/' ∷ b'/' ∷ other_host;
  referer = [];
}

guard_admits_example :
    (other_host ≡ own_host) × (csrf_guard forged ≡ passes)
    ⊎ (other_host ≢ own_host) × (csrf_guard forged ≡ blocked)
unfolding is_safe has_bearer same_text
guard_admits_example =
    guard_admits forged scheme other_host [] refl refl refl refl
      ((λ e. cc), ((λ e. cc), ((λ e. cc), ((λ e. cc), tt)))) ((λ e. cc), ((λ e. cc), tt)) refl
