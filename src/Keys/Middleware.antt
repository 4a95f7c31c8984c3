-- ===== src/Keys/Middleware.antt =====
-- internal/auth/auth.go: the middlewares that let requests in.
use Prim.Native.String.{len, slice}
use text.Mathlib.Text.{starts_with, find?}
use onmi_routers.Base.{
  String, Bool, true, false, not, ◌&&◌, ◌||◌, Option, none, some, leb, str_eq, if◌then◌else◌,
  length,
}
use onmi_routers.Keys.{GatewayKeyInfo, Manager, role_admin, valid, get}

-- What the middleware does with a request: it passes on (with the key that it sets, or none), or is
-- answered. `invalid_key` says whether the cookie is cleared; `logged_out` is the redirection that also
-- clears it.
pub data Admission : Type 0 where
  passes : Option String → Admission
  invalid_key : Bool → Admission
  no_keys missing_key to_login logged_out not_authenticated not_admin : Admission

-- `authorization` and `accept` are headers, empty where they are not sent; the cookie may be absent.
pub record Presented : Type 0 where
  pub path : String
  pub authorization : String
  pub cookie : Option String
  pub accept : String

unfoldable pub is_public : String → Bool
is_public p =
    str_eq p "/health"
    || str_eq p "/"
    || str_eq p "/dashboard"
    || str_eq p "/login"
    || str_eq p "/logout"
    || str_eq p "/metrics"

-- The key of a session, by the lookup of sessions where there is one.
abbrev pub session_key : Option (String → String) → String → String
session_key none cookie = cookie
session_key (some find) cookie = find cookie

abbrev pub cookie_key : Option (String → String) → Option String → String
cookie_key sl none = ""
cookie_key sl (some cookie) = if str_eq cookie "" then "" else session_key sl cookie

unfoldable pub presented_key : Option (String → String) → Presented → String
presented_key sl r =
    if starts_with r.authorization "Bearer "
    then slice r.authorization 7 (len r.authorization)
    else cookie_key sl r.cookie

abbrev pub has_text : String → String → Bool
has_text s t = elim (find? s t) [ none ↦ false | some i ↦ true ]

abbrev pub is_some {ℓ} : {A : Type ℓ} → Option A → Bool
is_some none = false
is_some (some a) = true

unfoldable pub auth_middleware : Bool → Option (String → String) → Manager → Presented → Admission
unfolding is_public presented_key valid
auth_middleware auth_disabled sl am r =
    let key = presented_key sl r in
    let html = has_text r.accept "text/html" in
    if is_public r.path || auth_disabled
    then passes none
    else if leb (length am.keys) 0
    then no_keys
    else if str_eq key ""
    then (if html && not (starts_with r.path "/api/") then to_login else missing_key)
    else if not (valid key am)
    then (if is_some r.cookie && html then logged_out else invalid_key (is_some r.cookie))
    else passes (some key)

unfoldable pub admin_key : String → Option GatewayKeyInfo → Admission
admin_key key none = invalid_key false
admin_key key (some i) = if str_eq i.role role_admin then passes (some key) else not_admin

-- On the key that the request carries after `auth_middleware`.
unfoldable pub admin_middleware : Bool → Manager → Option String → Admission
unfolding get admin_key
admin_middleware auth_disabled am client =
    if auth_disabled
    then passes client
    else elim client [ none ↦ not_authenticated | some key ↦ admin_key key (get key am) ]

-- The second middleware, on what the first does.
unfoldable pub then_admin : Bool → Manager → Admission → Admission
unfolding admin_middleware
then_admin auth_disabled am (passes client) = admin_middleware auth_disabled am client
then_admin auth_disabled am no_keys = no_keys
then_admin auth_disabled am missing_key = missing_key
then_admin auth_disabled am (invalid_key cleared) = invalid_key cleared
then_admin auth_disabled am to_login = to_login
then_admin auth_disabled am logged_out = logged_out
then_admin auth_disabled am not_authenticated = not_authenticated
then_admin auth_disabled am not_admin = not_admin

-- Both middlewares, in the order in which the routes of the operators mount them.
unfoldable pub admit_admin : Bool → Option (String → String) → Manager → Presented → Admission
unfolding auth_middleware then_admin
admit_admin auth_disabled sl am r =
    then_admin auth_disabled am (auth_middleware auth_disabled sl am r)
