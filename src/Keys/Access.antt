-- ===== src/Keys/Access.antt =====
-- Who is let in (internal/auth/auth.go).
use onmi_routers.Base.{
  ◌↔◌, ◌↔◌, ◌≡◌, refl, sym, ap, ◌∙◌, ◌≢◌, ◌⊎◌, inl, inr, String, Bool, true, false, not, Option,
  none, some, List, [], ◌∷◌, arith, eq_iff, leb, str_eq, Bool-cases, Option-cases, length,
}
use onmi_routers.Base.Assoc.{lookup}
use onmi_routers.Keys.{GatewayKeyInfo, Manager, role_admin, valid, get}
use onmi_routers.Keys.Middleware.{
  admin_key, then_admin, Admission, passes, no_keys, missing_key, invalid_key, to_login, logged_out,
  not_authenticated, not_admin, Presented, is_public, presented_key, auth_middleware,
  admin_middleware, admit_admin,
}

abbrev pub is_pass : Admission → Bool
is_pass (passes client) = true
is_pass no_keys = false
is_pass missing_key = false
is_pass (invalid_key cleared) = false
is_pass to_login = false
is_pass logged_out = false
is_pass not_authenticated = false
is_pass not_admin = false

-- An operator's key: registered, enabled and of the admin role.
abbrev pub IsOperator : Manager → String → Type 0
IsOperator am key =
    (i : GatewayKeyInfo) × (lookup key am.keys ≡ some i)
    × (i.disabled ≡ false)
    × (i.role ≡ role_admin)

lookup-empty :
    (k : String) (ks : List (String × GatewayKeyInfo))
    → leb (length ks) 0 ≡ true
    → lookup k ks ≡ none
unfolding lookup
lookup-empty k [] h = refl
lookup-empty k (x ∷ ks) h = ground (arith, h)

missing-valid : (k : String) (am : Manager) → lookup k am.keys ≡ none → valid k am ≡ false
unfolding valid
missing-valid k am h = ground (arith, h)

empty-valid : (k : String) (am : Manager) → leb (length am.keys) 0 ≡ true → valid k am ≡ false
empty-valid k am h = missing-valid k am (lookup-empty k am.keys h)

disabled-valid :
    (k : String) (am : Manager) (i : GatewayKeyInfo)
    → lookup k am.keys ≡ some i
    → valid k am ≡ not i.disabled
unfolding valid
disabled-valid k am i h = ground (arith, h)

refused-then_admin :
    (am : Manager) (a : Admission) → is_pass a ≡ false → is_pass (then_admin false am a) ≡ false
unfolding then_admin
refused-then_admin am (passes client) h = ground (arith, h)
refused-then_admin am no_keys h = refl
refused-then_admin am missing_key h = refl
refused-then_admin am (invalid_key cleared) h = refl
refused-then_admin am to_login h = refl
refused-then_admin am logged_out h = refl
refused-then_admin am not_authenticated h = refl
refused-then_admin am not_admin h = refl

-- For a key that is registered, only the role is left to test.
pass-admin_key :
    (am : Manager) (key : String) (i : GatewayKeyInfo)
    → lookup key am.keys ≡ some i
    → is_pass (then_admin false am (passes (some key))) ≡ str_eq i.role role_admin
unfolding then_admin admin_middleware admin_key get
pass-admin_key am key i h = rw h (ground arith)

module _ (sl : Option (String → String)) (am : Manager) (r : Presented) where
  refused-auth_middleware :
      (presented_key sl r ≡ "") ⊎ (valid (presented_key sl r) am ≡ false)
      → is_public r.path ≡ false
      → is_pass (auth_middleware false sl am r) ≡ false
  unfolding auth_middleware
  refused-auth_middleware (inl e) h = ground (arith, h, eq_iff (presented_key sl r) "", e)
  refused-auth_middleware (inr v) h = ground (arith, h, v)

  public-auth_middleware : is_public r.path ≡ true → auth_middleware false sl am r ≡ passes none
  unfolding auth_middleware
  public-auth_middleware h = rw h refl

  valid-auth_middleware :
      is_public r.path ≡ false
      → presented_key sl r ≢ ""
      → valid (presented_key sl r) am ≡ true
      → auth_middleware false sl am r ≡ passes (some (presented_key sl r))
  unfolding auth_middleware
  valid-auth_middleware h n v =
      ground (arith, h, n, v, eq_iff (presented_key sl r) "", empty-valid (presented_key sl r) am)

  refused_either :
      is_public r.path ≡ false
      → is_pass (admit_admin false sl am r) ≡ true
      → ((presented_key sl r ≡ "") ⊎ (valid (presented_key sl r) am ≡ false))
      → true ≡ false
  unfolding admit_admin
  refused_either h p w =
      sym p ∙ refused-then_admin am (auth_middleware false sl am r) (refused-auth_middleware w h)

  admitted_private : is_pass (admit_admin false sl am r) ≡ true → is_public r.path ≡ false
  unfolding admit_admin then_admin admin_middleware
  admitted_private p = elim (Bool-cases (is_public r.path)) [
    | inl e ↦ ground (arith, p, public-auth_middleware e)
    | inr e ↦ e
  ]

  admit_admin-passes :
      is_public r.path ≡ false
      → presented_key sl r ≢ ""
      → (i : GatewayKeyInfo) → lookup (presented_key sl r) am.keys ≡ some i
      → i.disabled ≡ false
      → is_pass (admit_admin false sl am r) ≡ str_eq i.role role_admin
  unfolding admit_admin
  admit_admin-passes h n i found d =
      ap (λ a. is_pass (then_admin false am a))
        (valid-auth_middleware h n (disabled-valid (presented_key sl r) am i found ∙ ap not d))
      ∙ pass-admin_key am (presented_key sl r) i found

  -- Only operators pass the gate of the operators' routes: with authentication enabled, a request is
  -- let through exactly when its path is not public and the key that it presents, by its header or its
  -- session, is not empty, is registered, is enabled and has the admin role.
  pub admit_admin-IsOperator : (is_pass (admit_admin false sl am r) ≡ true) ↔ (
      (is_public r.path ≡ false) × (presented_key sl r ≢ "") × IsOperator am (presented_key sl r))
  admit_admin-IsOperator = (to, from)
    where
      registered :
          is_public r.path ≡ false
          → presented_key sl r ≢ ""
          → is_pass (admit_admin false sl am r) ≡ true
          → IsOperator am (presented_key sl r)
      registered h n p = elim (Option-cases (lookup (presented_key sl r) am.keys)) [
        | inl gone ↦
            ground (arith, refused_either h p (inr (missing-valid (presented_key sl r) am gone)))
        | inr (i, found) ↦ elim (Bool-cases i.disabled) [
          | inl d ↦ ground (
            arith,
            refused_either h p (inr (disabled-valid (presented_key sl r) am i found ∙ ap not d)),
          )
          | inr d ↦
              let e = sym (admit_admin-passes h n i found d) ∙ p in
              (i, found, d, (eq_iff i.role role_admin).0 e)
        ]
      ]

      to :
          is_pass (admit_admin false sl am r) ≡ true
          → (is_public r.path ≡ false)
            × (presented_key sl r ≢ "")
            × IsOperator am (presented_key sl r)
      to p =
          let h = admitted_private p in
          let n : presented_key sl r ≢ "" = λ e. ground (arith, refused_either h p (inl e)) in
          (h, n, registered h n p)

      from :
          (is_public r.path ≡ false)
            × (presented_key sl r ≢ "")
            × IsOperator am (presented_key sl r)
          → is_pass (admit_admin false sl am r) ≡ true
      from (h, n, i) = admit_admin-passes h n i.0 i.1 i.2 ∙ (eq_iff i.0.role role_admin).1 i.3
