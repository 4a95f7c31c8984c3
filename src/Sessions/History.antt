-- ===== src/Sessions/History.antt =====
-- The sessions without Redis over whole histories (internal/auth/session_store.go).
use onmi_routers.Base.Assoc.{
  lookup, insert, erase, lookup-insert, lookup-keep, lookup-erase, keep-IsDistinct,
  insert-IsDistinct, erase-IsDistinct, IsDistinct,
}
use onmi_routers.Base.{
  ◌∙◌, keep, inr, true, not, inl, false, ◌≢◌, eq_iff, Bool-cases, ℕ, ◌≡◌, refl, String, Option,
  none, some, List, [], ◌∷◌, arith, str_eq, if◌then◌else◌,
}
use onmi_routers.Sessions.{
  new_session_store, new_session, use_local, Session, SessionStore, RedisClient, is_idle, create,
  lookup_session, revoke, cleanup,
}
use onmi_routers.Sessions.Held.{
  creates, looks, revokes, cleans, Timed, IsOrdered, Held, use_held, expected, Agrees, later-Agrees,
  after_use, use-Agrees, cleaned-Agrees,
}

module _ {R : Type 0} (c : RedisClient R) where
  -- The answers that it gets.
  pub answers : String → List Timed → SessionStore R → List String
  answers token [] st = []
  answers token ((now, creates t key) ∷ es) st = answers token es (create c t key now st)
  answers token ((now, looks t) ∷ es) st =
      let (st', answer) = lookup_session c t now st in
      let later = answers token es st' in if str_eq t token then answer ∷ later else later
  answers token ((now, revokes t) ∷ es) st = answers token es (revoke c t st)
  answers token ((now, cleans) ∷ es) st = answers token es (cleanup c now st)

module _ (t token : String) (now : ℕ) (m : List (String × Session)) where
  lookup-use_local :
      (o : Option Session)
      → lookup t m ≡ o
      → lookup token (use_local t now m o).0
        ≡ (if str_eq t token then (after_use now o).0 else lookup token m)
  unfolding use_local after_use
  lookup-use_local none e = ground (arith, eq_iff t token, e)
  lookup-use_local (some s) e = elim (Bool-cases (is_idle now s)) [
    | inl idle ↦ rw idle (lookup-erase t token m)
    | inr fresh ↦ rw fresh (lookup-insert t token (record s { last_seen = now }) m)
  ]

  answer-use_local : (o : Option Session) → (use_local t now m o).1 ≡ (after_use now o).1
  unfolding use_local after_use
  answer-use_local none = refl
  answer-use_local (some s) = ground arith

  use_local-IsDistinct : (o : Option Session) → IsDistinct m → IsDistinct (use_local t now m o).0
  unfolding use_local
  use_local-IsDistinct none d = d
  use_local-IsDistinct (some s) d = elim (Bool-cases (is_idle now s)) [
    | inl idle ↦ rw idle (erase-IsDistinct t m d)
    | inr fresh ↦ rw fresh (insert-IsDistinct t (record s { last_seen = now }) m d)
  ]

module _ {R : Type 0} (c : RedisClient R) (token : String) (named : token ≢ "") where
  abbrev in_memory : List (String × Session) → SessionStore R
  in_memory m = record { rdb = none; local_map = m }

  looked :
      (t : String) (now : ℕ) (m : List (String × Session))
      → str_eq t "" ≡ false
      → lookup_session c t now (in_memory m)
        ≡ (in_memory (use_local t now m (lookup t m)).0, (use_local t now m (lookup t m)).1)
  unfolding lookup_session
  looked t now m e = rw e refl

  unnamed : (t : String) → str_eq t "" ≡ true → str_eq t token ≡ false
  unnamed t e = ground (arith, eq_iff t "", eq_iff t token, named, e)

  unnamed-looks :
      (t : String) (now : ℕ) (m : List (String × Session))
      → str_eq t "" ≡ true
      → lookup_session c t now (in_memory m) ≡ (in_memory m, "")
  unfolding lookup_session
  unnamed-looks t now m e = rw e refl

  unnamed-revoke :
      (t : String) (m : List (String × Session))
      → str_eq t "" ≡ true
      → revoke c t (in_memory m) ≡ in_memory m
  unfolding revoke
  unnamed-revoke t m e = rw e refl

  named-revoke :
      (t : String) (m : List (String × Session))
      → str_eq t "" ≡ false
      → revoke c t (in_memory m) ≡ in_memory (erase t m)
  unfolding revoke
  named-revoke t m e = rw e refl

  answers-expected :
      (t : ℕ) (es : List Timed) (m : List (String × Session)) (h : Held)
      → IsDistinct m
      → IsOrdered t es
      → Agrees t h (lookup token m)
      → answers c token es (in_memory m) ≡ expected token es h
  unfolding answers expected create cleanup
  answers-expected t [] m h d o a = refl
  answers-expected t ((now, creates j key) ∷ es) m h d o a =
      let a' = later-Agrees t now h _ o.0 a in
      let d' = insert-IsDistinct j (new_session key now) m d in
      let found = lookup-insert j token (new_session key now) m in
      elim (Bool-cases (str_eq j token)) [
        | inl mine ↦ rw mine (
            answers-expected now es (insert j (new_session key now) m) (some (key, now)) d' o.1
              (rw (found, mine) (refl, refl)))
        | inr other ↦ rw other (
            answers-expected now es (insert j (new_session key now) m) h d' o.1
              (rw (found, other) a'))
      ]
  answers-expected t ((now, looks j) ∷ es) m h d o a =
      let a' = later-Agrees t now h _ o.0 a in
      let d' = use_local-IsDistinct j token now m (lookup j m) d in
      elim (Bool-cases (str_eq j "")) [
        | inl blank ↦
            rw (unnamed-looks j now m blank, unnamed j blank) (answers-expected now es m h d o.1 a')
        | inr full ↦ rw (looked j now m full) (elim (Bool-cases (str_eq j token)) [
          | inl mine ↦
              let same : j ≡ token = (eq_iff j token).0 mine in
              let a'' : Agrees now h (lookup j m) = rw same a' in
              let used = use-Agrees now h (lookup j m) a'' in
              let answer = answer-use_local j token now m (lookup j m) ∙ used.1 in
              let found = lookup-use_local j token now m (lookup j m) refl in
              let later =
                answers-expected now es (use_local j now m (lookup j m)).0 (use_held now h).0 d' o.1
                  (rw (found, mine) used.0) in
              rw mine (cc (answer, later))
          | inr other ↦
              let found = lookup-use_local j token now m (lookup j m) refl in
              rw other (
                answers-expected now es (use_local j now m (lookup j m)).0 h d' o.1
                  (rw (found, other) a'))
        ])
      ]
  answers-expected t ((now, revokes j) ∷ es) m h d o a =
      let a' = later-Agrees t now h _ o.0 a in
      elim (Bool-cases (str_eq j "")) [
        | inl blank ↦
            rw (unnamed-revoke j m blank, unnamed j blank) (answers-expected now es m h d o.1 a')
        | inr full ↦ rw (named-revoke j m full) (elim (Bool-cases (str_eq j token)) [
          | inl mine ↦ rw mine (
              answers-expected now es (erase j m) none (erase-IsDistinct j m d) o.1
                (rw (lookup-erase j token m, mine) tt))
          | inr other ↦ rw other (
              answers-expected now es (erase j m) h (erase-IsDistinct j m d) o.1
                (rw (lookup-erase j token m, other) a'))
        ])
      ]
  answers-expected t ((now, cleans) ∷ es) m h d o a =
      let a' = later-Agrees t now h _ o.0 a in
      answers-expected now es (keep (λ e. not (is_idle now e.1)) m) h
        (keep-IsDistinct (λ e. not (is_idle now e.1)) m d) o.1
        (rw (lookup-keep token (λ e. not (is_idle now e.1)) m d)
          (cleaned-Agrees now h (lookup token m) a'))

  -- Without Redis, over any creations, look-ups, revocations and clean-ups, at times that do not fall,
  -- the holder of a token that is not empty is answered as its own history asks for: with the key that
  -- the token was made for while it was not revoked and no more than thirty days passed between two of
  -- its look-ups, and with no key otherwise; other tokens and the worker have no influence on it.
  pub sessions_by_history :
      (t : ℕ) (es : List Timed)
      → IsOrdered t es
      → answers c token es (new_session_store c none) ≡ expected token es none
  unfolding new_session_store lookup
  sessions_by_history t es o = answers-expected t es [] none tt o tt
