-- ===== src/Grok/Accounts.antt =====
-- internal/upstream/grok.go: how accounts come and go, and the worker that refreshes their tokens.
use onmi_routers.Grok.{
  GrokAccount, GrokAccountManager, StoreCall, saves, deletes, calls, is_banned, Tokens, seconds,
  refreshed, Refreshed, renewed, revoked, unrefreshed, find_account, modify_account,
}
use onmi_routers.Base.{
  ℕ, ◌+◌, String, Bool, true, false, not, ◌&&◌, none, some, List, [], ◌∷◌, ◌++◌, map, ltb, ◌==◌,
  str_eq, if◌then◌else◌, length,
}

-- The account and whether it is new.
pub import_account_raw :
    ℕ → String → Tokens → GrokAccountManager → GrokAccountManager × GrokAccount × Bool
unfolding find_account
import_account_raw now email t am = elim (find_account email am.accounts) [
  | some existing ↦ (am, existing, false)
  | none ↦
      let acc : GrokAccount = record {
        email = email;
        access_token = t.access_token;
        refresh_token = t.refresh_token;
        id_token = t.id_token;
        expires_in = t.expires_in;
        sub = "";
        expires_at = now + seconds t.expires_in;
        disabled = false;
        disabled_at = none;
      } in
      (record am { accounts = am.accounts ++ acc ∷ [] }, acc, true)
]

-- Six hours where no lifetime is given.
abbrev default_lifetime : ℕ → ℕ
default_lifetime n = if n == 0 then 21600 else n

pub signed_in : ℕ → String → String → Tokens → GrokAccount
signed_in now email sub t =
    let expires_in = default_lifetime t.expires_in in
    record {
      email = email;
      access_token = t.access_token;
      refresh_token = t.refresh_token;
      id_token = t.id_token;
      expires_in = expires_in;
      sub = sub;
      expires_at = now + seconds expires_in;
      disabled = false;
      disabled_at = none;
    }

-- Whether the account is new, and how many there are.
pub upsert_account :
    ℕ
    → String
    → String
    → Tokens
    → GrokAccountManager
    → GrokAccountManager × Bool × ℕ × List StoreCall
unfolding find_account modify_account signed_in
upsert_account now email sub t am =
    let acc = signed_in now email sub t in
    let saved = calls am (saves acc ∷ []) in
    elim (find_account email am.accounts) [
      | some existing ↦ (
        record am { accounts = modify_account email (λ a. acc) am.accounts },
        false,
        length am.accounts,
        saved,
      )
      | none ↦
          (record am { accounts = am.accounts ++ acc ∷ [] }, true, length am.accounts + 1, saved)
    ]

pub remove_account : String → List GrokAccount → List GrokAccount
remove_account email [] = []
remove_account email (a ∷ rest) =
    let later = remove_account email rest in if str_eq a.email email then rest else a ∷ later

pub delete_account : String → GrokAccountManager → GrokAccountManager × Bool × List StoreCall
unfolding find_account remove_account
delete_account email am = elim (find_account email am.accounts) [
  | none ↦ (am, false, [])
  | some a ↦ (
    record am { accounts = remove_account email am.accounts },
    true,
    calls am (deletes email ∷ []),
  )
]

abbrev pub needs_refresh : ℕ → ℕ → GrokAccount → Bool
needs_refresh window now a = not (is_banned a) && ltb a.expires_at (now + window)

-- One account in a round of the worker that refreshes ahead of time.
pub auto_refresh : ℕ → ℕ → Refreshed → GrokAccount → GrokAccount
unfolding refreshed
auto_refresh window now (renewed t) a = if needs_refresh window now a then refreshed now t a else a
auto_refresh window now revoked a =
    if needs_refresh window now a then record a { disabled = true; disabled_at = none } else a
auto_refresh window now unrefreshed a = a

-- A round of the worker.
pub auto_refresh_all : ℕ → ℕ → (GrokAccount → Refreshed) → GrokAccountManager → GrokAccountManager
unfolding auto_refresh
auto_refresh_all window now outcome am = record am {
  accounts = map (λ a. auto_refresh window now (outcome a) a) am.accounts;
}
