-- ===== src/Grok.antt =====
-- internal/upstream/grok.go: the pool of Grok accounts. A time is a number of nanoseconds, and
-- `disabled_at` is none for the zero time, which stands for a ban. What a refresh of the tokens comes to
-- is an argument. `ExpiresIn` is not negative; the fields `Expired` and `LastRefresh`, which only format
-- times, are left out. An operation returns the calls of the store that it makes with the new state;
-- without a store there are none.
mod Turn
pub mod Choice
pub mod Accounts
pub mod Serve
pub mod Served
mod Tests
use onmi_routers.Base.{
  ◌==◌, ◌==◌, ℕ, zero, suc, ◌+◌, ◌-◌, ◌*◌, ◌%◌, String, Bool, true, false, not, ◌&&◌, Option, none,
  some, List, [], ◌∷◌, ◌++◌, map, ltb, str_eq, if◌then◌else◌, length, get_elem?, keep,
}

abbrev pub refresh_buffer : ℕ
refresh_buffer = 10 * 60 * 1000000000

abbrev pub cooldown : ℕ
cooldown = 10 * 60 * 1000000000

pub record GrokAccount : Type 0 where
  pub email : String
  pub access_token : String
  pub refresh_token : String
  pub id_token : String
  pub expires_in : ℕ
  pub sub : String
  pub expires_at : ℕ
  pub disabled : Bool
  pub disabled_at : Option ℕ

pub record GrokAccountManager : Type 0 where
  pub accounts : List GrokAccount
  pub next : ℕ
  pub stored : Bool

pub data StoreCall : Type 0 where
  saves : GrokAccount → StoreCall
  deletes : String → StoreCall

abbrev pub calls : GrokAccountManager → List StoreCall → List StoreCall
calls am cs = if am.stored then cs else []

pub is_expired : ℕ → GrokAccount → Bool
is_expired now a = ltb a.expires_at (now + refresh_buffer)

abbrev pub is_banned : GrokAccount → Bool
is_banned a = elim a.disabled_at [ none ↦ a.disabled | some t ↦ false ]

pub token_status : ℕ → GrokAccount → String
unfolding is_expired
token_status now a =
    if is_banned a
    then "banned"
    else if a.disabled
    then "cooldown"
    else if is_expired now a
    then "expired"
    else "active"

-- The answer of the token endpoint.
pub record Tokens : Type 0 where
  pub access_token : String
  pub refresh_token : String
  pub expires_in : ℕ
  pub id_token : String

abbrev pub seconds : ℕ → ℕ
seconds n = n * 1000000000

abbrev or_old : String → String → String
or_old new old = if str_eq new "" then old else new

pub refreshed : ℕ → Tokens → GrokAccount → GrokAccount
refreshed now t a =
    let expires_in = if ltb 0 t.expires_in then t.expires_in else a.expires_in in
    record a {
      access_token = t.access_token;
      refresh_token = or_old t.refresh_token a.refresh_token;
      id_token = or_old t.id_token a.id_token;
      expires_in = expires_in;
      expires_at = now + seconds expires_in;
    }

abbrev pub is_usable : ℕ → GrokAccount → Bool
is_usable now a = not a.disabled && ltb (now + refresh_buffer) a.expires_at

-- The first pass of `Next`, from its round `i` on, with `rounds` of them left: the index and the account.
pub find_usable : ℕ → List GrokAccount → ℕ → ℕ → ℕ → Option (ℕ × GrokAccount)
find_usable now accounts next i zero = none
find_usable now accounts next i (suc rounds) =
    let later = find_usable now accounts next (i + 1) rounds in
    let idx = (next + i) % length accounts in
    elim (get_elem? accounts idx) [
      | none ↦ later
      | some a ↦ if is_usable now a then some (idx, a) else later
    ]

-- The second pass: the account that is ready for longest.
abbrev pub better : Option GrokAccount → GrokAccount → Option GrokAccount
better none a = some a
better (some b) a = if ltb b.expires_at a.expires_at then some a else some b

pub best_of : Option GrokAccount → List GrokAccount → Option GrokAccount
best_of best [] = best
best_of best (a ∷ rest) = best_of (if a.disabled then best else better best a) rest

-- The account that `Next` gives: one that is ready, or one whose refresh it starts.
pub data Chosen : Type 0 where
  ready : GrokAccount → Chosen
  refreshing : GrokAccount → Chosen
  no_accounts all_disabled : Chosen

abbrev pub moved : ℕ → GrokAccountManager → GrokAccountManager
moved i am = record am { next = i % length am.accounts }

pub second_pass : GrokAccountManager → Option GrokAccount → GrokAccountManager × Chosen
second_pass am none = (am, all_disabled)
second_pass am (some a) = (moved (am.next + 1) am, refreshing a)

pub first_pass : GrokAccountManager → Option (ℕ × GrokAccount) → GrokAccountManager × Chosen
unfolding second_pass best_of
first_pass am (some (idx, a)) = (moved (idx + 1) am, ready a)
first_pass am none = second_pass am (best_of none am.accounts)

pub next_among : ℕ → GrokAccountManager → List GrokAccount → GrokAccountManager × Chosen
unfolding first_pass find_usable
next_among now am [] = (am, no_accounts)
next_among now am (a ∷ rest) =
    first_pass am (find_usable now am.accounts am.next 0 (length am.accounts))

pub next_account : ℕ → GrokAccountManager → GrokAccountManager × Chosen
unfolding next_among
next_account now am = next_among now am am.accounts

pub cooled : ℕ → GrokAccount → Bool
cooled now a = elim a.disabled_at [ none ↦ false | some t ↦ a.disabled && ltb cooldown (now - t) ]

abbrev pub lift : ℕ → GrokAccount → GrokAccount
lift now a = if cooled now a then record a { disabled = false } else a

pub reenable_accounts : ℕ → GrokAccountManager → GrokAccountManager × List StoreCall
unfolding cooled
reenable_accounts now am = (
  record am { accounts = map (lift now) am.accounts },
  calls am (map (λ a. saves (record a { disabled = false })) (keep (cooled now) am.accounts)),
)

pub find_account : String → List GrokAccount → Option GrokAccount
find_account email [] = none
find_account email (a ∷ rest) = if str_eq a.email email then some a else find_account email rest

-- The first account of the email, changed.
pub modify_account : String → (GrokAccount → GrokAccount) → List GrokAccount → List GrokAccount
modify_account email f [] = []
modify_account email f (a ∷ rest) =
    let later = modify_account email f rest in
    if str_eq a.email email then f a ∷ rest else a ∷ later

-- What a refresh comes to: new tokens, a token that was revoked, or another failure.
pub data Refreshed : Type 0 where
  renewed : Tokens → Refreshed
  revoked unrefreshed : Refreshed
