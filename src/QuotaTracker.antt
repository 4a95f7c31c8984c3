-- ===== src/QuotaTracker.antt =====
-- internal/quota/quota.go: the usage and the state of each family of upstreams. A day is a number, in
-- place of its text; a cost and a credit are whole units; the time of the last update, a text, is left
-- out.
pub mod Today
mod Tests
use onmi_routers.Base.Assoc.{lookup, insert}
use onmi_routers.Base.{
  ℕ, zero, suc, ◌+◌, ◌-◌, ◌*◌, ◌/◌, ◌%◌, ◌≤◌, ◌<◌, ◌≡◌, refl, sym, ap, ◌∙◌, ◌≢◌, ◌⊎◌, inl, inr,
  String, Bool, true, false, not, ◌&&◌, ◌||◌, Option, none, some, List, [], ◌∷◌, ◌++◌, map, arith,
  eq_iff, eq_refl, ltb, leb, ◌==◌, str_eq, if◌then◌else◌, Bool-cases, Option-cases, length,
  get_elem?, drop, keep, All, All-append, contains,
}

pub record Snapshot : Type 0 where
  pub family : String
  pub accounts : ℕ
  pub healthy : ℕ
  pub disabled : ℕ
  pub credits_remain : ℕ
  pub credits_limit : ℕ
  pub tokens_today : ℕ
  pub requests_today : ℕ
  pub cost_today : ℕ
  pub circuit_open : Bool

pub record Tracker : Type 0 where
  pub snap : List (String × Snapshot)
  pub day : ℕ

abbrev pub empty_snapshot : String → Snapshot
empty_snapshot f = record {
  family = f;
  accounts = 0;
  healthy = 0;
  disabled = 0;
  credits_remain = 0;
  credits_limit = 0;
  tokens_today = 0;
  requests_today = 0;
  cost_today = 0;
  circuit_open = false;
}

abbrev pub new_tracker : ℕ → Tracker
new_tracker today = record { snap = []; day = today }

abbrev pub reset : Snapshot → Snapshot
reset s = record s { tokens_today = 0; requests_today = 0; cost_today = 0 }

pub reset_all : List (String × Snapshot) → List (String × Snapshot)
reset_all [] = []
reset_all ((f, s) ∷ rest) = (f, reset s) ∷ reset_all rest

pub roll_day : ℕ → Tracker → Tracker
unfolding reset_all
roll_day today t = if today == t.day then t else record { snap = reset_all t.snap; day = today }

-- What the map has for a family; a family that it has not is all zero.
pub snapshot_of : String → List (String × Snapshot) → Snapshot
snapshot_of f snap = elim (lookup f snap) [ none ↦ empty_snapshot f | some s ↦ s ]

pub set_pool : ℕ → String → ℕ → ℕ → ℕ → Bool → Tracker → Tracker
unfolding roll_day snapshot_of
set_pool today f accounts healthy disabled circuit_open t =
    let t' = roll_day today t in
    record t' {
      snap =
          insert f
            (record (snapshot_of f t'.snap) {
              family = f;
              accounts = accounts;
              healthy = healthy;
              disabled = disabled;
              circuit_open = circuit_open;
            })
            t'.snap;
    }

pub set_credits : ℕ → String → ℕ → ℕ → Tracker → Tracker
unfolding roll_day snapshot_of
set_credits today f remain limit t =
    let t' = roll_day today t in
    record t' {
      snap =
          insert f
            (record (snapshot_of f t'.snap) {
              family = f;
              credits_remain = remain;
              credits_limit = limit;
            })
            t'.snap;
    }

pub add_usage : ℕ → String → ℕ → ℕ → Tracker → Tracker
unfolding roll_day snapshot_of
add_usage today f tokens cost t =
    let t' = roll_day today t in
    let s = snapshot_of f t'.snap in
    record t' {
      snap =
          insert f
            (record s {
              family = f;
              tokens_today = s.tokens_today + tokens;
              requests_today = s.requests_today + 1;
              cost_today = s.cost_today + cost;
            })
            t'.snap;
    }

-- It does not roll the day.
pub all_snapshots : Tracker → List Snapshot
unfolding snapshot_of
all_snapshots t =
    snapshot_of "grok" t.snap
    ∷ snapshot_of "codebuddy" t.snap
    ∷ snapshot_of "cloudflare" t.snap
    ∷ []

pub preferable : String → Tracker → Bool
preferable f t = elim (lookup f t.snap) [
  | none ↦ true
  | some s ↦
      not s.circuit_open
      && not (ltb 0 s.accounts && s.healthy == 0)
      && not (ltb 0 s.credits_limit && s.credits_remain == 0)
]
