-- ===== src/ProxyPool/Failures.antt =====
-- When failures disable a proxy, and when a cached transport is out of date (internal/proxy/pool.go).
use onmi_routers.Base.Assoc.{lookup-erase_self, lookup-insert_self, lookup}
use onmi_routers.Base.{
  inr, inl, ◌<◌, none, Bool-cases, ◌∙◌, true, ltb, Bool, All, ℕ, ◌+◌, ◌≡◌, refl, ◌≢◌, String, false,
  some, List, [], ◌∷◌, arith, eq_iff, str_eq, if◌then◌else◌,
}
use onmi_routers.ProxyPool.{ok, proxy_fail_threshold, ProxyEntry}
use onmi_routers.ProxyPool.Operations.{
  Update, transport, update, ProxyPool, Db, find, modify, mark_failed, mark_success, failed,
  forgive,
}

pub data Mark : Type 0 where
  marks_failed marks_success : String → Mark

pub apply : Db → Mark → ProxyPool → ProxyPool
apply db (marks_failed id) p = (mark_failed db id p).0
apply db (marks_success id) p = (mark_success db id p).0

pub apply_all : Db → List Mark → ProxyPool → ProxyPool
apply_all db [] p = p
apply_all db (m ∷ ms) p = apply_all db ms (apply db m p)

-- How often the proxy is marked as failed.
pub failures : String → List Mark → ℕ
failures id [] = 0
failures id (marks_failed j ∷ ms) = (if str_eq j id then 1 else 0) + failures id ms
failures id (marks_success j ∷ ms) = failures id ms

-- No success of the proxy.
abbrev pub IsBad : String → Mark → Type 0
IsBad id (marks_failed j) = Unit {0}
IsBad id (marks_success j) = str_eq j id ≡ false

find-modify_self :
    (id : String) (f : ProxyEntry → ProxyEntry) (es : List ProxyEntry) (e : ProxyEntry)
    → ((x : ProxyEntry) → (f x).id ≡ x.id)
    → find id es ≡ some e
    → find id (modify id f es) ≡ some (f e)
unfolding find modify
find-modify_self id f [] e h at = cc
find-modify_self id f (x ∷ es) e h at = ground (arith, h x, find-modify_self id f es e h)

find-modify_other :
    (id j : String) (f : ProxyEntry → ProxyEntry) (es : List ProxyEntry)
    → ((x : ProxyEntry) → (f x).id ≡ x.id)
    → str_eq j id ≡ false
    → find id (modify j f es) ≡ find id es
unfolding find modify
find-modify_other id j f [] h other = refl
find-modify_other id j f (x ∷ es) h other =
    ground (arith, h x, find-modify_other id j f es h, eq_iff x.id j, eq_iff x.id id, eq_iff j id)

failed-id : (e : ProxyEntry) → (failed e).id ≡ e.id
unfolding failed
failed-id e = ground arith

forgive-id : (e : ProxyEntry) → (forgive e).id ≡ e.id
unfolding forgive
forgive-id e = refl

fail_self :
    (db : Db) (id : String) (p : ProxyPool) (e : ProxyEntry)
    → id ≢ ""
    → find id p.entries ≡ some e
    → find id (mark_failed db id p).0.entries ≡ some (failed e)
unfolding mark_failed
fail_self db id p e named at =
    ground (arith, eq_iff id "", find-modify_self id failed p.entries e failed-id)

fail-other :
    (db : Db) (id j : String) (p : ProxyPool)
    → str_eq j id ≡ false
    → find id (mark_failed db j p).0.entries ≡ find id p.entries
unfolding mark_failed
fail-other db id j p other = ground (arith, find-modify_other id j failed p.entries failed-id)

succeed-other :
    (db : Db) (id j : String) (p : ProxyPool)
    → str_eq j id ≡ false
    → find id (mark_success db j p).0.entries ≡ find id p.entries
unfolding mark_success
succeed-other db id j p other = ground (arith, find-modify_other id j forgive p.entries forgive-id)

IsCounting : ProxyEntry → Type 0
IsCounting e = e.enabled ≡ ltb e.fail_count proxy_fail_threshold

failed-counts :
    (e : ProxyEntry)
    → IsCounting e
    → ((failed e).fail_count ≡ e.fail_count + 1) × IsCounting (failed e)
unfolding failed IsCounting
failed-counts e h = ground arith

apply_all-counts :
    (db : Db) (id : String) (ms : List Mark) (p : ProxyPool) (e : ProxyEntry)
    → id ≢ ""
    → All (IsBad id) ms
    → find id p.entries ≡ some e
    → IsCounting e
    → (e' : ProxyEntry) × (find id (apply_all db ms p).entries ≡ some e')
      × (e'.fail_count ≡ e.fail_count + failures id ms)
      × IsCounting e'
unfolding apply_all apply failures
apply_all-counts db id [] p e named b at c = (e, at, omega arith, c)
apply_all-counts db id (marks_success j ∷ ms) p e named b at c =
    apply_all-counts db id ms (mark_success db j p).0 e named b.1 (succeed-other db id j p b.0 ∙ at)
      c
apply_all-counts db id (marks_failed j ∷ ms) p e named b at c = elim (Bool-cases (str_eq j id)) [
  | inl mine ↦
      let same : j ≡ id = (eq_iff j id).0 mine in
      let counted = failed-counts e c in
      let here : find id (mark_failed db j p).0.entries ≡ some (failed e) =
        rw same (fail_self db id p e named at) in
      let (e', at', n, c') =
        apply_all-counts db id ms (mark_failed db j p).0 (failed e) named b.1 here counted.1 in
      (e', at', rw mine (omega (arith, n, counted.0)), c')
  | inr other ↦
      let (e', at', n, c') =
        apply_all-counts db id ms (mark_failed db j p).0 e named b.1
          (fail-other db id j p other ∙ at) c in
      (e', at', rw other (omega (arith, n)), c')
]

-- Failures in a row disable a proxy at the fifth: while an enabled proxy whose count is below five is
-- not marked as successful, whatever is marked for others, its count grows by the failures marked for
-- it, and it is enabled exactly while the count is below five.
pub failures_disable :
    (db : Db) (id : String) (ms : List Mark) (p : ProxyPool) (e : ProxyEntry)
    → id ≢ ""
    → All (IsBad id) ms
    → find id p.entries ≡ some e
    → e.enabled ≡ true
    → e.fail_count < proxy_fail_threshold
    → (e' : ProxyEntry) × (find id (apply_all db ms p).entries ≡ some e')
      × (e'.fail_count ≡ e.fail_count + failures id ms)
      × (e'.enabled ≡ ltb (e.fail_count + failures id ms) proxy_fail_threshold)
unfolding IsCounting
failures_disable db id ms p e named b at on low =
    let (e', at', n, c) = apply_all-counts db id ms p e named b at (ground arith) in
    (e', at', n, ground (arith, n, c))

update-forgets :
    (lower : String → String) (db : Db) (id : String) (u : Update) (p : ProxyPool) (e' : ProxyEntry)
    → (update lower db id u p).1 ≡ ok e'
    → lookup id (update lower db id u p).0.transports ≡ none
unfolding update
update-forgets lower db id u p e' h = ground (arith, lookup-erase_self id p.transports)

transport-stale :
    (builds : ProxyEntry → Bool) (e e' : ProxyEntry) (p : ProxyPool)
    → lookup e.id p.transports ≡ none
    → builds e ≡ true
    → e'.id ≡ e.id
    → (transport builds e' (transport builds e p).0).1 ≡ ok e
unfolding transport
transport-stale builds e e' p gone can same = ground (arith, lookup-insert_self e.id e p.transports)

-- A request can bring an old transport back: where a request took the entry `e` before an update of
-- its proxy succeeded, and builds its transport after it, every later request for the updated entry
-- gets the transport of `e`, with its old address and password.
pub update_stale_transport :
    (lower : String → String) (db : Db) (builds : ProxyEntry → Bool) (u : Update) (p : ProxyPool)
    (e e' : ProxyEntry)
    → (update lower db e.id u p).1 ≡ ok e'
    → builds e ≡ true
    → e'.id ≡ e.id
    → (transport builds e' (transport builds e (update lower db e.id u p).0).0).1 ≡ ok e
update_stale_transport lower db builds u p e e' h can same =
    transport-stale builds e e' (update lower db e.id u p).0 (update-forgets lower db e.id u p e' h)
      can same
