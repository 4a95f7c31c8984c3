-- ===== src/ProxyPool/Calls.antt =====
-- Each operation of the proxy pool keeps it consistent (internal/proxy/pool.go).
use onmi_routers.Base.{
  ℕ, ◌+◌, ◌≡◌, refl, sym, ◌∙◌, inl, inr, String, false, not, ◌&&◌, Option, none, some, List, [],
  map, arith, leb, ◌==◌, str_eq, Bool-cases, Option-cases, keep, All,
}
use onmi_routers.ProxyPool.{
  Result-cases, ProxyEntry, Result, ok, err, validate_entry, proxy_fail_threshold,
}
use onmi_routers.ProxyPool.Validation.{IsWellFormed, validate-IsWellFormed}
use onmi_routers.ProxyPool.Operations.{
  ProxyPool, merge, flip, failed, forgive, auto_disabled, find, modify, dto_to_entry, Db, Update,
  load, add, update, delete, toggle, mark_failed, mark_success,
}
use onmi_routers.ProxyPool.Consistency.{
  All-keep, sans_count, IsConsistent, modify-All, modify-sans_count, other-IsWellFormed,
  rebuild-IsConsistent, add_entry-IsConsistent,
}

-- What a load returns is well formed.
abbrev pub IsTrusted : Option (Result (List ProxyEntry)) → Type 0
IsTrusted (some (ok dtos)) = All IsWellFormed (map dto_to_entry dtos)
IsTrusted (some (err e)) = Unit {0}
IsTrusted none = Unit {0}

abbrev pub or_same : ProxyPool → Result ProxyPool → ProxyPool
or_same p (ok q) = q
or_same p (err e) = p

module _ (lower : String → String) (db : Db) where
  pub loads-IsConsistent :
      (reply : Option (Result (List ProxyEntry))) (p : ProxyPool)
      → IsTrusted reply
      → IsConsistent p
      → IsConsistent (or_same p (load reply p))
  unfolding load
  loads-IsConsistent none p t v = rebuild-IsConsistent (record p { entries = [] }) tt
  loads-IsConsistent (some (err e)) p t v = v
  loads-IsConsistent (some (ok dtos)) p t v =
      rebuild-IsConsistent (record p { entries = map dto_to_entry dtos }) t

  pub adds-IsConsistent :
      (random : Option String) (now : ℕ) (e : ProxyEntry) (p : ProxyPool)
      → IsConsistent p
      → IsConsistent (add lower db random now e p).0
  unfolding add
  adds-IsConsistent random now e p v = elim (Result-cases (validate_entry lower e)) [
    | inl (x, bad) ↦ rw (bad, add) v
    | inr (e', good) ↦ elim (Option-cases random) [
      | inl out ↦ rw (good, out, add) v
      | inr (id, at) ↦
          let new : ProxyEntry = record e' { id = id; created_at = now; fail_count = 0 } in
          let fit =
            other-IsWellFormed e' id e'.enabled now 0 (validate-IsWellFormed lower e e' good) in
          rw (good, at, add) (add_entry-IsConsistent db new p fit v)
    ]
  ]

  pub updates-IsConsistent :
      (id : String) (u : Update) (p : ProxyPool)
      → IsConsistent p
      → IsConsistent (update lower db id u p).0
  unfolding update
  updates-IsConsistent id u p v = elim (Bool-cases (str_eq id "")) [
    | inl empty ↦ rw (empty, update) v
    | inr named ↦ elim (Option-cases (find id p.entries)) [
      | inl missing ↦ rw (named, missing, update) v
      | inr (e, found) ↦ elim (Result-cases (validate_entry lower (merge e u))) [
        | inl (x, bad) ↦ rw (named, found, bad, update) v
        | inr (e', good) ↦
            let new : ProxyEntry = record e' { fail_count = 0 } in
            let fit =
              other-IsWellFormed e' e'.id e'.enabled e'.created_at 0
                (validate-IsWellFormed lower (merge e u) e' good) in
            let all = modify-All id (λ _. new) p.entries (λ _ _. fit) v.well_formed in
            let c =
              rebuild-IsConsistent (record p { entries = modify id (λ _. new) p.entries }) all in
            rw (named, found, good, update)
              (record { enabled_kept = c.enabled_kept; well_formed = c.well_formed })
      ]
    ]
  ]

  pub removes-IsConsistent :
      (id : String) (p : ProxyPool) → IsConsistent p → IsConsistent (delete db id p).0
  unfolding delete
  removes-IsConsistent id p v = elim (Bool-cases (str_eq id "")) [
    | inl empty ↦ rw (empty, delete) v
    | inr named ↦ elim (Option-cases (find id p.entries)) [
      | inl missing ↦ rw (named, missing, delete) v
      | inr (e, found) ↦
          let rest = keep (λ x. not (str_eq x.id id)) p.entries in
          let c =
            rebuild-IsConsistent (record p { entries = rest })
              (All-keep IsWellFormed (λ x. not (str_eq x.id id)) p.entries v.well_formed) in
          rw (named, found, delete)
            (record { enabled_kept = c.enabled_kept; well_formed = c.well_formed })
    ]
  ]

  pub toggles-IsConsistent :
      (id : String) (p : ProxyPool) → IsConsistent p → IsConsistent (toggle db id p).0
  unfolding toggle flip
  toggles-IsConsistent id p v = elim (Option-cases (find id p.entries)) [
    | inl missing ↦ rw (missing, toggle) v
    | inr (e, found) ↦
        rw (found, toggle)
          (rebuild-IsConsistent (record p { entries = modify id flip p.entries })
            (modify-All id flip p.entries
              (λ x w. other-IsWellFormed x x.id (not x.enabled) x.created_at _ w) v.well_formed))
  ]

  pub succeeds-IsConsistent :
      (id : String) (p : ProxyPool) → IsConsistent p → IsConsistent (mark_success db id p).0
  unfolding mark_success forgive
  succeeds-IsConsistent id p v = elim (Bool-cases (str_eq id "")) [
    | inl empty ↦ rw (empty, mark_success) v
    | inr named ↦ elim (Option-cases (find id p.entries)) [
      | inl missing ↦ rw (named, missing, mark_success) v
      | inr (e, found) ↦ elim (Bool-cases (e.fail_count == 0)) [
        | inl calm ↦ rw (named, found, calm, mark_success) v
        | inr counted ↦
            rw (named, found, counted, mark_success)
              (record {
                enabled_kept =
                    v.enabled_kept ∙ sym (modify-sans_count id forgive p.entries (λ x _. refl));
                well_formed =
                    modify-All id forgive p.entries
                      (λ x w. other-IsWellFormed x x.id x.enabled x.created_at 0 w) v.well_formed;
              })
      ]
    ]
  ]

  failed-IsWellFormed : (e : ProxyEntry) → IsWellFormed e → IsWellFormed (failed e)
  unfolding failed
  failed-IsWellFormed e w =
      elim (Bool-cases (leb proxy_fail_threshold (e.fail_count + 1) && e.enabled)) [
        | inl off ↦ rw off (other-IsWellFormed e e.id false e.created_at (e.fail_count + 1) w)
        | inr on ↦ rw on (other-IsWellFormed e e.id e.enabled e.created_at (e.fail_count + 1) w)
      ]

  failed-sans_count :
      (e : ProxyEntry) → auto_disabled e ≡ false → sans_count (failed e) ≡ sans_count e
  unfolding failed auto_disabled
  failed-sans_count e h = rw h

  pub fails-IsConsistent :
      (id : String) (p : ProxyPool) → IsConsistent p → IsConsistent (mark_failed db id p).0
  unfolding mark_failed
  fails-IsConsistent id p v = elim (Bool-cases (str_eq id "")) [
    | inl empty ↦ rw (empty, mark_failed) v
    | inr named ↦ elim (Option-cases (find id p.entries)) [
      | inl missing ↦ rw (named, missing, mark_failed) v
      | inr (e, found) ↦
          let all = modify-All id failed p.entries failed-IsWellFormed v.well_formed in
          elim (Bool-cases (auto_disabled e)) [
            | inl off ↦
                let c =
                  rebuild-IsConsistent (record p { entries = modify id failed p.entries }) all in
                rw (named, found, off, mark_failed)
                  (record { enabled_kept = c.enabled_kept; well_formed = c.well_formed })
            | inr on ↦
                rw (named, found, on, mark_failed)
                  (record {
                    enabled_kept =
                        v.enabled_kept
                        ∙ sym (
                            modify-sans_count id failed p.entries
                              (λ x at. failed-sans_count x (ground (arith, found, at))));
                    well_formed = all;
                  })
          ]
    ]
  ]
