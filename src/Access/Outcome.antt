-- ===== src/Access/Outcome.antt =====
-- What a successful request, approval or revocation means for who sees the server.
use minepanel_backend.Common.{
  ℕ, zero, suc, String, ◌≡◌, refl, sym, ap, ◌∙◌, ◌++◌, true, false, ◌&&◌, ◌||◌, Option, none, some,
  [], ◌∷◌, any, ◌==◌, ==-refl, inl, inr, Bool-cases, string_eq,
}
use minepanel_backend.Http.{Exception, ok, err}
use minepanel_backend.Schema.{Db, ServerAccess, AccessType, pending, approved, access_status_eq}
use minepanel_backend.Effects.{Env, M}
use minepanel_backend.Effects.Triples.{
  Triple, Triple-throw, Triple-lift_ok, Triple-or_throw, Triple-throw_if, Triple-statement,
  Triple-clock, Triple-fresh_id, Triple-bind,
}
use minepanel_backend.Access.{
  upsert_attempt, upsert_pending_with_retry, report_vanished, check_requestable, report_unapproved,
  approve_attempt, approve_with_retry,
}
use minepanel_backend.Access.Statements.{
  is_access_of, insert_access, access_row, try_insert_pending, try_insert_approved,
  try_approve_pending,
}
use minepanel_backend.Access.Branches.{
  True, Thrown, IfSome, Triple-read, Triple-insert_settled, Triple-existing_settled,
  Triple-approve_existing, Triple-approve_absent, Triple-found_or_absent,
}
use minepanel_backend.Access.Sight.{
  is_granted, approve_row-status, approve-is_granted, append-is_granted, absent-is_granted,
}

module _ (s u : String) where
  abbrev pub Grants : ServerAccess → Db → Type 0
  Grants row db = (row.status ≡ approved) × (is_granted s u db.server_access ≡ true)

  abbrev pub Waits : ServerAccess → Db → Type 0
  Waits row db = (row.status ≡ pending) × (is_granted s u db.server_access ≡ false)

ok_none : {row : ServerAccess} → ok none ≡ ok (some row) → ⊥
ok_none h = cc

ok_some : {a b : ServerAccess} → ok (some a) ≡ ok (some b) → a ≡ b
ok_some h = cc

err_ok : {e : Exception} {o : Option ServerAccess} → err e ≡ ok o → ⊥
err_ok h = cc

insert-ok :
    (row : ServerAccess) (db : Db) (made : ServerAccess)
    → (insert_access row db).0 ≡ ok (some made)
    → (made ≡ row)
      × ((insert_access row db).1.server_access ≡ db.server_access ++ row ∷ [])
      × (any (λ r. is_access_of row.server_id row.user_id r || r.id == row.id) db.server_access
          ≡ false)
insert-ok row db made h =
    elim (Bool-cases
      (any (λ r. is_access_of row.server_id row.user_id r || r.id == row.id) db.server_access)) [
        | inl taken ↦ absurd (ok_none (rw taken at h))
        | inr free ↦
            elim (Bool-cases (
              any (λ r. r.id == row.server_id) db.servers
              && any (λ u. u.id == row.user_id) db.users)) [
                | inl known ↦ rw (free, known) (sym (ok_some (rw (free, known) at h)), refl, refl)
                | inr unknown ↦ absurd (err_ok (rw (free, unknown) at h))
              ]
      ]

module _ (env : Env) (s u : String) where
  Triple-try_insert_pending : Triple True (try_insert_pending env s u) (IfSome (Waits s u)) Thrown
  unfolding try_insert_pending
  Triple-try_insert_pending =
      Triple-bind (λ _. True) _ _ (Triple-fresh_id env)
        λ id.
          Triple-bind (λ _. True) _ _ (Triple-clock env)
            λ now.
              Triple-bind (λ r db. (made : ServerAccess) → r ≡ ok (some made) → Waits s u made db) _
                _
                (Triple-statement env _ (λ n db h made e.
                  let (same, after, free) =
                    insert-ok (access_row id s u pending now none) (env.interfere n db) made e in
                  (rw same refl, rw after (absent-is_granted s u _ _ _ free refl))))
                λ r. Triple-lift_ok r (λ o e db h made f. h made (e ∙ ap ok f)) (λ e db h. tt)

  Triple-try_insert_approved :
      Triple True (try_insert_approved env s u) (IfSome (Grants s u)) Thrown
  unfolding try_insert_approved
  Triple-try_insert_approved =
      Triple-bind (λ _. True) _ _ (Triple-fresh_id env)
        λ id.
          Triple-bind (λ _. True) _ _ (Triple-clock env)
            λ now.
              Triple-bind (λ r db. (made : ServerAccess) → r ≡ ok (some made) → Grants s u made db)
                _ _
                (Triple-statement env _ (λ n db h made e.
                  let (same, after, free) =
                    insert-ok (access_row id s u approved now (some now)) (env.interfere n db) made
                      e in
                  (
                    rw same refl,
                    rw after (append-is_granted s u _ _ (rw (==-refl u, ==-refl s) refl)),
                  )))
                λ r. Triple-lift_ok r (λ o e db h made f. h made (e ∙ ap ok f)) (λ e db h. tt)

  Triple-try_approve_pending :
      Triple True (try_approve_pending env s u) (IfSome (Grants s u)) Thrown
  unfolding try_approve_pending
  Triple-try_approve_pending =
      Triple-bind (λ _. True) _ _ (Triple-clock env)
        λ now. Triple-statement env _ (λ n db h row e. (
          approve_row-status now _ row e,
          approve-is_granted s u now (env.interfere n db).server_access row e,
        ))

  Triple-upsert_attempt :
      (rest : M ServerAccess)
      → Triple True rest (Waits s u) Thrown
      → Triple True (upsert_attempt env s u rest) (Waits s u) Thrown
  unfolding upsert_attempt
  Triple-upsert_attempt rest t =
      Triple-bind (IfSome (Waits s u)) _ _ Triple-try_insert_pending λ inserted.
        Triple-insert_settled env (Waits s u) inserted _ (
          Triple-bind (λ _. True) _ _ (Triple-read env (Waits s u) _)
            λ existing. Triple-existing_settled env (Waits s u) existing rest t)

  pub Triple-upsert :
      (left : ℕ) → Triple True (upsert_pending_with_retry env s u left) (Waits s u) Thrown
  unfolding upsert_pending_with_retry report_vanished check_requestable
  Triple-upsert zero = Triple-upsert_attempt _ (
      Triple-bind (λ _. True) _ _ (Triple-read env (Waits s u) _)
        λ found. Triple-throw _ (λ db h. tt))
  Triple-upsert (suc left) = Triple-upsert_attempt _ (
      Triple-bind (λ _. True) _ _
        (Triple-bind (λ _. True) _ _ (Triple-read env (Waits s u) _)
          λ found.
            Triple-bind (λ _. True) _ _ (Triple-or_throw _ _ (λ r e db h. tt) (λ db h. tt))
              λ r. Triple-throw_if _ _ (λ e db h. tt) (λ e db h. tt))
        λ _. Triple-upsert left)

  Triple-approve_attempt :
      (access_type : AccessType) (left : ℕ) (again : M ServerAccess)
      → Triple True again (Grants s u) Thrown
      → Triple True (approve_attempt env access_type s u left again) (Grants s u) Thrown
  unfolding approve_attempt report_unapproved
  Triple-approve_attempt access_type left again t =
      Triple-bind (IfSome (Grants s u)) _ _ Triple-try_approve_pending λ claimed.
        Triple-insert_settled env (Grants s u) claimed _ (
          Triple-bind (λ _. True) _ _ (Triple-read env (Grants s u) _)
            λ existing.
              Triple-found_or_absent env (Grants s u) existing _ _
                (λ row. Triple-approve_existing env (Grants s u) row.status left again t)
                (Triple-bind (λ _. True) _ _ (Triple-throw_if _ _ (λ e db h. tt) (λ e db h. tt))
                  λ _. Triple-bind (IfSome (Grants s u)) _ _ Triple-try_insert_approved λ inserted.
                    Triple-insert_settled env (Grants s u) inserted _ (
                      Triple-approve_absent env (Grants s u) left _ again
                        (Triple-bind (λ _. True) _ _ (Triple-read env (Grants s u) _)
                          λ found. Triple-throw _ (λ db h. tt))
                        t)))

  pub Triple-approve :
      (access_type : AccessType) (left : ℕ)
      → Triple True (approve_with_retry env access_type s u left) (Grants s u) Thrown
  unfolding approve_with_retry
  Triple-approve access_type zero =
      Triple-approve_attempt access_type zero _ (Triple-throw _ (λ db h. tt))
  Triple-approve access_type (suc left) =
      Triple-approve_attempt access_type (suc left) _ (Triple-approve access_type left)
