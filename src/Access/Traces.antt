-- ===== src/Access/Traces.antt =====
-- The writes of every operation of the access service, and the invariant that follows.
use minepanel_backend.Common.{
  ℕ, zero, suc, String, ◌≡◌, refl, Option, none, some, inl, inr, string_eq,
}
use minepanel_backend.Schema.{
  Db, ServerAccess, ServerAccessStatus, pending, approved, AccessType, role_eq, access_type_eq,
}
use minepanel_backend.Effects.{Env, M, query}
use minepanel_backend.Effects.Trace.{
  Traces, Traces-pure, Traces-throw, Traces-lift, Traces-or_throw, Traces-throw_if,
  Traces-statement, Traces-clock, Traces-fresh_id, Traces-bind,
}
use minepanel_backend.Servers.Statements.{ServerPrincipal}
use minepanel_backend.Access.{
  report_vanished, check_requestable, insert_settled, existing_settled, upsert_attempt,
  upsert_pending_with_retry, request_access_for, get_my_access_request, approve_existing,
  report_unapproved, approve_absent, found_or_absent, approve_attempt, approve_with_retry,
  approve_access, revoke_access,
}
use minepanel_backend.Access.Statements.{
  try_insert_pending, try_insert_approved, try_approve_pending, delete_access,
}
use minepanel_backend.Access.Steps.{AccessStep, AccessStep-refl}
use minepanel_backend.Access.Writes.{insert_access-step, approve_rows-step, delete_rows-step}

module _ (env : Env) (s u : String) where
  Traces-read : {A : Type 0} (f : Db → A) → Traces env (AccessStep s u) (query env f)
  Traces-read f = Traces-statement _ AccessStep-refl

  Traces-try_insert_pending : Traces env (AccessStep s u) (try_insert_pending env s u)
  unfolding try_insert_pending
  Traces-try_insert_pending = Traces-bind _ _ Traces-fresh_id λ id.
      Traces-bind _ _ Traces-clock λ now.
        Traces-bind _ _ (Traces-statement _ (insert_access-step _ (inl (refl, refl))))
          λ r. Traces-lift r

  Traces-try_insert_approved : Traces env (AccessStep s u) (try_insert_approved env s u)
  unfolding try_insert_approved
  Traces-try_insert_approved = Traces-bind _ _ Traces-fresh_id λ id.
      Traces-bind _ _ Traces-clock λ now.
        Traces-bind _ _ (Traces-statement _ (insert_access-step _ (inr (refl, λ e. cc))))
          λ r. Traces-lift r

  Traces-try_approve_pending : Traces env (AccessStep s u) (try_approve_pending env s u)
  unfolding try_approve_pending
  Traces-try_approve_pending =
      Traces-bind _ _ Traces-clock λ now. Traces-statement _ (approve_rows-step s u now)

  Traces-report_vanished : Traces env (AccessStep s u) (report_vanished env s)
  unfolding report_vanished
  Traces-report_vanished = Traces-bind _ _ (Traces-read _) λ found. Traces-throw _

  Traces-check_requestable : Traces env (AccessStep s u) (check_requestable env s)
  unfolding check_requestable
  Traces-check_requestable =
      Traces-bind _ _ (Traces-read _)
        λ found. Traces-bind _ _ (Traces-or_throw _ _) λ r. Traces-throw_if _ _

  Traces-insert_settled :
      (o : Option ServerAccess) (rest : M ServerAccess)
      → Traces env (AccessStep s u) rest
      → Traces env (AccessStep s u) (insert_settled env o rest)
  Traces-insert_settled (some row) rest t = Traces-pure _
  Traces-insert_settled none rest t = t

  Traces-existing_settled :
      (o : Option ServerAccess) (rest : M ServerAccess)
      → Traces env (AccessStep s u) rest
      → Traces env (AccessStep s u) (existing_settled env o rest)
  Traces-existing_settled (some row) rest t = Traces-throw _
  Traces-existing_settled none rest t = t

  Traces-upsert_attempt :
      (rest : M ServerAccess)
      → Traces env (AccessStep s u) rest
      → Traces env (AccessStep s u) (upsert_attempt env s u rest)
  unfolding upsert_attempt
  Traces-upsert_attempt rest t = Traces-bind _ _ Traces-try_insert_pending λ inserted.
      Traces-insert_settled inserted _
        (Traces-bind _ _ (Traces-read _) λ existing. Traces-existing_settled existing rest t)

  Traces-upsert : (left : ℕ) → Traces env (AccessStep s u) (upsert_pending_with_retry env s u left)
  unfolding upsert_pending_with_retry
  Traces-upsert zero = Traces-upsert_attempt _ Traces-report_vanished
  Traces-upsert (suc left) =
      Traces-upsert_attempt _ (Traces-bind _ _ Traces-check_requestable λ _. Traces-upsert left)

  Traces-report_unapproved : Traces env (AccessStep s u) (report_unapproved env s u)
  unfolding report_unapproved
  Traces-report_unapproved = Traces-bind _ _ (Traces-read _) λ existing. Traces-throw _

  Traces-approve_existing :
      (status : ServerAccessStatus) (left : ℕ) (again : M ServerAccess)
      → Traces env (AccessStep s u) again
      → Traces env (AccessStep s u) (approve_existing env status left again)
  Traces-approve_existing approved left again t = Traces-throw _
  Traces-approve_existing pending zero again t = Traces-throw _
  Traces-approve_existing pending (suc left) again t = t

  Traces-approve_absent :
      (left : ℕ) (last again : M ServerAccess)
      → Traces env (AccessStep s u) last
      → Traces env (AccessStep s u) again
      → Traces env (AccessStep s u) (approve_absent env left last again)
  Traces-approve_absent zero last again tl ta = tl
  Traces-approve_absent (suc left) last again tl ta = ta

  Traces-found_or_absent :
      (o : Option ServerAccess) (found : ServerAccess → M ServerAccess) (absent : M ServerAccess)
      → ((row : ServerAccess) → Traces env (AccessStep s u) (found row))
      → Traces env (AccessStep s u) absent
      → Traces env (AccessStep s u) (found_or_absent env o found absent)
  Traces-found_or_absent (some row) found absent tf ta = tf row
  Traces-found_or_absent none found absent tf ta = ta

  Traces-approve_attempt :
      (access_type : AccessType) (left : ℕ) (again : M ServerAccess)
      → Traces env (AccessStep s u) again
      → Traces env (AccessStep s u) (approve_attempt env access_type s u left again)
  unfolding approve_attempt
  Traces-approve_attempt access_type left again t =
      Traces-bind _ _ Traces-try_approve_pending λ claimed. Traces-insert_settled claimed _ (
        Traces-bind _ _ (Traces-read _) λ existing.
          Traces-found_or_absent existing _ _
            (λ row. Traces-approve_existing row.status left again t)
            (Traces-bind _ _ (Traces-throw_if _ _) λ _.
              Traces-bind _ _ Traces-try_insert_approved λ inserted.
                Traces-insert_settled inserted _
                  (Traces-approve_absent left _ again Traces-report_unapproved t)))

  Traces-approve :
      (access_type : AccessType) (left : ℕ)
      → Traces env (AccessStep s u) (approve_with_retry env access_type s u left)
  unfolding approve_with_retry
  Traces-approve access_type zero = Traces-approve_attempt access_type zero _ (Traces-throw _)
  Traces-approve access_type (suc left) =
      Traces-approve_attempt access_type (suc left) _ (Traces-approve access_type left)

  pub Traces-request_access_for :
      (principal : ServerPrincipal)
      → principal.id ≡ u
      → Traces env (AccessStep s u) (request_access_for env s principal)
  unfolding request_access_for
  Traces-request_access_for principal e = Traces-bind _ _ (Traces-throw_if _ _) λ _.
      Traces-bind _ _ (Traces-read _) λ found. Traces-bind _ _ (Traces-or_throw _ _) λ server.
        Traces-bind _ _ (Traces-throw_if _ _) λ _.
          Traces-bind _ _ (Traces-throw_if _ _)
            λ _. Traces-bind _ _ (rw e (Traces-upsert _)) λ row. Traces-pure _

  pub Traces-get_my_access_request :
      (principal : ServerPrincipal)
      → Traces env (AccessStep s u) (get_my_access_request env s principal)
  unfolding get_my_access_request
  Traces-get_my_access_request principal = Traces-bind _ _ (Traces-read _) λ found.
      Traces-bind _ _ (Traces-or_throw _ _) λ server. Traces-bind _ _ (Traces-throw_if _ _) λ _.
        Traces-bind _ _ (Traces-throw_if _ _) λ _.
          Traces-bind _ _ (Traces-read _)
            λ row. Traces-bind _ _ (Traces-or_throw _ _) λ row. Traces-pure _

  pub Traces-approve_access : Traces env (AccessStep s u) (approve_access env s u)
  unfolding approve_access
  Traces-approve_access = Traces-bind _ _ (Traces-read _) λ found.
      Traces-bind _ _ (Traces-or_throw _ _) λ server. Traces-bind _ _ (Traces-read _) λ listed.
        Traces-bind _ _ (Traces-or_throw _ _) λ target. Traces-bind _ _ (Traces-throw_if _ _) λ _.
          Traces-bind _ _ (Traces-throw_if _ _)
            λ _. Traces-bind _ _ (Traces-approve server.access_type _) λ row. Traces-pure _

  pub Traces-revoke_access : Traces env (AccessStep s u) (revoke_access env s u)
  unfolding revoke_access delete_access
  Traces-revoke_access = Traces-bind _ _ (Traces-read _) λ found.
      Traces-bind _ _ (Traces-or_throw _ _) λ server.
        Traces-bind _ _ (Traces-statement _ (delete_rows-step s u)) λ deleted. Traces-throw_if _ _
