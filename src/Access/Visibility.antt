-- ===== src/Access/Visibility.antt =====
-- Who sees a server after a successful request, approval or revocation.
use minepanel_backend.Common.{String, ◌≡◌, ◌≢◌, Bool, true, false, Option}
use minepanel_backend.Http.{Exception, ok}
use minepanel_backend.Schema.{Db, Server, Role, admin, open_access, creating, pending, approved}
use minepanel_backend.Effects.{Env, World, or_throw, throw_if}
use minepanel_backend.Effects.Triples.{
  Post-ok, Triple, Triple-pure, Triple-or_throw, Triple-throw_if, Triple-statement, Triple-bind,
}
use minepanel_backend.Servers.Statements.{ServerPrincipal, is_visible}
use minepanel_backend.Access.{
  AccessRequest, MyAccessRequest, request_access_for, approve_access, revoke_access,
}
use minepanel_backend.Access.Statements.{delete_access}
use minepanel_backend.Access.Branches.{True, Thrown, Triple-read}
use minepanel_backend.Access.Sight.{
  is_granted, granted-is_visible, ungranted-is_visible, delete-is_granted,
}
use minepanel_backend.Access.Outcome.{Grants, Waits, Triple-upsert, Triple-approve}

module _ (env : Env) (s : String) where
  Triple-checked : (b : Bool) (e : Exception) → Triple True (throw_if b e) (λ _. True) Thrown
  Triple-checked b e = Triple-throw_if b e (λ e db h. tt) (λ e db h. tt)

  Triple-present :
      {A : Type 0} (o : Option A) (e : Exception) → Triple True (or_throw o e) (λ _. True) Thrown
  Triple-present o e = Triple-or_throw o e (λ a e db h. tt) (λ db h. tt)

  abbrev Requested : String → MyAccessRequest → Db → Type 0
  Requested u view db = (view.status ≡ pending) × (is_granted s u db.server_access ≡ false)

  abbrev Approved : String → AccessRequest → Db → Type 0
  Approved u view db = (view.status ≡ approved) × (is_granted s u db.server_access ≡ true)

  Triple-request_access_for :
      (p : ServerPrincipal) → Triple True (request_access_for env s p) (Requested p.id) Thrown
  unfolding request_access_for
  Triple-request_access_for p =
      Triple-bind (λ _. True) _ _ (Triple-checked _ _)
        λ _.
          Triple-bind (λ _. True) _ _ (Triple-read env (Waits s p.id) _)
            λ found.
              Triple-bind (λ _. True) _ _ (Triple-present found _)
                λ server.
                  Triple-bind (λ _. True) _ _ (Triple-checked _ _)
                    λ _.
                      Triple-bind (λ _. True) _ _ (Triple-checked _ _)
                        λ _.
                          Triple-bind (Waits s p.id) _ _ (Triple-upsert env s p.id _)
                            λ row. Triple-pure _ (λ db h. h)

  Triple-approve_access : (u : String) → Triple True (approve_access env s u) (Approved u) Thrown
  unfolding approve_access
  Triple-approve_access u =
      Triple-bind (λ _. True) _ _ (Triple-read env (Grants s u) _)
        λ found.
          Triple-bind (λ _. True) _ _ (Triple-present found _)
            λ server.
              Triple-bind (λ _. True) _ _ (Triple-read env (Grants s u) _)
                λ listed.
                  Triple-bind (λ _. True) _ _ (Triple-present listed _)
                    λ target.
                      Triple-bind (λ _. True) _ _ (Triple-checked _ _)
                        λ _.
                          Triple-bind (λ _. True) _ _ (Triple-checked _ _)
                            λ _.
                              Triple-bind (Grants s u) _ _
                                (Triple-approve env s u server.access_type _)
                                λ row. Triple-pure _ (λ db h. h)

  abbrev Ungranted : String → Unit {0} → Db → Type 0
  Ungranted u _ db = is_granted s u db.server_access ≡ false

  Triple-revoke_access : (u : String) → Triple True (revoke_access env s u) (Ungranted u) Thrown
  unfolding revoke_access delete_access
  Triple-revoke_access u =
      Triple-bind (λ _. True) _ _ (Triple-read env (Grants s u) _)
        λ found.
          Triple-bind (λ _. True) _ _ (Triple-present found _)
            λ server.
              Triple-bind (λ _. Ungranted u tt) _ _
                (Triple-statement env _
                  (λ n db h. delete-is_granted s u (env.interfere n db).server_access))
                λ deleted. Triple-throw_if _ _ (λ e db h. tt) (λ e db h. h)

-- When `approveAccess` succeeds, its answer is APPROVED, and in the database that it leaves every
-- server with that id that is not CREATING is visible to the user, whatever the user's role.
pub approve_access-is_visible :
    (env : Env) (s u : String) (w : World) (view : AccessRequest)
    → (approve_access env s u w).0 ≡ ok view
    → (view.status ≡ approved)
      × ((r : Server) (role : Role)
          → r.id ≡ s
          → r.status ≢ creating
          → is_visible
              (record { id = u; role = role })
              (approve_access env s u w).1.db.server_access
              r
            ≡ true)
approve_access-is_visible env s u w view e =
    let (status, seen) =
      Post-ok (Approved env s u) Thrown (approve_access env s u w).0 (approve_access env s u w).1.db
        view ((Triple-approve_access env s u).at w tt) e in
    (status, λ r role same alive. granted-is_visible s u role _ r seen same alive)

-- When `requestAccess` succeeds, its answer is PENDING, and the request alone opens nothing: in the
-- database that it leaves no server with that id that is REQUEST or PRIVATE is visible to the
-- caller's id with a role below ADMIN.
pub request_access_for-is_visible :
    (env : Env) (s : String) (p : ServerPrincipal) (w : World) (view : MyAccessRequest)
    → (request_access_for env s p w).0 ≡ ok view
    → (view.status ≡ pending)
      × ((r : Server) (role : Role)
          → r.id ≡ s
          → r.access_type ≢ open_access
          → role ≢ admin
          → is_visible
              (record { id = p.id; role = role })
              (request_access_for env s p w).1.db.server_access
              r
            ≡ false)
request_access_for-is_visible env s p w view e =
    let (status, unseen) =
      Post-ok (Requested env s p.id) Thrown (request_access_for env s p w).0
        (request_access_for env s p w).1.db view ((Triple-request_access_for env s p).at w tt) e in
    (status, λ r role same shut below. ungranted-is_visible s p.id role _ r unseen same shut below)

-- When `revokeAccess` succeeds, no server with that id that is REQUEST or PRIVATE is visible to the
-- user with a role below ADMIN in the database that it leaves.
pub revoke_access-is_visible :
    (env : Env) (s u : String) (w : World)
    → (revoke_access env s u w).0 ≡ ok tt
    → (r : Server) (role : Role) → r.id ≡ s
    → r.access_type ≢ open_access
    → role ≢ admin
    → is_visible (record { id = u; role = role }) (revoke_access env s u w).1.db.server_access r
      ≡ false
revoke_access-is_visible env s u w e r role same shut below =
    ungranted-is_visible s u role _ r
      (Post-ok (Ungranted env s u) Thrown (revoke_access env s u w).0 (revoke_access env s u w).1.db
        tt ((Triple-revoke_access env s u).at w tt) e)
      same shut below
