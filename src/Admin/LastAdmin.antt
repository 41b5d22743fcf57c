-- ===== src/Admin/LastAdmin.antt =====
-- Status and role changes keep an active administrator.
use minepanel_backend.Common.{
  ℕ, ◌≤◌, ◌<◌, String, ◌≡◌, refl, ◌∙◌, Bool, true, false, ◌&&◌, Option, some, ◌==◌, arith, inl, inr,
  ◌⊎◌, if◌then◌else◌,
}
use minepanel_backend.Http.{Exception}
use minepanel_backend.Schema.{Db, User, Role, UserStatus, admin, active, role_eq, user_status_eq}
use minepanel_backend.Effects.{Env, World, pure, or_throw, throw_if, locked_query, locked_statement}
use minepanel_backend.Effects.Triples.{
  Post-either, Triple, Triple-pure, Triple-or_throw, Triple-statement, Triple-locked_statement,
  Triple-bind, Triple-clock, Triple-throw_if,
}
use minepanel_backend.Admin.Statements.{
  take_admin_lock, find_user, is_active_admin, update_users, delete_sessions, delete_permissions,
}
use minepanel_backend.Admin.Accounts.{
  deactivates, demotes, assert_active_admins_remain, update_status, update_role,
}
use minepanel_backend.Admin.Counts.{
  DistinctIds, count_admins, count-update-le, count-update-found, update-DistinctIds,
}

-- The account ids are distinct and an active administrator is there.
abbrev pub Guarded : Db → Type 0
Guarded db = DistinctIds db.users × 0 < count_admins db.users

-- the same role and status
abbrev Alike : User → User → Type 0
Alike u v = (u.role ≡ v.role) × (u.status ≡ v.status)

-- What the others do: while the lock of the administrators is held, nobody else changes a role or a
-- status or deletes an account; otherwise they keep the invariant too.
pub record Cooperates (env : Env) : Type 0 where
  pub free : (n : ℕ) (db : Db) → Guarded db → Guarded (env.interfere n db)
  pub distinct :
      (n : ℕ) (db : Db) → DistinctIds db.users → DistinctIds (env.interfere_locked n db).users
  pub count :
      (n : ℕ) (db : Db) → count_admins db.users ≤ count_admins (env.interfere_locked n db).users
  pub account :
      (n : ℕ) (db : Db) (id : String) (u : User)
      → find_user id db ≡ some u
      → (v : User) × (find_user id (env.interfere_locked n db) ≡ some v) × Alike v u

deactivates-calm :
    (role : Role) (status next : UserStatus)
    → deactivates role status next ≡ false
    → (role == admin && status == active) ≡ true
    → (role == admin && next == active) ≡ true
deactivates-calm role status next calm h = ground arith

demotes-calm :
    (role : Role) (status : UserStatus) (next : Role)
    → demotes role status next ≡ false
    → (role == admin && status == active) ≡ true
    → (next == admin && status == active) ≡ true
demotes-calm role status next calm h = ground arith

module _ {env : Env} (others : Cooperates env) (id : String) where
  abbrev Any : Exception → Db → Type 0
  Any e = Guarded

  locked-Guarded : (n : ℕ) (db : Db) → Guarded db → Guarded (env.interfere_locked n db)
  locked-Guarded n db g = (others.distinct n db g.0, omega (arith, others.count n db, g.1))

  abbrev Found : Option User → Db → Type 0
  Found found db = Guarded db × (find_user id db ≡ found)

  -- the account still has the role and the status that were read
  abbrev Known : User → Db → Type 0
  Known target db = Guarded db × ((u : User) × (find_user id db ≡ some u) × Alike u target)

  locked-Known :
      (target : User) (n : ℕ) (db : Db) → Known target db → Known target (env.interfere_locked n db)
  locked-Known target n db (g, (u, e, alike)) =
      let (v, e', alike') = others.account n db id u e in
      (locked-Guarded n db g, (v, e', (alike'.0 ∙ alike.0, alike'.1 ∙ alike.1)))

  Triple-take_lock : Triple Guarded (take_admin_lock env) (λ _. Guarded) Any
  unfolding take_admin_lock
  Triple-take_lock = Triple-statement env _ (λ n db g. others.free n db g)

  Triple-find : Triple Guarded (locked_query env (find_user id)) Found Any
  Triple-find = Triple-locked_statement env _ (λ n db g. (locked-Guarded n db g, refl))

  Triple-Found :
      (found : Option User) (e : Exception) → Triple (Found found) (or_throw found e) Known Any
  Triple-Found found e =
      Triple-or_throw found e (λ u known db h. (h.0, (u, h.1 ∙ known, (refl, refl)))) (λ db h. h.0)

  Triple-unchanged :
      (target : User) (same : Bool) (e : Exception)
      → Triple (Known target) (throw_if same e) (λ _. Known target) Any
  Triple-unchanged target same e = Triple-throw_if same e (λ _ db h. h.0) (λ _ db h. h)

  abbrev Ready : User → Bool → Db → Type 0
  Ready target risky db = Known target db × ((risky ≡ false) ⊎ 1 < count_admins db.users)

  Triple-check :
      (target : User) (risky : Bool)
      → Triple
          (Known target)
          (if risky then assert_active_admins_remain env else pure tt)
          (λ _. Ready target risky)
          Any
  unfolding assert_active_admins_remain
  Triple-check target false = Triple-pure tt (λ db h. (h, inl refl))
  Triple-check target true =
      Triple-bind (λ n db. Known target db × (count_admins db.users ≡ n)) _ _
        (Triple-locked_statement env _ (λ n db h. (locked-Known target n db h, refl)))
        λ n.
          Triple-throw_if _ _ (λ _ db h. (h.0).0)
            (λ more db h. (h.0, inr (ground (arith, h.1, more))))

  module _ (target : User) (risky : Bool) (f : User → User) (same_id : (u : User) → (f u).id ≡ u.id)
      (safe : risky ≡ false
        → (u : User) → Alike u target
        → is_active_admin u ≡ true
        → is_active_admin (f u) ≡ true) where
    update-Guarded : (db : Db) → Ready target risky db → Guarded (update_users id f db).1
    update-Guarded db (((d, pos), (u, e, alike)), inl calm) = (
      update-DistinctIds id f same_id db.users d,
      omega (arith, pos, count-update-found id f db.users u d e (safe calm u alike)),
    )
    update-Guarded db (((d, pos), (u, e, alike)), inr more) = (
      update-DistinctIds id f same_id db.users d,
      omega (arith, more, count-update-le id f db.users d),
    )

    locked-Ready :
        (n : ℕ) (db : Db) → Ready target risky db → Ready target risky (env.interfere_locked n db)
    locked-Ready n db (known, inl calm) = (locked-Known target n db known, inl calm)
    locked-Ready n db (known, inr more) =
        (locked-Known target n db known, inr (omega (arith, more, others.count n db)))

    Triple-change :
        Triple (Ready target risky) (locked_statement env (update_users id f)) (λ _. Guarded) Any
    Triple-change =
        Triple-locked_statement env _
          (λ n db h. update-Guarded (env.interfere_locked n db) (locked-Ready n db h))

  Triple-delete_sessions :
      Triple Guarded (locked_statement env (delete_sessions id)) (λ _. Guarded) Any
  Triple-delete_sessions = Triple-locked_statement env _ (λ n db g. locked-Guarded n db g)

  Triple-delete_permissions :
      Triple Guarded (locked_statement env (delete_permissions id)) (λ _. Guarded) Any
  Triple-delete_permissions = Triple-locked_statement env _ (λ n db g. locked-Guarded n db g)

  Triple-sessions_of_banned :
      (ban : Bool)
      → Triple Guarded
          (if ban then locked_statement env (delete_sessions id) else pure tt)
          (λ _. Guarded)
          Any
  Triple-sessions_of_banned true = Triple-delete_sessions
  Triple-sessions_of_banned false = Triple-pure tt (λ db g. g)

  status-safe :
      (target : User) (status : UserStatus) (now : ℕ)
      → deactivates target.role target.status status ≡ false
      → (u : User) → Alike u target
      → is_active_admin u ≡ true
      → is_active_admin (record u { status = status; updated_at = now }) ≡ true
  status-safe target status now calm u alike h =
      deactivates-calm u.role u.status status (rw (alike.0, alike.1) calm) h

  role-safe :
      (target : User) (role : Role) (now : ℕ)
      → demotes target.role target.status role ≡ false
      → (u : User) → Alike u target
      → is_active_admin u ≡ true
      → is_active_admin (record u { role = role; updated_at = now }) ≡ true
  role-safe target role now calm u alike h =
      demotes-calm u.role u.status role (rw (alike.0, alike.1) calm) h

  Triple-update_status :
      (status : UserStatus) → Triple Guarded (update_status env id status) (λ _. Guarded) Any
  unfolding update_status
  Triple-update_status status =
      Triple-bind (λ _. Guarded) _ _ Triple-take_lock
        λ _. Triple-bind Found _ _ Triple-find λ found.
          Triple-bind Known _ _ (Triple-Found found _) λ target.
            Triple-bind (λ _. Known target) _ _ (Triple-unchanged target _ _)
              λ _.
                Triple-bind (λ _. Ready target (deactivates target.role target.status status)) _ _
                  (Triple-check target _)
                  λ _.
                    Triple-bind (λ _. Ready target (deactivates target.role target.status status)) _
                      _ (Triple-clock env)
                      λ now.
                        Triple-bind (λ _. Guarded) _ _
                          (Triple-change target _ _ (λ u. refl) (status-safe target status now))
                          λ updated.
                            Triple-bind (λ _. Guarded) _ _ (Triple-sessions_of_banned _)
                              λ _.
                                Triple-bind (λ _. Guarded) _ _
                                  (Triple-or_throw _ _ (λ a e db g. g) (λ db g. g))
                                  λ row. Triple-pure _ (λ db g. g)

  Triple-update_role : (role : Role) → Triple Guarded (update_role env id role) (λ _. Guarded) Any
  unfolding update_role
  Triple-update_role role =
      Triple-bind (λ _. Guarded) _ _ Triple-take_lock
        λ _. Triple-bind Found _ _ Triple-find λ found.
          Triple-bind Known _ _ (Triple-Found found _) λ target.
            Triple-bind (λ _. Known target) _ _ (Triple-unchanged target _ _)
              λ _.
                Triple-bind (λ _. Ready target (demotes target.role target.status role)) _ _
                  (Triple-check target _)
                  λ _.
                    Triple-bind (λ _. Ready target (demotes target.role target.status role)) _ _
                      (Triple-clock env)
                      λ now.
                        Triple-bind (λ _. Guarded) _ _
                          (Triple-change target _ _ (λ u. refl) (role-safe target role now))
                          λ updated.
                            Triple-bind (λ _. Guarded) _ _ Triple-delete_permissions
                              λ _.
                                Triple-bind (λ _. Guarded) _ _
                                  (Triple-or_throw _ _ (λ a e db g. g) (λ db g. g))
                                  λ row. Triple-pure _ (λ db g. g)

-- If the others keep the account ids distinct and an active administrator in place, and change no
-- role or status while this request holds the administrators' lock, then `updateStatus` leaves
-- distinct ids and at least one active administrator, whether it succeeds or throws.
pub update_status-Guarded :
    (env : Env)
    → Cooperates env
    → (id : String) (status : UserStatus) (w : World) → Guarded w.db
    → Guarded (update_status env id status w).1.db
update_status-Guarded env others id status w g =
    Post-either Guarded (update_status env id status w).0 _
      ((Triple-update_status others id status).at w g)

-- Under the same conditions `updateRole` leaves distinct ids and at least one active
-- administrator, whether it succeeds or throws.
pub update_role-Guarded :
    (env : Env)
    → Cooperates env
    → (id : String) (role : Role) (w : World) → Guarded w.db
    → Guarded (update_role env id role w).1.db
update_role-Guarded env others id role w g =
    Post-either Guarded (update_role env id role w).0 _ ((Triple-update_role others id role).at w g)
