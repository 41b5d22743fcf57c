-- ===== src/Guards/Permissions/Grants.antt =====
-- src/auth/guards/permissions.guard.ts: which requests the guard lets through.
use minepanel_backend.Common.{
  and_true, or_true, String, Bool, true, ◌≡◌, refl, inl, inr, ◌↔◌, Option, none, some, List, [],
  ◌∷◌, any, arith, ◌==◌, ◌&&◌, Bool-cases, Equality, ==-true, ==-refl, string_eq, option_eq,
}
use minepanel_backend.Http.{ok}
use minepanel_backend.Schema.{
  Role, admin, moderator, user, ModPermission, ModPermissionRow, mod_permission_eq,
}
use minepanel_backend.Guards.Permissions.{
  in_scope, is_grant, check_grants, server_of, permissions_guard,
}

-- the grant is for every server, or for the one that the route names
pub data Covers (server : Option String) (r : ModPermissionRow) : Type 0 where
  everywhere : r.server_id ≡ none → Covers server r
  there_only : (id : String) → server ≡ some id → r.server_id ≡ some id → Covers server r

pub record Grants (user_id : String) (permission : ModPermission) (server : Option String)
    (r : ModPermissionRow) : Type 0 where
  pub of_user : r.user_id ≡ user_id
  pub of_permission : r.permission ≡ permission
  pub covers : Covers server r

-- some row of the table has the property
pub data Some (P : ModPermissionRow → Type 0) : List ModPermissionRow → Type 0 where
  here : {r : ModPermissionRow} {rs : List ModPermissionRow} → P r → Some P (r ∷ rs)
  there : {r : ModPermissionRow} {rs : List ModPermissionRow} → Some P rs → Some P (r ∷ rs)

-- who may pass
pub data Allowed
    : Option ModPermission
      → Option (String × Role)
      → Option String
      → Option (List ModPermissionRow)
      → Type 0 where
  unprotected :
      {principal : Option (String × Role)} {route_id : Option String}
      {rows : Option (List ModPermissionRow)}
      → Allowed none principal route_id rows
  administrator :
      {p : ModPermission} {id : String} {route_id : Option String}
      {rows : Option (List ModPermissionRow)}
      → Allowed (some p) (some (id, admin)) route_id rows
  granted :
      {p : ModPermission} {id : String} {route_id : Option String} {rows : List ModPermissionRow}
      → Some (Grants id p (server_of route_id)) rows
      → Allowed (some p) (some (id, moderator)) route_id (some rows)

in_scope-Covers :
    (server : Option String) (r : ModPermissionRow) → in_scope server r ≡ true → Covers server r
in_scope-Covers none r h = everywhere (==-true h)
in_scope-Covers (some id) r h = elim (or_true (r.server_id == none) (r.server_id == some id) h) [
  | inl e ↦ everywhere (==-true e)
  | inr e ↦ there_only id refl (==-true e)
]

Covers-in_scope :
    (server : Option String) (r : ModPermissionRow) → Covers server r → in_scope server r ≡ true
Covers-in_scope none r (everywhere e) = rw (e, ==-refl {A = Option String} none)
Covers-in_scope (some s) r (everywhere e) = rw (e, ==-refl {A = Option String} none)
Covers-in_scope none r (there_only id e f) = cc
Covers-in_scope (some s) r (there_only id e f) =
    ground (arith, ==-refl {A = Option String} (some id))

is_grant-Grants :
    (id : String) (p : ModPermission) (server : Option String) (r : ModPermissionRow)
    → is_grant id p server r ≡ true
    → Grants id p server r
is_grant-Grants id p server r h =
    let (user_and_permission, scope) =
      and_true (r.user_id == id && r.permission == p) (in_scope server r) h in
    let (of_user, of_permission) =
      and_true (r.user_id == id) (r.permission == p) user_and_permission in
    record {
      of_user = ==-true of_user;
      of_permission = ==-true of_permission;
      covers = in_scope-Covers server r scope;
    }

true_and : (a b : Bool) → a ≡ true → b ≡ true → (a && b) ≡ true
true_and a b left right = ground arith

same_true {ℓ} : {A : Type ℓ} ⦃e : Equality A⦄ {a b : A} → a ≡ b → (a == b) ≡ true
same_true {b = b} e = rw (e, ==-refl b)

Grants-is_grant :
    (id : String) (p : ModPermission) (server : Option String) (r : ModPermissionRow)
    → Grants id p server r
    → is_grant id p server r ≡ true
Grants-is_grant id p server r g =
    true_and _ _ (true_and _ _ (same_true g.of_user) (same_true g.of_permission))
      (Covers-in_scope server r g.covers)

any-Some :
    (P : ModPermissionRow → Type 0) (q : ModPermissionRow → Bool) (rs : List ModPermissionRow)
    → ((r : ModPermissionRow) → q r ≡ true → P r)
    → any q rs ≡ true
    → Some P rs
any-Some P q [] sound h = cc
any-Some P q (r ∷ rs) sound h = elim (Bool-cases (q r)) [
  | inl hit ↦ here (sound r hit)
  | inr miss ↦ there (any-Some P q rs sound (rw miss at h))
]

Some-any :
    (P : ModPermissionRow → Type 0) (q : ModPermissionRow → Bool) (rs : List ModPermissionRow)
    → ((r : ModPermissionRow) → P r → q r ≡ true)
    → Some P rs
    → any q rs ≡ true
Some-any P q [] complete none_there = elim none_there [ ]
Some-any P q (r ∷ rs) complete (here x) = rw (complete r x)
Some-any P q (r ∷ rs) complete (there x) = ground (arith, Some-any P q rs complete x)

check_grants-any :
    (q : ModPermissionRow → Bool) (rs : List ModPermissionRow)
    → check_grants q (some rs) ≡ ok tt
    → any q rs ≡ true
check_grants-any q rs h = ground arith

check_grants-passes :
    (q : ModPermissionRow → Bool) (rs : List ModPermissionRow)
    → any q rs ≡ true
    → check_grants q (some rs) ≡ ok tt
check_grants-passes q rs h = rw (h)

granted_by :
    {p : ModPermission} {id : String} {route_id : Option String} {rows : List ModPermissionRow}
    → Allowed (some p) (some (id, moderator)) route_id (some rows)
    → Some (Grants id p (server_of route_id)) rows
granted_by (granted found) = found

-- The guard lets a request through exactly when the route asks for no permission, or its user is an
-- administrator, or its user is a moderator whom some row of the grants table gives the permission
-- everywhere or on the server that the route names.
pub permissions_guard_iff :
    (permission : Option ModPermission) (principal : Option (String × Role))
    (route_id : Option String) (rows : Option (List ModPermissionRow))
    → (permissions_guard permission principal route_id rows ≡ ok tt)
      ↔ Allowed permission principal route_id rows
unfolding permissions_guard
permissions_guard_iff none principal route_id rows = (λ h. unprotected, λ h. refl)
permissions_guard_iff (some p) none route_id rows = (λ h. cc, λ h. elim h [ ])
permissions_guard_iff (some p) (some (id, admin)) route_id rows = (λ h. administrator, λ h. refl)
permissions_guard_iff (some p) (some (id, user)) route_id rows = (λ h. cc, λ h. elim h [ ])
permissions_guard_iff (some p) (some (id, moderator)) route_id none = (λ h. cc, λ h. elim h [ ])
permissions_guard_iff (some p) (some (id, moderator)) route_id (some rows) = (
  λ h. granted (
      any-Some (Grants id p (server_of route_id)) _ rows (is_grant-Grants id p (server_of route_id))
        (check_grants-any _ rows h)),
  λ h. check_grants-passes _ rows (
      Some-any (Grants id p (server_of route_id)) _ rows (Grants-is_grant id p (server_of route_id))
        (granted_by h)),
)
