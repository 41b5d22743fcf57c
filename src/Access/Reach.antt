-- ===== src/Access/Reach.antt =====
-- What every access route writes, and the constraints of the table that follow.
use minepanel_backend.Common.{ℕ, ◌≤◌, String, ◌≡◌, refl, Option, some, List, All, arith, inr}
use minepanel_backend.Schema.{Db, ServerAccess, role_eq}
use minepanel_backend.Effects.{Env, World}
use minepanel_backend.Effects.Trace.{
  Traces, Traces-pure, Traces-lift, Traces-or_throw, Traces-bind, Traces-bind-Returns,
  Returns-or_throw, Trace-invariant,
}
use minepanel_backend.Servers.Statements.{ServerPrincipal}
use minepanel_backend.Access.Controller.{
  AccessRoute, request, mine, approve, revoke, serve_access, handle_access,
}
use minepanel_backend.Access.Steps.{
  IsDated, rows_of, RowsChange, nil, same, granted, removed, added, AccessStep,
}
use minepanel_backend.Access.Traces.{
  Traces-request_access_for, Traces-get_my_access_request, Traces-approve_access,
  Traces-revoke_access,
}

-- The user whose access a route is about: the caller, or for an administrator the named one.
abbrev pub IsAbout : Option ServerPrincipal → AccessRoute → String → Type 0
IsAbout caller (approve target) user_id = target ≡ user_id
IsAbout caller (revoke target) user_id = target ≡ user_id
IsAbout caller _ user_id =
    (principal : ServerPrincipal) → caller ≡ some principal → principal.id ≡ user_id

module _ (env : Env) (server_id : String) (caller : Option ServerPrincipal) (user_id : String) where
  serve_access-AccessStep :
      (route : AccessRoute)
      → IsAbout caller route user_id
      → Traces env (AccessStep server_id user_id) (serve_access env server_id caller route)
  unfolding serve_access
  serve_access-AccessStep request about =
      Traces-bind-Returns (λ p. p.id ≡ user_id) _ _ (Traces-or_throw _ _)
        (Returns-or_throw _ _ _ about)
        λ p own.
          Traces-bind _ _ (Traces-request_access_for env server_id user_id p own)
            λ _. Traces-pure tt
  serve_access-AccessStep mine about = Traces-bind _ _ (Traces-or_throw _ _) λ p.
      Traces-bind _ _ (Traces-get_my_access_request env server_id user_id p) λ _. Traces-pure tt
  serve_access-AccessStep (approve target) about =
      Traces-bind _ _ (rw about (Traces-approve_access env server_id user_id)) λ _. Traces-pure tt
  serve_access-AccessStep (revoke target) about =
      rw about (Traces-revoke_access env server_id user_id)

-- Whatever the other requests do, each write of an access route about a user, failing or not, is
-- one step: only rows of the route's server and that user change, by an approval of a pending row
-- that sets the date of approval, by a removal, or by one new row that is pending without a date or
-- approved with one. No pair of a user and a server gets a second row, and all other tables stay.
pub handle_access-AccessStep :
    (env : Env) (server_id : String) (caller : Option ServerPrincipal) (route : AccessRoute)
    (user_id : String)
    → IsAbout caller route user_id
    → Traces env (AccessStep server_id user_id) (handle_access env server_id caller route)
unfolding handle_access
handle_access-AccessStep env server_id caller route user_id about =
    Traces-bind _ _ (Traces-lift _)
      λ _. serve_access-AccessStep env server_id caller user_id route about

-- The constraints of the table: the dates of approval, and one row for a pair of user and server.
abbrev pub AccessValid : Db → Type 0
AccessValid db = All IsDated db.server_access × ((s u : String) → rows_of s u db.server_access ≤ 1)

RowsChange-IsDated :
    {s u : String} {rs rs' : List ServerAccess}
    → RowsChange s u rs rs'
    → All IsDated rs
    → All IsDated rs'
RowsChange-IsDated nil h = tt
RowsChange-IsDated (same c) h = (h.0, RowsChange-IsDated c h.1)
RowsChange-IsDated (granted own was new dated c) h =
    (inr (rw new (refl, dated)), RowsChange-IsDated c h.1)
RowsChange-IsDated (removed own c) h = RowsChange-IsDated c h.1
RowsChange-IsDated (added own dated) h = (dated, tt)

-- If the other requests keep the table's constraints (a date of approval exactly at approved rows,
-- one row at most for a user and a server), an access route about a user keeps them, at whatever
-- point it stops.
pub handle_access-AccessValid :
    (env : Env)
    → ((n : ℕ) (db : Db) → AccessValid db → AccessValid (env.interfere n db))
    → ((n : ℕ) (db : Db) → AccessValid db → AccessValid (env.interfere_locked n db))
    → (server_id : String) (caller : Option ServerPrincipal) (route : AccessRoute)
      (user_id : String)
    → IsAbout caller route user_id
    → (w : World) → AccessValid w.db
    → AccessValid (handle_access env server_id caller route w).1.db
handle_access-AccessValid env free locked server_id caller route user_id about w h =
    Trace-invariant AccessValid free locked
      (λ db db' s v. (RowsChange-IsDated s.rows v.0, λ x u. omega (arith, s.single x u, v.1 x u)))
      ((handle_access-AccessStep env server_id caller route user_id about).at w) h
