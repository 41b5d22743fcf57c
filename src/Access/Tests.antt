-- ===== src/Access/Tests.antt =====
-- Runs of the access routes on concrete data, and the theorems at such data.
use minepanel_backend.Common.{◌≡◌, ◌≢◌, refl, none, some, true, false, [], ◌∷◌, inl, arith}
use minepanel_backend.Http.{ok, err, conflict, forbidden}
use minepanel_backend.Effects.{World, ◌>>=◌}
use minepanel_backend.Effects.Trace.{Traces}
use minepanel_backend.Schema.{
  Server, Role, creating, open_access, ServerAccessStatus, admin, user, pending, approved,
}
use minepanel_backend.Servers.Statements.{ServerPrincipal, is_visible}
use minepanel_backend.Access.{
  request_access_for, approve_access, revoke_access, get_my_access_request,
  upsert_pending_with_retry, upsert_attempt, report_vanished, check_requestable, approve_with_retry,
  approve_attempt, report_unapproved,
}
use minepanel_backend.Access.Statements.{
  load_server, try_insert_pending, try_insert_approved, try_approve_pending, delete_access,
  access_row,
}
use minepanel_backend.Access.Controller.{request, approve, handle_access, serve_access}
use minepanel_backend.Access.Steps.{AccessStep}
use minepanel_backend.Access.Reach.{
  AccessValid, handle_access-AccessStep, handle_access-AccessValid,
}
use minepanel_backend.Access.Visibility.{
  approve_access-is_visible, request_access_for-is_visible, revoke_access-is_visible,
}
use minepanel_backend.Scenarios.{no_memory, quiet, small_db, start_world, arena}

abbrev bob : ServerPrincipal
bob = record { id = "bob"; role = user }

abbrev ann : ServerPrincipal
ann = record { id = "ann"; role = admin }

-- opens every definition that a run meets
access_run : Unit {0}
unfolding request_access_for approve_access revoke_access upsert_pending_with_retry upsert_attempt
    report_vanished check_requestable approve_with_retry approve_attempt report_unapproved
    load_server try_insert_pending try_insert_approved try_approve_pending delete_access
    handle_access serve_access get_my_access_request ◌>>=◌
access_run = tt

-- bob asks for the arena, ann approves, and revokes
asks :
    (request_access_for quiet "arena" bob start_world).0
    ≡ ok (record { status = pending; requested_at = 1000; approved_at = none })
unfolding access_run
asks = refl

abbrev waiting_world : World
waiting_world = record {
  db = record small_db { server_access = access_row "fresh" "arena" "bob" pending 1000 none ∷ [] };
  memory = no_memory;
  tick = 0;
}

approves :
    (approve_access quiet "arena" "bob" waiting_world).0
    ≡ ok (record {
      user_id = "bob";
      username = "bob";
      email = "bob";
      status = approved;
      requested_at = 1000;
      approved_at = some 1000;
    })
unfolding access_run
approves = refl

revokes : (revoke_access quiet "arena" "bob" waiting_world).0 ≡ ok tt
unfolding access_run
revokes = refl

-- asking twice conflicts, and only an administrator approves
asks_twice :
    (request_access_for quiet "arena" bob waiting_world).0
    ≡ err (conflict "Access request already pending")
unfolding access_run
asks_twice = refl

only_admins :
    handle_access quiet "arena" (some bob) (approve "bob") waiting_world
    ≡ (err (forbidden "Forbidden"), waiting_world)
unfolding access_run
only_admins = refl

bob_is : (p : ServerPrincipal) → some bob ≡ some p → p.id ≡ "bob"
bob_is p e = ground (arith, e)

handle_access-AccessStep_example :
    Traces quiet (AccessStep "arena" "bob") (handle_access quiet "arena" (some bob) request)
handle_access-AccessStep_example =
    handle_access-AccessStep quiet "arena" (some bob) request "bob" (λ p e. bob_is p e)

waiting-AccessValid : AccessValid waiting_world.db
waiting-AccessValid = ((inl (refl, refl), tt), λ s u. ground arith)

handle_access-AccessValid_example :
    AccessValid (handle_access quiet "arena" (some ann) (approve "bob") waiting_world).1.db
handle_access-AccessValid_example =
    handle_access-AccessValid quiet (λ n db h. h) (λ n db h. h) "arena" (some ann) (approve "bob")
      "bob" refl waiting_world waiting-AccessValid

approve_access-is_visible_example :
    (approved ≡ approved)
    × ((r : Server) (role : Role)
        → r.id ≡ "arena"
        → r.status ≢ creating
        → is_visible
            (record { id = "bob"; role = role })
            (approve_access quiet "arena" "bob" waiting_world).1.db.server_access
            r
          ≡ true)
approve_access-is_visible_example =
    approve_access-is_visible quiet "arena" "bob" waiting_world _ approves

request_access_for-is_visible_example :
    (ServerAccessStatus.pending ≡ ServerAccessStatus.pending)
    × ((r : Server) (role : Role)
        → r.id ≡ "arena"
        → r.access_type ≢ open_access
        → role ≢ admin
        → is_visible
            (record { id = "bob"; role = role })
            (request_access_for quiet "arena" bob start_world).1.db.server_access
            r
          ≡ false)
request_access_for-is_visible_example =
    request_access_for-is_visible quiet "arena" bob start_world _ asks

revoke_access-is_visible_example :
    is_visible bob (revoke_access quiet "arena" "bob" waiting_world).1.db.server_access arena
    ≡ false
revoke_access-is_visible_example =
    revoke_access-is_visible quiet "arena" "bob" waiting_world revokes arena user refl (λ e. cc)
      (λ e. cc)
