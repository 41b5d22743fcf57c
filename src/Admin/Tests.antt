-- ===== src/Admin/Tests.antt =====
-- Runs of the account administration on concrete data, and the theorems at such data.
use minepanel_backend.Common.{◌≡◌, refl, none, [], ◌∷◌, map, arith, true, false, eq_iff}
use minepanel_backend.Http.{err, conflict}
use minepanel_backend.Effects.{◌>>=◌}
use minepanel_backend.Schema.{admin, user, banned, server_lifecycle}
use minepanel_backend.Text.{trim}
use minepanel_backend.Admin.{check_scope, grant_mod_permission, revoke_mod_permission}
use minepanel_backend.Admin.Statements.{take_admin_lock}
use minepanel_backend.Admin.Accounts.{
  assert_active_admins_remain, update_status, update_role, reset_password, remove_two_factor,
}
use minepanel_backend.Admin.LastAdmin.{
  Guarded, Cooperates, update_status-Guarded, update_role-Guarded,
}
use minepanel_backend.Scenarios.{quiet, small_db, start_world}

-- opens every definition that a run meets
admin_run : Unit {0}
unfolding take_admin_lock assert_active_admins_remain update_status update_role reset_password
    remove_two_factor check_scope grant_mod_permission revoke_mod_permission trim ◌>>=◌
admin_run = tt

-- ann is the only administrator, and cannot be banned or demoted
refuses_ban :
    (update_status quiet "ann" banned start_world).0
    ≡ err (conflict "Cannot deactivate the last active admin")
unfolding admin_run
refuses_ban = refl

refuses_demotion :
    (update_role quiet "ann" user start_world).0
    ≡ err (conflict "Cannot deactivate the last active admin")
unfolding admin_run
refuses_demotion = refl

-- a ban takes the sessions along, a change of role the permissions
ban_ends_sessions :
    map (λ t. t.user_id) (update_status quiet "bob" banned start_world).1.db.refresh_tokens
    ≡ "ann" ∷ []
unfolding admin_run
ban_ends_sessions = refl

role_clears_permissions : (update_role quiet "bob" admin start_world).1.db.mod_permissions ≡ []
unfolding admin_run
role_clears_permissions = refl

reset_ends_sessions :
    map (λ t. t.user_id) (reset_password quiet "ann" start_world).1.db.refresh_tokens ≡ "bob" ∷ []
unfolding admin_run
reset_ends_sessions = refl

regrants :
    (grant_mod_permission quiet "bob"
      (record { permission = server_lifecycle; server_id = none })
      start_world).0
    ≡ err (conflict "Permission grant already exists")
unfolding admin_run
regrants = refl

quiet-Cooperates : Cooperates quiet
quiet-Cooperates = record {
  free = λ n db g. g;
  distinct = λ n db d. d;
  count = λ n db. omega arith;
  account = λ n db id u e. (u, e, (refl, refl));
}

bob_ann : false ≡ true → ⊥
bob_ann h = cc

small_db-Guarded : Guarded small_db
small_db-Guarded = (((λ e. bob_ann ((eq_iff "bob" "ann").1 e), tt), (tt, tt)), omega arith)

update_status-Guarded_example : Guarded (update_status quiet "bob" banned start_world).1.db
update_status-Guarded_example =
    update_status-Guarded quiet quiet-Cooperates "bob" banned start_world small_db-Guarded

update_role-Guarded_example : Guarded (update_role quiet "ann" user start_world).1.db
update_role-Guarded_example =
    update_role-Guarded quiet quiet-Cooperates "ann" user start_world small_db-Guarded
