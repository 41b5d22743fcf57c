-- ===== src/Setup.antt =====
-- src/setup/setup.service.ts: the first administrator.
pub mod Once
mod Tests
use minepanel_backend.Common.{
  ℕ, ◌+◌, String, Bool, true, false, not, ◌||◌, Option, none, some, List, [], ◌∷◌, ◌++◌, any, find,
  update, ltb, leb, ◌==◌, if◌then◌else◌, string_eq,
}
use minepanel_backend.Http.{
  Result, ok, err, unauthorized, conflict, bad_request, error_thrown, database_error,
}
use minepanel_backend.Auth.Dto.{CreateUserDto}
use minepanel_backend.Users.Statements.{insert_user}
use minepanel_backend.Auth.Password.{assert_password_within_byte_limit}
use minepanel_backend.Schema.{Db, User, SetupState, admin, active}
use minepanel_backend.Effects.{
  Env, M, pure, lift, or_throw, throw_if, clock, fresh_id, call, query, locked_query,
  locked_statement, ◌>>=◌, ◌>>◌,
}

abbrev pub is_singleton : SetupState → Bool
is_singleton s = s.id == "singleton"

-- INSERT … ON CONFLICT DO NOTHING
abbrev pub insert_setup_state : ℕ → Db → Unit {0} × Db
insert_setup_state now db = if any is_singleton db.setup_state then (tt, db) else (
  tt,
  record db {
    setup_state =
        db.setup_state
        ++ record {
          id = "singleton";
          initial_admin_created = false;
          created_at = now;
          updated_at = now;
        }
          ∷ [];
  },
)

abbrev pub complete : Db → Unit {0} × Db
complete db = (
  tt,
  record db {
    setup_state =
        update is_singleton (λ s. record s { initial_admin_created = true }) db.setup_state;
  },
)

abbrev first_admin : CreateUserDto → String → String → ℕ → User
first_admin dto hash id now = record {
  id = id;
  email = dto.email;
  username = dto.username;
  password_hash = some hash;
  google_id = none;
  github_id = none;
  role = admin;
  status = active;
  totp_secret = none;
  totp_enabled = false;
  totp_backup_codes = none;
  temp_password_hash = none;
  temp_password_expires_at = none;
  must_change_password = false;
  minecraft_uuid = none;
  minecraft_name = none;
  minecraft_verified = false;
  created_at = now;
  updated_at = now;
}

abbrev configured_setup_token : Option String → Option String
configured_setup_token none = none
configured_setup_token (some token) = if token == "" then none else some token

-- the configured token, or that of the process
abbrev expected_setup_token : Option String → Option String → Option String
expected_setup_token none bootstrap = bootstrap
expected_setup_token (some configured) bootstrap = some configured

-- `digest` is the SHA-256
abbrev admit_token : (String → String) → Option String → Option String → Result (Unit {0})
admit_token digest (some expected) (some supplied) =
    if supplied == "" || not (digest supplied == digest expected)
    then err (unauthorized "SetupTokenInvalid")
    else ok tt
admit_token digest _ _ = err (unauthorized "SetupTokenInvalid")

module _ (env : Env) (digest : String → String) where
  -- the transaction, after the lock was taken
  unfoldable pub create_admin : CreateUserDto → String → M Bool
  create_admin dto hash = do
    now ← clock env
    locked_statement env (insert_setup_state now)
    found ← locked_query env (λ db. find is_singleton db.setup_state)
    state ← or_throw found (error_thrown "Cannot read properties of undefined")
    throw_if state.initial_admin_created (conflict "SetupAlreadyComplete")
    id ← fresh_id env
    created ← clock env
    inserted ← locked_statement env (insert_user (first_admin dto hash id created))
    lift inserted
    locked_statement env complete
    pure true

  -- `bootstrap` is the token that the process made at its start, if it made one
  unfoldable pub init_admin_register : Option String → CreateUserDto → Option String → M Bool
  init_admin_register bootstrap dto setup_token = do
    lift (
        admit_token digest
          (expected_setup_token (configured_setup_token (env.config "SETUP_TOKEN")) bootstrap)
          setup_token)
    lift (assert_password_within_byte_limit dto.password)
    hash ← call env (λ n. env.hash_password n dto.password)
    query env (λ db. tt)
    create_admin dto hash
