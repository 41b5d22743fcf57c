-- ===== src/Auth/Identity.antt =====
-- src/auth/identity.service.ts: the account that an identity of Google or GitHub stands for.
pub mod Inserted
pub mod Attempts
mod Tests
use minepanel_backend.Common.{
  ℕ, zero, suc, ◌-◌, String, Bool, true, false, not, ◌&&◌, ◌||◌, Option, none, some, List, [], ◌∷◌,
  any, find, leb, ◌==◌, if◌then◌else◌, nat_eq, string_eq, option_eq,
}
use minepanel_backend.Http.{Exception, Result, ok, err, conflict, error_thrown, database_error}
use minepanel_backend.Schema.{Db, User, UserStatus, active, pending}
use minepanel_backend.Text.{trim, slice, decimal, concat, all_chars, count_chars, is_digit}
use minepanel_backend.Effects.{
  Env, M, pure, throw, or_throw, throw_if, clock, fresh_id, query, statement, ◌>>=◌, ◌>>◌,
}
use minepanel_backend.Admin.Statements.{is_user, find_user}
use minepanel_backend.Users.Statements.{clashes, insert_user, update_matching}
use minepanel_backend.Users.Service.{new_user}
use minepanel_backend.Auth.Libraries.{Libraries}

pub data IdentityProvider : Type 0 where
  google github : IdentityProvider

pub record ProviderIdentity : Type 0 where
  pub provider : IdentityProvider
  pub provider_id : String
  pub email : String
  pub username : String

pub data ProviderIdentityResolution : Type 0 where
  authenticated created link_confirmation_required : User → ProviderIdentityResolution

-- the column of the provider
abbrev pub provider_column : IdentityProvider → User → Option String
provider_column google u = u.google_id
provider_column github u = u.github_id

abbrev pub find_linked : IdentityProvider → String → Db → Option User
find_linked provider id db = find (λ u. provider_column provider u == some id) db.users

abbrev pub find_email : String → Db → Option User
find_email email db = find (λ u. u.email == email) db.users

abbrev pub with_identity : IdentityProvider → String → User → User
with_identity google id u = record u { google_id = some id }
with_identity github id u = record u { github_id = some id }

abbrev pub is_unique_violation : Exception → Bool
is_unique_violation (database_error code) = code == "23505"
is_unique_violation _ = false

abbrev pub already_linked : Exception
already_linked = conflict "Google account is already linked"

abbrev pub is_unlinked : String → User → Bool
is_unlinked user_id u = is_user user_id u && u.google_id == none

-- UPDATE users SET google_id WHERE id AND google_id IS NULL RETURNING, with the unique key
abbrev pub link_google : String → String → ℕ → Db → Result (Option User) × Db
link_google user_id id now db =
    if any (is_unlinked user_id) db.users && any (λ u. clashes u.google_id (some id)) db.users
    then (err (database_error "23505"), db)
    else let (row, db') =
        update_matching (is_unlinked user_id)
          (λ u. record u { google_id = some id; updated_at = now }) db in
      (ok row, db')

-- `/^[a-z0-9_]{3,32}$/`
abbrev pub is_name_char : ℕ → Bool
is_name_char c = (leb b'a' c && leb c b'z') || is_digit c || c == b'_'

unfoldable pub is_canonical_username : String → Bool
is_canonical_username name =
    leb 3 (count_chars name) && leb (count_chars name) 32 && all_chars is_name_char name

abbrev pub attempts : ℕ
attempts = 3

abbrev pub required : Exception
required = error_thrown "Provider identity is required"

module _ (env : Env) (lib : Libraries) where
  abbrev pub linked_or_refused : String → Option User → M User
  linked_or_refused id none = throw (conflict "User not found")
  linked_or_refused id (some u) = if u.google_id == some id then pure u else throw already_linked

  abbrev pub check_linked : String → String → Option User → M User
  check_linked user_id id (some row) = pure row
  check_linked user_id id none = do
    found ← query env (find_user user_id)
    linked_or_refused id found

  abbrev pub settle_link : String → String → Result (Option User) → M User
  settle_link user_id id (ok row) = check_linked user_id id row
  settle_link user_id id (err e) = throw (if is_unique_violation e then already_linked else e)

  unfoldable pub link_google_identity : String → String → M User
  link_google_identity user_id provider_id = do
    let id = trim provider_id
    throw_if (id == "") required
    now ← clock env
    linked ← statement env (link_google user_id id now)
    settle_link user_id id linked

  -- the account that has the identity, or else one that has its email
  abbrev pub by_email : Option User → M ProviderIdentityResolution → M ProviderIdentityResolution
  by_email (some u) rest = pure (link_confirmation_required u)
  by_email none rest = rest

  abbrev pub by_identity : Option User → M ProviderIdentityResolution → M ProviderIdentityResolution
  by_identity (some u) rest = pure (authenticated u)
  by_identity none rest = rest

  unfoldable pub find_existing :
      ProviderIdentity → String → M ProviderIdentityResolution → M ProviderIdentityResolution
  find_existing identity id rest = do
    linked ← query env (find_linked identity.provider id)
    by_identity linked do mailed ← query env (find_email identity.email); by_email mailed rest

  -- the name of an attempt: the first one takes it as it is
  abbrev pub candidate : String → ℕ → Bool → String
  candidate username seed true = username
  candidate username seed false =
      concat (slice 28 username ∷ decimal (lib.random_int seed 1000 10000) ∷ [])

  abbrev pub settle_insert :
      ProviderIdentity
      → String
      → M ProviderIdentityResolution
      → Result User
      → M ProviderIdentityResolution
  settle_insert identity id rest (ok u) = pure (created u)
  settle_insert identity id rest (err e) =
      if is_unique_violation e then find_existing identity id rest else throw e

  -- the attempts that are left, and whether the next one is the first
  unfoldable pub create_account :
      ProviderIdentity → String → String → UserStatus → ℕ → Bool → M ProviderIdentityResolution
  create_account identity id username status zero first = throw (conflict "Username unavailable")
  create_account identity id username status (suc left) first = do
    now ← clock env
    row_id ← fresh_id env
    inserted ← statement env (
        insert_user (
          with_identity identity.provider id
            (new_user identity.email (candidate username now first) none status none row_id now)))
    settle_insert identity id (create_account identity id username status left false) inserted

  unfoldable pub resolve_provider_identity : ProviderIdentity → M ProviderIdentityResolution
  resolve_provider_identity identity = do
    let id = trim identity.provider_id
    throw_if (id == "") required
    find_existing identity id do
      let username = lib.to_lower_case identity.username
      throw_if (not (is_canonical_username username)) (error_thrown "Invalid canonical username")
      create_account identity id username
          (if env.config "REQUIRE_ADMIN_APPROVAL" == some "true" then pending else active) attempts
          true
