-- ===== src/Auth/Identity/Attempts.antt =====
-- src/auth/identity.service.ts: what an identity is resolved to.
use mathlib.Core.List.{Mem}
use minepanel_backend.Common.{ℕ, String, ◌≡◌, Bool, none, some, string_eq, option_eq}
use minepanel_backend.Http.{Exception}
use minepanel_backend.Schema.{Db, User}
use minepanel_backend.Text.{trim}
use minepanel_backend.Effects.{Env}
use minepanel_backend.Effects.Trace.{Trace}
use minepanel_backend.Users.Service.{new_user}
use minepanel_backend.Auth.Libraries.{Libraries}
use minepanel_backend.Auth.Identity.{
  ProviderIdentity, ProviderIdentityResolution, authenticated, created, link_confirmation_required,
  provider_column, with_identity, candidate,
}
use minepanel_backend.Auth.Identity.Inserted.{first_status, IsNew}

-- the answer, and the database that it was read from or written to
abbrev pub Resolves : Env → ProviderIdentity → ProviderIdentityResolution → Db → Type 0
Resolves env identity (authenticated u) db =
    Mem u db.users × (provider_column identity.provider u ≡ some (trim identity.provider_id))
Resolves env identity (link_confirmation_required u) db =
    Mem u db.users × (u.email ≡ identity.email)
Resolves env identity (created u) db = Mem u db.users × IsNew env identity u

module _ (env : Env) (lib : Libraries) (identity : ProviderIdentity) where
  abbrev id : String
  id = trim identity.provider_id

  -- the account of an attempt
  abbrev row_of : String → ℕ → Bool → String → User
  row_of username now first row_id = with_identity identity.provider id (
      new_user identity.email (candidate env lib username now first) none (first_status env) none
        row_id now)

  abbrev Anything : Db → Type 0
  Anything db = Unit

  abbrev Failed : Exception → Db → Type 0
  Failed e db = Unit
