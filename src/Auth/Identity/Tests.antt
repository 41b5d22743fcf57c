-- ===== src/Auth/Identity/Tests.antt =====
-- Identities of providers on concrete data.
use minepanel_backend.Common.{none}
use minepanel_backend.Schema.{active}
use minepanel_backend.Effects.{World, ◌>>=◌}
use minepanel_backend.Effects.Trace.{Trace}
use minepanel_backend.Text.{classes, trim}
use minepanel_backend.Auth.Identity.{
  ProviderIdentity, google, ProviderIdentityResolution, created, with_identity,
  is_canonical_username, find_existing, create_account, resolve_provider_identity,
}
use minepanel_backend.Users.Service.{new_user}
use minepanel_backend.Scenarios.{quiet, libraries, start_world}

abbrev eve : ProviderIdentity
eve = record {
  provider = google;
  provider_id = " g1 ";
  email = "eve@example.org";
  username = "eve";
}

abbrev eve_created : ProviderIdentityResolution
eve_created =
    created
      (with_identity google "g1" (new_user "eve@example.org" "eve" none active none "fresh" 1000))

resolve_run : Unit {0}
unfolding classes trim is_canonical_username find_existing create_account resolve_provider_identity
    ◌>>=◌
resolve_run = tt

abbrev after : World
after = (resolve_provider_identity quiet libraries eve start_world).1
