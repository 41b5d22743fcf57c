-- ===== src/Guards/PreAuth/Tests.antt =====
-- The kinds of token on concrete data.
use minepanel_backend.Common.{◌≡◌, refl, false, true, is_some, ◌&&◌}
use minepanel_backend.Auth.AccessToken.{parse_access_token_claims}
use minepanel_backend.Auth.RefreshToken.{valid_refresh_claims}
use minepanel_backend.Guards.PreAuth.{pre_auth_payload}
use minepanel_backend.Guards.PreAuth.Kinds.{purposes-Disjoint}
use minepanel_backend.Scenarios.{claims_of_ann}

admits_refresh : is_some (valid_refresh_claims claims_of_ann) ≡ true
unfolding valid_refresh_claims
admits_refresh = refl

purposes-Disjoint_example :
    ((is_some (parse_access_token_claims claims_of_ann)
        && is_some (valid_refresh_claims claims_of_ann))
      ≡ false)
    × ((is_some (parse_access_token_claims claims_of_ann)
          && is_some (pre_auth_payload claims_of_ann))
        ≡ false)
    × ((is_some (valid_refresh_claims claims_of_ann) && is_some (pre_auth_payload claims_of_ann))
        ≡ false)
purposes-Disjoint_example = purposes-Disjoint claims_of_ann
