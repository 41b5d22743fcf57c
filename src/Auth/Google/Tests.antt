-- ===== src/Auth/Google/Tests.antt =====
-- Names of new accounts on concrete data.
use minepanel_backend.Common.{◌≡◌, refl, true}
use minepanel_backend.Text.{classes, slice}
use minepanel_backend.Auth.Identity.{is_canonical_username}
use minepanel_backend.Auth.Google.{
  replace_others, drop_underscores, drop_last_underscores, pad_end, normalized_username,
}
use minepanel_backend.Auth.Google.Username.{normalized_username-canonical}

username_run : Unit {0}
unfolding classes slice replace_others drop_underscores drop_last_underscores pad_end
    normalized_username
username_run = tt

spaces_and_dots : normalized_username (λ s. s) "..ann  marie.." ≡ "ann_marie"
unfolding username_run
spaces_and_dots = refl

too_short : normalized_username (λ s. s) "x" ≡ "x__"
unfolding username_run
too_short = refl

nothing_left : normalized_username (λ s. s) "___" ≡ "user"
unfolding username_run
nothing_left = refl

normalized_username-canonical_example :
    is_canonical_username (normalized_username (λ s. s) "Ann Marie!") ≡ true
normalized_username-canonical_example = normalized_username-canonical (λ s. s) "Ann Marie!"
