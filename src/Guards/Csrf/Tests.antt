-- ===== src/Guards/Csrf/Tests.antt =====
-- The guard of the origin on concrete requests.
use minepanel_backend.Common.{◌≡◌, refl, ◌↔◌, true, none, some}
use minepanel_backend.Http.{ok, err, forbidden}
use minepanel_backend.Guards.Csrf.{single, repeated, csrf_origin_guard}
use minepanel_backend.Guards.Csrf.Admission.{Passes, csrf_origin_guard_iff}

from_front_end :
    csrf_origin_guard "https://minepanel.xyz" true "POST" "https"
      (some "api.minepanel.xyz")
      (single "https://minepanel.xyz")
    ≡ ok tt
unfolding csrf_origin_guard
from_front_end = refl

from_elsewhere :
    csrf_origin_guard "https://minepanel.xyz" true "POST" "https"
      (some "api.minepanel.xyz")
      (single "https://minepanel.xyz.evil.example")
    ≡ err (forbidden "CsrfOriginForbidden")
unfolding csrf_origin_guard
from_elsewhere = refl

from_two :
    csrf_origin_guard "https://minepanel.xyz" true "PUT" "https" none repeated
    ≡ err (forbidden "CsrfOriginForbidden")
unfolding csrf_origin_guard
from_two = refl

csrf_origin_guard_iff_example :
    (csrf_origin_guard "https://minepanel.xyz" true "POST" "https"
        (some "api.minepanel.xyz")
        (single "https://api.minepanel.xyz")
      ≡ ok tt)
    ↔ Passes "https://minepanel.xyz" true "POST" "https"
        (some "api.minepanel.xyz")
        (single "https://api.minepanel.xyz")
csrf_origin_guard_iff_example =
    csrf_origin_guard_iff "https://minepanel.xyz" true "POST" "https" (some "api.minepanel.xyz")
      (single "https://api.minepanel.xyz")
