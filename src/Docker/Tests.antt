-- ===== src/Docker/Tests.antt =====
-- The classification of the daemon's errors at concrete causes.
use minepanel_backend.Common.{◌≡◌, ◌↔◌, true, none, some}
use minepanel_backend.Http.{is_service_unavailable, is_not_found}
use minepanel_backend.Daemon.{Cause, object}
use minepanel_backend.Docker.Errors.{
  Unanswered, status_code_of, handle_docker_error, service_unavailable_iff, not_found_iff,
}

abbrev refused : Cause
refused = object (some "ECONNREFUSED") none

abbrev missing : Cause
missing = object none (some 404)

service_unavailable_iff_example :
    (is_service_unavailable (handle_docker_error refused "container") ≡ true) ↔ Unanswered refused
service_unavailable_iff_example = service_unavailable_iff refused "container"

not_found_iff_example :
    (is_not_found (handle_docker_error missing "container") ≡ true)
    ↔ (status_code_of missing ≡ some 404)
not_found_iff_example = not_found_iff missing "container"
