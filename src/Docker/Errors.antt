-- ===== src/Docker/Errors.antt =====
-- src/docker/docker.service.ts: the classification of Docker failures.
use Prim.Native.String
use minepanel_backend.Common.{
  All, Bool-cases, ==-true, subst, sym, refl, ◌∙◌, inl, inr, ℕ, String, ◌≡◌, ◌↔◌, ◌⊎◌, Bool, true,
  false, ◌||◌, Option, none, some, List, [], ◌∷◌, arith, any, ◌==◌, if◌then◌else◌, nat_eq,
  string_eq, option_eq,
}
use minepanel_backend.Http.{
  Exception, bad_request, not_found, conflict, internal_server_error, service_unavailable,
  is_http_exception, is_service_unavailable, is_not_found,
}
use minepanel_backend.Daemon.{Cause, http, object, other}

abbrev daemon_unreachable_codes : List String
daemon_unreachable_codes =
    "ECONNREFUSED" ∷ "ECONNRESET" ∷ "ENOENT" ∷ "ENOTFOUND" ∷ "EAI_AGAIN" ∷ "EPIPE" ∷ "ETIMEDOUT"
    ∷ "ECONNABORTED" ∷ "ENETUNREACH" ∷ "EHOSTUNREACH" ∷ "EACCES" ∷ "EPERM" ∷ []

unfoldable pub is_unreachable_code : String → Bool
is_unreachable_code code = any (λ c. c == code) daemon_unreachable_codes

unfoldable pub is_daemon_unreachable : Cause → Bool
is_daemon_unreachable (object (some code) none) = is_unreachable_code code
is_daemon_unreachable _ = false

unfoldable pub is_docker_error : Cause → Bool
is_docker_error (http e) = is_http_exception e
is_docker_error (object code (some status_code)) = true
is_docker_error (object (some code) none) = is_unreachable_code code
is_docker_error (object none none) = false
is_docker_error other = false

abbrev pub status_code_of : Cause → Option ℕ
status_code_of (object code status_code) = status_code
status_code_of _ = none

unfoldable pub is_status_code : Cause → ℕ → Bool
is_status_code cause n = status_code_of cause == some n

-- the `switch` of `handleDockerError`
status_exception : Option ℕ → String → Exception
status_exception none context =
    internal_server_error (String.◌++◌ "Docker operation failed: " context)
status_exception (some n) context =
    if n == 404
    then not_found (String.◌++◌ context " not found")
    else if n == 409
    then conflict (String.◌++◌ context " conflicts with existing state")
    else if n == 400 || n == 406 || n == 422
    then bad_request (String.◌++◌ context " rejected by Docker")
    else if n == 502 || n == 503 || n == 504
    then service_unavailable "Docker daemon unreachable"
    else internal_server_error (String.◌++◌ "Docker operation failed: " context)

unfoldable pub handle_docker_error : Cause → String → Exception
unfolding is_daemon_unreachable status_exception
handle_docker_error cause context =
    if is_daemon_unreachable cause
    then service_unavailable "Docker daemon unreachable"
    else status_exception (status_code_of cause) context

-- the errors of a connection that never reached the daemon
pub data UnreachableCode : String → Type 0 where
  econnrefused : UnreachableCode "ECONNREFUSED"
  econnreset : UnreachableCode "ECONNRESET"
  enoent : UnreachableCode "ENOENT"
  enotfound : UnreachableCode "ENOTFOUND"
  eai_again : UnreachableCode "EAI_AGAIN"
  epipe : UnreachableCode "EPIPE"
  etimedout : UnreachableCode "ETIMEDOUT"
  econnaborted : UnreachableCode "ECONNABORTED"
  enetunreach : UnreachableCode "ENETUNREACH"
  ehostunreach : UnreachableCode "EHOSTUNREACH"
  eacces : UnreachableCode "EACCES"
  eperm : UnreachableCode "EPERM"

-- the daemon gave no answer of its own
pub data Unanswered : Cause → Type 0 where
  unreachable : {code : String} → UnreachableCode code → Unanswered (object (some code) none)
  bad_gateway : {code : Option String} → Unanswered (object code (some 502))
  unavailable : {code : Option String} → Unanswered (object code (some 503))
  gateway_timeout : {code : Option String} → Unanswered (object code (some 504))

any-All :
    (P : String → Type 0) (code : String) (cs : List String)
    → All P cs
    → any (λ c. c == code) cs ≡ true
    → P code
any-All P code [] ps h = cc
any-All P code (c ∷ cs) ps h = elim (Bool-cases (c == code)) [
  | inl hit ↦ subst P (==-true hit) ps.0
  | inr miss ↦ any-All P code cs ps.1 (rw miss at h)
]

is_unreachable_code-UnreachableCode :
    (code : String) → is_unreachable_code code ≡ true → UnreachableCode code
unfolding is_unreachable_code
is_unreachable_code-UnreachableCode code h =
    any-All UnreachableCode code daemon_unreachable_codes
      (
        econnrefused,
        (
          econnreset,
          (
            enoent,
            (
              enotfound,
              (
                eai_again,
                (
                  epipe,
                  (etimedout, (econnaborted, (enetunreach, (ehostunreach, (eacces, (eperm, tt)))))),
                ),
              ),
            ),
          ),
        ),
      )
      h

UnreachableCode-is_unreachable_code :
    (code : String) → UnreachableCode code → is_unreachable_code code ≡ true
unfolding is_unreachable_code
UnreachableCode-is_unreachable_code code econnrefused = refl
UnreachableCode-is_unreachable_code code econnreset = refl
UnreachableCode-is_unreachable_code code enoent = refl
UnreachableCode-is_unreachable_code code enotfound = refl
UnreachableCode-is_unreachable_code code eai_again = refl
UnreachableCode-is_unreachable_code code epipe = refl
UnreachableCode-is_unreachable_code code etimedout = refl
UnreachableCode-is_unreachable_code code econnaborted = refl
UnreachableCode-is_unreachable_code code enetunreach = refl
UnreachableCode-is_unreachable_code code ehostunreach = refl
UnreachableCode-is_unreachable_code code eacces = refl
UnreachableCode-is_unreachable_code code eperm = refl

unreachable_code : {code : String} → Unanswered (object (some code) none) → UnreachableCode code
unreachable_code (unreachable c) = c

status-Unanswered :
    (code : Option String) (n : ℕ) (context : String)
    → is_service_unavailable (status_exception (some n) context) ≡ true
    → Unanswered (object code (some n))
unfolding status_exception
status-Unanswered code n context h =
    let gateway : (n ≡ 502) ⊎ (n ≡ 503) ⊎ (n ≡ 504) = ground arith in
    elim gateway [
      | inl e ↦ subst (λ m. Unanswered (object code (some m))) (sym e) bad_gateway
      | inr (inl e) ↦ subst (λ m. Unanswered (object code (some m))) (sym e) unavailable
      | inr (inr e) ↦ subst (λ m. Unanswered (object code (some m))) (sym e) gateway_timeout
    ]

Unanswered-status :
    (code : Option String) (n : ℕ) (context : String)
    → Unanswered (object code (some n))
    → is_service_unavailable (status_exception (some n) context) ≡ true
unfolding status_exception
Unanswered-status code n context bad_gateway = refl
Unanswered-status code n context unavailable = refl
Unanswered-status code n context gateway_timeout = refl

unreachable_result :
    (b : Bool) (context : String)
    → is_service_unavailable (
        if b
        then service_unavailable "Docker daemon unreachable"
        else status_exception none context)
      ≡ b
unfolding status_exception
unreachable_result true context = refl
unreachable_result false context = refl

-- A failure becomes a 503 exactly when the daemon gave no answer of its own: the failure has one of
-- the twelve codes of a connection that did not reach it and no status, or the status is 502, 503
-- or 504.
pub service_unavailable_iff :
    (cause : Cause) (context : String)
    → (is_service_unavailable (handle_docker_error cause context) ≡ true) ↔ Unanswered cause
unfolding handle_docker_error
service_unavailable_iff (http e) context = (λ h. cc, λ h. elim h [ ])
service_unavailable_iff (object (some code) none) context = (
  λ h. unreachable (
      is_unreachable_code-UnreachableCode code
        (sym (unreachable_result (is_unreachable_code code) context) ∙ h)),
  λ h.
      unreachable_result (is_unreachable_code code) context
      ∙ UnreachableCode-is_unreachable_code code (unreachable_code h),
)
service_unavailable_iff (object none none) context = (λ h. cc, λ h. elim h [ ])
service_unavailable_iff (object (some code) (some n)) context =
    (status-Unanswered (some code) n context, Unanswered-status (some code) n context)
service_unavailable_iff (object none (some n)) context =
    (status-Unanswered none n context, Unanswered-status none n context)
service_unavailable_iff other context = (λ h. cc, λ h. elim h [ ])

pub handle_docker_error-unreachable :
    (cause : Cause) (context : String)
    → is_daemon_unreachable cause ≡ true
    → is_service_unavailable (handle_docker_error cause context) ≡ true
unfolding handle_docker_error
handle_docker_error-unreachable cause context h = rw h refl

-- A container that the daemon does not know is reported as 404 and as nothing else: exactly the
-- status 404 becomes a NotFoundException.
pub not_found_iff :
    (cause : Cause) (context : String)
    → (is_not_found (handle_docker_error cause context) ≡ true) ↔ (status_code_of cause ≡ some 404)
unfolding handle_docker_error
not_found_iff (http e) context = ground arith
not_found_iff (object (some code) none) context = ground arith
not_found_iff (object none none) context = ground arith
not_found_iff (object code (some n)) context = ground arith
not_found_iff other context = ground arith
