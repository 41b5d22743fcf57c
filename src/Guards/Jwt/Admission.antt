-- ===== src/Guards/Jwt/Admission.antt =====
-- src/auth/guards/jwt-auth.guard.ts: which requests the guard lets through, and as whom.
use minepanel_backend.Common.{
  String, ◌≡◌, ◌≢◌, refl, sym, subst, ◌∙◌, ap, ◌⊎◌, inl, inr, ◌↔◌, Bool, true, false, Option, none,
  some, List, ◌==◌, Bool-cases, ==-true, ==-refl, string_eq, arith,
}
use minepanel_backend.Http.{Exception, Result, ok, err}
use minepanel_backend.Schema.{UserStatus, active, pending, banned, User}
use minepanel_backend.Auth.AccessToken.{
  Payload, AccessTokenClaims, AccessTokenPrincipal, parse_access_token_claims, is_temporary,
  principal_of, by_status, of_user, lookup_user, of_claims, of_payload, verify,
}
use minepanel_backend.Guards.Jwt.{
  GuardedUser, guarded_user, is_password_change_route, by_password, authenticated, by_token,
  left_in_request, jwt_guard,
}

-- a verified token with its account, and the user that the request gets
pub record Admits (verify_async : String → Option Payload) (cookie : Option String)
    (method path : String) (users : Option (List User)) (g : GuardedUser) : Type 0 where
  pub token : String
  pub payload : Payload
  pub claims : AccessTokenClaims
  pub account : User
  pub presented : cookie ≡ some token
  pub nonempty : token ≢ ""
  pub verified : verify_async token ≡ some payload
  pub parsed : parse_access_token_claims payload ≡ some claims
  pub stored : lookup_user claims.sub users ≡ some account
  pub is_active : account.status ≡ active
  -- a temporary token goes with an account that has to change its password, on one route only
  pub temporary : is_temporary claims.temporary_auth ≡ account.must_change_password
  pub route :
      (account.must_change_password ≡ false) ⊎ ((method ≡ "PATCH") × (path ≡ "/api/auth/password"))
  pub as_user : g ≡ record {
    id = claims.sub;
    username = claims.username;
    role = account.role;
    temporary_auth = account.must_change_password;
  }

true-false : true ≡ false → ⊥
true-false h = cc

by_status-ok :
    (s : UserStatus) (q p : AccessTokenPrincipal) → by_status s q ≡ ok p → (s ≡ active) × (q ≡ p)
by_status-ok active q p h = (refl, cc)
by_status-ok pending q p h = cc
by_status-ok banned q p h = cc

of_user-ok :
    (claims : AccessTokenClaims) (o : Option User) (p : AccessTokenPrincipal)
    → of_user claims o ≡ ok p
    → (u : User) × (o ≡ some u) × (u.status ≡ active) × (principal_of claims u ≡ p)
of_user-ok claims none p h = cc
of_user-ok claims (some u) p h =
    let (up, same) = by_status-ok u.status (principal_of claims u) p h in (u, refl, up, same)

of_claims-ok :
    (o : Option AccessTokenClaims) (users : Option (List User)) (p : AccessTokenPrincipal)
    → of_claims o users ≡ ok p
    → (claims : AccessTokenClaims) × (o ≡ some claims)
      × (of_user claims (lookup_user claims.sub users) ≡ ok p)
of_claims-ok none users p h = cc
of_claims-ok (some claims) users p h = (claims, refl, h)

of_payload-ok :
    (o : Option Payload) (users : Option (List User)) (p : AccessTokenPrincipal)
    → of_payload o users ≡ ok p
    → (payload : Payload) × (o ≡ some payload)
      × (of_claims (parse_access_token_claims payload) users ≡ ok p)
of_payload-ok none users p h = cc
of_payload-ok (some payload) users p h = (payload, refl, h)

authenticated-ok :
    (r : Result AccessTokenPrincipal) (route : Bool) (g : GuardedUser)
    → authenticated r route ≡ ok g
    → (p : AccessTokenPrincipal) × (r ≡ ok p)
      × (by_password p p.must_change_password p.temporary_auth route ≡ ok g)
authenticated-ok (err e) route g h = cc
authenticated-ok (ok p) route g h = (p, refl, h)

by_password-ok :
    (p : AccessTokenPrincipal) (must temporary route : Bool) (g : GuardedUser)
    → by_password p must temporary route ≡ ok g
    → (temporary ≡ must) × ((must ≡ false) ⊎ (route ≡ true)) × (g ≡ guarded_user p)
by_password-ok p true true true g h = (refl, inr refl, cc)
by_password-ok p true true false g h = cc
by_password-ok p true false route g h = cc
by_password-ok p false true route g h = cc
by_password-ok p false false route g h = (refl, inl refl, cc)

left_in_request-ok :
    (r : Result GuardedUser) (g : GuardedUser) → left_in_request r ≡ ok (some g) → r ≡ ok g
left_in_request-ok (ok g') g h = cc
left_in_request-ok (err e) g h = cc

refused : {e : Exception} {g : GuardedUser} → err e ≡ ok g → ⊥
refused h = cc

no_clash : {s : String} → (s == "") ≡ false → s ≡ "" → ⊥
no_clash h e = true-false (sym (==-refl {A = String} "") ∙ subst (λ x. (x == "") ≡ false) e h)

by_token-ok :
    (verify_async : String → Option Payload) (cookie : Option String) (route : Bool)
    (users : Option (List User)) (g : GuardedUser)
    → by_token verify_async cookie route users ≡ ok g
    → (token : String) × (cookie ≡ some token)
      × (token ≢ "")
      × (authenticated (verify verify_async token users) route ≡ ok g)
by_token-ok verify_async none route users g h = cc
by_token-ok verify_async (some token) route users g h = elim (Bool-cases (token == "")) [
  | inl hit ↦ absurd (refused (rw hit at h))
  | inr miss ↦ (token, refl, no_clash miss, rw miss at h)
]

password_route :
    (method path : String)
    → is_password_change_route method path ≡ true
    → (method ≡ "PATCH") × (path ≡ "/api/auth/password")
password_route method path h =
    let both : (method == "PATCH" ≡ true) × (path == "/api/auth/password" ≡ true) = ground arith in
    (==-true both.0, ==-true both.1)

on_route :
    (must : Bool) (method path : String)
    → (must ≡ false) ⊎ (is_password_change_route method path ≡ true)
    → (must ≡ false) ⊎ ((method ≡ "PATCH") × (path ≡ "/api/auth/password"))
on_route must method path (inl e) = inl e
on_route must method path (inr e) = inr (password_route method path e)

abbrev user_as : AccessTokenClaims → User → Bool → GuardedUser
user_as claims account temporary = record {
  id = claims.sub;
  username = claims.username;
  role = account.role;
  temporary_auth = temporary;
}

module _ (verify_async : String → Option Payload) (method path : String)
    (users : Option (List User)) (g : GuardedUser) where
  account-Admits :
      (token : String) (payload : Payload) (claims : AccessTokenClaims) (account : User)
      → token ≢ ""
      → verify_async token ≡ some payload
      → parse_access_token_claims payload ≡ some claims
      → lookup_user claims.sub users ≡ some account
      → account.status ≡ active
      → by_password
          (principal_of claims account)
          account.must_change_password
          (is_temporary claims.temporary_auth)
          (is_password_change_route method path)
        ≡ ok g
      → Admits verify_async (some token) method path users g
  account-Admits token payload claims account filled verified parsed stored up h =
      let (temporary, route, as_user) = by_password-ok (principal_of claims account) _ _ _ g h in
      record {
        token = token;
        payload = payload;
        claims = claims;
        account = account;
        presented = refl;
        nonempty = filled;
        verified = verified;
        parsed = parsed;
        stored = stored;
        is_active = up;
        temporary = temporary;
        route = on_route _ method path route;
        as_user = as_user ∙ ap (user_as claims account) temporary;
      }

  token-Admits :
      (token : String)
      → token ≢ ""
      → authenticated (of_payload (verify_async token) users) (is_password_change_route method path)
        ≡ ok g
      → Admits verify_async (some token) method path users g
  token-Admits token filled h =
      let (p, checked, h2) = authenticated-ok _ _ g h in
      let (payload, verified, h3) = of_payload-ok (verify_async token) users p checked in
      let (claims, parsed, h4) = of_claims-ok (parse_access_token_claims payload) users p h3 in
      let (account, stored, up, same) = of_user-ok claims _ p h4 in
      account-Admits token payload claims account filled verified parsed stored up (
        subst
          (λ x.
            by_password x x.must_change_password x.temporary_auth
              (is_password_change_route method path)
            ≡ ok g)
          (sym same) h2)

jwt_guard-Admits :
    (verify_async : String → Option Payload) (cookie : Option String) (method path : String)
    (users : Option (List User)) (g : GuardedUser)
    → jwt_guard verify_async false cookie method path users ≡ ok (some g)
    → Admits verify_async cookie method path users g
unfolding jwt_guard verify
jwt_guard-Admits verify_async cookie method path users g h =
    let (token, presented, filled, h1) =
      by_token-ok verify_async cookie _ users g (left_in_request-ok _ g h) in
    subst (λ c. Admits verify_async c method path users g) (sym presented)
      (token-Admits verify_async method path users g token filled h1)

ok-by_password :
    (p : AccessTokenPrincipal) (must temporary route : Bool)
    → temporary ≡ must
    → (must ≡ false) ⊎ (route ≡ true)
    → by_password p must temporary route ≡ ok (guarded_user p)
ok-by_password p true true route e (inl f) = cc
ok-by_password p true true route e (inr f) = rw (f)
ok-by_password p true false route e f = cc
ok-by_password p false true route e f = cc
ok-by_password p false false route e f = refl

route_is :
    (must : Bool) (method path : String)
    → (must ≡ false) ⊎ ((method ≡ "PATCH") × (path ≡ "/api/auth/password"))
    → (must ≡ false) ⊎ (is_password_change_route method path ≡ true)
route_is must method path (inl e) = inl e
route_is must method path (inr (e, f)) = inr (rw (e, f) refl)

ok-of_user :
    (claims : AccessTokenClaims) (o : Option User) (u : User)
    → o ≡ some u
    → u.status ≡ active
    → of_user claims o ≡ ok (principal_of claims u)
ok-of_user claims o u e up = rw (e, up)

unequal : (s : String) → s ≢ "" → (s == "") ≡ false
unequal s h = elim (Bool-cases (s == "")) [ inl hit ↦ absurd (h (==-true hit)) | inr miss ↦ miss ]

Admits-jwt_guard :
    (verify_async : String → Option Payload) (cookie : Option String) (method path : String)
    (users : Option (List User)) (g : GuardedUser)
    → Admits verify_async cookie method path users g
    → jwt_guard verify_async false cookie method path users ≡ ok (some g)
unfolding jwt_guard verify
Admits-jwt_guard verify_async cookie method path users g a =
    rw
      (
        a.presented,
        unequal a.token a.nonempty,
        a.verified,
        a.parsed,
        ok-of_user a.claims (lookup_user a.claims.sub users) a.account a.stored a.is_active,
        ok-by_password (principal_of a.claims a.account) a.account.must_change_password
            (is_temporary a.claims.temporary_auth) (is_password_change_route method path)
            a.temporary (route_is a.account.must_change_password method path a.route),
      )
      (ap (λ x. ok (some x)) (ap (user_as a.claims a.account) a.temporary ∙ sym a.as_user))

-- On a route that is not public the guard lets a request through, as a given user, exactly when the
-- request carries a token that the JWT library accepts and whose claims are those of an access
-- token; the account exists and is ACTIVE; the token is temporary exactly when the account has to
-- change its password, and then only the password route is open; and the user has the id and name
-- of the token and the role of the account at that time.
pub jwt_guard_iff :
    (verify_async : String → Option Payload) (cookie : Option String) (method path : String)
    (users : Option (List User)) (g : GuardedUser)
    → (jwt_guard verify_async false cookie method path users ≡ ok (some g))
      ↔ Admits verify_async cookie method path users g
jwt_guard_iff verify_async cookie method path users g = (
  jwt_guard-Admits verify_async cookie method path users g,
  Admits-jwt_guard verify_async cookie method path users g,
)
