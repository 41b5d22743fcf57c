-- ===== src/Guards/PreAuth/Kinds.antt =====
-- src/auth/: access tokens, refresh tokens and pre-auth tokens do not stand in for each other.
use minepanel_backend.Common.{
  String, ◌≡◌, ◌≢◌, refl, sym, ◌∙◌, Bool, true, false, ◌&&◌, Option, none, some, is_some, ◌==◌,
  ==-true, true-false, string_eq, arith,
}
use minepanel_backend.Auth.AccessToken.{
  ClaimValue, text, flag, whole, fraction, null, other, Payload, plain, not_plain, parse_fields,
  parse_access_token_claims,
}
use minepanel_backend.Auth.RefreshToken.{refresh_fields, valid_refresh_claims}
use minepanel_backend.Guards.PreAuth.{pre_auth_fields, pre_auth_payload}

abbrev is_purpose : String → Option ClaimValue → Bool
is_purpose purpose (some (text type)) = type == purpose
is_purpose purpose _ = false

abbrev purpose_of : String → Payload → Bool
purpose_of purpose not_plain = false
purpose_of purpose (plain c) = is_purpose purpose c.type

parse_fields-purpose :
    (sub username type temporary exp : Option ClaimValue)
    → is_some (parse_fields sub username type temporary exp) ≡ true
    → is_purpose "access" type ≡ true
parse_fields-purpose sub username type temporary exp h = ground arith

refresh_fields-purpose :
    (sub type jti temporary exp : Option ClaimValue)
    → is_some (refresh_fields sub type jti temporary exp) ≡ true
    → is_purpose "refresh" type ≡ true
refresh_fields-purpose sub type jti temporary exp h = ground arith

pre_auth_fields-purpose :
    (type sub temporary fingerprint : Option ClaimValue)
    → is_some (pre_auth_fields type sub temporary fingerprint) ≡ true
    → is_purpose "pre-auth" type ≡ true
pre_auth_fields-purpose type sub temporary fingerprint h = ground arith

access-purpose :
    (p : Payload) → is_some (parse_access_token_claims p) ≡ true → purpose_of "access" p ≡ true
unfolding parse_access_token_claims
access-purpose not_plain h = h
access-purpose (plain c) h = parse_fields-purpose c.sub c.username c.type c.temporary_auth c.exp h

refresh-purpose :
    (p : Payload) → is_some (valid_refresh_claims p) ≡ true → purpose_of "refresh" p ≡ true
unfolding valid_refresh_claims
refresh-purpose not_plain h = h
refresh-purpose (plain c) h = refresh_fields-purpose c.sub c.type c.jti c.temporary_auth c.exp h

pre_auth-purpose :
    (p : Payload) → is_some (pre_auth_payload p) ≡ true → purpose_of "pre-auth" p ≡ true
unfolding pre_auth_payload
pre_auth-purpose not_plain h = h
pre_auth-purpose (plain c) h =
    pre_auth_fields-purpose c.type c.sub c.temporary_auth c.temporary_credential_fingerprint h

is_purpose-once :
    (o : Option ClaimValue) (x y : String) → is_purpose x o ≡ true → is_purpose y o ≡ true → x ≡ y
is_purpose-once none x y h k = cc
is_purpose-once (some (text t)) x y h k = sym (==-true h) ∙ ==-true k
is_purpose-once (some (flag b)) x y h k = cc
is_purpose-once (some (whole n)) x y h k = cc
is_purpose-once (some (fraction n)) x y h k = cc
is_purpose-once (some null) x y h k = cc
is_purpose-once (some other) x y h k = cc

purpose_of-once :
    (p : Payload) (x y : String) → purpose_of x p ≡ true → purpose_of y p ≡ true → x ≡ y
purpose_of-once not_plain x y h k = absurd (true-false (sym h))
purpose_of-once (plain c) x y h k = is_purpose-once c.type x y h k

access≢refresh : ◌≢◌ {A = String} "access" "refresh"
access≢refresh e = cc

access≢pre_auth : ◌≢◌ {A = String} "access" "pre-auth"
access≢pre_auth e = cc

refresh≢pre_auth : ◌≢◌ {A = String} "refresh" "pre-auth"
refresh≢pre_auth e = cc

not_both : (a b : Bool) → (a ≡ true → b ≡ true → ⊥) → (a && b) ≡ false
not_both true true h = absurd (h refl refl)
not_both true false h = refl
not_both false b h = refl

-- No payload stands for two kinds of token: of access token, refresh token and pre-auth token, the
-- checks of two never both admit it, whatever its other claims are.
pub purposes-Disjoint :
    (p : Payload)
    → ((is_some (parse_access_token_claims p) && is_some (valid_refresh_claims p)) ≡ false)
      × ((is_some (parse_access_token_claims p) && is_some (pre_auth_payload p)) ≡ false)
      × ((is_some (valid_refresh_claims p) && is_some (pre_auth_payload p)) ≡ false)
purposes-Disjoint p = (
  not_both _ _
      (λ a r. access≢refresh (purpose_of-once p _ _ (access-purpose p a) (refresh-purpose p r))),
  not_both _ _
      (λ a q. access≢pre_auth (purpose_of-once p _ _ (access-purpose p a) (pre_auth-purpose p q))),
  not_both _ _ (λ r q.
      refresh≢pre_auth (purpose_of-once p _ _ (refresh-purpose p r) (pre_auth-purpose p q))),
)
