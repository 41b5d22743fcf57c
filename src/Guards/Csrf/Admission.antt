-- ===== src/Guards/Csrf/Admission.antt =====
-- src/common/guards/csrf-origin.guard.ts: which requests the guard lets through.
use minepanel_backend.Common.{
  or_true, String, Bool, true, false, ◌≡◌, refl, ◌⊎◌, inl, inr, ◌↔◌, Option, none, some, ◌∷◌, [],
  arith, ◌==◌, ◌||◌, Bool-cases, true-false, sym, subst, ◌∙◌, ==-true, ==-refl, string_eq,
}
use minepanel_backend.Http.{Exception, ok, err}
use minepanel_backend.Text.{concat}
use minepanel_backend.Guards.Csrf.{
  OriginHeader, absent, single, repeated, is_mutating, is_own_origin, is_allowed_origin,
  origin_result, csrf_origin_guard,
}

-- a method that changes something
pub data Mutates : String → Type 0 where
  post : Mutates "POST"
  put : Mutates "PUT"
  patch : Mutates "PATCH"
  delete : Mutates "DELETE"

-- the origin of the front end, or that of the service under the name it was asked by
pub data Trusted (canonical protocol : String) (host : Option String) (origin : String)
    : Type 0 where
  front_end : origin ≡ canonical → Trusted canonical protocol host origin
  own :
      (name : String)
      → host ≡ some name
      → origin ≡ concat (protocol ∷ "://" ∷ name ∷ [])
      → Trusted canonical protocol host origin

-- who may pass
pub data Passes (canonical : String) (is_http : Bool) (method protocol : String)
    (host : Option String) (header : OriginHeader) : Type 0 where
  elsewhere : is_http ≡ false → Passes canonical is_http method protocol host header
  reads : ¬ (Mutates method) → Passes canonical is_http method protocol host header
  no_browser : header ≡ absent → Passes canonical is_http method protocol host header
  trusted :
      (origin : String)
      → header ≡ single origin
      → Trusted canonical protocol host origin
      → Passes canonical is_http method protocol host header

four_true :
    (a b c d : Bool)
    → (a || b || c || d) ≡ true
    → (a ≡ true) ⊎ ((b ≡ true) ⊎ ((c ≡ true) ⊎ (d ≡ true)))
four_true a b c d h = ground arith

is_mutating-Mutates : (m : String) → is_mutating m ≡ true → Mutates m
is_mutating-Mutates m h = elim (four_true _ _ _ _ h) [
  | inl e ↦ subst Mutates (sym (==-true e)) post
  | inr (inl e) ↦ subst Mutates (sym (==-true e)) put
  | inr (inr (inl e)) ↦ subst Mutates (sym (==-true e)) patch
  | inr (inr (inr e)) ↦ subst Mutates (sym (==-true e)) delete
]

Mutates-is_mutating : (m : String) → Mutates m → is_mutating m ≡ true
Mutates-is_mutating m post = refl
Mutates-is_mutating m put = refl
Mutates-is_mutating m patch = refl
Mutates-is_mutating m delete = refl

is_allowed_origin-Trusted :
    (canonical protocol : String) (host : Option String) (origin : String)
    → is_allowed_origin canonical protocol host origin ≡ true
    → Trusted canonical protocol host origin
is_allowed_origin-Trusted canonical protocol none origin h =
    elim (or_true (origin == canonical) false h) [ inl e ↦ front_end (==-true e) | inr e ↦ cc ]
is_allowed_origin-Trusted canonical protocol (some name) origin h =
    elim (or_true (origin == canonical) (is_own_origin protocol (some name) origin) h) [
      | inl e ↦ front_end (==-true e)
      | inr e ↦ own name refl (==-true e)
    ]

true_or : (a b : Bool) → b ≡ true → (a || b) ≡ true
true_or a b h = ground arith

Trusted-is_allowed_origin :
    (canonical protocol : String) (host : Option String) (origin : String)
    → Trusted canonical protocol host origin
    → is_allowed_origin canonical protocol host origin ≡ true
Trusted-is_allowed_origin canonical protocol host origin (front_end e) = rw (e, ==-refl canonical)
Trusted-is_allowed_origin canonical protocol host origin (own name named e) =
    true_or _ (is_own_origin protocol host origin)
      (rw (named, e, ==-refl (concat (protocol ∷ "://" ∷ name ∷ []))) refl)

err≢ok : {e : Exception} → err e ≡ ok tt → ⊥
err≢ok h = cc

origin_result-Passes :
    (canonical method protocol : String) (host : Option String) (header : OriginHeader)
    → origin_result canonical protocol host header ≡ ok tt
    → Passes canonical true method protocol host header
origin_result-Passes canonical method protocol host absent h = no_browser refl
origin_result-Passes canonical method protocol host repeated h = cc
origin_result-Passes canonical method protocol host (single origin) h =
    elim (Bool-cases (is_allowed_origin canonical protocol host origin)) [
      | inl allowed ↦
          trusted origin refl (is_allowed_origin-Trusted canonical protocol host origin allowed)
      | inr foreign ↦ absurd (err≢ok (rw foreign at h))
    ]

Passes-origin_result :
    (canonical method protocol : String) (host : Option String) (header : OriginHeader)
    → Mutates method
    → Passes canonical true method protocol host header
    → origin_result canonical protocol host header ≡ ok tt
Passes-origin_result canonical method protocol host header m (elsewhere e) = absurd (true-false e)
Passes-origin_result canonical method protocol host header m (reads harmless) = absurd (harmless m)
Passes-origin_result canonical method protocol host header m (no_browser e) = rw e refl
Passes-origin_result canonical method protocol host header m (trusted origin e t) =
    rw (e, Trusted-is_allowed_origin canonical protocol host origin t) refl

-- The guard lets a request through exactly when it does not come over HTTP, or its method is none
-- of the four that change something, or it names no origin, or names a single one, that of the
-- front end or of the service itself under the host and protocol of the request.
pub csrf_origin_guard_iff :
    (canonical : String) (is_http : Bool) (method protocol : String) (host : Option String)
    (header : OriginHeader)
    → (csrf_origin_guard canonical is_http method protocol host header ≡ ok tt)
      ↔ Passes canonical is_http method protocol host header
unfolding csrf_origin_guard
csrf_origin_guard_iff canonical false method protocol host header = (λ h. elsewhere refl, λ h. refl)
csrf_origin_guard_iff canonical true method protocol host header =
    elim (Bool-cases (is_mutating method)) [
      | inr harmless ↦ (
        λ h. reads λ m. true-false (sym (Mutates-is_mutating method m) ∙ harmless),
        λ h. rw harmless,
      )
      | inl mutates ↦ (
        λ h. origin_result-Passes canonical method protocol host header (rw mutates at h),
        λ h. rw mutates (
            Passes-origin_result canonical method protocol host header
              (is_mutating-Mutates method mutates) h),
      )
    ]
