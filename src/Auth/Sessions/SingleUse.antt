-- ===== src/Auth/Sessions/SingleUse.antt =====
-- src/auth/auth.service.ts: a refresh token is used once.
use minepanel_backend.Common.{
  ℕ, String, ◌≡◌, ◌≢◌, refl, sym, ap, ◌∙◌, subst, Bool, true, false, not, some, List, [], ◌∷◌, ◌++◌,
  filter, find, All, All-filter, All-append, arith, ◌==◌, ==-true, ==-refl, Bool-cases,
  some-injective, true-false, inl, inr, string_eq,
}
use minepanel_backend.Http.{Exception, Result, ok, err}
use minepanel_backend.Schema.{Db, User, RefreshToken}
use minepanel_backend.Effects.{Env, World, M}
use minepanel_backend.Effects.Triples.{
  Triple, Post, Triple-pure, Triple-bind, Triple-lift_ok, Triple-or_throw, Triple-statement,
  Triple-call, Triple-clock, Triple-fresh_id, Triple-throw_if, Triple-weaken, Post-ok,
}
use minepanel_backend.Users.Statements.{insert_token, delete_tokens}
use minepanel_backend.Auth.Libraries.{Libraries}
use minepanel_backend.Auth.RefreshToken.{RefreshTokenClaims}
use minepanel_backend.Auth.RefreshTokenTtl.{RefreshTokenTtl}
use minepanel_backend.Auth.Sessions.{
  RotatedTokens, has_hash, is_token, is_expired_of, check_claims, refresh_token_bytes, issued_row,
  insert_issued, load_stored, load_owner, rotate, refresh_tokens,
}

-- all sessions with the hash are the one with the id
abbrev pub HasOnlyId : String → String → Db → Type 0
HasOnlyId hash id db = All (λ t. has_hash hash t ≡ true → t.id ≡ id) db.refresh_tokens

-- no session has the hash
abbrev pub IsUnused : String → Db → Type 0
IsUnused hash db = All (λ t. has_hash hash t ≡ false) db.refresh_tokens

-- Other requests create no session with the hash, nor does the random generator meet it.
pub record KeepsHash (env : Env) (lib : Libraries) (hash : String) : Type 0 where
  pub only :
      (n : ℕ) (id : String) (db : Db)
      → HasOnlyId hash id db
      → HasOnlyId hash id (env.interfere n db)
  pub unused : (n : ℕ) (db : Db) → IsUnused hash db → IsUnused hash (env.interfere n db)
  pub fresh : (n : ℕ) → lib.sha256 (env.random_text n refresh_token_bytes) ≢ hash

-- every time that the library accepts the token, it reads this identifier in it
abbrev pub Carries : Libraries → String → String → Type 0
Carries lib raw jti =
    (n : ℕ) (claims : RefreshTokenClaims)
    → check_claims (lib.verify_async n raw) ≡ ok claims
    → claims.jti ≡ jti

same_true : {a b : String} → a ≡ b → (a == b) ≡ true
same_true {b = b} e = rw (e, ==-refl b)

unequal : (a b : String) → a ≢ b → (a == b) ≡ false
unequal a b h = elim (Bool-cases (a == b)) [ inl hit ↦ absurd (h (==-true hit)) | inr miss ↦ miss ]

All-find :
    (hash : String) (P : RefreshToken → Type 0) (ts : List RefreshToken) (t : RefreshToken)
    → All (λ u. has_hash hash u ≡ true → P u) ts
    → find (has_hash hash) ts ≡ some t
    → P t
All-find hash P [] t h e = cc
All-find hash P (u ∷ ts) t h e = elim (Bool-cases (has_hash hash u)) [
  | inl hit ↦ subst P (some-injective (rw hit at e)) (h.0 hit)
  | inr miss ↦ All-find hash P ts t h.1 (rw miss at e)
]

unhit :
    (hash id : String) (t : RefreshToken)
    → (has_hash hash t ≡ true → t.id ≡ id)
    → is_token id t ≡ false
    → has_hash hash t ≡ false
unhit hash id t h other = elim (Bool-cases (has_hash hash t)) [
  | inl hit ↦ absurd (true-false (sym (same_true (h hit)) ∙ other))
  | inr miss ↦ miss
]

All-filter_id :
    (hash id : String) (ts : List RefreshToken)
    → All (λ t. has_hash hash t ≡ true → t.id ≡ id) ts
    → All (λ t. has_hash hash t ≡ false) (filter (λ t. not (is_token id t)) ts)
All-filter_id hash id [] h = tt
All-filter_id hash id (t ∷ ts) h = elim (Bool-cases (is_token id t)) [
  | inl gone ↦ rw gone (All-filter_id hash id ts h.1)
  | inr stays ↦ rw stays (unhit hash id t h.0 stays, All-filter_id hash id ts h.1)
]

find-IsUnused :
    (hash : String) (ts : List RefreshToken) (t : RefreshToken)
    → All (λ u. has_hash hash u ≡ false) ts
    → find (has_hash hash) ts ≡ some t
    → ⊥
find-IsUnused hash [] t h e = cc
find-IsUnused hash (u ∷ ts) t h e = elim (Bool-cases (has_hash hash u)) [
  | inl hit ↦ true-false (sym hit ∙ h.0)
  | inr miss ↦ find-IsUnused hash ts t h.1 (rw miss at e)
]

fresh-IsUnused :
    (hash : String) (row : RefreshToken) (ts : List RefreshToken)
    → row.token_id_hash ≢ hash
    → All (λ t. has_hash hash t ≡ false) ts
    → All (λ t. has_hash hash t ≡ false) (ts ++ row ∷ [])
fresh-IsUnused hash row ts other h =
    All-append (λ t. has_hash hash t ≡ false) ts (row ∷ []) h
      (unequal row.token_id_hash hash other, tt)

insert_token-IsUnused :
    (hash : String) (row : RefreshToken) (db : Db)
    → row.token_id_hash ≢ hash
    → IsUnused hash db
    → IsUnused hash (insert_token row db).1
insert_token-IsUnused hash row db other h =
    ground (arith, fresh-IsUnused hash row db.refresh_tokens other h)

abbrev pub Any : Exception → Db → Type 0
Any e db = Unit {0}

abbrev pub Never : RotatedTokens → Db → Type 0
Never r db = ⊥

given :
    {A : Type 0} {X : Type 0} {P : Db → Type 0} {Q : A → Db → Type 0} {E : Exception → Db → Type 0}
    (m : M A)
    → (X → Triple P m Q E)
    → Triple (λ db. X × P db) m Q E
given m t = record { at = λ w h. (t h.0).at w h.1 }

from-Never :
    {A : Type 0} (m : M A) (Q : A → Db → Type 0) (E : Exception → Db → Type 0)
    → Triple (λ db. ⊥) m Q E
from-Never m Q E = record { at = λ w p. absurd p }

module _ (env : Env) (lib : Libraries) (ttl : RefreshTokenTtl) (hash : String)
    (keeps : KeepsHash env lib hash) where
  abbrev Unused : {A : Type 0} → A → Db → Type 0
  Unused a db = IsUnused hash db

  Triple-insert_issued :
      (user_id jti : String) (temporary_auth : Bool)
      → lib.sha256 jti ≢ hash
      → Triple (IsUnused hash) (insert_issued env lib ttl user_id jti temporary_auth) Unused Unused
  unfolding insert_issued
  Triple-insert_issued user_id jti temporary_auth other =
      Triple-bind Unused _ _ (Triple-call env _ (λ n db h. h)) λ signed.
        Triple-bind Unused _ _ (Triple-clock env) λ now.
          Triple-bind Unused _ _ (Triple-fresh_id env) λ id.
            Triple-bind Unused _ _
              (Triple-statement env _ (λ n db h.
                insert_token-IsUnused hash (issued_row env lib ttl id jti user_id now)
                  (env.interfere n db) other (keeps.unused n db h)))
              λ inserted.
                Triple-bind Unused _ _ (Triple-lift_ok inserted (λ a e db h. h) (λ e db h. h))
                  λ done. Triple-pure _ (λ db h. h)

  -- the stored session is the one with the id
  module _ (id : String) where
    abbrev Only : {A : Type 0} → A → Db → Type 0
    Only a db = HasOnlyId hash id db

    Triple-load_stored :
        (jti : String)
        → lib.sha256 jti ≡ hash
        → Triple
            (HasOnlyId hash id)
            (load_stored env lib ttl jti)
            (λ t db. (t.id ≡ id) × HasOnlyId hash id db)
            Any
    unfolding load_stored
    Triple-load_stored jti same =
        Triple-bind
          (λ found db. ((t : RefreshToken) → found ≡ some t → t.id ≡ id) × HasOnlyId hash id db) _ _
          (Triple-statement env _ (λ n db h. (
            λ t e.
                All-find hash (λ u. u.id ≡ id) _ t (keeps.only n id db h)
                  (subst (λ x. find (has_hash x) (env.interfere n db).refresh_tokens ≡ some t) same
                    e),
            keeps.only n id db h,
          )))
          λ found.
            Triple-bind (λ t db. (t.id ≡ id) × HasOnlyId hash id db) _ _
              (Triple-or_throw found _ (λ t e db h. (h.0 t e, h.1)) (λ db h. tt))
              λ stored.
                Triple-bind (λ now db. (stored.id ≡ id) × HasOnlyId hash id db) _ _
                  (Triple-clock env)
                  λ now.
                    Triple-bind (λ u db. (stored.id ≡ id) × HasOnlyId hash id db) _ _
                      (Triple-throw_if _ _ (λ b db h. tt) (λ b db h. h))
                      λ u. Triple-pure stored (λ db h. h)

    Triple-load_owner :
        (claims : RefreshTokenClaims)
        → Triple (HasOnlyId hash id) (load_owner env lib ttl claims) Only Any
    unfolding load_owner
    Triple-load_owner claims =
        Triple-bind Only _ _ (Triple-statement env _ (λ n db h. keeps.only n id db h)) λ found.
          Triple-bind Only _ _ (Triple-or_throw found _ (λ t e db h. h) (λ db h. tt)) λ owner.
            Triple-bind Only _ _ (Triple-throw_if _ _ (λ b db h. tt) (λ b db h. h)) λ u.
              Triple-bind Only _ _ (Triple-lift_ok _ (λ a e db h. h) (λ e db h. tt))
                λ u'. Triple-pure owner (λ db h. h)

    Triple-rotate :
        (stored : RefreshToken) (owner : User) (temporary_auth : Bool)
        → stored.id ≡ id
        → Triple (HasOnlyId hash id) (rotate env lib ttl stored owner temporary_auth) Unused Any
    unfolding rotate
    Triple-rotate stored owner temporary_auth same =
        Triple-bind (λ seed db. HasOnlyId hash id db) _ _ (Triple-clock env)
          λ seed. Triple-bind Only _ _ (Triple-call env _ (λ n db h. h)) λ signed.
            Triple-bind Unused _ _
              (Triple-statement env _ (λ n db h. All-filter_id hash stored.id _ (
                subst (λ x. HasOnlyId hash x (env.interfere n db)) (sym same)
                  (keeps.only n id db h))))
              λ consumed.
                Triple-bind Unused _ _ (Triple-or_throw consumed _ (λ t e db h. h) (λ db h. tt))
                  λ u.
                    Triple-bind Unused _ _
                      (Triple-weaken _
                        (Triple-insert_issued owner.id _ temporary_auth (keeps.fresh seed))
                        (λ a db h. h) (λ e db h. tt))
                      λ signed_refresh. Triple-pure _ (λ db h. h)

    delete_tokens-IsUnused :
        (p : RefreshToken → Bool) (db : Db)
        → IsUnused hash db
        → IsUnused hash (delete_tokens p db).1
    delete_tokens-IsUnused p db h =
        All-filter (λ t. has_hash hash t ≡ false) (λ t. not (p t)) db.refresh_tokens h

    -- a rotation leaves no session with the hash
    Triple-refresh_tokens :
        (raw jti : String)
        → Carries lib raw jti
        → lib.sha256 jti ≡ hash
        → Triple (HasOnlyId hash id) (refresh_tokens env lib ttl raw) Unused Any
    unfolding refresh_tokens
    Triple-refresh_tokens raw jti carries same =
        Triple-bind
          (λ check db.
            ((claims : RefreshTokenClaims) → check_claims check ≡ ok claims → claims.jti ≡ jti)
            × HasOnlyId hash id db)
          _ _ (Triple-call env _ (λ n db h. (carries n, h)))
          λ check.
            Triple-bind (λ claims db. (claims.jti ≡ jti) × HasOnlyId hash id db) _ _
              (Triple-lift_ok _ (λ claims e db h. (h.0 claims e, h.1)) (λ e db h. tt))
              λ claims. given _ λ mine.
                Triple-bind (λ t db. (t.id ≡ id) × HasOnlyId hash id db) _ _
                  (Triple-load_stored claims.jti (ap lib.sha256 mine ∙ same))
                  λ stored. given _ λ this. Triple-bind Only _ _ (Triple-load_owner claims) λ owner.
                    Triple-bind Unused _ _ (Triple-rotate stored owner claims.temporary_auth this)
                      λ rotated. Triple-bind Unused _ _ (Triple-clock env) λ now.
                        Triple-bind Unused _ _
                          (Triple-statement env _ (λ n db h.
                            delete_tokens-IsUnused (is_expired_of claims.sub now)
                              (env.interfere n db) (keeps.unused n db h)))
                          λ u. Triple-pure rotated (λ db h. h)

  Triple-load_missing :
      (jti : String)
      → lib.sha256 jti ≡ hash
      → Triple (IsUnused hash) (load_stored env lib ttl jti) (λ t db. ⊥) Any
  unfolding load_stored
  Triple-load_missing jti same =
      Triple-bind (λ found db. (t : RefreshToken) → found ≡ some t → ⊥) _ _
        (Triple-statement env _ (λ n db h t e.
          find-IsUnused hash _ t (keeps.unused n db h)
            (subst (λ x. find (has_hash x) (env.interfere n db).refresh_tokens ≡ some t) same e)))
        λ found.
          Triple-bind (λ t db. ⊥) _ _ (Triple-or_throw found _ (λ t e db h. h t e) (λ db h. tt))
            λ stored. from-Never _ _ _

  Triple-replay :
      (raw jti : String)
      → Carries lib raw jti
      → lib.sha256 jti ≡ hash
      → Triple (IsUnused hash) (refresh_tokens env lib ttl raw) Never Any
  unfolding refresh_tokens
  Triple-replay raw jti carries same =
      Triple-bind
        (λ check db.
          ((claims : RefreshTokenClaims) → check_claims check ≡ ok claims → claims.jti ≡ jti)
          × IsUnused hash db)
        _ _ (Triple-call env _ (λ n db h. (carries n, h)))
        λ check.
          Triple-bind (λ claims db. (claims.jti ≡ jti) × IsUnused hash db) _ _
            (Triple-lift_ok _ (λ claims e db h. (h.0 claims e, h.1)) (λ e db h. tt))
            λ claims. given _ λ mine.
              Triple-bind (λ t db. ⊥) _ _
                (Triple-load_missing claims.jti (ap lib.sha256 mine ∙ same))
                λ stored. from-Never _ _ _

Never-ok :
    (r : Result RotatedTokens) (db : Db) → Post Never Any r db → (e : Exception) × (r ≡ err e)
Never-ok (ok a) db h = absurd h
Never-ok (err e) db h = (e, refl)

-- A refresh token is used once: after a rotation every later use of the same token is refused,
-- whatever other requests do in between, as long as the session table holds at most the one session
-- of the token and nobody creates another with its hash.
pub refresh_tokens-once :
    (env : Env) (lib : Libraries) (ttl : RefreshTokenTtl) (raw jti id : String) (w : World)
    (rotated : RotatedTokens)
    → Carries lib raw jti
    → KeepsHash env lib (lib.sha256 jti)
    → HasOnlyId (lib.sha256 jti) id w.db
    → (refresh_tokens env lib ttl raw w).0 ≡ ok rotated
    → (e : Exception) × ((refresh_tokens env lib ttl raw (refresh_tokens env lib ttl raw w).1).0
        ≡ err e)
refresh_tokens-once env lib ttl raw jti id w rotated carries keeps single done =
    let after = (refresh_tokens env lib ttl raw w).1 in
    let gone : IsUnused (lib.sha256 jti) after.db =
      Post-ok _ _ _ after.db rotated
        ((Triple-refresh_tokens env lib ttl (lib.sha256 jti) keeps id raw jti carries refl).at w
          single)
        done in
    Never-ok _ _
      ((Triple-replay env lib ttl (lib.sha256 jti) keeps raw jti carries refl).at after gone)
