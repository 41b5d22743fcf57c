-- ===== src/Auth/Login/SingleUse.antt =====
-- src/auth/auth.service.ts: temporary passwords and backup codes are used once.
use mathlib.Core.Option
use minepanel_backend.Common.{
  none≢some, ℕ, String, ◌≡◌, refl, sym, ap, ◌∙◌, subst, Bool, true, false, ◌&&◌, Option, none, some,
  is_some, List, [], ◌∷◌, any, find, update, arith, ◌==◌, Bool-cases, true-false, some-injective,
  inl, inr, string_eq, option_eq,
}
use minepanel_backend.Http.{Exception, Result, ok, err}
use minepanel_backend.Schema.{Db, User}
use minepanel_backend.Effects.{Env, World}
use minepanel_backend.Effects.Triples.{
  Triple, Post, Triple-pure, Triple-bind, Triple-or_throw, Triple-statement, Triple-clock, Post-ok,
}
use minepanel_backend.Admin.Statements.{is_user}
use minepanel_backend.Admin.Counts.{DistinctIds}
use minepanel_backend.Users.Conditional.{update-found-false, map-some}
use minepanel_backend.Users.Statements.{update_matching, filled}
use minepanel_backend.Auth.Libraries.{Libraries}
use minepanel_backend.Auth.RefreshTokenTtl.{RefreshTokenTtl}
use minepanel_backend.Auth.Login.{is_later, is_consumable, wrong_login, consume_temp_password}

-- no account has the id and the temporary password with a time until which it can be used
abbrev pub holds_credential : String → String → User → Bool
holds_credential id hash u =
    is_user id u && u.temp_password_hash == some hash && is_some u.temp_password_expires_at

abbrev pub IsConsumed : String → String → Db → Type 0
IsConsumed id hash db = any (holds_credential id hash) db.users ≡ false

-- Other requests keep the primary key, and none sets the same temporary password again.
pub record KeepsConsumed (env : Env) (id hash : String) : Type 0 where
  pub distinct : (n : ℕ) (db : Db) → DistinctIds db.users → DistinctIds (env.interfere n db).users
  pub consumed : (n : ℕ) (db : Db) → IsConsumed id hash db → IsConsumed id hash (env.interfere n db)

module _ (id hash : String) (now : ℕ) where
  abbrev spend : User → User
  spend r = record r { temp_password_expires_at = none; updated_at = now }

  consumable_user : (u : User) → is_consumable id hash now u ≡ true → is_user id u ≡ true
  consumable_user u h = ground arith

  other_credential : (u : User) → is_user id u ≡ false → holds_credential id hash u ≡ false
  other_credential u h = ground arith

  consumed-none : (u : User) → holds_credential id hash (spend u) ≡ false
  consumed-none u = ground arith

  spend-IsConsumed :
      (us : List User) (r : User)
      → DistinctIds us
      → find (is_consumable id hash now) us ≡ some r
      → any (holds_credential id hash) (update (is_consumable id hash now) spend us) ≡ false
  spend-IsConsumed us r d e =
      update-found-false id (is_consumable id hash now) (holds_credential id hash) spend
        consumable_user other_credential (λ u h. consumed-none u) us r d e

  later-is_some :
      (mine forced same : Bool) (until : Option ℕ)
      → (mine && same && is_some until) ≡ false
      → (mine && forced && same && is_later now until) ≡ false
  later-is_some mine forced same none h = ground arith
  later-is_some mine forced same (some t) h = ground arith

  consumable_held :
      (u : User) → holds_credential id hash u ≡ false → is_consumable id hash now u ≡ false
  consumable_held u h =
      later-is_some (is_user id u) u.must_change_password (u.temp_password_hash == some hash)
        u.temp_password_expires_at h

  find-IsConsumed :
      (us : List User)
      → any (holds_credential id hash) us ≡ false
      → find (is_consumable id hash now) us ≡ none
  find-IsConsumed [] h = refl
  find-IsConsumed (u ∷ us) h = elim (Bool-cases (holds_credential id hash u)) [
    | inl held ↦ absurd (true-false (rw held at h))
    | inr free ↦ rw (consumable_held u free) (find-IsConsumed us (rw free at h))
  ]

abbrev Never : {A : Type 0} → A → Db → Type 0
Never a db = ⊥

abbrev Any : Exception → Db → Type 0
Any e db = Unit

abbrev Refused : Exception → Db → Type 0
Refused e db = e ≡ wrong_login

module _ (env : Env) (lib : Libraries) (ttl : RefreshTokenTtl) (u : User) where
  Triple-spend :
      (hash : String)
      → filled u.temp_password_hash ≡ some hash
      → KeepsConsumed env u.id hash
      → Triple
          (λ db. DistinctIds db.users)
          (consume_temp_password env lib ttl u)
          (λ v. IsConsumed u.id hash)
          Any
  unfolding consume_temp_password
  Triple-spend hash stored keeps =
      Triple-bind (λ h db. (h ≡ hash) × DistinctIds db.users) _ _
        (Triple-or_throw _ _ (λ h e db d. (some-injective (sym e ∙ stored), d)) (λ db d. tt))
        λ h.
          Triple-bind (λ until db. (h ≡ hash) × DistinctIds db.users) _ _
            (Triple-or_throw u.temp_password_expires_at _ (λ until e db d. d) (λ db d. tt))
            λ until.
              Triple-bind (λ now db. (h ≡ hash) × DistinctIds db.users) _ _ (Triple-clock env)
                λ now.
                  Triple-bind (λ found db. (r : User) → found ≡ some r → IsConsumed u.id hash db) _
                    _
                    (Triple-statement env _ (λ n db d r e.
                      let (before, found, _) = map-some _ _ r e in
                      subst
                        (λ x.
                          IsConsumed u.id x
                            (update_matching (is_consumable u.id h now) (spend u.id h now)
                              (env.interfere n db)).1)
                        d.0 (spend-IsConsumed u.id h now _ before (keeps.distinct n db d.1) found)))
                    λ found.
                      Triple-bind (λ r. IsConsumed u.id hash) _ _
                        (Triple-or_throw found _ (λ r e db k. k r e) (λ db k. tt))
                        λ r. Triple-pure tt (λ db k. k)

  Triple-Refused :
      (hash : String)
      → filled u.temp_password_hash ≡ some hash
      → KeepsConsumed env u.id hash
      → Triple (IsConsumed u.id hash) (consume_temp_password env lib ttl u) Never Refused
  unfolding consume_temp_password
  Triple-Refused hash stored keeps =
      Triple-bind (λ h db. (h ≡ hash) × IsConsumed u.id hash db) _ _
        (Triple-or_throw _ _ (λ h e db d. (some-injective (sym e ∙ stored), d)) (λ db d. refl))
        λ h.
          Triple-bind (λ until db. (h ≡ hash) × IsConsumed u.id hash db) _ _
            (Triple-or_throw u.temp_password_expires_at _ (λ until e db d. d) (λ db d. refl))
            λ until.
              Triple-bind (λ now db. (h ≡ hash) × IsConsumed u.id hash db) _ _ (Triple-clock env)
                λ now.
                  Triple-bind (λ found db. found ≡ none) _ _
                    (Triple-statement env _ (λ n db d. ap (Option.map (spend u.id h now)) (
                      find-IsConsumed u.id h now (env.interfere n db).users (
                        subst (λ x. IsConsumed u.id x (env.interfere n db)) (sym d.0)
                          (keeps.consumed n db d.1)))))
                    λ found.
                      Triple-bind Never _ _
                        (Triple-or_throw found _ (λ r e db k. none≢some (sym k ∙ e)) (λ db k. refl))
                        λ r. Triple-pure tt (λ db k. k)

refused : (r : Result (Unit {0})) (db : Db) → Post Never Refused r db → r ≡ err wrong_login
refused (ok a) db h = absurd h
refused (err e) db h = rw h refl

-- A temporary password is used once: after it let an account in, every further use that read the
-- account before is refused as wrong credentials, whatever other requests do in between, as long as
-- they keep ids distinct and none sets the same hash again.
pub consume_temp_password-once :
    (env : Env) (lib : Libraries) (ttl : RefreshTokenTtl) (u : User) (hash : String) (w : World)
    → filled u.temp_password_hash ≡ some hash
    → KeepsConsumed env u.id hash
    → DistinctIds w.db.users
    → (consume_temp_password env lib ttl u w).0 ≡ ok tt
    → (consume_temp_password env lib ttl u (consume_temp_password env lib ttl u w).1).0
      ≡ err wrong_login
consume_temp_password-once env lib ttl u hash w stored keeps distinct done =
    let after = (consume_temp_password env lib ttl u w).1 in
    refused _ _ (
      (Triple-Refused env lib ttl u hash stored keeps).at after (
        Post-ok _ _ _ after.db tt ((Triple-spend env lib ttl u hash stored keeps).at w distinct)
          done))
