-- ===== src/Users/PasswordChange.antt =====
-- src/users/users.service.ts: what a change of password has checked, and the sessions that it ends.
use minepanel_backend.Common.{
  All, option_eq, nat_eq, ℕ, String, ◌≡◌, refl, sym, ap, ◌∙◌, Bool, true, false, not, Option, none,
  some, any, if◌then◌else◌, string_eq,
}
use minepanel_backend.Http.{Exception, ok}
use minepanel_backend.Schema.{Db, User}
use minepanel_backend.Effects.{Env, World, statement, call, or_throw, throw_if, lift}
use minepanel_backend.Effects.Inversion.{
  bind-elim, or_throw-ok, call-ok, throw_if-ok, statement-ok, lift-world,
}
use minepanel_backend.Effects.Triples.{
  Triple, Triple-pure, Triple-bind, Triple-statement, Triple-after, Triple-if, Post-ok,
}
use minepanel_backend.Admin.Statements.{find_user}
use minepanel_backend.Users.Public.{PublicUser}
use minepanel_backend.Users.Statements.{filled}
use minepanel_backend.Users.Service.{find_by_id, change_forced, change_ordinary, update_password}
use minepanel_backend.Auth.Dto.{UpdatePasswordDto}
use minepanel_backend.Auth.Libraries.{Libraries}
use minepanel_backend.Auth.Password.{assert_password_within_byte_limit}
use minepanel_backend.Users.Credentials.{
  ended, current_hash, filter-gone, Spared, Current, current_hash-Current, kept_all, kept-Spared,
}

abbrev Anything : Db → Type 0
Anything db = Unit

abbrev Failed : Exception → Db → Type 0
Failed e db = Unit

module _ (env : Env) (lib : Libraries) (user_id : String) (dto : UpdatePasswordDto)
    (token : Option String) where
  abbrev Ended : Bool → PublicUser → Db → Type 0
  Ended temporary_auth r db =
      any (ended lib.sha256 user_id token temporary_auth) db.refresh_tokens ≡ false

  Triple-change_forced :
      (u : User) → Triple Anything (change_forced env lib user_id dto u) (Ended true) Failed
  unfolding change_forced
  Triple-change_forced u = Triple-after _ _ λ hash. Triple-after _ _ λ matches.
      Triple-after _ _ λ v. Triple-after _ _ λ new_hash. Triple-after _ _ λ now.
        Triple-after _ _ λ updated. Triple-after _ _ λ row.
          Triple-bind (λ x db. any (ended lib.sha256 user_id token true) db.refresh_tokens ≡ false)
            _ _
            (Triple-statement env _ (λ n db h.
              filter-gone (ended lib.sha256 user_id token true)
                (env.interfere n db).refresh_tokens))
            λ v'. Triple-pure _ (λ db h. h)

  Triple-change_ordinary :
      (u : User)
      → Triple Anything (change_ordinary env lib user_id dto token u) (Ended false) Failed
  unfolding change_ordinary
  Triple-change_ordinary u = Triple-after _ _ λ v. Triple-after _ _ λ hash.
      Triple-after _ _ λ matches. Triple-after _ _ λ v'. Triple-after _ _ λ new_hash.
        Triple-after _ _ λ now. Triple-after _ _ λ updated. Triple-after _ _ λ row.
          Triple-bind (λ x db. any (ended lib.sha256 user_id token false) db.refresh_tokens ≡ false)
            _ _
            (Triple-statement env _ (λ n db h.
              filter-gone (ended lib.sha256 user_id token false)
                (env.interfere n db).refresh_tokens))
            λ v''. Triple-pure _ (λ db h. h)

  Triple-update_password :
      (temporary_auth : Bool)
      → Triple Anything
          (update_password env lib user_id dto token temporary_auth)
          (Ended temporary_auth)
          Failed
  unfolding update_password find_by_id
  Triple-update_password temporary_auth = Triple-after _ _ λ v. Triple-after _ _ λ v'.
      Triple-after _ _ λ found. Triple-after _ _ λ u.
        Triple-if temporary_auth _ _ (λ yes. rw yes (Triple-change_forced u))
          (λ no. rw no (Triple-change_ordinary u))

  not-false : (b : Bool) → not b ≡ false → b ≡ true
  not-false true h = refl
  not-false false h = cc

  abbrev OldRight : Bool → User → Type 0
  OldRight temporary_auth u =
      (hash : String) × (current_hash temporary_auth u ≡ some hash)
      × (lib.compare_password dto.old_password hash ≡ true)

  change_forced-old :
      (u : User) (w : World) (r : PublicUser)
      → (change_forced env lib user_id dto u w).0 ≡ ok r
      → OldRight true u
  unfolding change_forced
  change_forced-old u w r h = bind-elim (or_throw _ _) _ w r h λ hash stored h1.
      bind-elim (call env _) _ _ r h1 λ matches called h2.
        bind-elim (throw_if _ _) _ _ r h2 λ v passed h3. (
          hash,
          or_throw-ok _ _ w hash stored,
          call-ok env _ _ matches called ∙ not-false matches (throw_if-ok _ _ _ v passed),
        )

  change_ordinary-old :
      (u : User) (w : World) (r : PublicUser)
      → (change_ordinary env lib user_id dto token u w).0 ≡ ok r
      → OldRight false u
  unfolding change_ordinary
  change_ordinary-old u w r h = bind-elim (throw_if _ _) _ w r h λ v free h0.
      bind-elim (or_throw _ _) _ _ r h0 λ hash stored h1.
        bind-elim (call env _) _ _ r h1 λ matches called h2.
          bind-elim (throw_if _ _) _ _ r h2 λ v' passed h3. (
            hash,
            ap (λ b. if b then none else filled u.password_hash) (throw_if-ok _ _ _ v free)
                ∙ or_throw-ok _ _ _ hash stored,
            call-ok env _ _ matches called ∙ not-false matches (throw_if-ok _ _ _ v' passed),
          )

  change-old :
      (temporary_auth : Bool) (u : User) (w : World) (r : PublicUser)
      → ((if temporary_auth
            then change_forced env lib user_id dto u
            else change_ordinary env lib user_id dto token u)
          w).0
        ≡ ok r
      → OldRight temporary_auth u
  change-old true u w r h = change_forced-old u w r h
  change-old false u w r h = change_ordinary-old u w r h

-- what a change of password that succeeds has found, and what it leaves
pub record Changed (env : Env) (lib : Libraries) (user_id : String) (dto : UpdatePasswordDto)
    (token : Option String) (temporary_auth : Bool) (w after : World) : Type 0 where
  pub turn : ℕ
  pub account : User
  pub found : find_user user_id (env.interfere turn w.db) ≡ some account
  pub hash : String
  pub current : Current temporary_auth account hash
  pub right : lib.compare_password dto.old_password hash ≡ true
  pub ends :
      All
        (λ t. t.user_id ≡ user_id → Spared lib.sha256 token temporary_auth t)
        after.db.refresh_tokens

-- A change of password that succeeds found the account, and the old password was right: after a
-- sign-in with a temporary password that one, whose hash is kept without an expiry while a change
-- is due, and otherwise the account's own, where no change is due. Every session of the account
-- that it leaves has the hash of the request's own token, after an ordinary sign-in; after the
-- other it leaves none.
pub update_password-Changed :
    (env : Env) (lib : Libraries) (user_id : String) (dto : UpdatePasswordDto)
    (token : Option String) (temporary_auth : Bool) (w : World) (r : PublicUser)
    → (update_password env lib user_id dto token temporary_auth w).0 ≡ ok r
    → Changed env lib user_id dto token temporary_auth w
        (update_password env lib user_id dto token temporary_auth w).1
unfolding update_password find_by_id
update_password-Changed env lib user_id dto token temporary_auth w r h =
    let over =
      Post-ok _ _ _ _ r ((Triple-update_password env lib user_id dto token temporary_auth).at w tt)
        h in
    bind-elim (lift _) _ w r h λ v first h1. bind-elim (lift _) _ _ r h1 λ v' second h2.
      bind-elim (statement env _) _ _ r h2 λ found read h3.
        bind-elim (or_throw _ _) _ _ r h3 λ u there h4.
          let (hash, current, right) =
            change-old env lib user_id dto token temporary_auth u _ r h4 in
          record {
            turn = w.tick;
            account = u;
            found =
                ap (λ x. find_user user_id (env.interfere x.tick x.db))
                  (sym (
                    lift-world (assert_password_within_byte_limit dto.new_password) _
                    ∙ lift-world (assert_password_within_byte_limit dto.old_password) w))
                ∙ statement-ok env _ _ found read
                ∙ or_throw-ok found _ _ u there;
            hash = hash;
            current = current_hash-Current temporary_auth u hash current;
            right = right;
            ends = kept_all _ _ _ (kept-Spared lib.sha256 user_id token temporary_auth) over;
          }
