-- ===== src/Users/Credentials.antt =====
-- src/users/users.service.ts: the hash that a change of password asks for, and the sessions that it
-- spares.
use minepanel_backend.Common.{
  arith, ◌&&◌, All, and_true, true-false, ==-true, ==-refl, ◌==◌, option_eq, nat_eq, String, ◌≡◌,
  refl, sym, ap, ◌∙◌, Bool, true, false, not, Option, none, some, List, [], ◌∷◌, any, filter,
  Bool-cases, inl, inr, if◌then◌else◌, string_eq,
}
use minepanel_backend.Schema.{User, RefreshToken}
use minepanel_backend.Users.Statements.{filled, filled-some}
use minepanel_backend.Users.Service.{retained_hash, is_other_session}

-- the sessions that the statement of the change deletes
abbrev pub ended : (String → String) → String → Option String → Bool → RefreshToken → Bool
ended sha256 user_id refresh_token_id true = is_other_session sha256 user_id none
ended sha256 user_id refresh_token_id false =
    is_other_session sha256 user_id (filled refresh_token_id)

-- the hash that the old password is compared with
abbrev pub current_hash : Bool → User → Option String
current_hash true u = retained_hash u
current_hash false u = if u.must_change_password then none else filled u.password_hash

pub filter-gone :
    {A : Type 0} (p : A → Bool) (rows : List A) → any p (filter (λ r. not (p r)) rows) ≡ false
filter-gone p [] = refl
filter-gone p (r ∷ rows) = elim (Bool-cases (p r)) [
  | inl hit ↦ rw hit (filter-gone p rows)
  | inr miss ↦ rw miss (rw miss (filter-gone p rows))
]

-- a session that outlives the change: that of the request, after an ordinary sign-in
pub data Spared (sha256 : String → String) (token : Option String)
    : Bool → RefreshToken → Type 0 where
  own :
      {t : RefreshToken} (id : String)
      → token ≡ some id
      → t.token_id_hash ≡ sha256 id
      → Spared sha256 token false t

-- the hash that the old password has to match, after either sign-in
pub data Current : Bool → User → String → Type 0 where
  used_up :
      {u : User} {hash : String}
      → u.must_change_password ≡ true
      → u.temp_password_expires_at ≡ none
      → u.temp_password_hash ≡ some hash
      → Current true u hash
  primary :
      {u : User} {hash : String}
      → u.must_change_password ≡ false
      → u.password_hash ≡ some hash
      → Current false u hash

if_some :
    (b : Bool) (o : Option String) (s : String)
    → (if b then o else none) ≡ some s
    → (b ≡ true) × (o ≡ some s)
if_some true o s h = (refl, h)
if_some false o s h = cc

if_none :
    (b : Bool) (o : Option String) (s : String)
    → (if b then none else o) ≡ some s
    → (b ≡ false) × (o ≡ some s)
if_none true o s h = cc
if_none false o s h = (refl, h)

pub current_hash-Current :
    (temporary_auth : Bool) (u : User) (hash : String)
    → current_hash temporary_auth u ≡ some hash
    → Current temporary_auth u hash
current_hash-Current true u hash h =
    let (due, stored) = if_some _ (filled u.temp_password_hash) hash h in
    let (must_change, used) =
      and_true u.must_change_password (u.temp_password_expires_at == none) due in
    used_up must_change (==-true used) (filled-some _ _ stored)
current_hash-Current false u hash h =
    let (free, stored) = if_none u.must_change_password (filled u.password_hash) hash h in
    primary free (filled-some _ _ stored)

pub kept_all :
    {A : Type 0} (p : A → Bool) (P : A → Type 0) (rows : List A)
    → ((a : A) → p a ≡ false → P a)
    → any p rows ≡ false
    → All P rows
kept_all p P [] k h = tt
kept_all p P (r ∷ rows) k h = elim (Bool-cases (p r)) [
  | inl hit ↦ absurd (true-false (rw hit at h))
  | inr miss ↦ (k r miss, kept_all p P rows k (rw miss at h))
]

foreign : (a b : String) → (a == b) ≡ false → a ≡ b → ⊥
foreign a b h e = true-false (sym (==-refl b) ∙ ap (λ x. x == b) (sym e) ∙ h)

and_not : (a b : Bool) → (a && not b) ≡ false → a ≡ true → b ≡ true
and_not a b h e = ground arith

pub kept-Spared :
    (sha256 : String → String) (user_id : String) (token : Option String) (temporary_auth : Bool)
    (t : RefreshToken)
    → ended sha256 user_id token temporary_auth t ≡ false
    → t.user_id ≡ user_id
    → Spared sha256 token temporary_auth t
kept-Spared sha256 user_id token true t h mine = absurd (foreign t.user_id user_id h mine)
kept-Spared sha256 user_id token false t h mine = go (filled token) refl
  where
    go : (id : Option String) → filled token ≡ id → Spared sha256 token false t
    go none e = absurd (foreign t.user_id user_id (rw e at h) mine)
    go (some id) e = own id (filled-some token id e) (
        ==-true (
          and_not (t.user_id == user_id) (t.token_id_hash == sha256 id)
            (sym (ap (λ o. is_other_session sha256 user_id o t) e) ∙ h)
            (ap (λ x. x == user_id) mine ∙ ==-refl user_id)))
