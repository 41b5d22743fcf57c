-- ===== src/Auth/Identity/Inserted.antt =====
-- src/auth/identity.service.ts: the accounts that an identity creates, and how they are stored.
use mathlib.Core.List.{Mem, mem-cons_self, mem-cons_of_mem, mem-append_right}
use minepanel_backend.Common.{
  List, [], ◌∷◌, ◌++◌, any, Bool-cases, inl, inr, some-injective, String, ◌≡◌, refl, ap, subst,
  Bool, true, Option, none, some, find, ◌==◌, ==-true, if◌then◌else◌, string_eq, option_eq,
}
use minepanel_backend.Http.{Result, ok, err}
use minepanel_backend.Schema.{Db, User, user, UserStatus, active, pending}
use minepanel_backend.Text.{trim}
use minepanel_backend.Effects.{Env}
use minepanel_backend.Users.Statements.{is_taken_by, insert_user}
use minepanel_backend.Auth.Identity.{
  IdentityProvider, google, github, ProviderIdentity, provider_column, with_identity,
}

abbrev pub first_status : Env → UserStatus
first_status env = if env.config "REQUIRE_ADMIN_APPROVAL" == some "true" then pending else active

-- an account that an identity creates: it has the identity and the address, no password and no
-- rights
pub record IsNew (env : Env) (identity : ProviderIdentity) (u : User) : Type 0 where
  pub has_identity : provider_column identity.provider u ≡ some (trim identity.provider_id)
  pub has_email : u.email ≡ identity.email
  pub is_plain : u.role ≡ user
  pub has_status : u.status ≡ first_status env
  pub no_password : u.password_hash ≡ none

-- one write: such an account is added, or nothing is written
pub data Inserts (env : Env) (identity : ProviderIdentity) : Db → Db → Type 0 where
  unchanged : {db : Db} → Inserts env identity db db
  added :
      {db : Db} {u : User}
      → IsNew env identity u
      → Inserts env identity db (record db { users = db.users ++ u ∷ [] })

pub find-Mem : (p : User → Bool) (us : List User) (u : User) → find p us ≡ some u → Mem u us
find-Mem p [] u e = cc
find-Mem p (v ∷ us) u e = elim (Bool-cases (p v)) [
  | inl hit ↦ subst (λ x. Mem x (v ∷ us)) (some-injective (rw hit at e)) mem-cons_self
  | inr miss ↦ mem-cons_of_mem v (find-Mem p us u (rw miss at e))
]

-- what an insertion answers: the row, then there, or an error
unfoldable pub InsertedRow : User → Result User → Db → Type 0
InsertedRow row (ok u) db = (row ≡ u) × Mem u db.users
InsertedRow row (err e) db = Unit

pub insert_user-InsertedRow :
    (row : User) (db : Db) → InsertedRow row (insert_user row db).0 (insert_user row db).1
unfolding InsertedRow
insert_user-InsertedRow row db = elim (Bool-cases (any (is_taken_by row) db.users)) [
  | inl taken ↦ rw taken tt
  | inr free ↦ rw free (refl, mem-append_right db.users mem-cons_self)
]

pub insert_user-Inserts :
    (env : Env) (identity : ProviderIdentity) (row : User)
    → IsNew env identity row
    → (db : Db) → Inserts env identity db (insert_user row db).1
insert_user-Inserts env identity row new db = elim (Bool-cases (any (is_taken_by row) db.users)) [
  | inl taken ↦ rw taken unchanged
  | inr free ↦ rw free (added new)
]

pub option-==-true : (a b : Option String) → (a == b) ≡ true → a ≡ b
option-==-true none none h = refl
option-==-true none (some b) h = cc
option-==-true (some a) none h = cc
option-==-true (some a) (some b) h = ap some (==-true {a = a} {b = b} h)

pub with_identity-fields :
    (provider : IdentityProvider) (id : String) (u : User)
    → (provider_column provider (with_identity provider id u) ≡ some id)
      × ((with_identity provider id u).email ≡ u.email)
      × ((with_identity provider id u).role ≡ u.role)
      × ((with_identity provider id u).status ≡ u.status)
      × ((with_identity provider id u).password_hash ≡ u.password_hash)
with_identity-fields google id u = (refl, refl, refl, refl, refl)
with_identity-fields github id u = (refl, refl, refl, refl, refl)
