-- ===== src/Users/Statements.antt =====
-- src/users/users.service.ts and the sign-in code: SQL statements on accounts and sessions.
use mathlib.Core.Option
use minepanel_backend.Common.{
  ◌≡◌, ◌∙◌, sym, ap, inl, inr, Bool-cases, none≢some, String, Bool, false, not, ◌&&◌, ◌||◌, Option,
  none, some, [], ◌∷◌, ◌++◌, any, filter, find, update, ◌==◌, if◌then◌else◌, string_eq,
}
use minepanel_backend.Http.{Result, ok, err, database_error}
use minepanel_backend.Schema.{Db, User, RefreshToken}
use minepanel_backend.Admin.Statements.{is_user}

-- two values of a unique column clash, and no value clashes with none
abbrev pub clashes : Option String → Option String → Bool
clashes (some a) (some b) = a == b
clashes _ _ = false

abbrev pub is_taken_by : User → User → Bool
is_taken_by row u =
    u.id == row.id
    || u.email == row.email
    || u.username == row.username
    || clashes u.google_id row.google_id
    || clashes u.github_id row.github_id

-- INSERT INTO users
abbrev pub insert_user : User → Db → Result User × Db
insert_user row db =
    if any (is_taken_by row) db.users
    then (err (database_error "23505"), db)
    else (ok row, record db { users = db.users ++ row ∷ [] })

-- UPDATE users SET … WHERE … RETURNING, of at most one row
abbrev pub update_matching : (User → Bool) → (User → User) → Db → Option User × Db
update_matching p f db = (Option.map f (find p db.users), record db { users = update p f db.users })

-- the same for the unique name of an account
abbrev pub update_username : String → String → (User → User) → Db → Result (Option User) × Db
update_username user_id username f db =
    if any (λ u. not (is_user user_id u) && u.username == username) db.users
      && any (is_user user_id) db.users
    then (err (database_error "23505"), db)
    else let (row, db') = update_matching (is_user user_id) f db in (ok row, db')

-- DELETE FROM refresh_tokens WHERE …
abbrev pub delete_tokens : (RefreshToken → Bool) → Db → Unit {0} × Db
delete_tokens p db = (tt, record db { refresh_tokens = filter (λ t. not (p t)) db.refresh_tokens })

-- INSERT INTO refresh_tokens: id and hash are unique, the account exists
abbrev pub insert_token : RefreshToken → Db → Result (Unit {0}) × Db
insert_token row db =
    if any (λ t. t.id == row.id || t.token_id_hash == row.token_id_hash) db.refresh_tokens
    then (err (database_error "23505"), db)
    else if not (any (is_user row.user_id) db.users)
    then (err (database_error "23503"), db)
    else (ok tt, record db { refresh_tokens = db.refresh_tokens ++ row ∷ [] })

abbrev pub has_identifier : String → User → Bool
has_identifier identifier u = u.email == identifier || u.username == identifier

abbrev pub find_identified : String → Db → Option User
find_identified identifier db = find (has_identifier identifier) db.users

-- a column that holds a text other than the empty one
abbrev pub filled : Option String → Option String
filled none = none
filled (some text) = if text == "" then none else some text

pub filled-some : (column : Option String) (s : String) → filled column ≡ some s → column ≡ some s
filled-some none s h = cc
filled-some (some t) s h = elim (Bool-cases (t == "")) [
  | inl empty ↦ absurd (none≢some (sym (ap (λ b. if b then none else some t) empty) ∙ h))
  | inr full ↦ sym (ap (λ b. if b then none else some t) full) ∙ h
]
