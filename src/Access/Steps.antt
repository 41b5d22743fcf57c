-- ===== src/Access/Steps.antt =====
-- What the access service may write, as a relation between two states of the database.
use minepanel_backend.Common.{
  ℕ, max, ◌≤◌, String, ◌≡◌, ◌≢◌, refl, true, none, List, [], ◌∷◌, ◌++◌, length, filter, arith, ◌⊎◌,
  string_eq,
}
use minepanel_backend.Schema.{Db, ServerAccess, pending, approved, access_status_eq}
use minepanel_backend.Access.Statements.{is_access_of}

-- The check constraint of the table: a row has a date of approval if and only if it is approved.
abbrev pub IsDated : ServerAccess → Type 0
IsDated row =
    ((row.status ≡ pending) × (row.approved_at ≡ none))
    ⊎ ((row.status ≡ approved) × (row.approved_at ≢ none))

-- How many rows the pair of a server and a user has.
abbrev pub rows_of : String → String → List ServerAccess → ℕ
rows_of server_id user_id rows = length (filter (is_access_of server_id user_id) rows)

-- Only rows of the pair change: a pending row is approved, a row is removed, or one is added at the
-- end.
pub data RowsChange (server_id user_id : String)
    : List ServerAccess → List ServerAccess → Type 0 where
  nil : RowsChange server_id user_id [] []
  same :
      {r : ServerAccess} {rs rs' : List ServerAccess}
      → RowsChange server_id user_id rs rs'
      → RowsChange server_id user_id (r ∷ rs) (r ∷ rs')
  granted :
      {r r' : ServerAccess} {rs rs' : List ServerAccess}
      → is_access_of server_id user_id r ≡ true
      → r.status ≡ pending
      → r' ≡ record r { status = approved; approved_at = r'.approved_at }
      → r'.approved_at ≢ none
      → RowsChange server_id user_id rs rs'
      → RowsChange server_id user_id (r ∷ rs) (r' ∷ rs')
  removed :
      {r : ServerAccess} {rs rs' : List ServerAccess}
      → is_access_of server_id user_id r ≡ true
      → RowsChange server_id user_id rs rs'
      → RowsChange server_id user_id (r ∷ rs) rs'
  added :
      {r : ServerAccess}
      → is_access_of server_id user_id r ≡ true
      → IsDated r
      → RowsChange server_id user_id [] (r ∷ [])

pub record AccessStep (server_id user_id : String) (db db' : Db) : Type 0 where
  pub rows : RowsChange server_id user_id db.server_access db'.server_access
  -- no pair of a server and a user gets a second row
  pub single : (s u : String) → rows_of s u db'.server_access ≤ max 1 (rows_of s u db.server_access)
  pub rest : db' ≡ record db { server_access = db'.server_access }

module _ {server_id user_id : String} where
  RowsChange-refl : (rs : List ServerAccess) → RowsChange server_id user_id rs rs
  RowsChange-refl [] = nil
  RowsChange-refl (r ∷ rs) = same (RowsChange-refl rs)

  pub AccessStep-refl : (db : Db) → AccessStep server_id user_id db db
  AccessStep-refl db = record {
    rows = RowsChange-refl db.server_access;
    single = λ s u. omega arith;
    rest = refl;
  }

  pub append-RowsChange :
      (rs : List ServerAccess) (r : ServerAccess)
      → is_access_of server_id user_id r ≡ true
      → IsDated r
      → RowsChange server_id user_id rs (rs ++ r ∷ [])
  append-RowsChange [] r mine dated = added mine dated
  append-RowsChange (x ∷ rs) r mine dated = same (append-RowsChange rs r mine dated)
