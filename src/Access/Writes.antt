-- ===== src/Access/Writes.antt =====
-- Each SQL statement of the access service is such a step.
use minepanel_backend.Common.{
  ℕ, max, ◌+◌, ◌≤◌, String, ◌≡◌, refl, sym, Bool, true, false, not, ◌&&◌, ◌||◌, List, [], ◌∷◌, ◌++◌,
  filter, any, update, ◌==◌, ==-true, ==-refl, arith, inl, inr, Bool-cases, string_eq,
}
use minepanel_backend.Schema.{Db, ServerAccess, pending, access_status_eq}
use minepanel_backend.Access.Statements.{
  is_access_of, is_pending_of, approve_row, insert_access, approve_rows, delete_rows,
}
use minepanel_backend.Access.Steps.{
  IsDated, rows_of, RowsChange, nil, same, granted, removed, AccessStep, AccessStep-refl,
  append-RowsChange,
}

true-false : true ≡ false → ⊥
true-false h = cc

or-left : (a b : Bool) → (a || b) ≡ false → a ≡ false
or-left a b h = ground arith

rows_of-absent :
    (s u : String) (q : ServerAccess → Bool) (rs : List ServerAccess)
    → any (λ r. is_access_of s u r || q r) rs ≡ false
    → rows_of s u rs ≡ 0
rows_of-absent s u q [] h = refl
rows_of-absent s u q (r ∷ rs) h = elim (Bool-cases (is_access_of s u r || q r)) [
  | inl hit ↦ absurd (true-false (rw hit at h))
  | inr miss ↦ rw (or-left (is_access_of s u r) (q r) miss) (rows_of-absent s u q rs (rw miss at h))
]

rows_of-append :
    (s u : String) (rs : List ServerAccess) (row : ServerAccess)
    → rows_of s u (rs ++ row ∷ []) ≡ rows_of s u rs + rows_of s u (row ∷ [])
rows_of-append s u [] row = omega arith
rows_of-append s u (r ∷ rs) row = ground (arith, rows_of-append s u rs row)

rows_of-filter :
    (s u : String) (p : ServerAccess → Bool) (rs : List ServerAccess)
    → rows_of s u (filter p rs) ≤ rows_of s u rs
rows_of-filter s u p [] = omega arith
rows_of-filter s u p (r ∷ rs) = ground (arith, rows_of-filter s u p rs)

rows_of-approve :
    (s u : String) (p : ServerAccess → Bool) (now : ℕ) (rs : List ServerAccess)
    → rows_of s u (update p (approve_row now) rs) ≡ rows_of s u rs
rows_of-approve s u p now [] = refl
rows_of-approve s u p now (r ∷ rs) = ground (arith, rows_of-approve s u p now rs)

same_pair :
    (s u : String) (row : ServerAccess)
    → is_access_of s u row ≡ true
    → (s ≡ row.server_id) × (u ≡ row.user_id)
same_pair s u row h = (
  sym (==-true {a = row.server_id} {b = s} (ground arith)),
  sym (==-true {a = row.user_id} {b = u} (ground arith)),
)

insert-single :
    (q : ServerAccess → Bool) (rs : List ServerAccess) (row : ServerAccess)
    → any (λ r. is_access_of row.server_id row.user_id r || q r) rs ≡ false
    → (s u : String) → rows_of s u (rs ++ row ∷ []) ≤ max 1 (rows_of s u rs)
insert-single q rs row free s u = elim (Bool-cases (is_access_of s u row)) [
  | inl hit ↦
      let (es, eu) = same_pair s u row hit in
      let gone : rows_of s u rs ≡ 0 =
        rw (es, eu) (rows_of-absent row.server_id row.user_id q rs free) in
      let one : rows_of s u (row ∷ []) ≡ 1 = rw hit refl in
      omega (arith, rows_of-append s u rs row, gone, one)
  | inr miss ↦
      let zero : rows_of s u (row ∷ []) ≡ 0 = rw miss refl in
      omega (arith, rows_of-append s u rs row, zero)
]

mine_refl : (row : ServerAccess) → is_access_of row.server_id row.user_id row ≡ true
mine_refl row = rw (==-refl row.server_id, ==-refl row.user_id) refl

pub insert_access-step :
    (row : ServerAccess)
    → IsDated row
    → (db : Db) → AccessStep row.server_id row.user_id db (insert_access row db).1
insert_access-step row dated db =
    elim (Bool-cases
      (any (λ r. is_access_of row.server_id row.user_id r || r.id == row.id) db.server_access)) [
        | inl taken ↦ rw taken (AccessStep-refl db)
        | inr free ↦
            elim (Bool-cases (
              any (λ r. r.id == row.server_id) db.servers
              && any (λ u. u.id == row.user_id) db.users)) [
                | inl known ↦
                    rw (free, known)
                      (record {
                        rows = append-RowsChange db.server_access row (mine_refl row) dated;
                        single = insert-single _ db.server_access row free;
                        rest = refl;
                      })
                | inr unknown ↦ rw (free, unknown) (AccessStep-refl db)
              ]
      ]

module _ (server_id user_id : String) where
  approve-RowsChange :
      (now : ℕ) (rs : List ServerAccess)
      → RowsChange server_id user_id rs
          (update (is_pending_of server_id user_id) (approve_row now) rs)
  approve-RowsChange now [] = nil
  approve-RowsChange now (r ∷ rs) = elim (Bool-cases (is_pending_of server_id user_id r)) [
    | inl hit ↦ rw hit (
        granted (ground arith) (==-true {a = r.status} {b = pending} (ground arith)) refl (λ e. cc)
          (approve-RowsChange now rs))
    | inr miss ↦ rw miss (same (approve-RowsChange now rs))
  ]

  delete-RowsChange :
      (rs : List ServerAccess)
      → RowsChange server_id user_id rs (filter (λ r. not (is_access_of server_id user_id r)) rs)
  delete-RowsChange [] = nil
  delete-RowsChange (r ∷ rs) = elim (Bool-cases (is_access_of server_id user_id r)) [
    | inl hit ↦ rw hit (removed hit (delete-RowsChange rs))
    | inr miss ↦ rw miss (same (delete-RowsChange rs))
  ]

  pub approve_rows-step :
      (now : ℕ) (db : Db)
      → AccessStep server_id user_id db (approve_rows server_id user_id now db).1
  approve_rows-step now db = record {
    rows = approve-RowsChange now db.server_access;
    single = λ s u.
        omega (arith, rows_of-approve s u (is_pending_of server_id user_id) now db.server_access);
    rest = refl;
  }

  pub delete_rows-step :
      (db : Db) → AccessStep server_id user_id db (delete_rows server_id user_id db).1
  delete_rows-step db = record {
    rows = delete-RowsChange db.server_access;
    single = λ s u.
        omega (
          arith,
          rows_of-filter s u (λ r. not (is_access_of server_id user_id r)) db.server_access,
        );
    rest = refl;
  }
