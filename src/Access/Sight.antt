-- ===== src/Access/Sight.antt =====
-- How the statements of the access service change who sees a server.
use mathlib.Core.Option
use minepanel_backend.Common.{
  ℕ, String, ◌≡◌, ◌≢◌, refl, Bool, true, false, not, ◌&&◌, ◌||◌, Option, none, some, List, [], ◌∷◌,
  ◌++◌, find, filter, update, any, ◌==◌, ==-true, arith, inl, inr, Bool-cases, string_eq,
}
use minepanel_backend.Schema.{
  Server, ServerAccess, Role, admin, open_access, creating, pending, approved, role_eq,
  server_status_eq, access_type_eq, access_status_eq,
}
use minepanel_backend.Servers.Statements.{is_visible}
use minepanel_backend.Access.Statements.{is_access_of, is_pending_of, approve_row}

-- the subquery of the visibility predicate
abbrev pub is_granted : String → String → List ServerAccess → Bool
is_granted s u rows = any (λ a. a.user_id == u && a.server_id == s && a.status == approved) rows

-- A server that is not CREATING is visible to a user with a granted row.
pub granted-is_visible :
    (s u : String) (role : Role) (rows : List ServerAccess) (r : Server)
    → is_granted s u rows ≡ true
    → r.id ≡ s
    → r.status ≢ creating
    → is_visible (record { id = u; role = role }) rows r ≡ true
unfolding is_visible
granted-is_visible s u role rows r seen e alive = elim (Bool-cases (r.status == creating)) [
  | inl made ↦ absurd (alive (==-true made))
  | inr fine ↦ rw (fine, e, seen) (ground arith)
]

-- A restricted server is hidden from a user without a granted row who is no administrator.
pub ungranted-is_visible :
    (s u : String) (role : Role) (rows : List ServerAccess) (r : Server)
    → is_granted s u rows ≡ false
    → r.id ≡ s
    → r.access_type ≢ open_access
    → role ≢ admin
    → is_visible (record { id = u; role = role }) rows r ≡ false
unfolding is_visible
ungranted-is_visible s u role rows r unseen e closed plain = elim (Bool-cases (role == admin)) [
  | inl top ↦ absurd (plain (==-true top))
  | inr below ↦ elim (Bool-cases (r.access_type == open_access)) [
    | inl shown ↦ absurd (closed (==-true shown))
    | inr shut ↦ rw (below, shut, e, unseen) (ground arith)
  ]
]

pub approve_row-status :
    (now : ℕ) (o : Option ServerAccess) (row : ServerAccess)
    → Option.map (approve_row now) o ≡ some row
    → row.status ≡ approved
approve_row-status now none row h = absurd (cc)
approve_row-status now (some r) row h = ground (arith, h)

pending-grants :
    (s u : String) (now : ℕ) (r : ServerAccess)
    → is_pending_of s u r ≡ true
    → (r.user_id == u && r.server_id == s && approved == approved) ≡ true
pending-grants s u now r h = ground arith

module _ (s u : String) where
  pub approve-is_granted :
      (now : ℕ) (rs : List ServerAccess) (row : ServerAccess)
      → Option.map (approve_row now) (find (is_pending_of s u) rs) ≡ some row
      → is_granted s u (update (is_pending_of s u) (approve_row now) rs) ≡ true
  approve-is_granted now [] row h = absurd (cc)
  approve-is_granted now (r ∷ rs) row h = elim (Bool-cases (is_pending_of s u r)) [
    | inl hit ↦ rw hit (rw (pending-grants s u now r hit) refl)
    | inr miss ↦ rw miss (ground (arith, approve-is_granted now rs row (rw miss at h)))
  ]

  pub append-is_granted :
      (rs : List ServerAccess) (row : ServerAccess)
      → (row.user_id == u && row.server_id == s && row.status == approved) ≡ true
      → is_granted s u (rs ++ row ∷ []) ≡ true
  append-is_granted [] row h = rw h refl
  append-is_granted (r ∷ rs) row h = ground (arith, append-is_granted rs row h)

  pub delete-is_granted :
      (rs : List ServerAccess) → is_granted s u (filter (λ r. not (is_access_of s u r)) rs) ≡ false
  delete-is_granted [] = refl
  delete-is_granted (r ∷ rs) = ground (arith, delete-is_granted rs)

  pub absent-is_granted :
      (q : ServerAccess → Bool) (rs : List ServerAccess) (row : ServerAccess)
      → any (λ r. is_access_of s u r || q r) rs ≡ false
      → row.status ≡ pending
      → is_granted s u (rs ++ row ∷ []) ≡ false
  absent-is_granted q [] row h wait = ground (arith, wait)
  absent-is_granted q (r ∷ rs) row h wait = ground (arith, absent-is_granted q rs row)
