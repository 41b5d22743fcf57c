-- ===== src/Admin/Counts.antt =====
-- How a change of one account changes the number of active administrators.
use minepanel_backend.Common.{
  ℕ, ◌+◌, ◌≤◌, String, ◌≡◌, ◌≢◌, refl, sym, subst, true, false, some, List, [], ◌∷◌, All, length,
  filter, find, update, ==-true, arith, inl, inr, Bool-cases, string_eq,
}
use minepanel_backend.Schema.{User, role_eq, user_status_eq}
use minepanel_backend.Admin.Statements.{is_user, is_active_admin}

-- The primary key: no two accounts share an id.
abbrev pub DistinctIds : List User → Type 0
DistinctIds [] = Unit
DistinctIds (u ∷ us) = All (λ v. v.id ≢ u.id) us × DistinctIds us

abbrev pub count_admins : List User → ℕ
count_admins us = length (filter is_active_admin us)

is_user-true : (id : String) (u : User) → is_user id u ≡ true → u.id ≡ id
is_user-true id u h = ==-true {a = u.id} {b = id} h

pub is_user-other :
    (id : String) (u v : User) → is_user id u ≡ true → v.id ≢ u.id → is_user id v ≡ false
is_user-other id u v h other = elim (Bool-cases (is_user id v)) [
  | inl hit ↦
      absurd (other (subst (λ x. v.id ≡ x) (sym (is_user-true id u h)) (is_user-true id v hit)))
  | inr miss ↦ miss
]

module _ (id : String) (f : User → User) where
  update-absent :
      (us : List User) (u : User)
      → is_user id u ≡ true
      → All (λ v. v.id ≢ u.id) us
      → update (is_user id) f us ≡ us
  update-absent [] u h others = refl
  update-absent (v ∷ us) u h others =
      rw (is_user-other id u v h others.0, update-absent us u h others.1) refl

  -- a change of one account loses one active administrator at most
  pub count-update-le :
      (us : List User)
      → DistinctIds us
      → count_admins us ≤ count_admins (update (is_user id) f us) + 1
  count-update-le [] d = omega arith
  count-update-le (u ∷ us) d = elim (Bool-cases (is_user id u)) [
    | inl hit ↦ rw (hit, update-absent us u hit d.0) (ground arith)
    | inr miss ↦ rw miss (ground (arith, count-update-le us d.1))
  ]

  -- a change that leaves the account an active administrator, if it was one, loses none
  pub count-update-found :
      (us : List User) (u : User)
      → DistinctIds us
      → find (is_user id) us ≡ some u
      → (is_active_admin u ≡ true → is_active_admin (f u) ≡ true)
      → count_admins us ≤ count_admins (update (is_user id) f us)
  count-update-found [] u d e keeps = omega arith
  count-update-found (v ∷ us) u d e keeps = elim (Bool-cases (is_user id v)) [
    | inl hit ↦
        let same : v ≡ u = ground (arith, hit) in
        let kept : is_active_admin v ≡ true → is_active_admin (f v) ≡ true =
          subst (λ x. is_active_admin x ≡ true → is_active_admin (f x) ≡ true) (sym same) keeps in
        rw (hit, update-absent us v hit d.0) (ground (arith, kept))
    | inr miss ↦ rw miss (ground (arith, count-update-found us u d.1 (rw miss at e) keeps))
  ]

  update-ids :
      ((u : User) → (f u).id ≡ u.id)
      → (us : List User) (x : String) → All (λ v. v.id ≢ x) us
      → All (λ v. v.id ≢ x) (update (is_user id) f us)
  update-ids keeps [] x h = tt
  update-ids keeps (v ∷ us) x h = elim (Bool-cases (is_user id v)) [
    | inl hit ↦ rw hit ((λ e. h.0 (subst (λ y. y ≡ x) (keeps v) e), update-ids keeps us x h.1))
    | inr miss ↦ rw miss ((h.0, update-ids keeps us x h.1))
  ]

  pub update-DistinctIds :
      ((u : User) → (f u).id ≡ u.id)
      → (us : List User) → DistinctIds us
      → DistinctIds (update (is_user id) f us)
  update-DistinctIds keeps [] d = tt
  update-DistinctIds keeps (v ∷ us) d = elim (Bool-cases (is_user id v)) [
    | inl hit ↦ rw hit (
        (
          subst (λ x. All (λ w. w.id ≢ x) (update (is_user id) f us)) (sym (keeps v))
              (update-ids keeps us v.id d.0),
          update-DistinctIds keeps us d.1,
        ))
    | inr miss ↦ rw miss ((update-ids keeps us v.id d.0, update-DistinctIds keeps us d.1))
  ]
