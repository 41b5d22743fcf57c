-- ===== src/Users/Conditional.antt =====
-- src/users/ and src/auth/: a change of one account under a condition that the change ends.
use mathlib.Core.Option
use minepanel_backend.Common.{
  String, ◌≡◌, ◌≢◌, refl, Option, none, sym, subst, ◌∙◌, Bool, true, false, some, List, [], ◌∷◌,
  All, any, find, find-holds, update, Bool-cases, some-injective, true-false, inl, inr,
}
use minepanel_backend.Schema.{User}
use minepanel_backend.Admin.Statements.{is_user}
use minepanel_backend.Admin.Counts.{DistinctIds, is_user-other}

pub map-some :
    {A B : Type 0} (f : A → B) (o : Option A) (b : B)
    → Option.map f o ≡ some b
    → (a : A) × (o ≡ some a) × (f a ≡ b)
map-some f none b e = absurd (cc)
map-some f (some a) b e = (a, refl, some-injective e)

module _ {A : Type 0} (p q : A → Bool) (f : A → A) where
  -- no row is left that satisfies `q`, if every row that does not satisfy `p` fails it, and every
  -- changed row does
  pub any-update-false :
      ((a : A) → p a ≡ true → q (f a) ≡ false)
      → (rows : List A) → All (λ a. p a ≡ false → q a ≡ false) rows
      → any q (update p f rows) ≡ false
  any-update-false changed [] kept = refl
  any-update-false changed (a ∷ rows) kept = elim (Bool-cases (p a)) [
    | inl hit ↦ rw (hit, changed a hit) (any-update-false changed rows kept.1)
    | inr miss ↦ rw (miss, kept.0 miss) (any-update-false changed rows kept.1)
  ]

every : {A : Type 0} (P : A → Type 0) → ((a : A) → P a) → (rows : List A) → All P rows
every P h [] = tt
every P h (a ∷ rows) = (h a, every P h rows)

-- a change after which its own condition fails
pub any-update-own :
    {A : Type 0} (p : A → Bool) (f : A → A)
    → ((a : A) → p a ≡ true → p (f a) ≡ false)
    → (rows : List A) → any p (update p f rows) ≡ false
any-update-own p f ended rows = any-update-false p p f ended rows (every _ (λ a miss. miss) rows)

module _ (id : String) (p q : User → Bool) (f : User → User)
    (of_p : (u : User) → p u ≡ true → is_user id u ≡ true)
    (of_q : (u : User) → is_user id u ≡ false → q u ≡ false) where
  others-false :
      (r : User) (us : List User)
      → is_user id r ≡ true
      → All (λ v. v.id ≢ r.id) us
      → All (λ v. p v ≡ false → q v ≡ false) us
  others-false r [] mine others = tt
  others-false r (v ∷ us) mine others =
      ((λ miss. of_q v (is_user-other id r v mine others.0)), others-false r us mine others.1)

  found-id :
      (us : List User) (r : User) (x : String)
      → All (λ v. v.id ≢ x) us
      → find p us ≡ some r
      → r.id ≢ x
  found-id [] r x others e = cc
  found-id (v ∷ us) r x others e = elim (Bool-cases (p v)) [
    | inl hit ↦
        let same : v ≡ r = some-injective (rw hit at e) in subst (λ u. u.id ≢ x) same others.0
    | inr miss ↦ found-id us r x others.1 (rw miss at e)
  ]

  found-false :
      (us : List User) (r : User)
      → DistinctIds us
      → is_user id r ≡ true
      → find p us ≡ some r
      → All (λ v. p v ≡ false → q v ≡ false) us
  found-false [] r d mine e = tt
  found-false (v ∷ us) r d mine e = elim (Bool-cases (p v)) [
    | inl hit ↦ ((λ miss. absurd (true-false (sym hit ∙ miss))), others-false v us (of_p v hit) d.0)
    | inr miss ↦
        let later = rw miss at e in
        (
          (λ m.
              of_q v (is_user-other id r v mine (λ same. found-id us r v.id d.0 later (sym same)))),
          found-false us r d.1 mine later,
        )
  ]

  -- where the change of one account found it, no row satisfies `q` any more
  pub update-found-false :
      ((u : User) → p u ≡ true → q (f u) ≡ false)
      → (us : List User) (r : User) → DistinctIds us
      → find p us ≡ some r
      → any q (update p f us) ≡ false
  update-found-false changed us r d e =
      any-update-false p q f changed us (found-false us r d (of_p r (find-holds p us r e)) e)
