-- ===== src/Access/Branches.antt =====
-- The branches of the attempts, for actions that return only with a row that satisfies `Q`.
use minepanel_backend.Common.{ℕ, zero, suc, ◌≡◌, refl, Option, none, some, string_eq}
use minepanel_backend.Http.{Exception}
use minepanel_backend.Schema.{
  Db, ServerAccess, ServerAccessStatus, pending, approved, access_status_eq,
}
use minepanel_backend.Effects.{Env, M, query}
use minepanel_backend.Effects.Triples.{Triple, Triple-pure, Triple-throw, Triple-statement}
use minepanel_backend.Access.{
  insert_settled, existing_settled, approve_existing, approve_absent, found_or_absent,
}

abbrev pub True : Db → Type 0
True db = Unit {0}

abbrev pub Thrown : Exception → Db → Type 0
Thrown e db = Unit {0}

abbrev pub IfSome : (ServerAccess → Db → Type 0) → Option ServerAccess → Db → Type 0
IfSome Q found db = (row : ServerAccess) → found ≡ some row → Q row db

module _ (env : Env) (Q : ServerAccess → Db → Type 0) where
  pub Triple-read : {A : Type 0} (f : Db → A) → Triple True (query env f) (λ _. True) Thrown
  Triple-read f = Triple-statement env _ (λ n db h. tt)

  pub Triple-insert_settled :
      (o : Option ServerAccess) (rest : M ServerAccess)
      → Triple True rest Q Thrown
      → Triple (IfSome Q o) (insert_settled env o rest) Q Thrown
  Triple-insert_settled (some row) rest t = Triple-pure row (λ db h. h row refl)
  Triple-insert_settled none rest t = record { at = λ w h. t.at w tt }

  pub Triple-existing_settled :
      (o : Option ServerAccess) (rest : M ServerAccess)
      → Triple True rest Q Thrown
      → Triple True (existing_settled env o rest) Q Thrown
  Triple-existing_settled (some row) rest t = Triple-throw _ (λ db h. tt)
  Triple-existing_settled none rest t = t

  pub Triple-approve_existing :
      (status : ServerAccessStatus) (left : ℕ) (again : M ServerAccess)
      → Triple True again Q Thrown
      → Triple True (approve_existing env status left again) Q Thrown
  Triple-approve_existing approved left again t = Triple-throw _ (λ db h. tt)
  Triple-approve_existing pending zero again t = Triple-throw _ (λ db h. tt)
  Triple-approve_existing pending (suc left) again t = t

  pub Triple-approve_absent :
      (left : ℕ) (last again : M ServerAccess)
      → Triple True last Q Thrown
      → Triple True again Q Thrown
      → Triple True (approve_absent env left last again) Q Thrown
  Triple-approve_absent zero last again tl ta = tl
  Triple-approve_absent (suc left) last again tl ta = ta

  pub Triple-found_or_absent :
      (o : Option ServerAccess) (found : ServerAccess → M ServerAccess) (absent : M ServerAccess)
      → ((row : ServerAccess) → Triple True (found row) Q Thrown)
      → Triple True absent Q Thrown
      → Triple True (found_or_absent env o found absent) Q Thrown
  Triple-found_or_absent (some row) found absent tf ta = tf row
  Triple-found_or_absent none found absent tf ta = ta
