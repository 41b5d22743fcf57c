-- ===== src/Setup/Once.antt =====
-- src/setup/setup.service.ts: after the first administrator there is no other.
use minepanel_backend.Common.{
  ℕ, String, ◌≡◌, sym, ◌∙◌, Bool, true, false, Option, none, some, List, [], ◌∷◌, any, find, arith,
}
use minepanel_backend.Http.{Exception}
use minepanel_backend.Auth.Dto.{CreateUserDto}
use minepanel_backend.Schema.{Db, SetupState}
use minepanel_backend.Effects.{Env, M, or_throw}
use minepanel_backend.Effects.Triples.{
  Triple, Triple-bind, Triple-lift_ok, Triple-or_throw, Triple-statement, Triple-locked_statement,
  Triple-call, Triple-clock, Triple-throw_if,
}
use minepanel_backend.Setup.{is_singleton, insert_setup_state, create_admin, init_admin_register}

abbrev pub is_created : Option SetupState → Bool
is_created none = false
is_created (some s) = s.initial_admin_created

-- the table says that the first administrator exists
abbrev pub IsComplete : Db → Type 0
IsComplete db = is_created (find is_singleton db.setup_state) ≡ true

-- the setup is complete and the database has the property `K`
abbrev pub Holds : (Db → Type 0) → Db → Type 0
Holds K db = IsComplete db × K db

-- other requests do not reset the setup, and keep the property
pub record Keeps (env : Env) (K : Db → Type 0) : Type 0 where
  pub free : (n : ℕ) (db : Db) → Holds K db → Holds K (env.interfere n db)
  pub locked : (n : ℕ) (db : Db) → Holds K db → Holds K (env.interfere_locked n db)

any-singleton :
    (rows : List SetupState)
    → is_created (find is_singleton rows) ≡ true
    → any is_singleton rows ≡ true
any-singleton [] h = cc
any-singleton (s ∷ rows) h = ground (arith, any-singleton rows)

-- nothing is inserted where the row is there
insert_setup_state-Holds :
    (K : Db → Type 0) (now : ℕ) (db : Db) → Holds K db → Holds K (insert_setup_state now db).1
insert_setup_state-Holds K now db h = rw (any-singleton db.setup_state h.0) h

abbrev pub Never : {A : Type 0} → A → Db → Type 0
Never a db = ⊥

true-false : true ≡ false → ⊥
true-false h = cc

from-Never :
    {A : Type 0} (m : M A) (Q : A → Db → Type 0) (E : Exception → Db → Type 0)
    → Triple (λ db. ⊥) m Q E
from-Never m Q E = record { at = λ w p. absurd p }

same_state : {s a : SetupState} → Option.some s ≡ some a → a ≡ s
same_state h = cc

abbrev pub Refused : (Db → Type 0) → Exception → Db → Type 0
Refused K e db = Holds K db

module _ (env : Env) (digest : String → String) (K : Db → Type 0) (keeps : Keeps env K) where
  Triple-found :
      (found : Option SetupState) (e : Exception)
      → Triple
          (λ db. (is_created found ≡ true) × Holds K db)
          (or_throw found e)
          (λ s db. (s.initial_admin_created ≡ true) × Holds K db)
          (Refused K)
  Triple-found none e =
      Triple-or_throw _ _ (λ a same db h. absurd (true-false (sym h.0))) (λ db h. h.1)
  Triple-found (some s) e =
      Triple-or_throw _ _ (λ a same db h. (rw (same_state same) h.0, h.1)) (λ db h. h.1)

  Triple-create_admin :
      (dto : CreateUserDto) (hash : String)
      → Triple (Holds K) (create_admin env digest dto hash) Never (Refused K)
  unfolding create_admin
  Triple-create_admin dto hash =
      Triple-bind (λ _. Holds K) _ _ (Triple-clock env)
        λ now.
          Triple-bind (λ _. Holds K) _ _
            (Triple-locked_statement env _ (λ n db h.
              insert_setup_state-Holds K now (env.interfere_locked n db) (keeps.locked n db h)))
            λ _.
              Triple-bind (λ found db. (is_created found ≡ true) × Holds K db) _ _
                (Triple-locked_statement env _
                  (λ n db h. ((keeps.locked n db h).0, keeps.locked n db h)))
                λ found.
                  Triple-bind (λ s db. (s.initial_admin_created ≡ true) × Holds K db) _ _
                    (Triple-found found _)
                    λ state.
                      Triple-bind (λ _ db. ⊥) _ _
                        (Triple-throw_if _ _ (λ b db h. h.1) (λ b db h. true-false (sym h.0 ∙ b)))
                        λ _. from-Never _ Never (Refused K)

-- Once the setup is complete every call is refused, whatever its token, and writes nothing: the
-- setup stays complete, and whatever else holds of the database, its accounts included, and is kept
-- by the other requests still holds after the call, as long as none of them resets the setup.
pub init_admin_register-Refused :
    (env : Env) (digest : String → String) (K : Db → Type 0)
    → Keeps env K
    → (bootstrap : Option String) (dto : CreateUserDto) (setup_token : Option String)
    → Triple (Holds K) (init_admin_register env digest bootstrap dto setup_token) Never (Refused K)
unfolding init_admin_register
init_admin_register-Refused env digest K keeps bootstrap dto setup_token =
    Triple-bind (λ _. Holds K) _ _ (Triple-lift_ok _ (λ a e db h. h) (λ e db h. h))
      λ _.
        Triple-bind (λ _. Holds K) _ _ (Triple-lift_ok _ (λ a e db h. h) (λ e db h. h))
          λ _.
            Triple-bind (λ _. Holds K) _ _ (Triple-call env _ (λ n db h. h))
              λ hash.
                Triple-bind (λ _. Holds K) _ _ (Triple-statement env _ keeps.free)
                  λ _. Triple-create_admin env digest K keeps dto hash
