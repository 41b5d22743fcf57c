-- ===== src/Auth/Login/BackupCodes.antt =====
-- src/auth/auth.service.ts: a list of backup codes lets in one of the requests that read it.
use mathlib.Core.Option
use minepanel_backend.Common.{
  ℕ, ◌<◌, String, ◌≡◌, ◌≢◌, refl, sym, ap, ◌∙◌, subst, Bool, true, false, not, ◌&&◌, none, some,
  is_some, List, [], ◌∷◌, any, filter, find, length, length-filter-le, All, arith, ◌==◌, ==-refl,
  ==-true, Bool-cases, true-false, some-injective, inl, inr, string_eq, option_eq,
}
use minepanel_backend.Http.{Result, ok, err}
use minepanel_backend.Schema.{Db, User}
use minepanel_backend.Effects.{Env, World}
use minepanel_backend.Effects.Triples.{
  Triple, Post, Triple-pure, Triple-bind, Triple-if, Triple-statement, Triple-call, Triple-clock,
  Post-ok,
}
use minepanel_backend.Admin.Statements.{is_user}
use minepanel_backend.Users.Conditional.{any-update-own}
use minepanel_backend.Users.Statements.{filled}
use minepanel_backend.Auth.Libraries.{Libraries}
use minepanel_backend.Auth.RefreshTokenTtl.{RefreshTokenTtl}
use minepanel_backend.Auth.Login.SecondFactor.{
  codes_of, consume_backup_code, try_backup_codes, verify_and_consume_backup_code,
}

-- the account still has the stored list
abbrev pub holds_codes : String → String → User → Bool
holds_codes id stored r = is_user id r && r.totp_backup_codes == some stored

abbrev pub IsReplaced : String → String → Db → Type 0
IsReplaced id stored db = any (holds_codes id stored) db.users ≡ false

-- Other requests never bring a replaced list back.
abbrev pub KeepsReplaced : Env → String → String → Type 0
KeepsReplaced env id stored =
    (n : ℕ) (db : Db) → IsReplaced id stored db → IsReplaced id stored (env.interfere n db)

-- `JSON.parse` reads back what `JSON.stringify` prints of a list of texts.
abbrev pub ParsesPrinted : Libraries → Type 0
ParsesPrinted lib =
    (codes : List String) → codes_of (lib.parse_json (lib.stringify codes)) ≡ some codes

without : String → List String → List String
without code codes = filter (λ c. not (c == code)) codes

without-shorter :
    (code : String) (codes : List String)
    → any (λ c. c == code) codes ≡ true
    → length (without code codes) < length codes
unfolding without
without-shorter code [] h = cc
without-shorter code (c ∷ cs) h = elim (Bool-cases (c == code)) [
  | inl hit ↦
      rw hit (let shorter = length-filter-le (λ x. not (x == code)) cs in omega (arith, shorter))
  | inr miss ↦
      rw miss (let shorter = without-shorter code cs (rw miss at h) in omega (arith, shorter))
]

irreflexive : (n : ℕ) → n < n → ⊥
irreflexive n h = omega (arith, h)

find-false : {A : Type 0} (p : A → Bool) (rows : List A) → any p rows ≡ false → find p rows ≡ none
find-false p [] h = refl
find-false p (r ∷ rows) h = elim (Bool-cases (p r)) [
  | inl hit ↦ absurd (true-false (rw hit at h))
  | inr miss ↦ rw miss (find-false p rows (rw miss at h))
]

module _ (lib : Libraries) (stored : String) (codes : List String) (prints : ParsesPrinted lib)
    (read : codes_of (lib.parse_json stored) ≡ some codes) where
  -- the list that is written back differs from the stored one
  printed-other :
      (code : String)
      → any (λ c. c == code) codes ≡ true
      → lib.stringify (without code codes) ≢ stored
  printed-other code inside same =
      let shorter = without-shorter code codes inside in
      let equal : without code codes ≡ codes =
        some-injective
          (sym (prints (without code codes)) ∙ ap (λ s. codes_of (lib.parse_json s)) same ∙ read) in
      absurd (irreflexive _ (subst (λ cs. length cs < length codes) equal shorter))

  module _ (env : Env) (ttl : RefreshTokenTtl) (u : User) where
    abbrev Ends : Bool → Db → Type 0
    Ends b db = b ≡ true → IsReplaced u.id stored db

    replaced :
        (code : String) (now : ℕ)
        → any (λ c. c == code) codes ≡ true
        → (r : User) → holds_codes u.id stored r ≡ true
        → holds_codes u.id stored (record r {
          totp_backup_codes = some (lib.stringify (without code codes));
          updated_at = now;
        })
          ≡ false
    replaced code now inside r h =
        elim (Bool-cases (lib.stringify (without code codes) == stored)) [
          | inl same ↦ absurd (printed-other code inside (==-true same))
          | inr other ↦ rw other (ground arith)
        ]

    Triple-consume_backup_code :
        (code : String)
        → any (λ c. c == code) codes ≡ true
        → Triple
            (λ db. Unit)
            (consume_backup_code env lib ttl u stored codes code)
            Ends
            (λ e db. Unit)
    unfolding consume_backup_code without
    Triple-consume_backup_code code inside =
        Triple-bind (λ now db. Unit) _ _ (Triple-clock env)
          λ now.
            Triple-bind (λ found. IsReplaced u.id stored) _ _
              (Triple-statement env _
                (λ n db h. any-update-own (holds_codes u.id stored) _ (replaced code now inside) _))
              λ found. Triple-pure _ (λ db h e. h)

    Triple-try_backup_codes :
        (token : String) (left : List String)
        → All (λ code. any (λ c. c == code) codes ≡ true) left
        → Triple
            (λ db. Unit)
            (try_backup_codes env lib ttl u token stored codes left)
            Ends
            (λ e db. Unit)
    unfolding try_backup_codes
    Triple-try_backup_codes token [] inside =
        Triple-pure false (λ db h e. absurd (true-false (sym e)))
    Triple-try_backup_codes token (code ∷ left) inside =
        Triple-bind (λ matches db. Unit) _ _ (Triple-call env _ (λ n db h. tt))
          λ matches.
            Triple-if matches _ _ (λ hit. Triple-consume_backup_code code inside.0)
              (λ miss. Triple-try_backup_codes token left inside.1)

    -- a list that is not stored any more lets nobody in
    abbrev Fails : Bool → Db → Type 0
    Fails b db = b ≡ false

    module _ (keeps : KeepsReplaced env u.id stored) where
      Triple-consume-IsReplaced :
          (code : String)
          → Triple
              (IsReplaced u.id stored)
              (consume_backup_code env lib ttl u stored codes code)
              Fails
              (λ e db. ⊥)
      unfolding consume_backup_code
      Triple-consume-IsReplaced code =
          Triple-bind (λ now. IsReplaced u.id stored) _ _ (Triple-clock env)
            λ now.
              Triple-bind (λ found db. found ≡ none) _ _
                (Triple-statement env _ (λ n db h.
                  ap (Option.map _) (find-false (holds_codes u.id stored) _ (keeps n db h))))
                λ found. Triple-pure _ (λ db h. ap is_some h)

      Triple-try-IsReplaced :
          (token : String) (left : List String)
          → Triple
              (IsReplaced u.id stored)
              (try_backup_codes env lib ttl u token stored codes left)
              Fails
              (λ e db. ⊥)
      unfolding try_backup_codes
      Triple-try-IsReplaced token [] = Triple-pure false (λ db h. refl)
      Triple-try-IsReplaced token (code ∷ left) =
          Triple-bind (λ matches. IsReplaced u.id stored) _ _ (Triple-call env _ (λ n db h. h))
            λ matches.
              Triple-if matches _ _ (λ hit. Triple-consume-IsReplaced code)
                (λ miss. Triple-try-IsReplaced token left)

any_mono :
    (code d : String) (cs : List String)
    → any (λ c. c == code) cs ≡ true
    → any (λ c. c == code) (d ∷ cs) ≡ true
any_mono code d cs h = ground arith

All-any-cons :
    (d : String) (cs left : List String)
    → All (λ code. any (λ c. c == code) cs ≡ true) left
    → All (λ code. any (λ c. c == code) (d ∷ cs) ≡ true) left
All-any-cons d cs [] h = tt
All-any-cons d cs (code ∷ left) h = (any_mono code d cs h.0, All-any-cons d cs left h.1)

All-self : (codes : List String) → All (λ code. any (λ c. c == code) codes ≡ true) codes
All-self [] = tt
All-self (c ∷ cs) = (rw (==-refl c) refl, All-any-cons c cs cs (All-self cs))

fails : (r : Result Bool) (db : Db) → Post (λ b db. b ≡ false) (λ e db. ⊥) r db → r ≡ ok false
fails (ok b) db h = ap ok h
fails (err e) db h = absurd h

-- Where parsing reads back what was printed: of the requests that read the same list of backup codes
-- of an account, one at most gets in with a code of it. Once one did, every other is refused, with
-- whatever code, as long as the others in between never write the old list back.
pub verify_and_consume_backup_code-once :
    (env : Env) (lib : Libraries) (ttl : RefreshTokenTtl) (u : User) (token other stored : String)
    (codes : List String) (w : World)
    → ParsesPrinted lib
    → filled u.totp_backup_codes ≡ some stored
    → codes_of (lib.parse_json stored) ≡ some codes
    → KeepsReplaced env u.id stored
    → (verify_and_consume_backup_code env lib ttl u token w).0 ≡ ok true
    → (verify_and_consume_backup_code env lib ttl u other
        (verify_and_consume_backup_code env lib ttl u token w).1).0
      ≡ ok false
unfolding verify_and_consume_backup_code
verify_and_consume_backup_code-once env lib ttl u token other stored codes w prints has read keeps =
    rw (has, read)
      (λ done.
        let after = (try_backup_codes env lib ttl u token stored codes codes w).1 in
        fails _ _ (
          (Triple-try-IsReplaced lib stored codes prints read env ttl u keeps other codes).at after
            (Post-ok _ _ _ after.db true
              ((Triple-try_backup_codes lib stored codes prints read env ttl u token codes
                  (All-self codes)).at
                w tt)
              done refl)))
