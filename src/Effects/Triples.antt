-- ===== src/Effects/Triples.antt =====
-- Hoare triples over the database, for what an action keeps from one statement to the next.
use minepanel_backend.Common.{
  ℕ, ◌≡◌, ◌≢◌, ◌⊎◌, inl, inr, refl, sym, subst, arith, Bool, true, false, Option, none, some,
  if◌then◌else◌,
}
use minepanel_backend.Http.{Exception, Result, ok, err}
use minepanel_backend.Memory.{Memory}
use minepanel_backend.Schema.{Db}
use minepanel_backend.Effects.{
  Env, World, M, pure, throw, lift, or_throw, recover, try_catch, ◌>>=◌, continue, throw_if,
  when_none, clock, fresh_id, statement, locked_statement, call, remember,
}
use minepanel_backend.Effects.Trace.{Traces, Trace-invariant}

abbrev pub Post :
    {A : Type 0} → (A → Db → Type 0) → (Exception → Db → Type 0) → Result A → Db → Type 0
Post Q E (ok a) db = Q a db
Post Q E (err e) db = E e db

-- From a database that satisfies `P`, `m` returns with `Q` or throws with `E`.
pub record Triple {A : Type 0} (P : Db → Type 0) (m : M A) (Q : A → Db → Type 0)
    (E : Exception → Db → Type 0) : Type 0 where
  pub at : (w : World) → P w.db → Post Q E (m w).0 (m w).1.db

module _ {A : Type 0} {Q : A → Db → Type 0} {E : Exception → Db → Type 0} where
  recover-Post :
      {R : Exception → Db → Type 0} (r : Result A) (v : World) (handler : Exception → M A)
      → Post Q R r v.db
      → ((e : Exception) → Triple (R e) (handler e) Q E)
      → Post Q E (recover r handler v).0 (recover r handler v).1.db
  recover-Post (ok a) v handler p th = p
  recover-Post (err e) v handler p th = (th e).at v p

  continue-Post :
      {B : Type 0} (R : B → Db → Type 0) (r : Result B) (v : World) (f : B → M A)
      → Post R E r v.db
      → ((b : B) → Triple (R b) (f b) Q E)
      → Post Q E (continue r f v).0 (continue r f v).1.db
  continue-Post R (ok b) v f p tf = (tf b).at v p
  continue-Post R (err e) v f p tf = p

module _ {A : Type 0} {P : Db → Type 0} {Q : A → Db → Type 0} {E : Exception → Db → Type 0} where
  pub Triple-pure : (a : A) → ((db : Db) → P db → Q a db) → Triple P (pure a) Q E
  unfolding pure
  Triple-pure a h = record { at = λ w p. h w.db p }

  pub Triple-throw : (e : Exception) → ((db : Db) → P db → E e db) → Triple P (throw e) Q E
  unfolding throw
  Triple-throw e h = record { at = λ w p. h w.db p }

  pub Triple-lift : (r : Result A) → ((db : Db) → P db → Post Q E r db) → Triple P (lift r) Q E
  unfolding lift
  Triple-lift r h = record { at = λ w p. h w.db p }

  pub Triple-lift_ok :
      (r : Result A)
      → ((a : A) → r ≡ ok a → (db : Db) → P db → Q a db)
      → ((e : Exception) (db : Db) → P db → E e db)
      → Triple P (lift r) Q E
  unfolding lift
  Triple-lift_ok (ok a) h k = record { at = λ w p. h a refl w.db p }
  Triple-lift_ok (err e) h k = record { at = λ w p. k e w.db p }

  pub Triple-or_throw :
      (o : Option A) (e : Exception)
      → ((a : A) → o ≡ some a → (db : Db) → P db → Q a db)
      → ((db : Db) → P db → E e db)
      → Triple P (or_throw o e) Q E
  unfolding or_throw
  Triple-or_throw none e h k = record { at = λ w p. k w.db p }
  Triple-or_throw (some a) e h k = record { at = λ w p. h a refl w.db p }

  pub Triple-statement :
      (env : Env) (f : Db → A × Db)
      → ((n : ℕ) (db : Db) → P db → Q (f (env.interfere n db)).0 (f (env.interfere n db)).1)
      → Triple P (statement env f) Q E
  unfolding statement
  Triple-statement env f h = record { at = λ w p. h w.tick w.db p }

  pub Triple-locked_statement :
      (env : Env) (f : Db → A × Db)
      → ((n : ℕ) (db : Db)
          → P db
          → Q (f (env.interfere_locked n db)).0 (f (env.interfere_locked n db)).1)
      → Triple P (locked_statement env f) Q E
  unfolding locked_statement
  Triple-locked_statement env f h = record { at = λ w p. h w.tick w.db p }

  pub Triple-call :
      (env : Env) (f : ℕ → A) → ((n : ℕ) (db : Db) → P db → Q (f n) db) → Triple P (call env f) Q E
  unfolding call
  Triple-call env f h = record { at = λ w p. h w.tick w.db p }

  pub Triple-remember :
      (f : Memory → A × Memory)
      → ((memory : Memory) (db : Db) → P db → Q (f memory).0 db)
      → Triple P (remember f) Q E
  unfolding remember
  Triple-remember f h = record { at = λ w p. h w.memory w.db p }

  pub Triple-try_catch :
      (R : Exception → Db → Type 0) (m : M A) (handler : Exception → M A)
      → Triple P m Q R
      → ((e : Exception) → Triple (R e) (handler e) Q E)
      → Triple P (try_catch m handler) Q E
  unfolding try_catch
  Triple-try_catch R m handler tm th = record {
    at = λ w p. recover-Post (m w).0 (m w).1 handler (tm.at w p) th;
  }

  pub Triple-bind :
      {B : Type 0} (R : B → Db → Type 0) (m : M B) (f : B → M A)
      → Triple P m R E
      → ((b : B) → Triple (R b) (f b) Q E)
      → Triple P (m >>= f) Q E
  unfolding ◌>>=◌
  Triple-bind R m f tm tf = record { at = λ w p. continue-Post R (m w).0 (m w).1 f (tm.at w p) tf }

module _ {P : Db → Type 0} {E : Exception → Db → Type 0} (env : Env) where
  pub Triple-clock : Triple P (clock env) (λ _. P) E
  unfolding clock
  Triple-clock = record { at = λ w p. p }

  pub Triple-fresh_id : Triple P (fresh_id env) (λ _. P) E
  unfolding fresh_id
  Triple-fresh_id = record { at = λ w p. p }

module _ {P : Db → Type 0} {Q : Unit {0} → Db → Type 0} {E : Exception → Db → Type 0} where
  pub Triple-throw_if :
      (b : Bool) (e : Exception)
      → (b ≡ true → (db : Db) → P db → E e db)
      → (b ≡ false → (db : Db) → P db → Q tt db)
      → Triple P (throw_if b e) Q E
  unfolding throw_if
  Triple-throw_if true e h k = record { at = λ w p. h refl w.db p }
  Triple-throw_if false e h k = record { at = λ w p. k refl w.db p }

pub Post-either :
    {A : Type 0} (P : Db → Type 0) (r : Result A) (db : Db) → Post (λ _. P) (λ _. P) r db → P db
Post-either P (ok a) db p = p
Post-either P (err e) db p = p

pub Post-ok :
    {A : Type 0} (Q : A → Db → Type 0) (E : Exception → Db → Type 0) (r : Result A) (db : Db)
    (a : A)
    → Post Q E r db
    → r ≡ ok a
    → Q a db
Post-ok Q E (ok b) db a p e = subst (λ x. Q x db) (ground arith) p
Post-ok Q E (err x) db a p e = absurd (cc)

weaken :
    {A : Type 0} {Q Q' : A → Db → Type 0} {E E' : Exception → Db → Type 0} (r : Result A) (db : Db)
    → Post Q E r db
    → ((a : A) (db : Db) → Q a db → Q' a db)
    → ((e : Exception) (db : Db) → E e db → E' e db)
    → Post Q' E' r db
weaken (ok a) db p hq he = hq a db p
weaken (err e) db p hq he = he e db p

both : {A : Type 0} (P : Db → Type 0) (r : Result A) (db : Db) → P db → Post (λ _. P) (λ _. P) r db
both P (ok a) db p = p
both P (err e) db p = p

module _ {A : Type 0} {P : Db → Type 0} where
  pub Triple-weaken :
      {Q Q' : A → Db → Type 0} {E E' : Exception → Db → Type 0} (m : M A)
      → Triple P m Q E
      → ((a : A) (db : Db) → Q a db → Q' a db)
      → ((e : Exception) (db : Db) → E e db → E' e db)
      → Triple P m Q' E'
  Triple-weaken m t hq he = record { at = λ w p. weaken (m w).0 (m w).1.db (t.at w p) hq he }

  -- an action that changes no table keeps what the others keep
  pub Triple-read_only :
      (env : Env) (m : M A)
      → Traces env (λ db db'. db' ≡ db) m
      → ((n : ℕ) (db : Db) → P db → P (env.interfere n db))
      → ((n : ℕ) (db : Db) → P db → P (env.interfere_locked n db))
      → Triple P m (λ _. P) (λ _. P)
  Triple-read_only env m t free locked = record {
    at = λ w p.
        both P (m w).0 (m w).1.db
          (Trace-invariant P free locked (λ db db' e h. subst P (sym e) h) (t.at w) p);
  }

pub Triple-when_none :
    {A : Type 0} {P : Db → Type 0} {Q : Unit {0} → Db → Type 0} {E : Exception → Db → Type 0}
    (o : Option A) (cleanup : M (Unit {0}))
    → (o ≢ none → (db : Db) → P db → Q tt db)
    → (o ≡ none → Triple P cleanup Q E)
    → Triple P (when_none o cleanup) Q E
unfolding when_none
Triple-when_none none cleanup h k = record { at = λ w p. (k refl).at w p }
Triple-when_none (some a) cleanup h k = record { at = λ w p. h (λ e. cc) w.db p }

-- `or_throw` of what is known to be there
pub Triple-there :
    {A : Type 0} {P : Db → Type 0} {Q : A → Db → Type 0} {E : Exception → Db → Type 0}
    (o : Option A) (e : Exception)
    → ((db : Db) → P db → o ≢ none)
    → ((a : A) → o ≡ some a → (db : Db) → P db → Q a db)
    → Triple P (or_throw o e) Q E
unfolding or_throw
Triple-there none e h k = record { at = λ w p. absurd (h w.db p refl) }
Triple-there (some a) e h k = record { at = λ w p. k a refl w.db p }

pub Triple-given :
    {A X : Type 0} {P : Db → Type 0} {Q : A → Db → Type 0} {E : Exception → Db → Type 0} (m : M A)
    → (X → Triple P m Q E)
    → Triple (λ db. P db × X) m Q E
Triple-given m t = record { at = λ w h. (t h.1).at w h.0 }

pub Triple-either :
    {A : Type 0} {P P' : Db → Type 0} {Q : A → Db → Type 0} {E : Exception → Db → Type 0} (m : M A)
    → Triple P m Q E
    → Triple P' m Q E
    → Triple (λ db. P db ⊎ P' db) m Q E
Triple-either m t t' = record { at = λ w h. elim h [ inl p ↦ t.at w p | inr p ↦ t'.at w p ] }

pub Triple-if :
    {A : Type 0} {P : Db → Type 0} {Q : A → Db → Type 0} {E : Exception → Db → Type 0} (b : Bool)
    (m n : M A)
    → (b ≡ true → Triple P m Q E)
    → (b ≡ false → Triple P n Q E)
    → Triple P (if b then m else n) Q E
Triple-if true m n k l = k refl
Triple-if false m n k l = l refl

Post-Unit : {A : Type 0} (r : Result A) (db : Db) → Post (λ a db. Unit {0}) (λ e db. Unit {0}) r db
Post-Unit (ok a) db = tt
Post-Unit (err e) db = tt

-- what holds of the tables after the second action whatever they were, holds after both
pub Triple-after :
    {A B : Type 0} {Q : A → Db → Type 0} (m : M B) (f : B → M A)
    → ((b : B) → Triple (λ db. Unit {0}) (f b) Q (λ e db. Unit {0}))
    → Triple (λ db. Unit {0}) (m >>= f) Q (λ e db. Unit {0})
Triple-after m f h =
    Triple-bind (λ b db. Unit) m f (record { at = λ w p. Post-Unit (m w).0 (m w).1.db }) h
