-- ===== src/Effects/Trace.antt =====
-- The writes of an action, one after the other, with what other requests do in between.
use minepanel_backend.Common.{
  String, ℕ, suc, ◌≡◌, refl, subst, arith, Bool, true, false, Option, none, some, if◌then◌else◌,
}
use minepanel_backend.Http.{Exception, Result, ok, err}
use minepanel_backend.Memory.{Memory}
use minepanel_backend.Schema.{Db}
use minepanel_backend.Effects.{
  Env, World, M, pure, throw, lift, or_throw, recover, try_catch, ◌>>=◌, continue, throw_if,
  when_none, clock, fresh_id, statement, locked_statement, call, remember,
}

-- Each statement is a turn of the other requests, then a step of `G`.
pub data Trace (env : Env) (G : Db → Db → Type 0) (u : World) : World → Type 0 where
  done : Trace env G u u
  free :
      {v : World} {db : Db}
      → Trace env G u v
      → G (env.interfere v.tick v.db) db
      → Trace env G u
          (record { db = db; memory = env.interfere_memory v.tick v.memory; tick = suc v.tick })
  locked :
      {v : World} {db : Db}
      → Trace env G u v
      → G (env.interfere_locked v.tick v.db) db
      → Trace env G u
          (record { db = db; memory = env.interfere_memory v.tick v.memory; tick = suc v.tick })
  called :
      {v : World}
      → Trace env G u v
      → Trace env G u
          (record { db = v.db; memory = env.interfere_memory v.tick v.memory; tick = suc v.tick })
  remembered :
      {v : World} {memory : Memory} → Trace env G u v → Trace env G u (record v { memory = memory })

-- Whatever the environment, the writes of `m` are steps of `G`, whether it returns or throws.
pub record Traces {A : Type 0} (env : Env) (G : Db → Db → Type 0) (m : M A) : Type 0 where
  pub at : (w : World) → Trace env G w (m w).1

-- What `m` returns satisfies `Q`.
pub record Returns {A : Type 0} (Q : A → Type 0) (m : M A) : Type 0 where
  pub at : (w : World) (a : A) → (m w).0 ≡ ok a → Q a

module _ {A : Type 0} (Q : A → Type 0) where
  pub Returns-or_throw :
      (o : Option A) (e : Exception) → ((a : A) → o ≡ some a → Q a) → Returns Q (or_throw o e)
  unfolding or_throw
  Returns-or_throw none e h = record { at = λ w a p. absurd (cc) }
  Returns-or_throw (some b) e h = record { at = λ w a p. h a (ground arith) }

  pub Returns-lift : (r : Result A) → ((a : A) → r ≡ ok a → Q a) → Returns Q (lift r)
  unfolding lift
  Returns-lift r h = record { at = λ w a p. h a p }

  pub Returns-pure : (a : A) → Q a → Returns Q (pure a)
  unfolding pure
  Returns-pure a h = record { at = λ w b p. subst Q (ground arith) h }

  pub Returns-throw : (e : Exception) → Returns Q (throw e)
  unfolding throw
  Returns-throw e = record { at = λ w b p. absurd (cc) }

  pub Returns-if :
      (b : Bool) (m n : M A)
      → (b ≡ true → Returns Q m)
      → (b ≡ false → Returns Q n)
      → Returns Q (if b then m else n)
  Returns-if true m n k l = k refl
  Returns-if false m n k l = l refl

  pub Returns-call : (env : Env) (f : ℕ → A) → ((n : ℕ) → Q (f n)) → Returns Q (call env f)
  unfolding call
  Returns-call env f h = record { at = λ w b p. subst Q (ground arith) (h w.tick) }

  recover-eq-ok :
      (r : Result A) (w : World) (handler : Exception → M A) (a : A)
      → ((b : A) → r ≡ ok b → Q b)
      → ((e : Exception) → Returns Q (handler e))
      → (recover r handler w).0 ≡ ok a
      → Q a
  recover-eq-ok (ok b) w handler a k h p = subst Q (ground arith) (k b refl)
  recover-eq-ok (err e) w handler a k h p = (h e).at w a p

  pub Returns-try_catch :
      (m : M A) (handler : Exception → M A)
      → Returns Q m
      → ((e : Exception) → Returns Q (handler e))
      → Returns Q (try_catch m handler)
  unfolding try_catch
  Returns-try_catch m handler k h = record {
    at = λ w a p. recover-eq-ok (m w).0 (m w).1 handler a (k.at w) h p;
  }

  continue-eq-ok :
      {B : Type 0} (r : Result B) (f : B → M A) (v : World) (a : A)
      → ((b : B) → Returns Q (f b))
      → (continue r f v).0 ≡ ok a
      → Q a
  continue-eq-ok (ok b) f v a h p = (h b).at v a p
  continue-eq-ok (err e) f v a h p = cc

  pub Returns-bind :
      {B : Type 0} (m : M B) (f : B → M A) → ((b : B) → Returns Q (f b)) → Returns Q (m >>= f)
  unfolding ◌>>=◌
  Returns-bind m f h = record { at = λ w a p. continue-eq-ok (m w).0 f (m w).1 a h p }

  continue-Returns-eq-ok :
      {B : Type 0} (R : B → Type 0) (r : Result B) (f : B → M A) (v : World) (a : A)
      → ((b : B) → r ≡ ok b → R b)
      → ((b : B) → R b → Returns Q (f b))
      → (continue r f v).0 ≡ ok a
      → Q a
  continue-Returns-eq-ok R (ok b) f v a k h p = (h b (k b refl)).at v a p
  continue-Returns-eq-ok R (err e) f v a k h p = cc

  pub Returns-bind-Returns :
      {B : Type 0} (R : B → Type 0) (m : M B) (f : B → M A)
      → Returns R m
      → ((b : B) → R b → Returns Q (f b))
      → Returns Q (m >>= f)
  unfolding ◌>>=◌
  Returns-bind-Returns R m f k h = record {
    at = λ w a p. continue-Returns-eq-ok R (m w).0 f (m w).1 a (k.at w) h p;
  }

pub Returns-fresh_id :
    (Q : String → Type 0) (env : Env) → ((n : ℕ) → Q (env.uuid n)) → Returns Q (fresh_id env)
unfolding fresh_id
Returns-fresh_id Q env h = record { at = λ w a p. subst Q (ground arith) (h w.tick) }

module _ {env : Env} {G : Db → Db → Type 0} where
  Trace-trans : {u v w : World} → Trace env G u v → Trace env G v w → Trace env G u w
  Trace-trans p done = p
  Trace-trans p (free q g) = free (Trace-trans p q) g
  Trace-trans p (locked q g) = locked (Trace-trans p q) g
  Trace-trans p (called q) = called (Trace-trans p q)
  Trace-trans p (remembered q) = remembered (Trace-trans p q)

  module _ {A : Type 0} where
    pub Traces-pure : (a : A) → Traces env G (pure a)
    unfolding pure
    Traces-pure a = record { at = λ w. done }

    pub Traces-throw : (e : Exception) → Traces {A = A} env G (throw e)
    unfolding throw
    Traces-throw e = record { at = λ w. done }

    pub Traces-lift : (r : Result A) → Traces env G (lift r)
    unfolding lift
    Traces-lift r = record { at = λ w. done }

    pub Traces-or_throw : (o : Option A) (e : Exception) → Traces env G (or_throw o e)
    unfolding or_throw
    Traces-or_throw none e = record { at = λ w. done }
    Traces-or_throw (some a) e = record { at = λ w. done }

    pub Traces-if :
        (b : Bool) (m n : M A) → Traces env G m → Traces env G n → Traces env G (if b then m else n)
    Traces-if true m n tm tn = tm
    Traces-if false m n tm tn = tn

    pub Traces-statement :
        (f : Db → A × Db) → ((db : Db) → G db (f db).1) → Traces env G (statement env f)
    unfolding statement
    Traces-statement f g = record { at = λ w. free done (g (env.interfere w.tick w.db)) }

    pub Traces-locked_statement :
        (f : Db → A × Db) → ((db : Db) → G db (f db).1) → Traces env G (locked_statement env f)
    unfolding locked_statement
    Traces-locked_statement f g = record {
      at = λ w. locked done (g (env.interfere_locked w.tick w.db));
    }

    pub Traces-call : (f : ℕ → A) → Traces env G (call env f)
    unfolding call
    Traces-call f = record { at = λ w. called done }

    pub Traces-remember : (f : Memory → A × Memory) → Traces env G (remember f)
    unfolding remember
    Traces-remember f = record { at = λ w. remembered done }

    recover-Trace :
        {u : World} (r : Result A) (v : World) (handler : Exception → M A)
        → Trace env G u v
        → ((e : Exception) → Traces env G (handler e))
        → Trace env G u (recover r handler v).1
    recover-Trace (ok a) v handler p th = p
    recover-Trace (err e) v handler p th = Trace-trans p ((th e).at v)

    pub Traces-try_catch :
        (m : M A) (handler : Exception → M A)
        → Traces env G m
        → ((e : Exception) → Traces env G (handler e))
        → Traces env G (try_catch m handler)
    unfolding try_catch
    Traces-try_catch m handler tm th = record {
      at = λ w. recover-Trace (m w).0 (m w).1 handler (tm.at w) th;
    }

  pub Traces-throw_if : (b : Bool) (e : Exception) → Traces env G (throw_if b e)
  unfolding throw_if
  Traces-throw_if true e = record { at = λ w. done }
  Traces-throw_if false e = record { at = λ w. done }

  pub Traces-when_none :
      {A : Type 0} (o : Option A) (cleanup : M (Unit {0}))
      → Traces env G cleanup
      → Traces env G (when_none o cleanup)
  unfolding when_none
  Traces-when_none none cleanup t = record { at = λ w. t.at w }
  Traces-when_none (some a) cleanup t = record { at = λ w. done }

  pub Traces-clock : Traces env G (clock env)
  unfolding clock
  Traces-clock = record { at = λ w. done }

  pub Traces-fresh_id : Traces env G (fresh_id env)
  unfolding fresh_id
  Traces-fresh_id = record { at = λ w. done }

  module _ {A B : Type 0} where
    continue-Trace :
        {u : World} (r : Result A) (v : World) (f : A → M B)
        → Trace env G u v
        → ((a : A) → Traces env G (f a))
        → Trace env G u (continue r f v).1
    continue-Trace (ok a) v f p tf = Trace-trans p ((tf a).at v)
    continue-Trace (err e) v f p tf = p

    continue_returns-Trace :
        {u : World} (Q : A → Type 0) (r : Result A) (v : World) (f : A → M B)
        → Trace env G u v
        → ((a : A) → r ≡ ok a → Q a)
        → ((a : A) → Q a → Traces env G (f a))
        → Trace env G u (continue r f v).1
    continue_returns-Trace Q (ok a) v f p q tf = Trace-trans p ((tf a (q a refl)).at v)
    continue_returns-Trace Q (err e) v f p q tf = p

    pub Traces-bind :
        (m : M A) (f : A → M B)
        → Traces env G m
        → ((a : A) → Traces env G (f a))
        → Traces env G (m >>= f)
    unfolding ◌>>=◌
    Traces-bind m f tm tf = record { at = λ w. continue-Trace (m w).0 (m w).1 f (tm.at w) tf }

    -- the same where the rest may use what `m` returns
    pub Traces-bind-Returns :
        (Q : A → Type 0) (m : M A) (f : A → M B)
        → Traces env G m
        → Returns Q m
        → ((a : A) → Q a → Traces env G (f a))
        → Traces env G (m >>= f)
    unfolding ◌>>=◌
    Traces-bind-Returns Q m f tm rm tf = record {
      at = λ w. continue_returns-Trace Q (m w).0 (m w).1 f (tm.at w) (rm.at w) tf;
    }

-- An invariant that the other requests keep, and each step of `G` keeps, holds to the end.
module _ {env : Env} {G : Db → Db → Type 0} (P : Db → Type 0)
    (free_keeps : (n : ℕ) (db : Db) → P db → P (env.interfere n db))
    (locked_keeps : (n : ℕ) (db : Db) → P db → P (env.interfere_locked n db))
    (step_keeps : (db db' : Db) → G db db' → P db → P db') where
  pub Trace-invariant : {u v : World} → Trace env G u v → P u.db → P v.db
  Trace-invariant done h = h
  Trace-invariant (free {v = v} {db = db} p g) h =
      step_keeps _ db g (free_keeps v.tick v.db (Trace-invariant p h))
  Trace-invariant (locked {v = v} {db = db} p g) h =
      step_keeps _ db g (locked_keeps v.tick v.db (Trace-invariant p h))
  Trace-invariant (called p) h = Trace-invariant p h
  Trace-invariant (remembered p) h = Trace-invariant p h

pub ruleset trace_rules = (
  Traces-pure, Traces-throw, Traces-lift, Traces-or_throw, Traces-if, Traces-call, Traces-try_catch,
  Traces-remember, Traces-throw_if, Traces-when_none, Traces-clock, Traces-fresh_id, Traces-bind,
)

pub Returns-statement :
    {A : Type 0} (Q : A → Type 0) (env : Env) (f : Db → A × Db)
    → ((db : Db) → Q (f db).0)
    → Returns Q (statement env f)
unfolding statement
Returns-statement Q env f h = record {
  at = λ w a p. subst Q (ground arith) (h (env.interfere w.tick w.db));
}

pub Returns-locked_statement :
    {A : Type 0} (Q : A → Type 0) (env : Env) (f : Db → A × Db)
    → ((db : Db) → Q (f db).0)
    → Returns Q (locked_statement env f)
unfolding locked_statement
Returns-locked_statement Q env f h = record {
  at = λ w a p. subst Q (ground arith) (h (env.interfere_locked w.tick w.db));
}

pub Returns-weaken :
    {A : Type 0} {P Q : A → Type 0} (m : M A) → Returns P m → ((a : A) → P a → Q a) → Returns Q m
Returns-weaken m h k = record { at = λ w a p. k a (h.at w a p) }
