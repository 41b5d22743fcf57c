-- ===== src/Effects/Inversion.antt =====
-- What a handler that returned did on its way.
use minepanel_backend.Common.{
  ℕ, suc, ◌≡◌, refl, ◌∙◌, if◌then◌else◌, Bool, true, false, Option, none, some,
}
use minepanel_backend.Http.{Exception, Result, ok, err}
use minepanel_backend.Memory.{Memory}
use minepanel_backend.Schema.{Db}
use minepanel_backend.Effects.{
  Env, World, M, pure, throw, lift, or_throw, throw_if, clock, statement, call, remember, ◌>>=◌,
  continue,
}

module _ {A : Type 0} where
  continue-ok :
      {B : Type 0} (r : Result B) (f : B → M A) (v : World) (a : A)
      → (continue r f v).0 ≡ ok a
      → (b : B) × (r ≡ ok b) × ((f b v).0 ≡ ok a)
  continue-ok (ok b) f v a h = (b, refl, h)
  continue-ok (err e) f v a h = cc

  -- both parts of a sequence returned
  pub bind-ok :
      {B : Type 0} (m : M B) (f : B → M A) (w : World) (a : A)
      → ((m >>= f) w).0 ≡ ok a
      → (b : B) × ((m w).0 ≡ ok b) × ((f b (m w).1).0 ≡ ok a)
  unfolding ◌>>=◌
  bind-ok m f w a h = continue-ok (m w).0 f (m w).1 a h

  -- the same, for a goal that does not depend on the value
  pub bind-elim :
      {B X : Type 0} (m : M B) (f : B → M A) (w : World) (a : A)
      → ((m >>= f) w).0 ≡ ok a
      → ((b : B) → (m w).0 ≡ ok b → (f b (m w).1).0 ≡ ok a → X)
      → X
  bind-elim m f w a h k = let (b, first, rest) = bind-ok m f w a h in k b first rest

  pub or_throw-ok :
      (o : Option A) (e : Exception) (w : World) (a : A) → (or_throw o e w).0 ≡ ok a → o ≡ some a
  unfolding or_throw
  or_throw-ok none e w a h = cc
  or_throw-ok (some b) e w a h = cc

  pub or_throw-world : (o : Option A) (e : Exception) (w : World) → (or_throw o e w).1 ≡ w
  unfolding or_throw
  or_throw-world none e w = refl
  or_throw-world (some a) e w = refl

  pub lift-ok : (r : Result A) (w : World) (a : A) → (lift r w).0 ≡ ok a → r ≡ ok a
  unfolding lift
  lift-ok r w a h = h

  pub lift-world : (r : Result A) (w : World) → (lift r w).1 ≡ w
  unfolding lift
  lift-world r w = refl

  pub pure-ok : (b : A) (w : World) (a : A) → (pure b w).0 ≡ ok a → b ≡ a
  unfolding pure
  pure-ok b w a h = cc

  pub throw-ok : (e : Exception) (w : World) (a : A) → (throw e w).0 ≡ ok a → ⊥
  unfolding throw
  throw-ok e w a h = cc

  pub call-ok : (env : Env) (f : ℕ → A) (w : World) (a : A) → (call env f w).0 ≡ ok a → f w.tick ≡ a
  unfolding call
  call-ok env f w a h = cc

  pub statement-ok :
      (env : Env) (f : Db → A × Db) (w : World) (a : A)
      → (statement env f w).0 ≡ ok a
      → (f (env.interfere w.tick w.db)).0 ≡ a
  unfolding statement
  statement-ok env f w a h = cc

module _ {A : Type 0} (env : Env) where
  pub statement-tick : (f : Db → A × Db) (w : World) → (statement env f w).1.tick ≡ suc w.tick
  unfolding statement
  statement-tick f w = refl

  pub call-tick : (f : ℕ → A) (w : World) → (call env f w).1.tick ≡ suc w.tick
  unfolding call
  call-tick f w = refl

pub throw_if-ok :
    (b : Bool) (e : Exception) (w : World) (u : Unit {0}) → (throw_if b e w).0 ≡ ok u → b ≡ false
unfolding throw_if
throw_if-ok true e w u h = cc
throw_if-ok false e w u h = refl

pub throw_if-world :
    (b : Bool) (e : Exception) (w : World) (u : Unit {0})
    → (throw_if b e w).0 ≡ ok u
    → (throw_if b e w).1 ≡ w
unfolding throw_if
throw_if-world true e w u h = cc
throw_if-world false e w u h = refl

pub clock-ok : (env : Env) (w : World) (t : ℕ) → (clock env w).0 ≡ ok t → env.now w.tick ≡ t
unfolding clock
clock-ok env w t h = cc

-- `m` leaves the tables as they are, and no statement of it waits.
pub record KeepsDb {A : Type 0} (m : M A) : Type 0 where
  pub at : (w : World) → (m w).1.db ≡ w.db

module _ {A : Type 0} where
  continue-KeepsDb :
      {B : Type 0} (r : Result B) (f : B → M A) (v : World)
      → ((b : B) → KeepsDb (f b))
      → (continue r f v).1.db ≡ v.db
  continue-KeepsDb (ok b) f v k = (k b).at v
  continue-KeepsDb (err e) f v k = refl

  pub KeepsDb-bind :
      {B : Type 0} (m : M B) (f : B → M A)
      → KeepsDb m
      → ((b : B) → KeepsDb (f b))
      → KeepsDb (m >>= f)
  unfolding ◌>>=◌
  KeepsDb-bind m f k l = record { at = λ w. continue-KeepsDb (m w).0 f (m w).1 l ∙ k.at w }

  pub KeepsDb-pure : (a : A) → KeepsDb (pure a)
  unfolding pure
  KeepsDb-pure a = record { at = λ w. refl }

  pub KeepsDb-lift : (r : Result A) → KeepsDb (lift r)
  unfolding lift
  KeepsDb-lift r = record { at = λ w. refl }

  pub KeepsDb-remember : (f : Memory → A × Memory) → KeepsDb (remember f)
  unfolding remember
  KeepsDb-remember f = record { at = λ w. refl }

  pub KeepsDb-call : (env : Env) (f : ℕ → A) → KeepsDb (call env f)
  unfolding call
  KeepsDb-call env f = record { at = λ w. refl }

  pub KeepsDb-if : (b : Bool) (m n : M A) → KeepsDb m → KeepsDb n → KeepsDb (if b then m else n)
  KeepsDb-if true m n k l = k
  KeepsDb-if false m n k l = l

pub KeepsDb-clock : (env : Env) → KeepsDb (clock env)
unfolding clock
KeepsDb-clock env = record { at = λ w. refl }
