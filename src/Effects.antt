-- ===== src/Effects.antt =====
-- Handlers as actions. Between any two awaited calls of a handler other requests run, so each
-- database statement first lets the environment change the database.
pub mod Trace
pub mod Triples
pub mod Inversion
use minepanel_backend.Common.{
  ℕ, suc, String, Bool, true, false, Option, none, some, List, if◌then◌else◌,
}
use minepanel_backend.Http.{Exception, Result, ok, err}
use minepanel_backend.Schema.{Db}
use minepanel_backend.Memory.{Memory}
use minepanel_backend.Daemon.{
  Reply, ContainerConfig, InspectInfo, ContainerSummary, DockerInfo, Statfs, ExecState, JsNumber,
}

-- All that the handlers meet and do not compute. The first argument is the number of awaited calls
-- made before. `interfere` is what other requests did to the database since the last call, and
-- `interfere_locked` the same while this request holds an advisory lock.
pub record Env : Type 0 where
  pub interfere : ℕ → Db → Db
  pub interfere_locked : ℕ → Db → Db
  pub now : ℕ → ℕ
  pub uuid : ℕ → String
  pub config : String → Option String
  pub number : String → JsNumber
  pub resolve_path : String → String
  pub random_text : ℕ → ℕ → String
  pub hash_password : ℕ → String → String
  pub create : ℕ → ContainerConfig → Reply String
  pub start : ℕ → String → Reply (Unit {0})
  pub stop : ℕ → String → ℕ → Reply (Unit {0})
  pub remove : ℕ → String → Reply (Unit {0})
  pub inspect : ℕ → String → Reply InspectInfo
  pub list : ℕ → String → Reply (List ContainerSummary)
  pub exec : ℕ → String → List String → Reply ExecState
  pub info : ℕ → Reply (Option DockerInfo)
  pub statfs : ℕ → String → Reply Statfs
  -- what other requests did to the memory of the process while this one waited
  pub interfere_memory : ℕ → Memory → Memory

pub record World : Type 0 where
  pub db : Db
  pub memory : Memory
  pub tick : ℕ

-- What was written before a throw stays written, so the world comes back beside the error too.
abbrev pub M : Type 0 → Type 0
M A = World → Result A × World

module _ {A : Type 0} where
  pub pure : A → M A
  pure a w = (ok a, w)

  pub throw : Exception → M A
  throw e w = (err e, w)

  -- a validation that makes no awaited call
  pub lift : Result A → M A
  lift r w = (r, w)

  pub or_throw : Option A → Exception → M A
  or_throw none e w = (err e, w)
  or_throw (some a) e w = (ok a, w)

  abbrev recover : Result A → (Exception → M A) → M A
  recover (ok a) handler w = (ok a, w)
  recover (err e) handler w = handler e w

  -- `try { … } catch (error) { … }`
  pub try_catch : M A → (Exception → M A) → M A
  try_catch m handler w = let (r, w') = m w in recover r handler w'

-- `if (test) throw error;`
pub throw_if : Bool → Exception → M (Unit {0})
throw_if true e w = (err e, w)
throw_if false e w = (ok tt, w)

-- `if (!found) await cleanup();`
pub when_none : {A : Type 0} → Option A → M (Unit {0}) → M (Unit {0})
when_none none cleanup w = cleanup w
when_none (some _) cleanup w = (ok tt, w)

-- A change of the memory of the process: no other request runs meanwhile.
pub remember : {A : Type 0} → (Memory → A × Memory) → M A
remember f w = let (a, memory) = f w.memory in (ok a, record w { memory = memory })

module _ (env : Env) where
  -- `Date.now()`, and `now()` of the next statement
  pub clock : M ℕ
  clock w = (ok (env.now w.tick), w)

  pub fresh_id : M String
  fresh_id w = (ok (env.uuid w.tick), w)

  module _ {A : Type 0} where
    abbrev respond : World → A × Db → Result A × World
    respond w (a, db) =
        (ok a, record { db = db; memory = env.interfere_memory w.tick w.memory; tick = suc w.tick })

    -- One SQL statement: it sees what the others committed, and is atomic.
    pub statement : (Db → A × Db) → M A
    statement f w = respond w (f (env.interfere w.tick w.db))

    -- A statement of a transaction that holds the advisory lock.
    pub locked_statement : (Db → A × Db) → M A
    locked_statement f w = respond w (f (env.interfere_locked w.tick w.db))

    -- A query changes no table.
    abbrev pub query : (Db → A) → M A
    query f = statement λ db. (f db, db)

    abbrev pub locked_query : (Db → A) → M A
    locked_query f = locked_statement λ db. (f db, db)

    -- A call of the daemon: no table changes but by other requests.
    pub call : (ℕ → A) → M A
    call f w = (
      ok (f w.tick),
      record { db = w.db; memory = env.interfere_memory w.tick w.memory; tick = suc w.tick },
    )

module _ {A B : Type 0} where
  abbrev pub continue : Result A → (A → M B) → M B
  continue (ok a) f w = f a w
  continue (err e) f w = (err e, w)

  infixl 10 ◌>>=◌ ◌>>◌
  -- opening this opens every action of this file
  unfoldable pub ◌>>=◌ : M A → (A → M B) → M B
  unfolding pure throw lift or_throw try_catch throw_if when_none clock fresh_id statement
      locked_statement call remember
  ◌>>=◌ m f w = let (r, w') = m w in continue r f w'

  abbrev pub ◌>>◌ : M A → M B → M B
  m >> n = m >>= λ _. n
