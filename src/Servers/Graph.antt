-- ===== src/Servers/Graph.antt =====
-- The documented lifecycle (docs/servers.md, State machine) as a relation between two states of the
-- database, independent of the code.
pub mod Writes
pub mod Parts
pub mod Requests
pub mod Creation
pub mod Reach
use minepanel_backend.Common.{
  ℕ, String, ◌≡◌, ◌≢◌, Bool, true, false, Option, none, some, List, [], ◌∷◌, ◌++◌,
}
use minepanel_backend.Schema.{
  Db, Server, ServerStatus, stopped, creating, starting, running, stopping, error,
}

-- The arrows of the diagram: create, start, stop, restart, delete, and how each can fail.
abbrev pub is_arrow : ServerStatus → ServerStatus → Bool
is_arrow creating creating = true
is_arrow creating running = true
is_arrow creating error = true
is_arrow stopped starting = true
is_arrow stopped stopping = true
is_arrow starting running = true
is_arrow starting stopped = true
is_arrow starting error = true
is_arrow running stopping = true
is_arrow stopping starting = true
is_arrow stopping stopped = true
is_arrow stopping running = true
is_arrow stopping error = true
is_arrow _ _ = false

-- A row is deleted in these states alone.
abbrev pub is_deletable : ServerStatus → Bool
is_deletable creating = true
is_deletable stopping = true
is_deletable _ = false

-- The states that speak of a container.
abbrev pub needs_container : ServerStatus → Bool
needs_container starting = true
needs_container running = true
needs_container _ = false

-- Only the lifecycle columns differ.
abbrev pub SameSettings : Server → Server → Type 0
SameSettings r r' =
    r' ≡ record r { status = r'.status; container_id = r'.container_id; updated_at = r'.updated_at }

pub record Moves (r r' : Server) : Type 0 where
  pub arrow : is_arrow r.status r'.status ≡ true
  pub settings : SameSettings r r'
  pub provisioned : needs_container r'.status ≡ true → r'.container_id ≢ none

-- The table changes only at rows whose id satisfies `T`.
pub data RowsStep (T : String → Type 0) : List Server → List Server → Type 0 where
  nil : RowsStep T [] []
  same : {r : Server} {rs rs' : List Server} → RowsStep T rs rs' → RowsStep T (r ∷ rs) (r ∷ rs')
  moved :
      {r r' : Server} {rs rs' : List Server}
      → T r.id
      → Moves r r'
      → RowsStep T rs rs'
      → RowsStep T (r ∷ rs) (r' ∷ rs')
  removed :
      {r : Server} {rs rs' : List Server}
      → T r.id
      → is_deletable r.status ≡ true
      → RowsStep T rs rs'
      → RowsStep T (r ∷ rs) rs'
  inserted : {r : Server} → T r.id → r.status ≡ creating → RowsStep T [] (r ∷ [])

-- Some of the rows that satisfy `P` are gone.
pub data Drops {A : Type 0} (P : A → Type 0) : List A → List A → Type 0 where
  nil : Drops P [] []
  kept : {a : A} {xs xs' : List A} → Drops P xs xs' → Drops P (a ∷ xs) (a ∷ xs')
  dropped : {a : A} {xs xs' : List A} → P a → Drops P xs xs' → Drops P (a ∷ xs) xs'

abbrev pub IsScoped : (String → Type 0) → Option String → Type 0
IsScoped T none = ⊥
IsScoped T (some id) = T id

-- One write of the lifecycle: the deletion of a server takes its access rows and the permissions
-- scoped to it along, and the other tables stay.
pub record LifecycleStep (T : String → Type 0) (db db' : Db) : Type 0 where
  pub rows : RowsStep T db.servers db'.servers
  pub access : Drops (λ a. T a.server_id) db.server_access db'.server_access
  pub permissions : Drops (λ m. IsScoped T m.server_id) db.mod_permissions db'.mod_permissions
  pub rest : db' ≡ record db {
    servers = db'.servers;
    server_access = db'.server_access;
    mod_permissions = db'.mod_permissions;
  }
