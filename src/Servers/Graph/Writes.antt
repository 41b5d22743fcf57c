-- ===== src/Servers/Graph/Writes.antt =====
-- Each SQL statement of the lifecycle is a step of the documented graph.
use minepanel_backend.Common.{
  ℕ, String, ◌≡◌, ◌≢◌, refl, sym, subst, ◌∙◌, Bool, true, false, not, Option, none, some, List, [],
  ◌∷◌, ◌++◌, arith, inl, inr, update, filter, any, ◌==◌, ==-true, Bool-cases, string_eq, option_eq,
  ◌&&◌, ◌||◌, eq_iff, nat_eq,
}
use minepanel_backend.Schema.{Db, Server, ServerStatus, creating, error, server_status_eq}
use minepanel_backend.Effects.{Env, statement, query, locked_query}
use minepanel_backend.Effects.Trace.{
  Traces, Traces-bind, Traces-clock, Traces-statement, Traces-locked_statement,
}
use minepanel_backend.Servers.Statements.{
  nonempty, claims, moved_to, update_servers, delete_servers, is_deleted, is_deleted_scope,
  insert_server, transition, transition_in_tx, claim_container_id, delete_in_status,
}
use minepanel_backend.Servers.Graph.{
  is_arrow, is_deletable, needs_container, Moves, RowsStep, Drops, kept, dropped, IsScoped, nil,
  same, moved, removed, inserted, LifecycleStep,
}

pub false-true : false ≡ true → ⊥
false-true e = cc

Drops-refl : {A : Type 0} {P : A → Type 0} (xs : List A) → Drops P xs xs
Drops-refl [] = Drops.nil
Drops-refl (x ∷ xs) = kept (Drops-refl xs)

filter-Drops :
    {A : Type 0} (P : A → Type 0) (q : A → Bool)
    → ((a : A) → q a ≡ true → P a)
    → (xs : List A) → Drops P xs (filter (λ a. not (q a)) xs)
filter-Drops P q gone [] = Drops.nil
filter-Drops P q gone (x ∷ xs) = elim (Bool-cases (q x)) [
  | inl hit ↦ rw hit (dropped (gone x hit) (filter-Drops P q gone xs))
  | inr miss ↦ rw miss (kept (filter-Drops P q gone xs))
]

module _ (T : String → Type 0) (p : Server → Bool) (here : (r : Server) → p r ≡ true → T r.id) where
  deleted-T : (rs : List Server) (id : String) → is_deleted p rs id ≡ true → T id
  deleted-T [] id h = absurd (false-true h)
  deleted-T (r ∷ rs) id h = elim (Bool-cases (p r && r.id == id)) [
    | inl hit ↦ subst T (==-true {a = r.id} {b = id} (ground arith)) (here r (ground arith))
    | inr miss ↦ deleted-T rs id (rw miss at h)
  ]

  IsScoped-T :
      (rs : List Server) (scope : Option String)
      → is_deleted_scope p rs scope ≡ true
      → IsScoped T scope
  IsScoped-T rs none h = false-true h
  IsScoped-T rs (some id) h = deleted-T rs id h

module _ {T : String → Type 0} where
  RowsStep-refl : (rs : List Server) → RowsStep T rs rs
  RowsStep-refl [] = nil
  RowsStep-refl (r ∷ rs) = same (RowsStep-refl rs)

  pub stay : (db : Db) → LifecycleStep T db db
  stay db = record {
    rows = RowsStep-refl db.servers;
    access = Drops-refl db.server_access;
    permissions = Drops-refl db.mod_permissions;
    rest = refl;
  }

  module _ (p : Server → Bool) (f : Server → Server) (here : (r : Server) → p r ≡ true → T r.id)
      (go : (r : Server) → p r ≡ true → Moves r (f r)) where
    update-RowsStep : (rs : List Server) → RowsStep T rs (update p f rs)
    update-RowsStep [] = nil
    update-RowsStep (r ∷ rs) = elim (Bool-cases (p r)) [
      | inl hit ↦ rw hit (moved (here r hit) (go r hit) (update-RowsStep rs))
      | inr miss ↦ rw miss (same (update-RowsStep rs))
    ]

    pub update_servers-step : (db : Db) → LifecycleStep T db (update_servers p f db).1
    update_servers-step db = record {
      rows = update-RowsStep db.servers;
      access = Drops-refl db.server_access;
      permissions = Drops-refl db.mod_permissions;
      rest = refl;
    }

  module _ (p : Server → Bool) (here : (r : Server) → p r ≡ true → T r.id)
      (dead : (r : Server) → p r ≡ true → is_deletable r.status ≡ true) where
    filter-RowsStep : (rs : List Server) → RowsStep T rs (filter (λ r. not (p r)) rs)
    filter-RowsStep [] = nil
    filter-RowsStep (r ∷ rs) = elim (Bool-cases (p r)) [
      | inl hit ↦ rw hit (removed (here r hit) (dead r hit) (filter-RowsStep rs))
      | inr miss ↦ rw miss (same (filter-RowsStep rs))
    ]

    pub delete_servers-step : (db : Db) → LifecycleStep T db (delete_servers p db).1
    delete_servers-step db = record {
      rows = filter-RowsStep db.servers;
      access =
          filter-Drops _ _ (λ a h. deleted-T T p here db.servers a.server_id h) db.server_access;
      permissions =
          filter-Drops _ _ (λ m h. IsScoped-T T p here db.servers m.server_id h) db.mod_permissions;
      rest = refl;
    }

  append-RowsStep :
      (rs : List Server) (r : Server) → T r.id → r.status ≡ creating → RowsStep T rs (rs ++ r ∷ [])
  append-RowsStep [] r t e = inserted t e
  append-RowsStep (x ∷ rs) r t e = same (append-RowsStep rs r t e)

  pub insert_server-step :
      (r : Server)
      → T r.id
      → r.status ≡ creating
      → (db : Db) → LifecycleStep T db (insert_server r db).1
  insert_server-step r t e db =
      elim (Bool-cases (any (λ x. x.port == r.port || x.id == r.id) db.servers)) [
        | inl taken ↦ rw taken (stay db)
        | inr free ↦ elim (Bool-cases (any (λ u. u.id == r.owner_id) db.users)) [
          | inl known ↦
              rw (free, known)
                (record {
                  rows = append-RowsStep db.servers r t e;
                  access = Drops-refl db.server_access;
                  permissions = Drops-refl db.mod_permissions;
                  rest = refl;
                })
          | inr unknown ↦ rw (free, unknown) (stay db)
        ]
      ]

claims-id :
    (id : String) (s : ServerStatus) (c : Option String) (r : Server)
    → claims id s c r ≡ true
    → r.id ≡ id
claims-id id s c r h = ground (arith, eq_iff r.id id)

claims-status :
    (id : String) (s : ServerStatus) (c : Option String) (r : Server)
    → claims id s c r ≡ true
    → r.status ≡ s
claims-status id s c r h = ==-true (ground arith)

claims-container :
    (id : String) (s : ServerStatus) (c : Option String) (r : Server)
    → nonempty c ≢ none
    → claims id s c r ≡ true
    → r.container_id ≢ none
claims-container id s c r full h e =
    full (sym (==-true {a = r.container_id} {b = nonempty c} (ground arith)) ∙ e)

moved_to-Moves :
    (id : String) (from to : ServerStatus) (c : Option String) (now : ℕ) (r : Server)
    → is_arrow from to ≡ true
    → (needs_container to ≡ true → nonempty c ≢ none)
    → claims id from c r ≡ true
    → Moves r (moved_to to none now r)
moved_to-Moves id from to c now r arrow full h = record {
  arrow = subst (λ s. is_arrow s to ≡ true) (sym (claims-status id from c r h)) arrow;
  settings = refl;
  provisioned = λ need. claims-container id from c r (full need) h;
}

creating-Moves :
    (id : String) (r : Server) (next : ServerStatus) (container : Option String) (now : ℕ)
    → is_arrow creating next ≡ true
    → needs_container next ≡ false
    → (r.id == id && r.status == creating) ≡ true
    → Moves r (record r { container_id = container; status = next; updated_at = now })
creating-Moves id r next container now arrow needless h = record {
  arrow =
      subst (λ s. is_arrow s next ≡ true)
        (sym (==-true {a = r.status} {b = creating} (ground arith))) arrow;
  settings = refl;
  provisioned = λ need. cc;
}

claim-Moves :
    (id : String) (r : Server) (container : Option String) (now : ℕ)
    → (r.id == id && r.status == creating && r.container_id == none) ≡ true
    → Moves r (record r { container_id = container; updated_at = now })
claim-Moves id r container now h =
    let e : r.status ≡ creating = ==-true (ground arith) in
    record {
      arrow = rw e refl;
      settings = refl;
      provisioned = λ need. absurd (false-true (subst (λ s. needs_container s ≡ true) e need));
    }

same_id : (id : String) (q : Bool) (r : Server) → (r.id == id && q) ≡ true → r.id ≡ id
same_id id q r h = ==-true {a = r.id} {b = id} (ground arith)

module _ {env : Env} {T : String → Type 0} (id : String) (t : T id) where
  pub Traces-transition :
      (from to : ServerStatus) (container : Option String)
      → is_arrow from to ≡ true
      → (needs_container to ≡ true → nonempty container ≢ none)
      → Traces env (LifecycleStep T) (transition env id from to container none)
  unfolding transition
  Traces-transition from to container arrow full = Traces-bind _ _ Traces-clock λ now.
      Traces-statement _ (
        update_servers-step _ _ (λ r h. subst T (sym (claims-id id from container r h)) t)
          (λ r h. moved_to-Moves id from to container now r arrow full h))

  pub Traces-transition_in_tx :
      (from to : ServerStatus) (container : Option String)
      → is_arrow from to ≡ true
      → (needs_container to ≡ true → nonempty container ≢ none)
      → Traces env (LifecycleStep T) (transition_in_tx env id from to container none)
  unfolding transition_in_tx
  Traces-transition_in_tx from to container arrow full = Traces-bind _ _ Traces-clock λ now.
      Traces-locked_statement _ (
        update_servers-step _ _ (λ r h. subst T (sym (claims-id id from container r h)) t)
          (λ r h. moved_to-Moves id from to container now r arrow full h))

  pub Traces-claim_container_id :
      (container : String) → Traces env (LifecycleStep T) (claim_container_id env id container)
  unfolding claim_container_id
  Traces-claim_container_id container = Traces-bind _ _ Traces-clock λ now. Traces-statement _ (
      update_servers-step _ _ (λ r h. subst T (sym (==-true {a = r.id} {b = id} (ground arith))) t)
        (λ r h. claim-Moves id r (some container) now h))

  pub Traces-delete_in_status :
      (status : ServerStatus)
      → is_deletable status ≡ true
      → Traces env (LifecycleStep T) (delete_in_status env id status)
  unfolding delete_in_status
  Traces-delete_in_status status dead = Traces-statement _ (
      delete_servers-step _ (λ r h. subst T (sym (same_id id _ r h)) t)
        (λ r h.
          subst (λ s. is_deletable s ≡ true)
            (sym (==-true {a = r.status} {b = status} (ground arith))) dead))

  pub Traces-mark_error :
      (container : String) (now : ℕ)
      → Traces env (LifecycleStep T) (
          statement env (
            update_servers
              (λ r. r.id == id && r.status == creating)
              (λ r. record r { container_id = some container; status = error; updated_at = now })))
  Traces-mark_error container now = Traces-statement _ (
      update_servers-step _ _ (λ r h. subst T (sym (same_id id _ r h)) t)
        (λ r h. creating-Moves id r error (some container) now refl refl h))

module _ {env : Env} {G : Db → Db → Type 0} where
  pub Traces-query :
      {A : Type 0} (stays : (db : Db) → G db db) (f : Db → A) → Traces env G (query env f)
  Traces-query stays f = Traces-statement _ stays

  pub Traces-locked_query :
      {A : Type 0} (stays : (db : Db) → G db db) (f : Db → A) → Traces env G (locked_query env f)
  Traces-locked_query stays f = Traces-locked_statement _ stays
