-- ===== src/Servers/Memory.antt =====
-- The memory admission of `createServer` bounds what all servers together may use.
use minepanel_backend.Common.{
  ℕ, ◌+◌, ◌≤◌, ◌<◌, subst, ◌≡◌, refl, sym, true, none, some, List, [], ◌∷◌, ◌++◌, any, ◌==◌, ◌||◌,
  arith, inl, inr, Bool-cases, string_eq, nat_eq,
}
use minepanel_backend.Http.{Exception, ok, err}
use minepanel_backend.Schema.{Db, Server}
use minepanel_backend.Effects.{Env, World}
use minepanel_backend.Effects.Triples.{
  Post-ok, Triple, Triple-lift_ok, Triple-statement, Triple-locked_statement, Triple-bind,
  Triple-clock, Triple-fresh_id,
}
use minepanel_backend.Docker.Service.{HostInfo}
use minepanel_backend.Servers.Admission.{
  ResourceConfig, allocatable, Fits, check_memory_admission-Fits, current_allocation_mb,
}
use minepanel_backend.Servers.Statements.{ServerPrincipal, take_lock, insert_server}
use minepanel_backend.Servers.Create.{CreateServerDto, requested_mb, new_server, admit_create}

-- The memory limits of all servers together.
abbrev pub total_mb : Db → ℕ
total_mb db = current_allocation_mb none true db.servers

allocation-append :
    (rs : List Server) (r : Server)
    → current_allocation_mb none true (rs ++ r ∷ [])
      ≡ current_allocation_mb none true rs + r.memory_limit_mb
unfolding current_allocation_mb
allocation-append [] r = omega arith
allocation-append (x ∷ rs) r = omega (arith, allocation-append rs r)

err_ok : {A : Type 0} {e : Exception} {a : A} → err e ≡ ok a → ⊥
err_ok h = cc

-- the insertion of the admitted row keeps the bound
insert-bounded :
    (row : Server) (bound : ℕ) (db : Db) (created : Server)
    → row.memory_limit_mb + total_mb db ≤ bound
    → (insert_server row db).0 ≡ ok created
    → total_mb (insert_server row db).1 ≤ bound
insert-bounded row bound db created fits h =
    elim (Bool-cases (any (λ r. r.port == row.port || r.id == row.id) db.servers)) [
      | inl taken ↦ absurd (err_ok (rw taken at h))
      | inr free ↦ elim (Bool-cases (any (λ u. u.id == row.owner_id) db.users)) [
        | inl known ↦ rw (free, known) (omega (arith, fits, allocation-append db.servers row))
        | inr unknown ↦ absurd (err_ok (rw (free, unknown) at h))
      ]
    ]

module _ (env : Env)
    (waits : (n : ℕ) (db : Db) → total_mb (env.interfere_locked n db) ≤ total_mb db)
    (dto : CreateServerDto) (pos : 0 < requested_mb dto) (principal : ServerPrincipal)
    (config : ResourceConfig) (host : HostInfo) where
  abbrev Anything : Exception → Db → Type 0
  Anything e db = Unit {0}

  abbrev Room : Db → Type 0
  Room db = Fits host config (requested_mb dto) (total_mb db)

  locked-Room : (n : ℕ) (db : Db) → Room db → Room (env.interfere_locked n db)
  locked-Room n db (ram, e, fits) = (ram, e, omega (arith, fits, waits n db))

  abbrev Bounded : Server → Db → Type 0
  Bounded row db = (ram : ℕ) × (host.total_ram_mb ≡ some ram) × total_mb db ≤ allocatable config ram

  Triple-admit_create :
      Triple (λ db. Unit {0}) (admit_create env dto principal config host) Bounded Anything
  unfolding admit_create take_lock
  Triple-admit_create =
      Triple-bind (λ _ db. Unit {0}) _ _ (Triple-statement env _ (λ n db h. tt))
        λ _.
          Triple-bind (λ current db. total_mb db ≡ current) _ _
            (Triple-locked_statement env _ (λ n db h. refl))
            λ current.
              Triple-bind (λ _. Room) _ _
                (Triple-lift_ok _
                  (λ u fine db same.
                    subst (Fits host config (requested_mb dto)) (sym same) (
                      check_memory_admission-Fits host config (requested_mb dto) current _ pos
                        fine))
                  (λ e db h. tt))
                λ _.
                  Triple-bind (λ _. Room) _ _ (Triple-fresh_id env)
                    λ id.
                      Triple-bind (λ _. Room) _ _ (Triple-clock env)
                        λ now.
                          Triple-bind (λ r db. (row : Server) → r ≡ ok row → Bounded row db) _ _
                            (Triple-locked_statement env _ (λ n db room row e.
                              let (ram, known, fits) = locked-Room n db room in
                              (
                                ram,
                                known,
                                insert-bounded (new_server dto principal id now)
                                    (allocatable config ram) (env.interfere_locked n db) row fits e,
                              )))
                            λ inserted.
                              Triple-lift_ok inserted (λ row e db h. h row e) (λ e db h. tt)

-- While a creation holds the lifecycle lock nobody else is admitted, so the others do not raise the
-- total of the memory limits. Then, whenever the transaction of `createServer` returns a row for a
-- positive memory request, the memory limits of all servers together are at most the host's memory
-- times the configured ratio, rounded down.
pub admit_create-bounded :
    (env : Env)
    → ((n : ℕ) (db : Db) → total_mb (env.interfere_locked n db) ≤ total_mb db)
    → (dto : CreateServerDto) → 0 < requested_mb dto
    → (principal : ServerPrincipal) (config : ResourceConfig) (host : HostInfo) (w : World)
      (row : Server)
    → (admit_create env dto principal config host w).0 ≡ ok row
    → (ram : ℕ) × (host.total_ram_mb ≡ some ram)
      × total_mb (admit_create env dto principal config host w).1.db ≤ allocatable config ram
admit_create-bounded env waits dto pos principal config host w row e =
    Post-ok (Bounded env waits dto pos principal config host)
      (Anything env waits dto pos principal config host)
      (admit_create env dto principal config host w).0
      (admit_create env dto principal config host w).1.db row
      ((Triple-admit_create env waits dto pos principal config host).at w tt) e
