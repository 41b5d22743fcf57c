-- ===== src/Servers/Reconcile/Steps.antt =====
-- What the reconciliation writes.
use minepanel_backend.Common.{
  ℕ, String, ◌≡◌, ◌≢◌, refl, sym, subst, ◌∙◌, Bool, true, false, not, Option, none, some, List, [],
  ◌∷◌, All, filter, update, ◌==◌, ==-true, ==-refl, arith, inl, inr, ◌⊎◌, Bool-cases,
}
use minepanel_backend.Http.{Exception, is_service_unavailable, is_not_found}
use minepanel_backend.Schema.{Db, Server, ServerStatus, stopped, running, server_status_eq}
use minepanel_backend.Effects.{Env}
use minepanel_backend.Effects.Trace.{
  Traces, Traces-pure, Traces-bind, Traces-bind-Returns, Traces-if, Traces-clock, Traces-statement,
  Returns, Returns-pure, Returns-bind, Returns-bind-Returns, Returns-try_catch, Returns-statement,
}
use minepanel_backend.Docker.Service.{Lookup, absent, unavailable, present}
use minepanel_backend.Docker.Service.Writes.{docker_rules}
use minepanel_backend.Servers.Statements.{nonempty}
use minepanel_backend.Servers.Reconcile.{
  ReconciliationOutcome, state, daemon_unavailable, unchanged, Inspection, decided, look_up,
  status_of, inspect_failure, lookup_outcome, is_snapshot, reconciled, inspect_row, decide,
  reconcile_row, reconcile_rows, write_outcome, write_outcomes, settle, on_module_init,
}

-- A row that was not STOPPED becomes RUNNING with a container, or STOPPED; its settings stay.
pub record Reconciles (r r' : Server) : Type 0 where
  pub active : r.status ≢ stopped
  pub settled : ((r'.status ≡ running) × (r'.container_id ≢ none)) ⊎ (r'.status ≡ stopped)
  pub settings :
      r'
      ≡ record r { status = r'.status; container_id = r'.container_id; updated_at = r'.updated_at }

pub data RowsReconcile : List Server → List Server → Type 0 where
  nil : RowsReconcile [] []
  same :
      {r : Server} {rs rs' : List Server} → RowsReconcile rs rs' → RowsReconcile (r ∷ rs) (r ∷ rs')
  settled :
      {r r' : Server} {rs rs' : List Server}
      → Reconciles r r'
      → RowsReconcile rs rs'
      → RowsReconcile (r ∷ rs) (r' ∷ rs')

pub record ReconcileStep (db db' : Db) : Type 0 where
  pub rows : RowsReconcile db.servers db'.servers
  pub rest : db' ≡ record db { servers = db'.servers }

RowsReconcile-refl : (rs : List Server) → RowsReconcile rs rs
RowsReconcile-refl [] = nil
RowsReconcile-refl (r ∷ rs) = same (RowsReconcile-refl rs)

stay : (db : Db) → ReconcileStep db db
stay db = record { rows = RowsReconcile-refl db.servers; rest = refl }

-- the outcomes that `reconcileRow` can have
abbrev IsOutcome : ReconciliationOutcome → Type 0
IsOutcome (state status container) = ((status ≡ running) × (container ≢ none)) ⊎ (status ≡ stopped)
IsOutcome _ = Unit {0}

abbrev IsActive : Server → Type 0
IsActive r = (r.status == stopped) ≡ false

abbrev IsFinding : Server × ReconciliationOutcome → Type 0
IsFinding (r, o) = IsActive r × IsOutcome o

snapshot-status : (row r : Server) → is_snapshot row r ≡ true → r.status ≡ row.status
snapshot-status row r h = ==-true (ground arith)

true-false : true ≡ false → ⊥
true-false h = cc

no_clash : {s : ServerStatus} → (s == stopped) ≡ false → s ≡ stopped → ⊥
no_clash {s} h e = true-false (sym (==-refl stopped) ∙ subst (λ x. (x == stopped) ≡ false) e h)

active-settled : (row r : Server) → IsActive row → is_snapshot row r ≡ true → r.status ≢ stopped
active-settled row r act h e =
    no_clash (subst (λ s. (s == stopped) ≡ false) (sym (snapshot-status row r h)) act) e

update-RowsReconcile :
    (row : Server) (status : ServerStatus) (container : Option String) (now : ℕ)
    → IsActive row
    → IsOutcome (state status container)
    → (rs : List Server)
    → RowsReconcile rs (update (is_snapshot row) (reconciled status container now) rs)
update-RowsReconcile row status container now act good [] = nil
update-RowsReconcile row status container now act good (r ∷ rs) =
    elim (Bool-cases (is_snapshot row r)) [
      | inl hit ↦ rw hit (
          settled
            (record { active = active-settled row r act hit; settled = good; settings = refl })
            (update-RowsReconcile row status container now act good rs))
      | inr miss ↦ rw miss (same (update-RowsReconcile row status container now act good rs))
    ]

module _ (env : Env) where
  Traces-write_outcome :
      (row : Server) (o : ReconciliationOutcome)
      → IsActive row
      → IsOutcome o
      → Traces env ReconcileStep (write_outcome env row o)
  unfolding write_outcome
  Traces-write_outcome row daemon_unavailable act good = Traces-pure tt
  Traces-write_outcome row unchanged act good = Traces-pure tt
  Traces-write_outcome row (state status container) act good = Traces-if _ _ _ (Traces-pure tt) (
      Traces-bind _ _ Traces-clock λ now.
        Traces-bind _ _
          (Traces-statement _ (λ db. record {
            rows = update-RowsReconcile row status container now act good db.servers;
            rest = refl;
          }))
          λ o. Traces-pure tt)

  Traces-write_outcomes :
      (found : List (Server × ReconciliationOutcome))
      → All IsFinding found
      → Traces env ReconcileStep (write_outcomes env found)
  unfolding write_outcomes
  Traces-write_outcomes [] good = Traces-pure tt
  Traces-write_outcomes ((row, o) ∷ rest) good =
      Traces-bind _ _ (Traces-write_outcome row o (good.0).0 (good.0).1)
        λ _. Traces-write_outcomes rest good.1

  running_or_stopped :
      (up : Bool) (container : String) → IsOutcome (state (status_of up) (some container))
  running_or_stopped true container = inl (refl, λ e. cc)
  running_or_stopped false container = inr refl

  lookup-IsOutcome : (lookup : Lookup) → IsOutcome (lookup_outcome lookup)
  lookup-IsOutcome unavailable = tt
  lookup-IsOutcome (present container up) = running_or_stopped up container
  lookup-IsOutcome absent = inr refl

  abbrev IsInspection : Inspection → Type 0
  IsInspection (decided o) = IsOutcome o
  IsInspection look_up = Unit {0}

  failure-IsInspection : (e : Exception) → IsInspection (inspect_failure e)
  failure-IsInspection e = elim (Bool-cases (is_service_unavailable e)) [
    | inl down ↦ rw down tt
    | inr up ↦ elim (Bool-cases (is_not_found e)) [
      | inl gone ↦ rw (up, gone) tt
      | inr other ↦ rw (up, other) tt
    ]
  ]

  Returns-inspect_row : (o : Option String) → Returns IsInspection (inspect_row env o)
  unfolding inspect_row
  Returns-inspect_row none = Returns-pure _ _ tt
  Returns-inspect_row (some container) =
      Returns-try_catch _ _ _
        (Returns-bind _ _ _ λ found. Returns-pure _ _ (running_or_stopped found.running found.id))
        λ e. Returns-pure _ _ (failure-IsInspection e)

  Returns-decide :
      (row : Server) (i : Inspection) → IsInspection i → Returns IsOutcome (decide env row i)
  unfolding decide
  Returns-decide row (decided o) good = Returns-pure _ _ good
  Returns-decide row look_up good =
      Returns-bind _ _ _ λ lookup. Returns-pure _ _ (lookup-IsOutcome lookup)

  Returns-reconcile_row : (row : Server) → Returns IsOutcome (reconcile_row env row)
  unfolding reconcile_row
  Returns-reconcile_row row =
      Returns-bind-Returns _ IsInspection _ _ (Returns-inspect_row _)
        λ i good. Returns-decide row i good

  Returns-reconcile_rows :
      (rows : List Server) → All IsActive rows → Returns (All IsFinding) (reconcile_rows env rows)
  unfolding reconcile_rows
  Returns-reconcile_rows [] act = Returns-pure _ _ tt
  Returns-reconcile_rows (row ∷ rows) act =
      Returns-bind-Returns _ IsOutcome _ _ (Returns-reconcile_row row) λ o good.
        Returns-bind-Returns _ (All IsFinding) _ _ (Returns-reconcile_rows rows act.1)
          λ rest found. Returns-pure _ _ ((act.0, good), found)

  module _ {G : Db → Db → Type 0} where
    Traces-inspect_row : (o : Option String) → Traces env G (inspect_row env o)
    unfolding inspect_row
    Traces-inspect_row none = Traces-pure _
    Traces-inspect_row (some container) = search docker_rules

    Traces-decide : (row : Server) (i : Inspection) → Traces env G (decide env row i)
    unfolding decide
    Traces-decide row (decided o) = Traces-pure o
    Traces-decide row look_up = search docker_rules

    Traces-reconcile_row : (row : Server) → Traces env G (reconcile_row env row)
    unfolding reconcile_row
    Traces-reconcile_row row =
        Traces-bind _ _ (Traces-inspect_row (nonempty row.container_id)) λ i. Traces-decide row i

    pub Traces-reconcile_rows : (rows : List Server) → Traces env G (reconcile_rows env rows)
    unfolding reconcile_rows
    Traces-reconcile_rows [] = Traces-pure []
    Traces-reconcile_rows (row ∷ rows) =
        Traces-bind _ _ (Traces-reconcile_row row)
          λ o. Traces-bind _ _ (Traces-reconcile_rows rows) λ rest. Traces-pure _

  Traces-settle :
      (found : List (Server × ReconciliationOutcome))
      → All IsFinding found
      → Traces env ReconcileStep (settle env found)
  unfolding settle
  Traces-settle found good = Traces-if _ _ _ (Traces-pure tt) (Traces-write_outcomes found good)

IsActive-filter : (rs : List Server) → All IsActive (filter (λ r. not (r.status == stopped)) rs)
IsActive-filter [] = tt
IsActive-filter (r ∷ rs) = elim (Bool-cases (r.status == stopped)) [
  | inl off ↦ rw off (IsActive-filter rs)
  | inr on ↦ rw on ((on, IsActive-filter rs))
]

-- Whatever the daemon answers and the other requests do, each write of the start-up reconciliation
-- turns only rows that are not STOPPED, each to RUNNING with a container or to STOPPED, and keeps
-- the settings of the rows, their number and order, and all other tables.
pub on_module_init-ReconcileStep : (env : Env) → Traces env ReconcileStep (on_module_init env)
unfolding on_module_init
on_module_init-ReconcileStep env =
    Traces-bind-Returns (All IsActive) _ _ (Traces-statement _ stay)
      (Returns-statement _ env _ (λ db. IsActive-filter db.servers))
      λ rows act.
        Traces-bind-Returns (All IsFinding) _ _ (Traces-reconcile_rows env rows)
          (Returns-reconcile_rows env rows act) λ found good. Traces-settle env found good
