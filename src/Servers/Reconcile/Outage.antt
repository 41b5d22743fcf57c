-- ===== src/Servers/Reconcile/Outage.antt =====
-- Start-up while the daemon cannot be reached.
use minepanel_backend.Common.{
  ℕ, String, ◌≡◌, refl, true, Option, none, some, List, [], ◌∷◌, any, inl, inr, ◌⊎◌,
}
use minepanel_backend.Http.{Exception, Result, ok, err, is_service_unavailable}
use minepanel_backend.Daemon.{Cause, failed}
use minepanel_backend.Schema.{Db, Server}
use minepanel_backend.Effects.{Env, M}
use minepanel_backend.Effects.Trace.{
  Traces, Traces-pure, Traces-bind, Traces-bind-Returns, Traces-statement, Returns,
}
use minepanel_backend.Effects.Triples.{
  Post, Triple, Triple-pure, Triple-call, Triple-lift, Triple-bind, Triple-try_catch, Post-ok,
}
use minepanel_backend.Docker.Errors.{is_daemon_unreachable, handle_docker_error-unreachable}
use minepanel_backend.Docker.Service.{
  inspect_container, inspected, find_managed_container, looked_up, unavailable,
}
use minepanel_backend.Servers.Statements.{nonempty}
use minepanel_backend.Servers.Reconcile.{
  ReconciliationOutcome, daemon_unavailable, Inspection, decided, look_up, is_unavailable,
  inspect_row, decide, reconcile_row, reconcile_rows, settle, write_outcomes, on_module_init,
}
use minepanel_backend.Servers.Reconcile.Steps.{Traces-reconcile_rows}

-- Every inspection and every listing of containers fails, an inspection because the daemon is
-- unreachable.
pub record Outage (env : Env) : Type 0 where
  pub inspect :
      (n : ℕ) (id : String)
      → (cause : Cause) × (env.inspect n id ≡ failed cause) × (is_daemon_unreachable cause ≡ true)
  pub list : (n : ℕ) (id : String) → (cause : Cause) × (env.list n id ≡ failed cause)

abbrev True : Db → Type 0
True db = Unit {0}

abbrev Thrown : Exception → Db → Type 0
Thrown e db = Unit {0}

abbrev Refused : Exception → Db → Type 0
Refused e db = is_service_unavailable e ≡ true

pin : {A X : Type 0} (r : Result A) (db : Db) → X → Post (λ a db. X) Thrown r db
pin (ok a) db x = x
pin (err e) db x = tt

module _ (env : Env) (down : Outage env) where
  Triple-inspect_container :
      (c : String) → Triple True (inspect_container env c) (λ s db. ⊥) Refused
  unfolding inspect_container inspected
  Triple-inspect_container c =
      Triple-bind
        (λ r db. (cause : Cause) × (r ≡ failed cause) × (is_daemon_unreachable cause ≡ true)) _ _
        (Triple-call env _ (λ n db h. down.inspect n c))
        λ r. Triple-lift (inspected r) (λ db h.
          let (cause, e, far) = h in rw e (handle_docker_error-unreachable cause "container" far))

  abbrev IsLost : Inspection → Db → Type 0
  IsLost i db = (i ≡ decided daemon_unavailable) ⊎ (i ≡ look_up)

  Triple-inspect_row : (o : Option String) → Triple True (inspect_row env o) IsLost Thrown
  unfolding inspect_row
  Triple-inspect_row none = Triple-pure _ (λ db h. inr refl)
  Triple-inspect_row (some c) =
      Triple-try_catch Refused _ _
        (Triple-bind (λ s db. ⊥) _ _ (Triple-inspect_container c)
          λ s. Triple-pure _ (λ db h. absurd h))
        λ e. Triple-pure _ (λ db h. inl (rw h refl))

  Triple-decide :
      (row : Server) (i : Inspection)
      → Triple (IsLost i) (decide env row i) (λ o db. o ≡ daemon_unavailable) Thrown
  unfolding decide find_managed_container looked_up
  Triple-decide row (decided o) =
      Triple-pure o (λ db h. elim h [ inl e ↦ cc | inr e ↦ absurd (cc) ])
  Triple-decide row look_up =
      Triple-bind (λ l db. l ≡ unavailable) _ _
        (Triple-bind (λ r db. (cause : Cause) × (r ≡ failed cause)) _ _
          (Triple-call env _ (λ n db h. down.list n row.id))
          λ r. Triple-pure _ (λ db h. let (cause, e) = h in rw e refl))
        λ l. Triple-pure _ (λ db h. rw h refl)

  Triple-reconcile_row :
      (row : Server) → Triple True (reconcile_row env row) (λ o db. o ≡ daemon_unavailable) Thrown
  unfolding reconcile_row
  Triple-reconcile_row row =
      Triple-bind IsLost _ _ (Triple-inspect_row (nonempty row.container_id))
        λ i. Triple-decide row i

  -- a fact that does not speak of the tables stays
  Triple-pinned : {A X : Type 0} (m : M A) → Triple (λ db. X) m (λ a db. X) Thrown
  Triple-pinned m = record { at = λ w x. pin (m w).0 (m w).1.db x }

  abbrev IsHopeless : List (Server × ReconciliationOutcome) → Type 0
  IsHopeless found = (found ≡ []) ⊎ (any (λ o. is_unavailable o.1) found ≡ true)

  Triple-reconcile_rows :
      (rows : List Server)
      → Triple True (reconcile_rows env rows) (λ found db. IsHopeless found) Thrown
  unfolding reconcile_rows
  Triple-reconcile_rows [] = Triple-pure [] (λ db h. inl refl)
  Triple-reconcile_rows (row ∷ rows) =
      Triple-bind (λ o db. o ≡ daemon_unavailable) _ _ (Triple-reconcile_row row)
        λ o.
          Triple-bind (λ rest db. o ≡ daemon_unavailable) _ _ (Triple-pinned _)
            λ rest. Triple-pure _ (λ db h. inr (rw h refl))

  Returns-reconcile_rows : (rows : List Server) → Returns IsHopeless (reconcile_rows env rows)
  Returns-reconcile_rows rows = record {
    at = λ w found e.
        Post-ok (λ found db. IsHopeless found) Thrown (reconcile_rows env rows w).0
          (reconcile_rows env rows w).1.db found ((Triple-reconcile_rows rows).at w tt) e;
  }

  Traces-settle :
      (found : List (Server × ReconciliationOutcome))
      → IsHopeless found
      → Traces env (λ db db'. db' ≡ db) (settle env found)
  unfolding settle write_outcomes
  Traces-settle found (inl e) = rw e (Traces-pure tt)
  Traces-settle found (inr e) = rw e (Traces-pure tt)

-- While the daemon cannot be reached the start-up reconciliation writes nothing.
pub on_module_init-unreachable :
    (env : Env) → Outage env → Traces env (λ db db'. db' ≡ db) (on_module_init env)
unfolding on_module_init
on_module_init-unreachable env down = Traces-bind _ _ (Traces-statement _ (λ db. refl)) λ rows.
    Traces-bind-Returns (IsHopeless env down) _ _ (Traces-reconcile_rows env rows)
      (Returns-reconcile_rows env down rows) λ found lost. Traces-settle env down found lost
