-- ===== src/Servers/Graph/Requests.antt =====
-- Every request of the lifecycle writes along the documented graph only.
use minepanel_backend.Common.{
  ℕ, String, refl, true, false, Option, none, some, string_eq, Bool-cases, inl, inr,
}
use minepanel_backend.Http.{Exception, is_service_unavailable, is_not_found}
use minepanel_backend.Schema.{stopped, running, stopping, error}
use minepanel_backend.Effects.{Env}
use minepanel_backend.Effects.Trace.{
  Traces, trace_rules, Traces-bind, Traces-bind-Returns, Traces-try_catch, Traces-throw,
  Traces-pure, Traces-lift, Traces-or_throw, Traces-throw_if, Traces-if, Returns-or_throw,
  Returns-bind, Returns-bind-Returns, Returns-pure, Returns, Traces-call,
}
use minepanel_backend.Docker.Service.Writes.{
  docker_rules, Traces-stop_container, Traces-inspect_container, Traces-remove_container,
}
use minepanel_backend.Servers.Statements.{ServerPrincipal, transition}
use minepanel_backend.Servers.Graph.{LifecycleStep}
use minepanel_backend.Servers.Graph.Writes.{Traces-delete_in_status}
use minepanel_backend.Servers.Run.{
  start_server, after_failed_stop, graceful_stop_container, stop_phase, stop_server, start_again,
  restart_server,
}
use minepanel_backend.Servers.Delete.{
  resolve_delete_remove_failure, remove_if_provisioned, delete_server,
}
use minepanel_backend.Servers.Graph.Parts.{
  IsFull, nonempty-IsFull, Traces-load_visible_server, Traces-preflight, Traces-fill, Traces-leave,
  Traces-run_start, Traces-admit_start, start_from,
}

stop_phase-IsFull :
    (env : Env) (id : String) (principal : ServerPrincipal)
    → Returns (λ claimed. IsFull claimed.0) (stop_phase env id principal)
unfolding stop_phase
stop_phase-IsFull env id principal = Returns-bind _ _ _ λ row. Returns-bind _ _ _ λ _.
    Returns-bind-Returns _ IsFull _ _
      (Returns-or_throw IsFull _ _ (nonempty-IsFull row.container_id))
      λ c full. Returns-bind _ _ _ λ seconds.
        Returns-bind _ _ _
          λ claimed. Returns-bind _ _ _ λ _. Returns-bind _ _ _ λ _. Returns-pure _ _ full

module _ {env : Env} {T : String → Type 0} where
  pub Traces-start_server :
      (id : String) (principal : ServerPrincipal)
      → T id
      → Traces env (LifecycleStep T) (start_server env id principal)
  unfolding start_server
  Traces-start_server id principal t =
      Traces-bind _ _ (Traces-load_visible_server id principal) λ row.
        Traces-bind _ _ (Traces-throw_if _ _) λ _.
          Traces-bind-Returns IsFull _ _ (Traces-or_throw _ _)
            (Returns-or_throw IsFull _ _ (nonempty-IsFull row.container_id))
            λ c full. start_from id t row c full

  module _ (id : String) (t : T id) where
    Traces-graceful_stop_container :
        (c : String) (seconds : ℕ)
        → Traces env (LifecycleStep T) (graceful_stop_container env c seconds)
    unfolding graceful_stop_container
    Traces-graceful_stop_container c seconds =
        Traces-bind _ _ (search (docker_rules, Traces-call) depth 9)
          λ failed. Traces-stop_container c _

    Traces-settle_stop :
        (e : Exception) (c : String)
        → IsFull c
        → Traces env
            (LifecycleStep T)
            (transition env id stopping (after_failed_stop e) (some c) none)
    Traces-settle_stop e c full = elim (Bool-cases (is_service_unavailable e)) [
      | inl unclear ↦ rw unclear (Traces-leave id t stopping error (some c) refl refl)
      | inr answered ↦ elim (Bool-cases (is_not_found e)) [
        | inl gone ↦ rw (answered, gone) (Traces-leave id t stopping stopped (some c) refl refl)
        | inr up ↦ rw (answered, up) (Traces-fill id t stopping running c refl full)
      ]
    ]

    Traces-stop_phase :
        (principal : ServerPrincipal) → Traces env (LifecycleStep T) (stop_phase env id principal)
    unfolding stop_phase
    Traces-stop_phase principal = Traces-bind _ _ (Traces-load_visible_server id principal) λ row.
        Traces-bind _ _ (Traces-throw_if _ _) λ _.
          Traces-bind-Returns IsFull _ _ (Traces-or_throw _ _)
            (Returns-or_throw IsFull _ _ (nonempty-IsFull row.container_id))
            λ c full. Traces-bind _ _ (Traces-lift _) λ seconds.
              Traces-bind _ _ (Traces-leave id t running stopping (some c) refl refl) λ claimed.
                Traces-bind _ _ (Traces-or_throw _ _) λ _.
                  Traces-bind _ _
                    (Traces-try_catch _ _ (Traces-graceful_stop_container c seconds)
                      λ e. Traces-bind _ _ (Traces-settle_stop e c full) λ _. Traces-throw e)
                    λ _. Traces-pure _

  pub Traces-stop_server :
      (id : String) (principal : ServerPrincipal)
      → T id
      → Traces env (LifecycleStep T) (stop_server env id principal)
  unfolding stop_server
  Traces-stop_server id principal t = Traces-bind _ _ (Traces-stop_phase id t principal) λ claimed.
      Traces-bind _ _ (Traces-leave id t stopping stopped (some claimed.0) refl refl)
        λ halted. search trace_rules

  Traces-start_again :
      (id : String) (t : T id) (c : String) (memory : ℕ)
      → IsFull c
      → Traces env (LifecycleStep T) (start_again env id c memory)
  unfolding start_again
  Traces-start_again id t c memory full = Traces-bind _ _ (Traces-lift _) λ config.
      Traces-bind _ _ (Traces-preflight config _) λ host.
        Traces-bind _ _ (Traces-admit_start id t c memory config host stopping _ full refl)
          λ claimed. Traces-bind _ _ (Traces-or_throw _ _) λ _. Traces-run_start id t c full

  pub Traces-restart_server :
      (id : String) (principal : ServerPrincipal)
      → T id
      → Traces env (LifecycleStep T) (restart_server env id principal)
  unfolding restart_server
  Traces-restart_server id principal t =
      Traces-bind-Returns (λ claimed. IsFull claimed.0) _ _ (Traces-stop_phase id t principal)
        (stop_phase-IsFull env id principal)
        λ claimed full. Traces-try_catch _ _ (Traces-start_again id t claimed.0 _ full) λ e.
          Traces-bind _ _ (Traces-leave id t stopping stopped (some claimed.0) refl refl)
            λ _. Traces-throw e

  Traces-resolve_delete_remove_failure :
      (id : String) (t : T id) (c : String)
      → Traces env (LifecycleStep T) (resolve_delete_remove_failure env id c)
  unfolding resolve_delete_remove_failure
  Traces-resolve_delete_remove_failure id t c =
      let gone =
        Traces-bind _ _ (Traces-delete_in_status id t stopping refl) λ _. Traces-pure true in
      let kept =
        Traces-bind _ _ (Traces-leave id t stopping error (some c) refl refl)
          λ _. Traces-pure false in
      Traces-try_catch _ _
        (Traces-bind _ _ (Traces-inspect_container c)
          λ state. Traces-if state.running _ _ kept gone)
        λ e. Traces-if (is_not_found e) _ _ gone kept

  Traces-remove_if_provisioned :
      (id : String) (t : T id) (c : Option String)
      → Traces env (LifecycleStep T) (remove_if_provisioned env id c)
  unfolding remove_if_provisioned
  Traces-remove_if_provisioned id t none = Traces-pure tt
  Traces-remove_if_provisioned id t (some c) = Traces-try_catch _ _ (Traces-remove_container c) λ e.
      Traces-bind _ _ (Traces-resolve_delete_remove_failure id t c) λ removed. Traces-throw_if _ _

  pub Traces-delete_server :
      (id : String) (principal : ServerPrincipal)
      → T id
      → Traces env (LifecycleStep T) (delete_server env id principal)
  unfolding delete_server
  Traces-delete_server id principal t =
      Traces-bind _ _ (Traces-load_visible_server id principal) λ row.
        Traces-bind _ _ (Traces-throw_if _ _) λ _.
          Traces-bind _ _ (Traces-leave id t stopped stopping row.container_id refl refl) λ claimed.
            Traces-bind _ _ (Traces-or_throw _ _) λ deleting.
              Traces-bind _ _ (Traces-remove_if_provisioned id t _)
                λ _. Traces-delete_in_status id t stopping refl
