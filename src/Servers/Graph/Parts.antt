-- ===== src/Servers/Graph/Parts.antt =====
-- The parts that the requests share write along the documented graph only.
use minepanel_backend.Common.{
  ℕ, String, ◌≡◌, ◌≢◌, refl, Bool, true, false, Option, none, some, arith, string_eq, sym, ◌∙◌,
  if◌then◌else◌,
}
use minepanel_backend.Http.{conflict}
use minepanel_backend.Schema.{Server, ServerStatus, stopped, starting, running, error}
use minepanel_backend.Effects.{Env, lift, or_throw, ◌>>=◌, ◌>>◌}
use minepanel_backend.Effects.Trace.{
  Traces, trace_rules, Traces-bind, Traces-try_catch, Traces-pure, Traces-lift, Traces-when_none,
}
use minepanel_backend.Docker.Service.Writes.{docker_rules, Traces-start_container}
use minepanel_backend.Docker.Service.{HostInfo}
use minepanel_backend.Servers.Admission.{ResourceConfig, parse_resource_config}
use minepanel_backend.Servers.Statements.{ServerPrincipal, nonempty, take_lock, transition}
use minepanel_backend.Servers.Graph.{is_arrow, needs_container, LifecycleStep}
use minepanel_backend.Servers.Graph.Writes.{
  stay, Traces-query, Traces-locked_query, false-true, Traces-transition, Traces-transition_in_tx,
}
use minepanel_backend.Servers.Shared.{preflight, load_visible_server}
use minepanel_backend.Servers.Run.{admit_start, run_start}

-- a container id that passed `if (!containerId) throw`
abbrev pub IsFull : String → Type 0
IsFull c = nonempty (some c) ≢ none

pub nonempty-IsFull : (o : Option String) (c : String) → nonempty o ≡ some c → IsFull c
nonempty-IsFull o c e = ground arith

module _ {env : Env} {T : String → Type 0} where
  pub Traces-load_visible_server :
      (id : String) (principal : ServerPrincipal)
      → Traces env (LifecycleStep T) (load_visible_server env id principal)
  unfolding load_visible_server
  Traces-load_visible_server id principal = search (docker_rules, Traces-query, stay)

  pub Traces-preflight :
      (config : ResourceConfig) (message : String)
      → Traces env (LifecycleStep T) (preflight env config message)
  unfolding preflight
  Traces-preflight config message = search docker_rules depth 9

  pub Traces-take_lock : Traces env (LifecycleStep T) (take_lock env)
  unfolding take_lock
  Traces-take_lock = search (Traces-query, stay)

  -- a claim of a state that speaks of a container, and any other
  pub Traces-fill :
      (id : String) (t : T id) (from to : ServerStatus) (c : String)
      → is_arrow from to ≡ true
      → IsFull c
      → Traces env (LifecycleStep T) (transition env id from to (some c) none)
  Traces-fill id t from to c arrow full = Traces-transition id t from to (some c) arrow (λ _. full)

  pub Traces-leave :
      (id : String) (t : T id) (from to : ServerStatus) (c : Option String)
      → is_arrow from to ≡ true
      → needs_container to ≡ false
      → Traces env (LifecycleStep T) (transition env id from to c none)
  Traces-leave id t from to c arrow free =
      Traces-transition id t from to c arrow (λ need. absurd (false-true (sym free ∙ need)))

  module _ (id : String) (t : T id) where
    Traces-settle_start :
        (b : Bool) (c : String)
        → Traces env
            (LifecycleStep T)
            (transition env id starting (if b then error else stopped) (some c) none)
    Traces-settle_start true c = Traces-leave id t starting error (some c) refl refl
    Traces-settle_start false c = Traces-leave id t starting stopped (some c) refl refl

    pub Traces-run_start :
        (c : String) → IsFull c → Traces env (LifecycleStep T) (run_start env id c)
    unfolding run_start
    Traces-run_start c full =
        Traces-bind _ _
          (Traces-try_catch _ _ (Traces-start_container c)
            λ e. search (trace_rules, Traces-settle_start))
          λ _. Traces-bind _ _ (Traces-fill id t starting running c refl full) λ up.
            Traces-bind _ _
              (Traces-when_none _ _ (
                Traces-bind _ _ (Traces-leave id t starting error (some c) refl refl)
                  λ _. Traces-pure _))
              λ _. search trace_rules

    pub Traces-admit_start :
        (c : String) (memory : ℕ) (config : ResourceConfig) (host : HostInfo) (from : ServerStatus)
        (message : String)
        → IsFull c
        → is_arrow from starting ≡ true
        → Traces env (LifecycleStep T) (admit_start env id c memory config host from message)
    unfolding admit_start
    Traces-admit_start c memory config host from message full arrow =
        Traces-bind _ _ Traces-take_lock λ _.
          Traces-bind _ _ (Traces-locked_query stay _) λ current.
            Traces-bind _ _ (Traces-lift _)
              λ _. Traces-transition_in_tx id t from starting (some c) arrow (λ _. full)

    pub start_from :
        (row : Server) (c : String)
        → IsFull c
        → Traces env (LifecycleStep T) (do
          config ← lift (parse_resource_config env)
          host ← preflight env config "Insufficient disk space to start server"
          claimed ←
              admit_start env id c row.memory_limit_mb config host stopped
                "Insufficient memory to start server"
          or_throw claimed (conflict "Server is not in STOPPED state")
          run_start env id c)
    start_from row c full =
        search (docker_rules, Traces-preflight, Traces-admit_start, Traces-run_start, full) depth 9
