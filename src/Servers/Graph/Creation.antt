-- ===== src/Servers/Graph/Creation.antt =====
-- `createServer` writes along the documented graph only.
use minepanel_backend.Common.{subst, sym, ℕ, String, ◌≡◌, refl, some, arith, string_eq, ap, ◌∙◌}
use minepanel_backend.Http.{ok}
use minepanel_backend.Schema.{Db, Server, running, creating, error}
use minepanel_backend.Effects.{Env}
use minepanel_backend.Effects.Trace.{
  Returns-fresh_id, Returns-locked_statement, Traces, trace_rules, Traces-bind, Traces-bind-Returns,
  Traces-try_catch, Traces-throw, Traces-pure, Traces-lift, Traces-or_throw, Traces-when_none,
  Returns-bind, Returns-bind-Returns, Returns, Returns-call, Returns-lift, Returns-try_catch,
  Returns-throw, Traces-fresh_id, Traces-clock, Traces-locked_statement,
}
use minepanel_backend.Docker.Service.Writes.{
  Traces-start_container, Traces-create_container, Traces-find_managed_container,
}
use minepanel_backend.Docker.Service.{
  HostInfo, Lookup, absent, unavailable, present, created_id, create_container,
}
use minepanel_backend.Daemon.{ContainerConfig, Reply, replied, failed}
use minepanel_backend.Servers.Admission.{ResourceConfig}
use minepanel_backend.Servers.Statements.{ServerPrincipal, insert_server}
use minepanel_backend.Servers.Graph.{LifecycleStep}
use minepanel_backend.Servers.Graph.Writes.{
  stay, insert_server-step, Traces-locked_query, Traces-claim_container_id, Traces-delete_in_status,
  Traces-mark_error,
}
use minepanel_backend.Servers.Create.{
  CreateServerDto, new_server, compensate, compensate_create_failure, admit_create, create_server,
}
use minepanel_backend.Servers.Graph.Parts.{
  IsFull, Traces-preflight, Traces-take_lock, Traces-fill, Traces-leave,
}

-- Dockerode's container ids are not empty.
abbrev pub HasContainerIds : Env → Type 0
HasContainerIds env =
    (n : ℕ) (config : ContainerConfig) (c : String) → env.create n config ≡ replied c → IsFull c

-- an id that the request has drawn
abbrev pub Drawn : Env → String → Type 0
Drawn env id = (n : ℕ) × (id ≡ env.uuid n)

module _ (env : Env) where
  created_id-IsFull :
      (n : ℕ) (config : ContainerConfig)
      → HasContainerIds env
      → (r : Reply String) → env.create n config ≡ r
      → (c : String) → created_id r ≡ ok c
      → IsFull c
  unfolding created_id
  created_id-IsFull n config ids (replied d) e c p = ids n config c (e ∙ ap replied (ground arith))
  created_id-IsFull n config ids (failed cause) e c p = cc

  create_container-IsFull :
      HasContainerIds env → (r : Server) → Returns IsFull (create_container env r)
  unfolding create_container
  create_container-IsFull ids r = Returns-bind _ _ _ λ config. Returns-bind _ _ _ λ container.
      Returns-bind-Returns IsFull (λ reply. (n : ℕ) × (env.create n container ≡ reply)) _ _
        (Returns-call _ env _ λ n. (n, refl))
        λ reply answered.
          Returns-lift IsFull _ (created_id-IsFull answered.0 container ids reply answered.1)

insert_server-ok : (row : Server) (db : Db) (r : Server) → (insert_server row db).0 ≡ ok r → r ≡ row
insert_server-ok row db r e = ground arith

module _ (env : Env) where
  Returns-admit_create :
      (dto : CreateServerDto) (principal : ServerPrincipal) (config : ResourceConfig)
      (host : HostInfo)
      → Returns (λ r. Drawn env r.id) (admit_create env dto principal config host)
  unfolding admit_create
  Returns-admit_create dto principal config host = Returns-bind _ _ _ λ _. Returns-bind _ _ _ λ _.
      Returns-bind _ _ _ λ _.
        Returns-bind-Returns _ (Drawn env) _ _ (Returns-fresh_id _ env λ n. (n, refl)) λ id mine.
          Returns-bind _ _ _ λ now.
            let row = new_server dto principal id now in
            Returns-bind-Returns _ (λ inserted. (r : Server) → inserted ≡ ok r → r ≡ row) _ _
              (Returns-locked_statement _ env (insert_server row)
                λ db r e. insert_server-ok row db r e)
              λ inserted same.
                Returns-lift _ _ λ r e. subst (λ x. Drawn env x.id) (sym (same r e)) mine

module _ {env : Env} where
  Traces-compensate :
      (id : String)
      → Drawn env id
      → (lookup : Lookup) → Traces env (LifecycleStep (Drawn env)) (compensate env id lookup)
  unfolding compensate
  Traces-compensate id mine unavailable = Traces-pure tt
  Traces-compensate id mine (present c up) =
      Traces-bind _ _ Traces-clock
        λ now. Traces-bind _ _ (Traces-mark_error id mine c now) λ _. Traces-pure tt
  Traces-compensate id mine absent = Traces-delete_in_status id mine creating refl

  Traces-compensate_create_failure :
      (id : String)
      → Drawn env id
      → Traces env (LifecycleStep (Drawn env)) (compensate_create_failure env id)
  unfolding compensate_create_failure
  Traces-compensate_create_failure id mine =
      Traces-bind _ _ (Traces-find_managed_container id) (Traces-compensate id mine)

  Traces-admit_create :
      (dto : CreateServerDto) (principal : ServerPrincipal) (config : ResourceConfig)
      (host : HostInfo)
      → Traces env (LifecycleStep (Drawn env)) (admit_create env dto principal config host)
  unfolding admit_create
  Traces-admit_create dto principal config host = Traces-bind _ _ Traces-take_lock λ _.
      Traces-bind _ _ (Traces-locked_query stay _) λ current. Traces-bind _ _ (Traces-lift _) λ _.
        Traces-bind-Returns (Drawn env) _ _ Traces-fresh_id (Returns-fresh_id _ env λ n. (n, refl))
          λ id mine. Traces-bind _ _ Traces-clock λ now.
            Traces-bind _ _ (Traces-locked_statement _ (insert_server-step _ mine refl))
              λ inserted. Traces-lift _

  pub Traces-create_server :
      HasContainerIds env
      → (dto : CreateServerDto) (principal : ServerPrincipal)
      → Traces env (LifecycleStep (Drawn env)) (create_server env dto principal)
  unfolding create_server
  Traces-create_server ids dto principal = Traces-bind _ _ (Traces-lift _) λ config.
      Traces-bind _ _ (Traces-preflight config _) λ host.
        Traces-bind-Returns (λ r. Drawn env r.id) _ _
          (Traces-admit_create dto principal config host)
          (Returns-admit_create env dto principal config host)
          λ created mine.
            Traces-bind-Returns IsFull _ _
              (Traces-try_catch _ _ (Traces-create_container created) λ e.
                Traces-bind _ _ (Traces-compensate_create_failure created.id mine)
                  λ _. Traces-throw e)
              (Returns-try_catch IsFull _ _ (create_container-IsFull env ids created)
                λ e. Returns-bind _ _ _ λ _. Returns-throw IsFull e)
              λ c full. Traces-bind _ _ (Traces-claim_container_id created.id mine c) λ persisted.
                Traces-bind _ _
                  (Traces-when_none _ _ (Traces-compensate_create_failure created.id mine))
                  λ _. Traces-bind _ _ (Traces-or_throw _ _) λ _.
                    Traces-bind _ _
                      (Traces-try_catch _ _ (Traces-start_container c) λ e.
                        Traces-bind _ _
                          (Traces-leave created.id mine creating error (some c) refl refl)
                          λ _. Traces-throw e)
                      λ _.
                        Traces-bind _ _ (Traces-fill created.id mine creating running c refl full)
                          λ up. search trace_rules
