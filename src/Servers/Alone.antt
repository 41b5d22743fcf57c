-- ===== src/Servers/Alone.antt =====
-- The parts of the requests on a server whose row no other request touches.
use minepanel_backend.Common.{
  ℕ, String, ◌≡◌, ◌≢◌, sym, subst, ◌∙◌, true, not, ◌&&◌, Option, none, some, List, [], ◌∷◌, All,
  find, ◌==◌, ==-true, arith, inl, inr, Bool-cases, string_eq, if◌then◌else◌,
}
use minepanel_backend.Http.{Exception, is_service_unavailable}
use minepanel_backend.Schema.{
  Db, Server, ServerAccess, ServerStatus, stopped, starting, running, error, server_status_eq,
}
use minepanel_backend.Effects.{Env, or_throw, throw_if, throw, ◌>>◌}
use minepanel_backend.Effects.Triples.{
  Triple, Triple-pure, Triple-throw, Triple-or_throw, Triple-throw_if, Triple-statement,
  Triple-bind, Triple-try_catch, Triple-read_only, Triple-when_none, Triple-there,
}
use minepanel_backend.Docker.Service.{start_container}
use minepanel_backend.Docker.Service.Writes.{Traces-start_container}
use minepanel_backend.Servers.Statements.{
  ServerPrincipal, nonempty, is_visible, find_visible, transition,
}
use minepanel_backend.Servers.Shared.{load_visible_server}
use minepanel_backend.Servers.Held.{Held, Triple-transition}
use minepanel_backend.Servers.Run.{run_start}

-- the status in which a failed start leaves the row
abbrev pub after_failed_start : Exception → ServerStatus
after_failed_start e = if is_service_unavailable e then error else stopped

-- The others leave the row of this server alone.
pub record Alone (env : Env) (id c : String) : Type 0 where
  pub free :
      (s : ServerStatus) (n : ℕ) (db : Db) → Held id c s db → Held id c s (env.interfere n db)
  pub locked :
      (s : ServerStatus) (n : ℕ) (db : Db)
      → Held id c s db
      → Held id c s (env.interfere_locked n db)

pub some_inj : {A : Type 0} {a b : A} → some a ≡ some b → a ≡ b
some_inj h = cc

module _ (env : Env) (id c : String) (full : nonempty (some c) ≡ some c)
    (alone : Alone env id c) where
  abbrev pub Is : ServerStatus → Db → Type 0
  Is s db = Held id c s db

  pub Triple-start_container :
      (s : ServerStatus) → Triple (Is s) (start_container env c) (λ _. Is s) (λ _. Is s)
  Triple-start_container s =
      Triple-read_only env _ (Traces-start_container c) (alone.free s) (alone.locked s)

  -- a transition and then the exception that caused it
  pub Triple-fail :
      {A : Type 0} (Q : A → Db → Type 0) (E : Exception → Db → Type 0) (s next : ServerStatus)
      (e : Exception)
      → ((db : Db) → Is next db → E e db)
      → Triple (Is s) (transition env id s next (some c) none >> throw e) Q E
  Triple-fail Q E s next e h =
      Triple-bind (λ o db. Is next db × (o ≢ none)) _ _
        (Triple-transition id c full env _ s next (alone.free s))
        λ o. Triple-throw e (λ db k. h db k.0)

  -- what a transition returned is there
  pub Triple-claimed :
      {A : Type 0} (E : Exception → Db → Type 0) (s : ServerStatus) (o : Option A) (e : Exception)
      → Triple (λ db. Is s db × (o ≢ none)) (or_throw o e) (λ _. Is s) E
  Triple-claimed E s o e = Triple-there o e (λ db h. h.1) (λ a same db h. h.0)

  abbrev pub Failed : Exception → Db → Type 0
  Failed e db = Is (after_failed_start e) db

  -- From STARTING: RUNNING on success; a 503 leaves ERROR, any other exception STOPPED.
  pub Triple-run_start : Triple (Is starting) (run_start env id c) (λ _. Is running) Failed
  unfolding run_start
  Triple-run_start =
      Triple-bind (λ _. Is starting) _ _
        (Triple-try_catch (λ _. Is starting) _ _ (Triple-start_container starting)
          λ e.
            Triple-fail _ Failed starting (if is_service_unavailable e then error else stopped) e
              (λ db h. h))
        λ _.
          Triple-bind (λ o db. Is running db × (o ≢ none)) _ _
            (Triple-transition id c full env _ starting running (alone.free starting))
            λ up.
              Triple-bind (λ _ db. Is running db × (up ≢ none)) _ _
                (Triple-when_none up _ (λ there db h. h)
                  (λ e. record { at = λ w h. absurd (h.1 e) }))
                λ _.
                  Triple-bind (λ _. Is running) _ _ (Triple-claimed _ running up _)
                    λ row. Triple-pure _ (λ db h. h)

  row_of :
      (s : ServerStatus) (p : ServerPrincipal) (access : List ServerAccess) (rows : List Server)
      (r : Server)
      → All (λ r. (r.id == id) ≡ true → (r.status ≡ s) × (r.container_id ≡ some c)) rows
      → find (λ r. r.id == id && is_visible p access r) rows ≡ some r
      → (r.status ≡ s) × (r.container_id ≡ some c)
  row_of s p access [] r h e = absurd (cc)
  row_of s p access (x ∷ rows) r h e = elim (Bool-cases (x.id == id && is_visible p access x)) [
    | inl hit ↦
        let same : x ≡ r = some_inj (rw hit at e) in
        subst (λ y. (y.status ≡ s) × (y.container_id ≡ some c)) same (h.0 (ground (arith, hit)))
    | inr miss ↦ row_of s p access rows r h.1 (rw miss at e)
  ]

  abbrev pub Read : ServerStatus → Server → Db → Type 0
  Read s r db = Is s db × (r.status ≡ s) × (r.container_id ≡ some c)

  pub Triple-load :
      (s : ServerStatus) (p : ServerPrincipal)
      → Triple (Is s) (load_visible_server env id p) (Read s) (λ _. Is s)
  unfolding load_visible_server find_visible
  Triple-load s p =
      Triple-bind
        (λ o db. Is s db × ((r : Server) → o ≡ some r → (r.status ≡ s) × (r.container_id ≡ some c)))
        _ _
        (Triple-statement env _ (λ n db h.
          let held = alone.free s n db h in
          (
            held,
            λ r e.
                row_of s p (env.interfere n db).server_access (env.interfere n db).servers r held.1
                  e,
          )))
        λ o. Triple-or_throw o _ (λ r e db h. let (st, co) = h.1 r e in (h.0, st, co)) (λ db h. h.0)

  -- the checks of a request at the row that was read
  pub Triple-in_state :
      (s wanted : ServerStatus) (r : Server) (e : Exception)
      → Triple (Read s r) (throw_if (not (r.status == wanted)) e) (λ _. Read wanted r) (λ _. Is s)
  Triple-in_state s wanted r e =
      Triple-throw_if _ e (λ _ db h. h.0)
        (λ same db h.
          let st : r.status ≡ wanted = ==-true (ground (arith, same)) in
          let eq : s ≡ wanted = sym h.1 ∙ st in (subst (λ x. Is x db) eq h.0, st, h.2))

  pub Triple-container :
      (s : ServerStatus) (r : Server) (e : Exception)
      → Triple
          (Read s r)
          (or_throw (nonempty r.container_id) e)
          (λ k db. Is s db × (k ≡ c))
          (λ _. Is s)
  Triple-container s r e =
      Triple-or_throw _ e (λ k found db h. (h.0, some_inj (sym found ∙ rw h.2 full))) (λ db h. h.0)
