-- ===== src/Servers/Held.antt =====
-- The row of one server while its request is the only one that changes it.
use mathlib.Core.Option
use minepanel_backend.Common.{
  ℕ, String, ◌≡◌, ◌≢◌, refl, sym, subst, Bool, true, false, Option, none, some, List, [], ◌∷◌, All,
  any, find, update, ◌==◌, ==-refl, ==-true, arith, inl, inr, Bool-cases, string_eq, option_eq,
}
use minepanel_backend.Http.{Exception}
use minepanel_backend.Schema.{Db, Server, ServerStatus, server_status_eq}
use minepanel_backend.Effects.{Env}
use minepanel_backend.Effects.Triples.{
  Triple, Triple-statement, Triple-locked_statement, Triple-bind, Triple-clock,
}
use minepanel_backend.Servers.Statements.{
  nonempty, claims, moved_to, update_servers, transition, transition_in_tx,
}

-- There is a row of the server, and every row of it has this status and this container.
abbrev pub HeldIn : String → String → ServerStatus → List Server → Type 0
HeldIn id c s rows =
    (any (λ r. r.id == id) rows ≡ true)
    × All (λ r. (r.id == id) ≡ true → (r.status ≡ s) × (r.container_id ≡ some c)) rows

abbrev pub Held : String → String → ServerStatus → Db → Type 0
Held id c s db = HeldIn id c s db.servers

some-none : {r : Server} → some r ≡ none → ⊥
some-none h = cc

clash : (b : Bool) → b ≡ true → b ≡ false → ⊥
clash true h k = cc
clash false h k = cc

module _ (id c : String) (full : nonempty (some c) ≡ some c) where
  abbrev IsRow : ServerStatus → Server → Type 0
  IsRow s r = (r.id == id) ≡ true → (r.status ≡ s) × (r.container_id ≡ some c)

  claims-row :
      (s : ServerStatus) (r : Server)
      → IsRow s r
      → (r.id == id) ≡ true
      → claims id s (some c) r ≡ true
  claims-row s r row hit = let (e, f) = row hit in rw (hit, e, f, full, ==-refl s, ==-refl c) refl

  claims-other :
      (s expected : ServerStatus) (r : Server)
      → s ≢ expected
      → IsRow s r
      → claims id expected (some c) r ≡ false
  claims-other s expected r other row = elim (Bool-cases (r.id == id)) [
    | inr miss ↦ rw miss refl
    | inl hit ↦ elim (Bool-cases (s == expected)) [
      | inl same ↦ absurd (other (==-true same))
      | inr apart ↦ rw (hit, (row hit).0, apart) refl
    ]
  ]

  miss-row : (s : ServerStatus) (r : Server) → (r.id == id) ≡ false → claims id s (some c) r ≡ false
  miss-row s r miss = rw miss refl

  abbrev Rows : ServerStatus → List Server → Type 0
  Rows s rows = All (IsRow s) rows

  settle-Rows :
      (s next : ServerStatus) (now : ℕ) (rows : List Server)
      → Rows s rows
      → Rows next (update (claims id s (some c)) (moved_to next none now) rows)
  settle-Rows s next now [] h = tt
  settle-Rows s next now (r ∷ rows) h = elim (Bool-cases (r.id == id)) [
    | inl hit ↦
        rw (claims-row s r h.0 hit) ((λ _. (refl, (h.0 hit).1)), settle-Rows s next now rows h.1)
    | inr miss ↦
        rw (miss-row s r miss)
          ((λ hit. absurd (clash (r.id == id) hit miss)), settle-Rows s next now rows h.1)
  ]

  settle-any :
      (p : Server → Bool) (s next : ServerStatus) (now : ℕ) (rows : List Server)
      → any (λ r. r.id == id) rows ≡ true
      → any (λ r. r.id == id) (update p (moved_to next none now) rows) ≡ true
  settle-any p s next now [] h = h
  settle-any p s next now (r ∷ rows) h = elim (Bool-cases (p r)) [
    | inl hit ↦ rw hit (ground (arith, settle-any p s next now rows))
    | inr miss ↦ rw miss (ground (arith, settle-any p s next now rows))
  ]

  found-row :
      (s : ServerStatus) (rows : List Server)
      → any (λ r. r.id == id) rows ≡ true
      → Rows s rows
      → find (claims id s (some c)) rows ≢ none
  found-row s [] h all e = absurd (cc)
  found-row s (r ∷ rows) h all e = elim (Bool-cases (r.id == id)) [
    | inl hit ↦ some-none (rw (claims-row s r all.0 hit) at e)
    | inr miss ↦ found-row s rows (rw miss at h) all.1 (rw (miss-row s r miss) at e)
  ]

  other-update :
      (s expected : ServerStatus) (f : Server → Server) (rows : List Server)
      → s ≢ expected
      → Rows s rows
      → update (claims id expected (some c)) f rows ≡ rows
  other-update s expected f [] other all = refl
  other-update s expected f (r ∷ rows) other all =
      rw (claims-other s expected r other all.0, other-update s expected f rows other all.1) refl

  map-found : (f : Server → Server) (o : Option Server) → o ≢ none → Option.map f o ≢ none
  map-found f none h e = h refl
  map-found f (some r) h e = cc

  update-Held :
      (s next : ServerStatus) (now : ℕ) (db : Db)
      → Held id c s db
      → Held id c next (update_servers (claims id s (some c)) (moved_to next none now) db).1
        × ((update_servers (claims id s (some c)) (moved_to next none now) db).0 ≢ none)
  update-Held s next now db h = (
    (
      settle-any (claims id s (some c)) s next now db.servers h.0,
      settle-Rows s next now db.servers h.1,
    ),
    map-found (moved_to next none now) _ (found-row s db.servers h.0 h.1),
  )

  module _ (env : Env) where
    -- a claim of the state that the row is in succeeds
    pub Triple-transition :
        (E : Exception → Db → Type 0) (s next : ServerStatus)
        → ((n : ℕ) (db : Db) → Held id c s db → Held id c s (env.interfere n db))
        → Triple
            (Held id c s)
            (transition env id s next (some c) none)
            (λ o db. Held id c next db × (o ≢ none))
            E
    unfolding transition
    Triple-transition E s next alone =
        Triple-bind (λ _. Held id c s) _ _ (Triple-clock env)
          λ now.
            Triple-statement env _
              (λ n db h. update-Held s next now (env.interfere n db) (alone n db h))

    pub Triple-transition_in_tx :
        (E : Exception → Db → Type 0) (s next : ServerStatus)
        → ((n : ℕ) (db : Db) → Held id c s db → Held id c s (env.interfere_locked n db))
        → Triple
            (Held id c s)
            (transition_in_tx env id s next (some c) none)
            (λ o db. Held id c next db × (o ≢ none))
            E
    unfolding transition_in_tx
    Triple-transition_in_tx E s next alone =
        Triple-bind (λ _. Held id c s) _ _ (Triple-clock env)
          λ now.
            Triple-locked_statement env _
              (λ n db h. update-Held s next now (env.interfere_locked n db) (alone n db h))

    -- a claim of any other state changes nothing
    pub Triple-lost_transition :
        (E : Exception → Db → Type 0) (s expected next : ServerStatus)
        → s ≢ expected
        → ((n : ℕ) (db : Db) → Held id c s db → Held id c s (env.interfere n db))
        → Triple (Held id c s) (transition env id expected next (some c) none) (λ o. Held id c s) E
    unfolding transition
    Triple-lost_transition E s expected next other alone =
        Triple-bind (λ _. Held id c s) _ _ (Triple-clock env)
          λ now. Triple-statement env _ (λ n db h.
            subst (HeldIn id c s)
              (sym (other-update s expected _ (env.interfere n db).servers other (alone n db h).1))
              (alone n db h))
