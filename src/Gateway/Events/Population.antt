-- ===== src/Gateway/Events/Population.antt =====
-- src/gateway/events.gateway.ts: the count of administrators, the polling and the room agree.
use minepanel_backend.Common.{
  ℕ, zero, suc, ◌+◌, ◌-◌, String, ◌≡◌, refl, sym, ap, ◌∙◌, subst, Bool, true, false, not, ◌&&◌,
  Option, none, some, is_some, List, [], ◌∷◌, find, All, Bool-cases, some-injective, inl, inr, ltb,
  ◌==◌, string_eq, nat_eq, arith,
}
use minepanel_backend.Auth.AccessToken.{AccessTokenPrincipal}
use minepanel_backend.Gateway.Events.{
  Connection, AuthStatus, waiting, verifying, authenticated, Gateway, is_socket, change,
  with_socket, leave_admins, release_engine, cleaned, cleanup_socket, closed, disconnect_silent,
  is_eligible,
}

-- an administrator is authenticated and may see the metrics; nobody else is in the room
abbrev pub standing : Option AccessTokenPrincipal → AuthStatus → Bool → Bool
standing none status in_room = not in_room
standing (some p) authenticated in_room = is_eligible p
standing (some p) waiting in_room = false
standing (some p) verifying in_room = false

abbrev pub Stands : Connection → Type 0
Stands c = standing c.principal c.status c.in_room ≡ true

abbrev pub is_admin : Connection → Bool
is_admin c = is_some c.principal

abbrev pub one_if : Bool → ℕ
one_if true = 1
one_if false = 0

abbrev pub count_admins : List Connection → ℕ
count_admins [] = 0
count_admins (c ∷ cs) = one_if (is_admin c) + count_admins cs

-- the gateway between two events
pub record Orderly (g : Gateway) : Type 0 where
  pub counted : g.admin_count ≡ count_admins g.connections
  pub paced : g.polling ≡ (g.live && ltb 0 g.admin_count)
  pub members : All Stands g.connections

some≢none : {A : Type 0} {a : A} → some a ≡ none → ⊥
some≢none e = cc

pub count-change :
    (id : String) (f : Connection → Connection) (cs : List Connection) (c : Connection)
    → find (is_socket id) cs ≡ some c
    → count_admins (change id f cs) + one_if (is_admin c)
      ≡ count_admins cs + one_if (is_admin (f c))
count-change id f [] c e = cc
count-change id f (d ∷ cs) c e = elim (Bool-cases (is_socket id d)) [
  | inl hit ↦
      let same : d ≡ c = some-injective (rw hit at e) in
      subst
        (λ x.
          count_admins (change id f (d ∷ cs)) + one_if (is_admin x)
          ≡ count_admins (d ∷ cs) + one_if (is_admin (f x)))
        same (rw hit (omega arith))
  | inr miss ↦ let rest = count-change id f cs c (rw miss at e) in rw miss (omega (arith, rest))
]

pub All-change :
    (id : String) (f : Connection → Connection) (cs : List Connection) (c : Connection)
    → find (is_socket id) cs ≡ some c
    → Stands (f c)
    → All Stands cs
    → All Stands (change id f cs)
All-change id f [] c e new h = tt
All-change id f (d ∷ cs) c e new h = elim (Bool-cases (is_socket id d)) [
  | inl hit ↦
      let same : d ≡ c = some-injective (rw hit at e) in
      rw hit (subst (λ x. Stands (f x)) (sym same) new, h.1)
  | inr miss ↦ rw miss (h.0, All-change id f cs c (rw miss at e) new h.1)
]

change-absent :
    (id : String) (f : Connection → Connection) (cs : List Connection)
    → find (is_socket id) cs ≡ none
    → change id f cs ≡ cs
change-absent id f [] e = refl
change-absent id f (d ∷ cs) e = elim (Bool-cases (is_socket id d)) [
  | inl hit ↦ absurd (some≢none (rw hit at e))
  | inr miss ↦ rw miss (ap (λ xs. d ∷ xs) (change-absent id f cs (rw miss at e)))
]

pub Stands-find :
    (id : String) (cs : List Connection) (c : Connection)
    → find (is_socket id) cs ≡ some c
    → All Stands cs
    → Stands c
Stands-find id [] c e h = cc
Stands-find id (d ∷ cs) c e h = elim (Bool-cases (is_socket id d)) [
  | inl hit ↦ subst Stands (some-injective (rw hit at e)) h.0
  | inr miss ↦ Stands-find id cs c (rw miss at e) h.1
]

same_count : (n m k : ℕ) {a : ℕ} → n + k ≡ m + k → a ≡ m → a ≡ n
same_count n m k e h = omega (arith, e, h)

-- a change of one socket that makes nobody an administrator, and nobody cease to be one
pub with_socket-Orderly :
    (id : String) (f : Connection → Connection) (g : Gateway)
    → ((c : Connection)
        → find (is_socket id) g.connections ≡ some c
        → Stands c
        → Stands (f c) × (is_admin (f c) ≡ is_admin c))
    → Orderly g
    → Orderly (with_socket id f g)
with_socket-Orderly id f g keeps h = go (find (is_socket id) g.connections) refl
  where
    go :
        (found : Option Connection)
        → find (is_socket id) g.connections ≡ found
        → Orderly (with_socket id f g)
    go none e = record {
      counted = h.counted ∙ ap count_admins (sym (change-absent id f g.connections e));
      paced = h.paced;
      members = subst (All Stands) (sym (change-absent id f g.connections e)) h.members;
    }
    go (some c) e =
        let (new, same) = keeps c e (Stands-find id g.connections c e h.members) in
        let counts = count-change id f g.connections c e in
        record {
          counted =
              same_count _ _ _
                (subst
                  (λ b.
                    count_admins (change id f g.connections) + one_if (is_admin c)
                    ≡ count_admins g.connections + one_if b)
                  same counts)
                h.counted;
          paced = h.paced;
          members = All-change id f g.connections c e new h.members;
        }

-- the gateway while its last administrator goes, or while one more comes
record Leaving (g : Gateway) : Type 0 where
  counted : g.admin_count ≡ suc (count_admins g.connections)
  paced : (n : ℕ) → count_admins g.connections ≡ suc n → g.polling ≡ g.live
  members : All Stands g.connections

pub and_none : (b : Bool) → (b && ltb 0 0) ≡ false
and_none true = refl
and_none false = refl

and_some : (b : Bool) (n : ℕ) → (b && ltb 0 (suc n)) ≡ b
and_some true n = ground arith
and_some false n = refl

leave_admins-Orderly : (g : Gateway) → Leaving g → Orderly (leave_admins g)
unfolding leave_admins
leave_admins-Orderly g h = go (count_admins g.connections) refl
  where
    go : (n : ℕ) → count_admins g.connections ≡ n → Orderly (leave_admins g)
    go zero e =
        let last : g.admin_count - 1 ≡ 0 = omega (arith, h.counted, e) in
        rw last (record { counted = sym e; paced = sym (and_none g.live); members = h.members })
    go (suc n) e =
        let left : g.admin_count - 1 ≡ suc n = omega (arith, h.counted, e) in
        let more : (suc n == 0) ≡ false = ground arith in
        rw (left, more)
          (record {
            counted = sym e;
            paced = h.paced n e ∙ sym (and_some g.live n);
            members = h.members;
          })

pub Orderly-paced : (g : Gateway) (n : ℕ) → Orderly g → g.admin_count ≡ suc n → g.polling ≡ g.live
Orderly-paced g n h e = h.paced ∙ ap (λ k. g.live && ltb 0 k) e ∙ and_some g.live n

more_by_one : (n m : ℕ) → n + 1 ≡ m + 0 → m ≡ suc n
more_by_one n m e = omega (arith, e)

-- how many administrators there are when one has gone
count-gone :
    (id : String) (cs : List Connection) (c : Connection)
    → find (is_socket id) cs ≡ some c
    → is_admin c ≡ true
    → count_admins cs ≡ suc (count_admins (change id cleaned cs))
count-gone id cs c e mine =
    let counts = count-change id cleaned cs c e in
    more_by_one _ _ (
      subst (λ b. count_admins (change id cleaned cs) + one_if b ≡ count_admins cs + 0) mine counts)

cleaned-Stands : (c : Connection) → Stands (cleaned c)
cleaned-Stands c = refl

release_engine-Orderly :
    (engine_id : String) (g : Gateway) → Orderly g → Orderly (release_engine engine_id g)
release_engine-Orderly engine_id g h = elim (Bool-cases (engine_id == "")) [
  | inl empty ↦ rw empty h
  | inr full ↦ rw full (record { counted = h.counted; paced = h.paced; members = h.members })
]

-- `cleanupSocket` of an administrator, who need not have been counted in the pace yet
pub cleanup-admin :
    (id : String) (g : Gateway) (c : Connection)
    → find (is_socket id) g.connections ≡ some c
    → is_admin c ≡ true
    → g.admin_count ≡ count_admins g.connections
    → ((n : ℕ) → g.admin_count ≡ suc (suc n) → g.polling ≡ g.live)
    → All Stands g.connections
    → Orderly (cleanup_socket id g)
unfolding cleanup_socket
cleanup-admin id g c e mine counted paced members =
    let gone = count-gone id g.connections c e mine in
    rw e (
      release_engine-Orderly c.engine_id _ (
        rw mine (
          leave_admins-Orderly (with_socket id cleaned g) (record {
            counted = counted ∙ gone;
            paced = λ n k. paced n (counted ∙ gone ∙ ap suc k);
            members = All-change id cleaned g.connections c e (cleaned-Stands c) members;
          }))))

absent-Orderly :
    (id : String) (g : Gateway)
    → find (is_socket id) g.connections ≡ none
    → Orderly g
    → Orderly (cleanup_socket id g)
unfolding cleanup_socket
absent-Orderly id g e h = rw e h

other-Orderly :
    (id : String) (g : Gateway) (c : Connection)
    → find (is_socket id) g.connections ≡ some c
    → is_admin c ≡ false
    → Orderly g
    → Orderly (cleanup_socket id g)
unfolding cleanup_socket
other-Orderly id g c e other h = rw e (
    release_engine-Orderly c.engine_id _ (
      rw other (
        with_socket-Orderly id cleaned g
          (λ d found stands.
            (refl, sym (subst (λ x. is_admin x ≡ false) (some-injective (sym e ∙ found)) other)))
          h)))

pub standing-out :
    (principal : Option AccessTokenPrincipal) (status : AuthStatus) (in_room : Bool)
    → standing principal status in_room ≡ true
    → standing principal status false ≡ true
standing-out none status in_room h = refl
standing-out (some p) waiting in_room h = h
standing-out (some p) verifying in_room h = h
standing-out (some p) authenticated in_room h = h

pub closed-keeps :
    (c : Connection) → Stands c → Stands (closed c) × (is_admin (closed c) ≡ is_admin c)
closed-keeps c h = (standing-out c.principal c.status c.in_room h, refl)

pub cleanup_socket-Orderly : (id : String) (g : Gateway) → Orderly g → Orderly (cleanup_socket id g)
cleanup_socket-Orderly id g h = go (find (is_socket id) g.connections) refl
  where
    go :
        (found : Option Connection)
        → find (is_socket id) g.connections ≡ found
        → Orderly (cleanup_socket id g)
    go none e = absent-Orderly id g e h
    go (some c) e = elim (Bool-cases (is_admin c)) [
      | inl mine ↦
          cleanup-admin id g c e mine h.counted (λ n k. Orderly-paced g (suc n) h k) h.members
      | inr other ↦ other-Orderly id g c e other h
    ]

pub disconnect_silent-Orderly :
    (id : String) (g : Gateway) → Orderly g → Orderly (disconnect_silent id g)
unfolding disconnect_silent
disconnect_silent-Orderly id g h =
    with_socket-Orderly id closed (cleanup_socket id g) (λ c e k. closed-keeps c k)
      (cleanup_socket-Orderly id g h)
