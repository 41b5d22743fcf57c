-- ===== src/Gateway/Reservations/Claims.antt =====
-- A waiting connection is claimed once.
use minepanel_backend.Common.{
  String, ◌≡◌, refl, sym, subst, ◌∙◌, eq_iff, Bool, true, false, not, ◌||◌, List, [], ◌∷◌, ◌++◌,
  All, any, filter, update, length, leb, ◌==◌, ==-true, arith, inl, inr, Bool-cases, string_eq,
}
use minepanel_backend.Gateway.Reservations.{
  Reservation, Reservations, pending_cap, is_for, reserve, is_free, claim, release, Event, connect,
  authenticate, finish, disconnect, expire, shut_down, happen, run,
}
use minepanel_backend.Gateway.Reservations.Slots.{close_if-pending}

-- the events after which the connection no longer waits
abbrev pub ends : String → Event → Bool
ends id (connect x) = false
ends id (authenticate x) = false
ends id (finish x) = x == id
ends id (disconnect x) = x == id
ends id (expire x) = x == id
ends id shut_down = true

-- there is an entry of the connection, and none that is still free
abbrev IsClaimed : String → List Reservation → Type 0
IsClaimed id rs = (any (is_for id) rs ≡ true) × (any (is_free id) rs ≡ false)

marked-any :
    (id : String) (rs : List Reservation)
    → any (is_free id) rs ≡ true
    → any (is_for id) (update (is_for id) (λ r. record r { claimed = true }) rs) ≡ true
marked-any id [] h = h
marked-any id (r ∷ rs) h = ground (arith, marked-any id rs)

marked-free :
    (id : String) (rs : List Reservation)
    → any (is_free id) (update (is_for id) (λ r. record r { claimed = true }) rs) ≡ false
marked-free id [] = refl
marked-free id (r ∷ rs) = ground (arith, marked-free id rs)

claim-IsClaimed-all :
    (id : String) (rs : List Reservation)
    → any (is_free id) rs ≡ true
    → IsClaimed id (update (is_for id) (λ r. record r { claimed = true }) rs)
claim-IsClaimed-all id rs h = (marked-any id rs h, marked-free id rs)

true-false : true ≡ false → ⊥
true-false h = cc

append-any :
    (id : String) (rs : List Reservation) (r : Reservation)
    → any (is_for id) rs ≡ true
    → any (is_for id) (rs ++ r ∷ []) ≡ true
append-any id [] r h = absurd (true-false (sym h))
append-any id (x ∷ rs) r h = ground (arith, append-any id rs r)

append-free :
    (id : String) (rs : List Reservation) (r : Reservation)
    → any (is_free id) rs ≡ false
    → is_free id r ≡ false
    → any (is_free id) (rs ++ r ∷ []) ≡ false
append-free id [] r h away = rw away refl
append-free id (x ∷ rs) r h away = ground (arith, append-free id rs r)

update-for :
    (id x : String) (rs : List Reservation)
    → any (is_for id) rs ≡ true
    → any (is_for id) (update (is_for x) (λ r. record r { claimed = true }) rs) ≡ true
update-for id x [] h = h
update-for id x (r ∷ rs) h = ground (arith, update-for id x rs)

update-free :
    (id x : String) (rs : List Reservation)
    → any (is_free id) rs ≡ false
    → any (is_free id) (update (is_for x) (λ r. record r { claimed = true }) rs) ≡ false
update-free id x [] h = h
update-free id x (r ∷ rs) h = ground (arith, update-free id x rs)

filter-free :
    (id x : String) (rs : List Reservation)
    → any (is_free id) rs ≡ false
    → any (is_free id) (filter (λ r. not (is_for x r)) rs) ≡ false
filter-free id x [] h = h
filter-free id x (r ∷ rs) h = ground (arith, filter-free id x rs)

both_ids :
    (id x : String) (r : Reservation) → (x == id) ≡ false → is_for x r ≡ true → is_for id r ≡ false
both_ids id x r apart hit = ground (arith, eq_iff r.id x, eq_iff r.id id, eq_iff x id)

filter-for :
    (id x : String) (rs : List Reservation)
    → (x == id) ≡ false
    → any (is_for id) rs ≡ true
    → any (is_for id) (filter (λ r. not (is_for x r)) rs) ≡ true
filter-for id x [] apart h = h
filter-for id x (r ∷ rs) apart h = elim (Bool-cases (is_for x r)) [
  | inl hit ↦ rw hit (filter-for id x rs apart (rw (both_ids id x r apart hit) at h))
  | inr miss ↦ rw miss (ground (arith, filter-for id x rs apart))
]

other_id :
    (id x : String) (rs : List Reservation)
    → any (is_for id) rs ≡ true
    → any (is_for x) rs ≡ false
    → is_free id (record { id = x; claimed = false }) ≡ false
other_id id x rs here away = elim (Bool-cases (x == id)) [
  | inl same ↦ absurd (
      true-false
        (sym here ∙ (subst (λ y. any (is_for y) rs ≡ false) (==-true {a = x} {b = id} same) away)))
  | inr apart ↦ rw apart refl
]

append-for :
    (id : String) (rs : List Reservation) (r : Reservation)
    → IsClaimed id rs
    → is_free id r ≡ false
    → IsClaimed id (rs ++ r ∷ [])
append-for id rs r h away = (append-any id rs r h.0, append-free id rs r h.1 away)

-- other entries come, are claimed and go
reserve-IsClaimed :
    (id x : String) (s : Reservations) → IsClaimed id s.pending → IsClaimed id (reserve x s).pending
unfolding reserve
reserve-IsClaimed id x s h =
    elim (Bool-cases (x == "" || leb pending_cap (length s.pending) || any (is_for x) s.pending)) [
      | inl full ↦ rw full h
      | inr room ↦ rw room (
          append-for id s.pending (record { id = x; claimed = false }) h
            (other_id id x s.pending h.0 (ground (arith, room))))
    ]

claim-IsClaimed :
    (id x : String) (s : Reservations) → IsClaimed id s.pending → IsClaimed id (claim x s).1.pending
unfolding claim
claim-IsClaimed id x s h = elim (Bool-cases (any (is_free x) s.pending)) [
  | inl hit ↦ rw hit ((update-for id x s.pending h.0, update-free id x s.pending h.1))
  | inr miss ↦ rw miss h
]

release-IsClaimed :
    (id x : String) (b : Bool) (s : Reservations)
    → (x == id) ≡ false
    → IsClaimed id s.pending
    → IsClaimed id (release x b s).1.pending
unfolding release
release-IsClaimed id x b s apart h = elim (Bool-cases (any (is_for x) s.pending)) [
  | inl hit ↦ rw hit (
      subst (IsClaimed id)
        (sym
          (close_if-pending b x (record s { pending = filter (λ r. not (is_for x r)) s.pending })))
        (filter-for id x s.pending apart h.0, filter-free id x s.pending h.1))
  | inr miss ↦ rw miss h
]

happen-IsClaimed :
    (id : String) (e : Event) (s : Reservations)
    → ends id e ≡ false
    → IsClaimed id s.pending
    → IsClaimed id (happen e s).pending
unfolding happen
happen-IsClaimed id (connect x) s stays h = reserve-IsClaimed id x s h
happen-IsClaimed id (authenticate x) s stays h = claim-IsClaimed id x s h
happen-IsClaimed id (finish x) s stays h = release-IsClaimed id x false s stays h
happen-IsClaimed id (disconnect x) s stays h = release-IsClaimed id x false s stays h
happen-IsClaimed id (expire x) s stays h = release-IsClaimed id x true s stays h
happen-IsClaimed id shut_down s stays h = absurd (true-false stays)

run-IsClaimed :
    (id : String) (es : List Event) (s : Reservations)
    → All (λ e. ends id e ≡ false) es
    → IsClaimed id s.pending
    → IsClaimed id (run es s).pending
run-IsClaimed id [] s stays h = h
run-IsClaimed id (e ∷ es) s stays h =
    run-IsClaimed id es (happen e s) stays.1 (happen-IsClaimed id e s stays.0 h)

claimed-claim : (id : String) (s : Reservations) → IsClaimed id s.pending → (claim id s).0 ≡ false
unfolding claim
claimed-claim id s h = rw h.1 refl

claim-claims :
    (id : String) (s : Reservations) → (claim id s).0 ≡ true → IsClaimed id (claim id s).1.pending
unfolding claim
claim-claims id s h = elim (Bool-cases (any (is_free id) s.pending)) [
  | inl hit ↦ rw hit (claim-IsClaimed-all id s.pending hit)
  | inr miss ↦ absurd (true-false (sym (rw miss at h)))
]

-- A connection is authenticated once: after a successful claim every later claim of its id fails,
-- until the connection is released, disconnects or runs into its deadline, or the service stops.
pub claim-run-claim :
    (id : String) (es : List Event) (s : Reservations)
    → (claim id s).0 ≡ true
    → All (λ e. ends id e ≡ false) es
    → (claim id (run es (claim id s).1)).0 ≡ false
claim-run-claim id es s first stays =
    claimed-claim id (run es (claim id s).1)
      (run-IsClaimed id es (claim id s).1 stays (claim-claims id s first))
