-- ===== src/Gateway/Reservations/Slots.antt =====
-- The table of waiting connections stays small.
use minepanel_backend.Common.{
  ◌≤◌, String, ◌≡◌, refl, Bool, true, false, not, ◌||◌, List, [], ◌∷◌, any, filter, update, length,
  length-append, length-filter-le, leb, ◌==◌, arith, inl, inr, Bool-cases, string_eq,
}
use minepanel_backend.Gateway.Reservations.{
  Reservation, Reservations, pending_cap, is_for, reserve, is_free, claim, close_if, release,
  release_all, on_module_destroy, Event, connect, authenticate, finish, disconnect, expire,
  shut_down, happen, run,
}

length-update :
    (p : Reservation → Bool) (f : Reservation → Reservation) (rs : List Reservation)
    → length (update p f rs) ≡ length rs
length-update p f [] = refl
length-update p f (r ∷ rs) = omega (arith, length-update p f rs)

-- at most `PENDING_CAP` connections wait
abbrev pub IsSmall : Reservations → Type 0
IsSmall s = length s.pending ≤ pending_cap

reserve-IsSmall : (id : String) (s : Reservations) → IsSmall s → IsSmall (reserve id s)
unfolding reserve
reserve-IsSmall id s h =
    elim (Bool-cases
      (id == "" || leb pending_cap (length s.pending) || any (is_for id) s.pending)) [
        | inl full ↦ rw full h
        | inr room ↦ rw room (
            ground
              (arith, room, length-append s.pending (record { id = id; claimed = false } ∷ [])))
      ]

claim-IsSmall : (id : String) (s : Reservations) → IsSmall s → IsSmall (claim id s).1
unfolding claim
claim-IsSmall id s h = elim (Bool-cases (any (is_free id) s.pending)) [
  | inl hit ↦
      rw hit
        (omega (arith, h, length-update (is_for id) (λ r. record r { claimed = true }) s.pending))
  | inr miss ↦ rw miss h
]

pub close_if-pending :
    (b : Bool) (id : String) (s : Reservations) → (close_if b id s).pending ≡ s.pending
close_if-pending true id s = refl
close_if-pending false id s = refl

length-closed :
    (b : Bool) (id : String) (s : Reservations)
    → length (close_if b id s).pending ≡ length s.pending
length-closed true id s = refl
length-closed false id s = refl

release-IsSmall :
    (id : String) (b : Bool) (s : Reservations) → IsSmall s → IsSmall (release id b s).1
unfolding release
release-IsSmall id b s h = elim (Bool-cases (any (is_for id) s.pending)) [
  | inl hit ↦ rw hit (
      omega (
        arith,
        h,
        length-filter-le (λ r. not (is_for id r)) s.pending,
        length-closed b id (record s { pending = filter (λ r. not (is_for id r)) s.pending }),
      ))
  | inr miss ↦ rw miss h
]

release_all-IsSmall :
    (rs : List Reservation) (s : Reservations) → IsSmall s → IsSmall (release_all rs s)
release_all-IsSmall [] s h = h
release_all-IsSmall (r ∷ rs) s h =
    release_all-IsSmall rs (release r.id true s).1 (release-IsSmall r.id true s h)

happen-IsSmall : (e : Event) (s : Reservations) → IsSmall s → IsSmall (happen e s)
unfolding happen on_module_destroy
happen-IsSmall (connect id) s h = reserve-IsSmall id s h
happen-IsSmall (authenticate id) s h = claim-IsSmall id s h
happen-IsSmall (finish id) s h = release-IsSmall id false s h
happen-IsSmall (disconnect id) s h = release-IsSmall id false s h
happen-IsSmall (expire id) s h = release-IsSmall id true s h
happen-IsSmall shut_down s h = release_all-IsSmall s.pending s h

-- After any events at most 100 connections wait for their authentication.
pub run-IsSmall : (es : List Event) (s : Reservations) → IsSmall s → IsSmall (run es s)
run-IsSmall [] s h = h
run-IsSmall (e ∷ es) s h = run-IsSmall es (happen e s) (happen-IsSmall e s h)
