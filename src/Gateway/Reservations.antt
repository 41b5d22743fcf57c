-- ===== src/Gateway/Reservations.antt =====
-- src/gateway/socket-reservation.service.ts: the connections that wait for their authentication.

pub mod Slots
pub mod Claims
mod Tests
use minepanel_backend.Common.{
  ℕ, String, Bool, true, false, not, ◌||◌, ◌&&◌, Option, none, some, List, [], ◌∷◌, ◌++◌, any,
  filter, update, length, leb, ◌==◌, if◌then◌else◌, string_eq,
}

-- An entry of the map; its timer and its close listener are the events `expire` and `disconnect`.
pub record Reservation : Type 0 where
  pub id : String
  pub claimed : Bool

-- The map in insertion order, and the connections that the service closed, oldest first.
pub record Reservations : Type 0 where
  pub pending : List Reservation
  pub closed : List String

-- `PENDING_CAP`
abbrev pub pending_cap : ℕ
pending_cap = 100

abbrev pub is_for : String → Reservation → Bool
is_for id r = r.id == id

abbrev pub close : String → Reservations → Reservations
close id s = record s { closed = s.closed ++ id ∷ [] }

unfoldable pub reserve : String → Reservations → Reservations
reserve id s =
    if id == "" || leb pending_cap (length s.pending) || any (is_for id) s.pending
    then close id s
    else record s { pending = s.pending ++ record { id = id; claimed = false } ∷ [] }

abbrev pub is_free : String → Reservation → Bool
is_free id r = is_for id r && not r.claimed

unfoldable pub claim : String → Reservations → Bool × Reservations
claim id s =
    if any (is_free id) s.pending
    then (
      true,
      record s { pending = update (is_for id) (λ r. record r { claimed = true }) s.pending },
    )
    else (false, s)

abbrev pub close_if : Bool → String → Reservations → Reservations
close_if close_raw id s = if close_raw then close id s else s

unfoldable pub release : String → Bool → Reservations → Bool × Reservations
release id close_raw s =
    if any (is_for id) s.pending
    then (
      true,
      close_if close_raw id (record s { pending = filter (λ r. not (is_for id r)) s.pending }),
    )
    else (false, s)

abbrev release_all : List Reservation → Reservations → Reservations
release_all [] s = s
release_all (r ∷ rs) s = release_all rs (release r.id true s).1

-- `onModuleDestroy`
unfoldable pub on_module_destroy : Reservations → Reservations
on_module_destroy s = release_all s.pending s

-- what happens to the service
pub data Event : Type 0 where
  connect authenticate finish disconnect expire : String → Event
  shut_down : Event

unfoldable pub happen : Event → Reservations → Reservations
happen (connect id) s = reserve id s
happen (authenticate id) s = (claim id s).1
happen (finish id) s = (release id false s).1
happen (disconnect id) s = (release id false s).1
happen (expire id) s = (release id true s).1
happen shut_down s = on_module_destroy s

abbrev pub run : List Event → Reservations → Reservations
run [] s = s
run (e ∷ es) s = run es (happen e s)
