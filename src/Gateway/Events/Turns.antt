-- ===== src/Gateway/Events/Turns.antt =====
-- src/gateway/events.gateway.ts: every event keeps the count, the polling and the room in agreement.
use minepanel_backend.Common.{
  ℕ, String, ◌≡◌, refl, Bool, true, false, not, ◌||◌, ◌&&◌, Option, is_some, List, [], ◌∷◌, filter,
  any, ◌==◌, if◌then◌else◌, string_eq, nat_eq,
}
use minepanel_backend.Auth.AccessToken.{AccessTokenPrincipal}
use minepanel_backend.Gateway.Events.{
  Stage, first_check, last_check, collecting, Poll, Gateway, disconnect_silent,
}
use minepanel_backend.Gateway.Events.Population.{Orderly, disconnect_silent-Orderly}
use minepanel_backend.Gateway.Events.Polling.{
  finish, fail, wait_in, is_stale, wait_for, disconnect_all, begin_check, tick, passed, end_check,
  left_groups, check_group, check_stage, answered, on_revalidated, collected, on_collected,
  run_scheduled, room, groups_from, ids_of, is_member, is_admitted, is_collecting,
}

pub if-Orderly : (b : Bool) (g h : Gateway) → Orderly g → Orderly h → Orderly (if b then g else h)
if-Orderly true g h og oh = og
if-Orderly false g h og oh = oh

pub if-split :
    (b : Bool) (g h : Gateway)
    → (b ≡ true → Orderly g)
    → (b ≡ false → Orderly h)
    → Orderly (if b then g else h)
if-split true g h og oh = og refl
if-split false g h og oh = oh refl

finish-Orderly : (g : Gateway) → Orderly g → Orderly (finish g)
unfolding finish
finish-Orderly g h =
    if-Orderly (g.pending_immediate && g.live) _ _
      (record { counted = h.counted; paced = h.paced; members = h.members })
      (record { counted = h.counted; paced = h.paced; members = h.members })

fail-Orderly : (g : Gateway) → Orderly g → Orderly (fail g)
fail-Orderly g h =
    finish-Orderly _ (record { counted = h.counted; paced = h.paced; members = h.members })

wait_in-Orderly : (p : Poll) (stage : Stage) (g : Gateway) → Orderly g → Orderly (wait_in p stage g)
wait_in-Orderly p stage g h = record { counted = h.counted; paced = h.paced; members = h.members }

disconnect_all-Orderly :
    (ids : List String) (g : Gateway) → Orderly g → Orderly (disconnect_all ids g)
disconnect_all-Orderly [] g h = h
disconnect_all-Orderly (id ∷ ids) g h =
    disconnect_all-Orderly ids (disconnect_silent id g) (disconnect_silent-Orderly id g h)

wait_for-Orderly :
    (p : Poll) (stage : List (String × List String) → Stage) (groups : List (String × List String))
    (g : Gateway)
    → Orderly g
    → Orderly (wait_for p stage groups g)
wait_for-Orderly p stage [] g h = fail-Orderly g h
wait_for-Orderly p stage (group ∷ groups) g h = wait_in-Orderly p (stage (group ∷ groups)) g h

begin_check-Orderly :
    (p : Poll) (stage : List (String × List String) → Stage) (g : Gateway)
    → Orderly g
    → Orderly (begin_check p stage g)
unfolding begin_check
begin_check-Orderly p stage g h = if-Orderly (is_stale p g) _ _ (fail-Orderly g h) (
    wait_for-Orderly p stage (groups_from [] (room g)) _
      (disconnect_all-Orderly (ids_of (filter (λ c. not (is_some c.access_token)) (room g))) g h))

pub tick-Orderly : (immediate : Bool) (g : Gateway) → Orderly g → Orderly (tick immediate g)
unfolding tick
tick-Orderly immediate g h = if-Orderly g.in_flight _ _ h (
    begin_check-Orderly
      (record { generation = g.poll_generation; immediate = immediate; stage = collecting })
      first_check _ (record { counted = h.counted; paced = h.paced; members = h.members }))

passed-Orderly :
    (now : ℕ) (p : Poll) (stage : Stage) (g : Gateway) → Orderly g → Orderly (passed now p stage g)
passed-Orderly now p (first_check groups) g h = wait_in-Orderly p collecting g h
passed-Orderly now p (last_check groups) g h =
    finish-Orderly _ (record { counted = h.counted; paced = h.paced; members = h.members })
passed-Orderly now p collecting g h = h

end_check-Orderly :
    (now : ℕ) (p : Poll) (stage : Stage) (g : Gateway)
    → Orderly g
    → Orderly (end_check now p stage g)
unfolding end_check
end_check-Orderly now p stage g h =
    if-Orderly (is_stale p g || not (any is_member g.connections)) _ _ (fail-Orderly g h)
      (passed-Orderly now p stage g h)

left_groups-Orderly :
    (now : ℕ) (p : Poll) (stage : List (String × List String) → Stage)
    (groups : List (String × List String)) (g : Gateway)
    → Orderly g
    → Orderly (left_groups now p stage groups g)
left_groups-Orderly now p stage [] g h = end_check-Orderly now p (stage []) g h
left_groups-Orderly now p stage (group ∷ groups) g h =
    wait_in-Orderly p (stage (group ∷ groups)) g h

check_group-Orderly :
    (now : ℕ) (p : Poll) (stage : List (String × List String) → Stage)
    (groups : List (String × List String)) (answer : Option AccessTokenPrincipal) (g : Gateway)
    → Orderly g
    → Orderly (check_group now p stage groups answer g)
check_group-Orderly now p stage [] answer g h = h
check_group-Orderly now p stage ((token, ids) ∷ groups) answer g h =
    left_groups-Orderly now p stage groups _
      (if-Orderly (is_admitted answer) _ _ h (disconnect_all-Orderly ids g h))

check_stage-Orderly :
    (now : ℕ) (p : Poll) (stage : Stage) (answer : Option AccessTokenPrincipal) (g : Gateway)
    → Orderly g
    → Orderly (check_stage now p stage answer g)
check_stage-Orderly now p (first_check groups) answer g h =
    check_group-Orderly now p first_check groups answer g h
check_stage-Orderly now p (last_check groups) answer g h =
    check_group-Orderly now p last_check groups answer g h
check_stage-Orderly now p collecting answer g h = h

answered-Orderly :
    (now : ℕ) (polls : List Poll) (answer : Option AccessTokenPrincipal) (g : Gateway)
    → Orderly g
    → Orderly (answered now polls answer g)
answered-Orderly now [] answer g h = h
answered-Orderly now (p ∷ ps) answer g h = check_stage-Orderly now p p.stage answer g h

pub on_revalidated-Orderly :
    (now : ℕ) (answer : Option AccessTokenPrincipal) (g : Gateway)
    → Orderly g
    → Orderly (on_revalidated now answer g)
unfolding on_revalidated
on_revalidated-Orderly now answer g h = answered-Orderly now g.polls answer g h

collected-Orderly :
    (polls : List Poll) (has_snapshot : Bool) (g : Gateway)
    → Orderly g
    → Orderly (collected polls has_snapshot g)
collected-Orderly [] has_snapshot g h = h
collected-Orderly (p ∷ ps) has_snapshot g h = if-Orderly (not (is_collecting p.stage)) _ _ h (
    if-Orderly (not has_snapshot) _ _ (fail-Orderly g h)
      (if-Orderly (is_stale p g) _ _ (finish-Orderly g h) (begin_check-Orderly p last_check g h)))

pub on_collected-Orderly :
    (has_snapshot : Bool) (g : Gateway) → Orderly g → Orderly (on_collected has_snapshot g)
unfolding on_collected
on_collected-Orderly has_snapshot g h = collected-Orderly g.polls has_snapshot g h

pub run_scheduled-Orderly : (g : Gateway) → Orderly g → Orderly (run_scheduled g)
run_scheduled-Orderly g h =
    if-Orderly (g.scheduled == 0) _ _ h
      (tick-Orderly true _ (record { counted = h.counted; paced = h.paced; members = h.members }))
