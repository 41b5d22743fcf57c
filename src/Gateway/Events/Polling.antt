-- ===== src/Gateway/Events/Polling.antt =====
-- src/gateway/events.gateway.ts: a call of `tick`, from one awaited call to the next.
use minepanel_backend.Common.{
  ℕ, ◌+◌, ◌-◌, String, Bool, true, false, not, ◌||◌, ◌&&◌, Option, none, some, is_some, List, [],
  ◌∷◌, ◌++◌, any, filter, ◌==◌, if◌then◌else◌, string_eq, nat_eq,
}
use minepanel_backend.Auth.AccessToken.{AccessTokenPrincipal}
use minepanel_backend.Gateway.Events.{
  Connection, Stage, first_check, last_check, collecting, Poll, Gateway, disconnect_silent,
  is_eligible,
}

abbrev pub is_member : Connection → Bool
is_member c = c.in_room && c.connected

abbrev pub room : Gateway → List Connection
room g = filter is_member g.connections

-- `tokenToSockets`, in the order in which the tokens come first
abbrev pub add_to_group :
    String → String → List (String × List String) → List (String × List String)
add_to_group token id [] = (token, id ∷ []) ∷ []
add_to_group token id ((t, ids) ∷ groups) =
    if t == token then (t, ids ++ id ∷ []) ∷ groups else (t, ids) ∷ add_to_group token id groups

abbrev pub grouped :
    Option String → String → List (String × List String) → List (String × List String)
grouped none id groups = groups
grouped (some token) id groups = add_to_group token id groups

abbrev pub groups_from : List (String × List String) → List Connection → List (String × List String)
groups_from groups [] = groups
groups_from groups (c ∷ cs) = groups_from (grouped c.access_token c.id groups) cs

abbrev pub ids_of : List Connection → List String
ids_of [] = []
ids_of (c ∷ cs) = c.id ∷ ids_of cs

abbrev pub disconnect_all : List String → Gateway → Gateway
disconnect_all [] g = g
disconnect_all (id ∷ ids) g = disconnect_all ids (disconnect_silent id g)

-- what `finally` does: a call that was asked for meanwhile is scheduled
unfoldable pub finish : Gateway → Gateway
finish g =
    let ended = record g { in_flight = false; polls = [] } in
    if g.pending_immediate && g.live
    then record ended { pending_immediate = false; scheduled = g.scheduled + 1 }
    else ended

abbrev pub fail : Gateway → Gateway
fail g = finish (record g { cached_at = none })

abbrev pub wait_in : Poll → Stage → Gateway → Gateway
wait_in p stage g = record g { polls = record p { stage = stage } ∷ [] }

abbrev pub is_stale : Poll → Gateway → Bool
is_stale p g = not (p.generation == g.poll_generation) || not g.live

abbrev pub wait_for :
    Poll → (List (String × List String) → Stage) → List (String × List String) → Gateway → Gateway
wait_for p stage [] g = fail g
wait_for p stage (group ∷ groups) g = wait_in p (stage (group ∷ groups)) g

-- `revalidateAdmins`, until the first token is verified
unfoldable pub begin_check : Poll → (List (String × List String) → Stage) → Gateway → Gateway
unfolding finish
begin_check p stage g =
    if is_stale p g
    then fail g
    else let members = room g in
      wait_for p stage (groups_from [] members)
        (disconnect_all (ids_of (filter (λ c. not (is_some c.access_token)) members)) g)

-- `tick`, until its first wait
unfoldable pub tick : Bool → Gateway → Gateway
unfolding begin_check
tick immediate g =
    if g.in_flight
    then g
    else let p : Poll = record {
      generation = g.poll_generation;
      immediate = immediate;
      stage = collecting;
    } in
      begin_check p first_check (record g { in_flight = true; polls = p ∷ [] })

-- the snapshot goes to the room
abbrev pub deliver : ℕ → Gateway → Gateway
deliver now g = finish (record g { cached_at = some now; sent = g.sent ++ ids_of (room g) })

abbrev pub passed : ℕ → Poll → Stage → Gateway → Gateway
passed now p (first_check groups) g = wait_in p collecting g
passed now p (last_check groups) g = deliver now g
passed now p collecting g = g

-- the end of `revalidateAdmins`
unfoldable pub end_check : ℕ → Poll → Stage → Gateway → Gateway
unfolding finish
end_check now p stage g =
    if is_stale p g || not (any is_member g.connections) then fail g else passed now p stage g

abbrev pub is_admitted : Option AccessTokenPrincipal → Bool
is_admitted none = false
is_admitted (some principal) = is_eligible principal

abbrev pub left_groups :
    ℕ
    → Poll
    → (List (String × List String) → Stage)
    → List (String × List String)
    → Gateway
    → Gateway
left_groups now p stage [] g = end_check now p (stage []) g
left_groups now p stage (group ∷ groups) g = wait_in p (stage (group ∷ groups)) g

abbrev pub check_group :
    ℕ
    → Poll
    → (List (String × List String) → Stage)
    → List (String × List String)
    → Option AccessTokenPrincipal
    → Gateway
    → Gateway
check_group now p stage [] answer g = g
check_group now p stage ((token, ids) ∷ groups) answer g =
    left_groups now p stage groups (if is_admitted answer then g else disconnect_all ids g)

abbrev pub check_stage : ℕ → Poll → Stage → Option AccessTokenPrincipal → Gateway → Gateway
check_stage now p (first_check groups) answer g = check_group now p first_check groups answer g
check_stage now p (last_check groups) answer g = check_group now p last_check groups answer g
check_stage now p collecting answer g = g

abbrev pub answered : ℕ → List Poll → Option AccessTokenPrincipal → Gateway → Gateway
answered now [] answer g = g
answered now (p ∷ ps) answer g = check_stage now p p.stage answer g

-- the token of the first group is verified, or refused
unfoldable pub on_revalidated : ℕ → Option AccessTokenPrincipal → Gateway → Gateway
unfolding end_check
on_revalidated now answer g = answered now g.polls answer g

abbrev pub is_collecting : Stage → Bool
is_collecting collecting = true
is_collecting (first_check groups) = false
is_collecting (last_check groups) = false

abbrev pub collected : List Poll → Bool → Gateway → Gateway
collected [] has_snapshot g = g
collected (p ∷ ps) has_snapshot g =
    if not (is_collecting p.stage)
    then g
    else if not has_snapshot
    then fail g
    else if is_stale p g
    then finish g
    else begin_check p last_check g

-- `collectSnapshot` answers, with a snapshot or without
unfoldable pub on_collected : Bool → Gateway → Gateway
on_collected has_snapshot g = collected g.polls has_snapshot g

abbrev pub run_scheduled : Gateway → Gateway
run_scheduled g =
    if g.scheduled == 0 then g else tick true (record g { scheduled = g.scheduled - 1 })
