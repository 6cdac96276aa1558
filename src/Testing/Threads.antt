-- ===== src/Testing/Threads.antt =====
-- Calls from two threads.
use manet_testbed.Base.{
  repeat, ℕ, ℤ, true, length, ap, pos, minus_one, List, [], ◌∷◌, ◌++◌, ◌≡◌, refl, arith, zero, suc,
}
use manet_testbed.Api.{State, done, call, check, get_msg, mutex_lock, mutex_unlock}
use manet_testbed.Route.{
  form_request, parse_nl_route_msg, note_error, change_route, add_unicast_routing_entry,
  delete_entry,
}
use manet_testbed.Interleaving.{adding, deleting, first, advance, perform_call}
use manet_testbed.Interleaving.Schedule.{
  outside, waits, put, World, at_rest, Move, begins, runs, moves, in_turn,
}
use manet_testbed.Interleaving.Serial.{NoneInside, AllFree}
use manet_testbed.Interleaving.Order.{moves-in_turn}
use manet_testbed.Interleaving.Results.{moves-AllBacked}
use manet_testbed.Interleaving.Results.Backing.{AllBacked}
use manet_testbed.System.{state_of}
use manet_testbed.Interleaving.Answered.{alone-Answered}
use manet_testbed.Netlink.{rtm_newroute}
use manet_testbed.Route.Outcome.{Answered, requested}
use manet_testbed.Interleaving.Misreport.{change-misreported}
use manet_testbed.Testing.World.{linux, world, zeros, opened, node}
use manet_testbed.Testing.Routes.{ack, no_such_route}

-- The kernel grants the first request and refuses the second.
abbrev one_refused : State
one_refused = opened (ack ∷ no_such_route ∷ [])

-- The step with which a thread takes the mutex, and the six of a change of a route behind it.
abbrev through : ℕ → List Move
through i = runs i ∷ runs i ∷ runs i ∷ runs i ∷ runs i ∷ runs i ∷ runs i ∷ []

-- Both look at the error flag when both have freed the mutex.
abbrev crossed : List Move
crossed =
    begins 0 (adding zeros node 9) ∷ begins 1 (deleting zeros 5 6) ∷ through 0
    ++ (through 1 ++ (runs 0 ∷ runs 1 ∷ []))

abbrev crossed_world : World
crossed_world = moves world linux crossed (at_rest 2 one_refused)

-- The call that was granted fails too.
both_fail : crossed_world.returned ≡ (1, minus_one) ∷ (0, minus_one) ∷ []
unfolding moves advance first form_request parse_nl_route_msg note_error call check get_msg
    mutex_lock mutex_unlock
both_fail = refl

crossed_quiet : NoneInside crossed_world.places
unfolding moves advance first form_request parse_nl_route_msg note_error call check get_msg
    mutex_lock mutex_unlock
crossed_quiet zero = λ h. h
crossed_quiet (suc zero) = λ h. h
crossed_quiet (suc (suc j)) = ground arith

moves-in_turn_example :
    (crossed_world.shared ≡ in_turn world linux crossed_world.entered one_refused)
    × AllFree world linux crossed_world.entered one_refused
moves-in_turn_example = moves-in_turn world linux one_refused 2 crossed crossed_quiet

moves-AllBacked_example :
    AllBacked world linux crossed_world.returned crossed_world.entered one_refused
moves-AllBacked_example = moves-AllBacked world linux one_refused 2 crossed

-- The states that the two calls leave, made one after the other.
abbrev after_first : State
after_first = state_of (perform_call world linux (adding zeros node 9) one_refused)

abbrev after_second : State
after_second = state_of (perform_call world linux (deleting zeros 5 6) after_first)

first_granted :
    perform_call world linux (adding zeros node 9) one_refused ≡ done (pos 0) after_first
unfolding perform_call add_unicast_routing_entry change_route form_request parse_nl_route_msg
    note_error call check get_msg mutex_lock mutex_unlock
first_granted = refl

second_refused :
    perform_call world linux (deleting zeros 5 6) after_first ≡ done minus_one after_second
unfolding perform_call add_unicast_routing_entry delete_entry change_route form_request
    parse_nl_route_msg note_error call check get_msg mutex_lock mutex_unlock
second_refused = refl

-- A thread waits to add a route while another waits to delete one.
abbrev both_waiting : List Move
both_waiting = begins 1 (deleting zeros 5 6) ∷ begins 0 (adding zeros node 9) ∷ []

abbrev waiting_world : World
waiting_world = moves world linux both_waiting (at_rest 2 one_refused)

adder_waits :
    (waiting_world.places 0 ≡ waits (adding zeros node 9)) × (waiting_world.shared ≡ one_refused)
unfolding moves
adder_waits = (refl, refl)

alone-Answered_example :
    (r : ℤ) × (t : State) × Answered world linux zeros
      (requested world linux zeros node 9 rtm_newroute waiting_world.shared)
      waiting_world.shared
      ack
      (no_such_route ∷ [])
      r
      t
    × ((n : ℕ) × (moves world linux (both_waiting ++ repeat n (runs 0)) (at_rest 2 one_refused)
          ≡ record waiting_world {
            shared = t;
            places = put 0 outside waiting_world.places;
            entered = waiting_world.entered ++ (adding zeros node 9 ∷ []);
            returned = (length waiting_world.entered, r) ∷ waiting_world.returned;
          }))
alone-Answered_example =
    alone-Answered world linux one_refused 2 both_waiting 0 true zeros node 9 ack
      (no_such_route ∷ []) adder_waits.0 (ap (λ s. s.lock) adder_waits.1)
      (ap (λ s. s.inbox) adder_waits.1)

change-misreported_example :
    (ms : List Move) × ((moves world linux ms (at_rest 2 one_refused)).entered
      ≡ adding zeros node 9 ∷ deleting zeros 5 6 ∷ [])
    × ((moves world linux ms (at_rest 2 one_refused)).returned ≡ (0, minus_one) ∷ [])
change-misreported_example =
    change-misreported world linux (adding zeros node 9) (deleting zeros 5 6) one_refused
      after_first after_second tt tt refl first_granted second_refused
