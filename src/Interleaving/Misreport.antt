-- ===== src/Interleaving/Misreport.antt =====
-- A change of a route reads the error flag when it has freed the mutex, so that another thread's
-- error can become its own.
use manet_testbed.Base.{
  repeat, ℕ, ℤ, pos, minus_one, is_zero, false, List, [], ◌∷◌, ◌++◌, ◌≡◌, refl, ap, ◌∙◌,
  if◌then◌else◌,
}
use manet_testbed.Netlink.{Netlink, rtm_newroute, rtm_delroute}
use manet_testbed.Api.{State, done, Os}
use manet_testbed.Route.{add_unicast_routing_entry, delete_entry}
use manet_testbed.Interleaving.{
  Call, adding, deleting, getting, registering, reads_error, first, perform_call,
}
use manet_testbed.Interleaving.Schedule.{
  outside, waits, leaves, World, at_rest, put, Move, begins, runs, take_step, move, moves,
}
use manet_testbed.Interleaving.Finish.{finish}
use manet_testbed.Interleaving.Whole.{locked}
use manet_testbed.Interleaving.Unbroken.{moves-append, alone_from_waiting}
use manet_testbed.Interleaving.Alone.{route-ended}

-- The additions and deletions of routes.
abbrev pub IsChange : Call → Type 0
IsChange (adding stack dest hop) = Unit {0}
IsChange (deleting stack dest hop) = Unit {0}
IsChange _ = ⊥

module _ (os : Os) (nl : Netlink) where
  change-ended :
      (c : Call) (s : State) (r : ℤ) (t : State)
      → IsChange c
      → s.lock ≡ false
      → perform_call os nl c s ≡ done r t
      → (finish os nl (first c) (locked s) ≡ done reads_error t)
        × (t.lock ≡ false)
        × ((if is_zero t.f_err then pos 0 else minus_one) ≡ r)
  unfolding first perform_call add_unicast_routing_entry delete_entry
  change-ended (adding stack dest hop) s r t change free whole =
      route-ended os nl stack dest hop rtm_newroute s r t free whole
  change-ended (deleting stack dest hop) s r t change free whole =
      route-ended os nl stack dest hop rtm_delroute s r t free whole
  change-ended (getting stack interface type) s r t change free whole = absurd change
  change-ended (registering g) s r t change free whole = absurd change

  module _ (a b : Call) (s t u : State) (a_changes : IsChange a) (b_changes : IsChange b)
      (free : s.lock ≡ false) (granted : perform_call os nl a s ≡ done (pos 0) t)
      (refused : perform_call os nl b t ≡ done minus_one u) where
    abbrev both_called : World
    both_called = record (at_rest 2 s) { places = put 1 (waits b) (put 0 (waits a) (λ i. outside)) }

    -- When the first call has left, and when the second has too.
    abbrev one_left : World
    one_left = record both_called {
      shared = t;
      places = put 0 (leaves 0 reads_error) both_called.places;
      entered = a ∷ [];
    }

    abbrev both_left : World
    both_left = record both_called {
      shared = u;
      places = put 1 (leaves 1 reads_error) one_left.places;
      entered = a ∷ b ∷ [];
    }

    abbrev order : ℕ → ℕ → List Move
    order n m =
        begins 0 a ∷ begins 1 b ∷ (repeat n (runs 0) ++ (repeat m (runs 1) ++ (runs 0 ∷ [])))

    -- The mutex is free, and of two changes of routes made one after the other the first returns 0
    -- and the second -1. Then the steps of two threads that make them have an order in which the
    -- changes take the mutex in this order too, and the first returns -1.
    pub change-misreported :
        (ms : List Move) × ((moves os nl ms (at_rest 2 s)).entered ≡ a ∷ b ∷ [])
        × ((moves os nl ms (at_rest 2 s)).returned ≡ (0, minus_one) ∷ [])
    unfolding moves move take_step
    change-misreported =
        let (a_ended, freed, _) = change-ended a s (pos 0) t a_changes free granted in
        let (b_ended, _, noted) = change-ended b t minus_one u b_changes freed refused in
        let (n, first_out) =
          alone_from_waiting os nl both_called 0 a reads_error t refl free a_ended in
        let (m, second_out) =
          alone_from_waiting os nl one_left 1 b reads_error u refl freed b_ended in
        let path : moves os nl (order n m) (at_rest 2 s) ≡ move os nl (runs 0) both_left =
          moves-append os nl (repeat n (runs 0)) (repeat m (runs 1) ++ (runs 0 ∷ [])) both_called
          ∙ ap (moves os nl (repeat m (runs 1) ++ (runs 0 ∷ []))) first_out
          ∙ moves-append os nl (repeat m (runs 1)) (runs 0 ∷ []) one_left
          ∙ ap (moves os nl (runs 0 ∷ [])) second_out in
        (
          order n m,
          ap (λ (w : World). w.entered) path,
          ap (λ (w : World). w.returned) path ∙ ap (λ (r : ℤ). (0, r) ∷ []) noted,
        )
