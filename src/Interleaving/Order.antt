-- ===== src/Interleaving/Order.antt =====
-- However the steps of the threads come one after the other, the calls that take the mutex take
-- effect as if each was made in one piece, in the order in which they took it.
use manet_testbed.Base.{ℕ, true, List, [], ◌∷◌, ◌≡◌, refl, sym, ap, ◌∙◌, inl, inr, Bool-cases, ltb}
use manet_testbed.Netlink.{Netlink}
use manet_testbed.Api.{State, Run, done, blocked, fault, out_of_fuel, Os}
use manet_testbed.System.Misread.{read_result}
use manet_testbed.Interleaving.{Call, reads_error, reads_address, gives, advance}
use manet_testbed.Interleaving.Schedule.{
  Place, outside, waits, inside, leaves, crashed, World, at_rest, live, Move, begins, runs, give,
  take_step, call_at, move, moves, in_turn,
}
use manet_testbed.Interleaving.Still.{advance-SameLock}
use manet_testbed.Interleaving.Steps.{finish-advance}
use manet_testbed.Interleaving.Serial.{
  IsInside, NoneInside, AllFree, Serial, Serial-put, enter-Serial, step-Serial,
}

module _ (os : Os) (nl : Netlink) (s : State) where
  take_step-Serial :
      (w : World) (i : ℕ) (at : Place)
      → w.places i ≡ at
      → Serial os nl s w
      → Serial os nl s (take_step os nl at i w)
  unfolding take_step
  take_step-Serial w i outside e h = h
  take_step-Serial w i crashed e h = h
  take_step-Serial w i (waits c) e h = enter-Serial os nl s w i c h
  take_step-Serial w i (inside turn p) e (inl q) = absurd (q.none_inside i (rw e tt))
  take_step-Serial w i (inside turn p) e (inr b) =
      let same : i ≡ b.thread = b.only i (rw e tt) in
      let at_point : p ≡ b.point = cc (e, b.here, ap w.places same) in
      let now : turn ≡ b.turn = cc (e, b.here, ap w.places same) in
      step-Serial os nl s w i turn p b (advance os nl p w.shared) same now
        (sym (finish-advance os nl p w.shared) ∙ rw at_point b.will_be)
        (advance-SameLock os nl p w.shared)
  take_step-Serial w i (leaves turn reads_error) e h =
      Serial-put os nl s w i outside (λ g. g) (λ g. rw e at g) h
  take_step-Serial w i (leaves turn (gives n)) e h =
      Serial-put os nl s w i outside (λ g. g) (λ g. rw e at g) h
  take_step-Serial w i (leaves turn (reads_address frame buf)) e h =
      given (read_result (live w.count w.places) w.shared)
    where
      given : (r : Run ℕ) → Serial os nl s (give w i turn r)
      given (done address t) = Serial-put os nl s w i outside (λ g. g) (λ g. rw e at g) h
      given (blocked t) = Serial-put os nl s w i crashed (λ g. g) (λ g. rw e at g) h
      given (fault t) = Serial-put os nl s w i crashed (λ g. g) (λ g. rw e at g) h
      given (out_of_fuel t) = Serial-put os nl s w i crashed (λ g. g) (λ g. rw e at g) h

  call_at-Serial :
      (w : World) (i : ℕ) (c : Call) (at : Place)
      → w.places i ≡ at
      → Serial os nl s w
      → Serial os nl s (call_at os nl at i c w)
  call_at-Serial w i c outside e h = elim (Bool-cases (ltb i w.count)) [
    | inl there ↦ rw there (Serial-put os nl s w i (waits c) (λ g. g) (λ g. rw e at g) h)
    | inr nobody ↦ rw nobody h
  ]
  call_at-Serial w i c (waits d) e h = h
  call_at-Serial w i c (inside turn p) e h = h
  call_at-Serial w i c (leaves turn p) e h = h
  call_at-Serial w i c crashed e h = h

  pub move-Serial : (m : Move) (w : World) → Serial os nl s w → Serial os nl s (move os nl m w)
  unfolding move
  move-Serial (begins i c) w h = call_at-Serial w i c (w.places i) refl h
  move-Serial (runs i) w h = take_step-Serial w i (w.places i) refl h

  moves-Serial : (ms : List Move) (w : World) → Serial os nl s w → Serial os nl s (moves os nl ms w)
  unfolding moves
  moves-Serial [] w h = h
  moves-Serial (m ∷ ms) w h = moves-Serial ms (move os nl m w) (move-Serial m w h)

  pub at_rest-Serial : (count : ℕ) → Serial os nl s (at_rest count s)
  unfolding in_turn
  at_rest-Serial count = inl (record { none_inside = λ j h. h; as_in_turn = refl; all_free = tt })

  -- Threads that are all outside at first call the functions that take the mutex and take their
  -- steps, in any order. Then two threads are never inside what the mutex guards at once, and the
  -- mutex is held while one is.
  moves-OneInside :
      (count : ℕ) (ms : List Move) (i j : ℕ)
      → IsInside ((moves os nl ms (at_rest count s)).places i)
      → IsInside ((moves os nl ms (at_rest count s)).places j)
      → (i ≡ j) × ((moves os nl ms (at_rest count s)).shared.lock ≡ true)
  moves-OneInside count ms i j in_i in_j =
      elim (moves-Serial ms (at_rest count s) (at_rest-Serial count)) [
        | inl q ↦ absurd (q.none_inside i in_i)
        | inr b ↦ (b.only i in_i ∙ sym (b.only j in_j), b.held)
      ]

  -- Threads that are all outside at first call the functions that take the mutex and take their
  -- steps, in any order. Then while no thread is inside what the mutex guards, all variables, the
  -- replies left and the calls made into the system are as if the calls that have taken the mutex
  -- were made in one piece each, in the order in which they took it, and each of them would find it
  -- free.
  pub moves-in_turn :
      (count : ℕ) (ms : List Move)
      → NoneInside (moves os nl ms (at_rest count s)).places
      → ((moves os nl ms (at_rest count s)).shared
          ≡ in_turn os nl (moves os nl ms (at_rest count s)).entered s)
        × AllFree os nl (moves os nl ms (at_rest count s)).entered s
  moves-in_turn count ms none = elim (moves-Serial ms (at_rest count s) (at_rest-Serial count)) [
    | inl q ↦ (q.as_in_turn, q.all_free)
    | inr b ↦ absurd (none b.thread (rw b.here tt))
  ]
