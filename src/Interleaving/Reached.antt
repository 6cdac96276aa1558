-- ===== src/Interleaving/Reached.antt =====
-- What holds of the numbers of calls in every world that the threads' steps reach.
use manet_testbed.Base.{
  ℕ, none, List, [], ◌∷◌, ◌≡◌, refl, ◌⊎◌, inl, inr, ◌+◌, ◌==◌, ==_iff, ◌<◌, ◌≤◌, Bool-cases, arith,
  ltb,
}
use manet_testbed.Netlink.{Netlink}
use manet_testbed.Api.{State, Run, done, blocked, fault, out_of_fuel, Os}
use manet_testbed.System.Misread.{read_result}
use manet_testbed.Interleaving.{
  Call, adding, deleting, getting, registering, reads_error, reads_address, gives, Next, goes, ends,
  first, advance,
}
use manet_testbed.Interleaving.Schedule.{
  Place, outside, waits, inside, leaves, crashed, World, at_rest, put, live, Move, begins, runs,
  step, give, take_step, call_at, move, moves,
}
use manet_testbed.Interleaving.Serial.{mutex_lock-cases}
use manet_testbed.Interleaving.Numbers.{number, point_number, Counts, advance-Counts, live-none}

abbrev IsOutside : Place → Type 0
IsOutside outside = Unit {0}
IsOutside _ = ⊥

-- No thread's call has a number that has not been counted up to, and threads beyond the world's stay
-- outside.
abbrev AllNumbered : (ℕ → Place) → (count frame : ℕ) → Type 0
AllNumbered places count frame =
    (j : ℕ) → (number (places j) ≤ frame) × (IsOutside (places j) ⊎ (j < count))

abbrev Numbered : World → Type 0
Numbered w = AllNumbered w.places w.count w.shared.frame

-- A thread of the world goes to another place.
put-AllNumbered :
    (places : ℕ → Place) (count frame frame' i : ℕ) (p : Place)
    → frame ≤ frame'
    → number p ≤ frame'
    → i < count
    → AllNumbered places count frame
    → AllNumbered (put i p places) count frame'
put-AllNumbered places count frame frame' i p grows small below h j = elim (Bool-cases (j == i)) [
  | inl here ↦ rw here (small, inr (omega (arith, (==_iff j i).0 here)))
  | inr other ↦ rw other (omega (arith, (h j).0), (h j).1)
]

-- Who is not outside is one of the world's threads.
is_thread : (w : World) (i : ℕ) → Numbered w → ¬ IsOutside (w.places i) → i < w.count
is_thread w i h busy = elim (h i).1 [ inl idle ↦ absurd (busy idle) | inr below ↦ below ]

-- A thread of the world comes to a place without a number.
leave-AllNumbered :
    (w : World) (i : ℕ) (p : Place)
    → number p ≡ 0
    → ¬ IsOutside (w.places i)
    → Numbered w
    → AllNumbered (put i p w.places) w.count w.shared.frame
leave-AllNumbered w i p none_yet busy h =
    put-AllNumbered w.places w.count w.shared.frame _ i p (omega arith) (omega (arith, none_yet))
      (is_thread w i h busy) h

first-number : (c : Call) (m : ℕ) → point_number (first c) ≤ m
unfolding first
first-number (adding stack dest hop) m = omega arith
first-number (deleting stack dest hop) m = omega arith
first-number (getting stack interface type) m = omega arith
first-number (registering g) m = omega arith

module _ (os : Os) (nl : Netlink) where
  step-Numbered :
      (w : World) (i turn : ℕ) (r : Run Next)
      → i < w.count
      → Counts w.shared r
      → Numbered w
      → Numbered (step w i turn r)
  step-Numbered w i turn (done (goes p) t) below (grows, small) h =
      put-AllNumbered w.places w.count w.shared.frame _ i (inside turn p) grows small below h
  step-Numbered w i turn (done (ends e) t) below (grows, small) h =
      put-AllNumbered w.places w.count w.shared.frame _ i (leaves turn e) grows small below h
  step-Numbered w i turn (blocked t) below c h = h
  step-Numbered w i turn (fault t) below grows h =
      put-AllNumbered w.places w.count w.shared.frame _ i crashed grows (omega arith) below h
  step-Numbered w i turn (out_of_fuel t) below grows h =
      put-AllNumbered w.places w.count w.shared.frame _ i crashed grows (omega arith) below h

  take_step-Numbered :
      (w : World) (i : ℕ) (at : Place)
      → w.places i ≡ at
      → Numbered w
      → Numbered (take_step os nl at i w)
  unfolding take_step
  take_step-Numbered w i outside e h = h
  take_step-Numbered w i crashed e h = h
  take_step-Numbered w i (waits c) e h = elim (mutex_lock-cases w.shared) [
    | inl taken ↦ rw taken h
    | inr (free, got) ↦ rw got (
        put-AllNumbered w.places w.count w.shared.frame _ i _ (omega arith) (first-number c _)
          (is_thread w i h (λ g. rw e at g)) h)
  ]
  take_step-Numbered w i (inside turn p) e h =
      step-Numbered w i turn (advance os nl p w.shared) (is_thread w i h (λ g. rw e at g))
        (advance-Counts os nl p w.shared (rw e at (h i).0)) h
  take_step-Numbered w i (leaves turn reads_error) e h =
      leave-AllNumbered w i outside refl (λ g. rw e at g) h
  take_step-Numbered w i (leaves turn (gives n)) e h =
      leave-AllNumbered w i outside refl (λ g. rw e at g) h
  take_step-Numbered w i (leaves turn (reads_address frame buf)) e h =
      given (read_result (live w.count w.places) w.shared)
    where
      given : (r : Run ℕ) → Numbered (give w i turn r)
      given (done address t) = leave-AllNumbered w i outside refl (λ g. rw e at g) h
      given (blocked t) = leave-AllNumbered w i crashed refl (λ g. rw e at g) h
      given (fault t) = leave-AllNumbered w i crashed refl (λ g. rw e at g) h
      given (out_of_fuel t) = leave-AllNumbered w i crashed refl (λ g. rw e at g) h

  call_at-Numbered :
      (w : World) (i : ℕ) (c : Call) (at : Place) → Numbered w → Numbered (call_at os nl at i c w)
  call_at-Numbered w i c outside h = elim (Bool-cases (ltb i w.count)) [
    | inl there ↦ rw there (
        put-AllNumbered w.places w.count w.shared.frame _ i (waits c) (omega arith) (omega arith)
          (ground arith) h)
    | inr nobody ↦ rw nobody h
  ]
  call_at-Numbered w i c (waits d) h = h
  call_at-Numbered w i c (inside turn p) h = h
  call_at-Numbered w i c (leaves turn p) h = h
  call_at-Numbered w i c crashed h = h

  pub moves-Numbered : (ms : List Move) (w : World) → Numbered w → Numbered (moves os nl ms w)
  unfolding moves move
  moves-Numbered [] w h = h
  moves-Numbered (begins i c ∷ ms) w h = moves-Numbered ms _ (call_at-Numbered w i c (w.places i) h)
  moves-Numbered (runs i ∷ ms) w h =
      moves-Numbered ms _ (take_step-Numbered w i (w.places i) refl h)

  -- The number that comes next is that of no live buffer.
  pub reached-unused :
      (s : State) (count : ℕ) (ms : List Move) (i : ℕ) (c : Call)
      → (moves os nl ms (at_rest count s)).places i ≡ waits c
      → (i < (moves os nl ms (at_rest count s)).count)
        × (live
              (moves os nl ms (at_rest count s)).count
              (moves os nl ms (at_rest count s)).places
              ((moves os nl ms (at_rest count s)).shared.frame + 1)
            ≡ none)
  reached-unused s count ms i c at =
      let w = moves os nl ms (at_rest count s) in
      let h : Numbered w = moves-Numbered ms (at_rest count s) (λ j. (omega arith, inl tt)) in
      (
        is_thread w i h (λ g. rw at at g),
        live-none w.count w.places (w.shared.frame + 1) (λ j. omega (arith, (h j).0)),
      )
