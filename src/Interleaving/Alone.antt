-- ===== src/Interleaving/Alone.antt =====
-- A thread that takes its steps alone returns, whatever the others wait for.
use manet_testbed.Base.{
  repeat, ℕ, suc, ℤ, pos, minus_one, is_zero, false, List, [], ◌∷◌, ◌++◌, ◌≡◌, refl, sym, ap, ◌∙◌,
  if◌then◌else◌, ◌==◌, ◌+◌, ◌<◌, none, some, ==_self, length,
}
use manet_testbed.Netlink.{Mem, Netlink, rtm_newroute, rtm_delroute}
use manet_testbed.Api.{State, done, Os}
use manet_testbed.Interleaving.{
  Call, adding, deleting, getting, registering, in_route, asks_route, Ending, reads_error,
  reads_address, gives, first, perform_call,
}
use manet_testbed.Interleaving.Schedule.{
  outside, waits, leaves, World, at_rest, put, live, Move, runs, returns, take_step, move, moves,
}
use manet_testbed.Interleaving.Finish.{finish}
use manet_testbed.Interleaving.Ends.{and_then-eq-done}
use manet_testbed.Interleaving.Whole.{locked, status, change_route-finish}
use manet_testbed.Interleaving.Results.Endings.{
  ReadsError, given, route-ReadsError, registration-IsGiven, registration-finish,
}
use manet_testbed.Interleaving.Reads.{getting-ended, live-put}
use manet_testbed.Interleaving.Reached.{reached-unused}
use manet_testbed.Queue.Register.Outcomes.{Registration}
use manet_testbed.Route.{change_route, add_unicast_routing_entry, delete_entry}
use manet_testbed.Interleaving.Unbroken.{moves-append, put-put, repeat-last, alone_from_waiting}

module _ (os : Os) (nl : Netlink) where
  -- The world when thread `i` has left what the mutex guards.
  abbrev behind : World → ℕ → ℕ → List Call → Ending → State → World
  behind w i turn entered e t = record w {
    shared = t;
    places = put i (leaves turn e) w.places;
    entered = entered;
  }

  -- The call ends by its steps, and one more step then returns `r`.
  abbrev Returning : World → ℕ → Call → ℤ → State → Type 0
  Returning w i c r t =
      (e : Ending) × (finish os nl (first c) (locked w.shared) ≡ done e t)
      × ((turn : ℕ) (entered : List Call)
          → move os nl (runs i) (behind w i turn entered e t)
            ≡ returns (behind w i turn entered e t) i turn r)

  -- A change of a route that returns has freed the mutex, and looks at the error flag last.
  pub route-ended :
      (stack : Mem) (dest hop action : ℕ) (s : State) (r : ℤ) (t : State)
      → s.lock ≡ false
      → change_route os nl stack dest hop action s ≡ done r t
      → (finish os nl (in_route (asks_route stack dest hop action)) (locked s) ≡ done reads_error t)
        × (t.lock ≡ false)
        × ((if is_zero t.f_err then pos 0 else minus_one) ≡ r)
  route-ended stack dest hop action s r t free whole =
      let (e, u, ended, result) =
        and_then-eq-done (finish os nl (in_route (asks_route stack dest hop action)) (locked s))
          status (sym (change_route-finish os nl stack dest hop action s free) ∙ whole) in
      by_ending e u ended result
        (rw ended at (route-ReadsError os nl stack dest hop action (locked s)))
    where
      by_ending :
          (e : Ending) (u : State)
          → finish os nl (in_route (asks_route stack dest hop action)) (locked s) ≡ done e u
          → status e u ≡ done r t
          → ReadsError e u
          → (finish os nl (in_route (asks_route stack dest hop action)) (locked s)
              ≡ done reads_error t)
            × (t.lock ≡ false)
            × ((if is_zero t.f_err then pos 0 else minus_one) ≡ r)
      by_ending reads_error u ended result h =
          let same : u ≡ t = cc in
          let value : (if is_zero u.f_err then pos 0 else minus_one) ≡ r = cc in
          (ended ∙ ap (done reads_error) same, rw (← same) h, rw (← same) value)
      by_ending (reads_address frame buf) u ended result h = absurd h
      by_ending (gives n) u ended result h = absurd h

  route-Returning :
      (w : World) (i : ℕ) (c : Call) (r : ℤ) (t : State)
      → (finish os nl (first c) (locked w.shared) ≡ done reads_error t)
        × (t.lock ≡ false)
        × ((if is_zero t.f_err then pos 0 else minus_one) ≡ r)
      → Returning w i c r t
  unfolding move take_step
  route-Returning w i c r t (ended, freed, value) = (
    reads_error,
    ended,
    λ turn entered.
        rw (==_self i) (ap (returns (behind w i turn entered reads_error t) i turn) value),
  )

  registration-Returning :
      (w : World) (i : ℕ) (g : Registration) (r : ℤ) (t : State)
      → w.shared.lock ≡ false
      → perform_call os nl (registering g) w.shared ≡ done r t
      → Returning w i (registering g) r t
  unfolding move take_step
  registration-Returning w i g r t free whole =
      let (e, u, ended, result) =
        and_then-eq-done (finish os nl (first (registering g)) (locked w.shared)) given
          (sym (registration-finish os nl g w.shared free) ∙ whole) in
      by_ending e u ended result
    where
      by_ending :
          (e : Ending) (u : State)
          → finish os nl (first (registering g)) (locked w.shared) ≡ done e u
          → given e u ≡ done r t
          → Returning w i (registering g) r t
      by_ending (gives n) u ended result =
          let same : u ≡ t = cc in
          let value : pos n ≡ r = cc in
          (
            gives n,
            ended ∙ ap (done (gives n)) same,
            λ turn entered.
                rw (==_self i) (ap (returns (behind w i turn entered (gives n) t) i turn) value),
          )
      by_ending (reads_address frame buf) u ended result =
          absurd (rw ended at (registration-IsGiven os nl g (locked w.shared)))
      by_ending reads_error u ended result =
          absurd (rw ended at (registration-IsGiven os nl g (locked w.shared)))

  -- What a call needs of where the other threads stand: the number that `GetInterfaceIP` counts up
  -- to is that of no live buffer, and the thread is one of the world's.
  abbrev pub Ready : World → ℕ → Call → Type 0
  Ready w i (getting stack interface type) =
      (i < w.count) × (live w.count w.places (w.shared.frame + 1) ≡ none)
  Ready w i _ = Unit {0}

  call-Returning :
      (w : World) (i : ℕ) (c : Call) (r : ℤ) (t : State)
      → Ready w i c
      → w.shared.lock ≡ false
      → perform_call os nl c w.shared ≡ done r t
      → Returning w i c r t
  unfolding first perform_call add_unicast_routing_entry delete_entry move take_step
  call-Returning w i (adding stack dest hop) r t ready free whole =
      route-Returning w i (adding stack dest hop) r t
        (route-ended stack dest hop rtm_newroute w.shared r t free whole)
  call-Returning w i (deleting stack dest hop) r t ready free whole =
      route-Returning w i (deleting stack dest hop) r t
        (route-ended stack dest hop rtm_delroute w.shared r t free whole)
  call-Returning w i (registering g) r t ready free whole =
      registration-Returning w i g r t free whole
  call-Returning w i (getting stack interface type) r t (below, unused) free whole =
      let (buf, a, ended, value, read) =
        getting-ended os nl stack interface type w.shared r t free whole in
      (
        reads_address (w.shared.frame + 1) buf,
        ended,
        λ turn entered.
            let own : (if w.shared.frame + 1 == w.shared.frame + 1 then some buf else none)
                ≡ some buf =
              rw (==_self (w.shared.frame + 1)) refl in
            let seen =
              live-put w.count i (leaves turn (reads_address (w.shared.frame + 1) buf)) w.places
                (w.shared.frame + 1) below unused own in
            rw (==_self i) (rw (read _ seen) (ap (returns _ i turn) value)),
      )

  -- From a world where the call is ready.
  returns_by_steps :
      (w : World) (i : ℕ) (c : Call) (r : ℤ) (t : State)
      → Ready w i c
      → w.places i ≡ waits c
      → w.shared.lock ≡ false
      → perform_call os nl c w.shared ≡ done r t
      → (n : ℕ) × (moves os nl (repeat n (runs i)) w ≡ record w {
        shared = t;
        places = put i outside w.places;
        entered = w.entered ++ (c ∷ []);
        returned = (length w.entered, r) ∷ w.returned;
      })
  returns_by_steps w i c r t ready at free whole =
      let (e, ended, returning) = call-Returning w i c r t ready free whole in
      let (n, there) = alone_from_waiting os nl w i c e t at free ended in
      (
        suc n,
        repeat-last os nl n (runs i) w
            ∙ ap (move os nl (runs i)) there
            ∙ returning (length w.entered) (w.entered ++ (c ∷ []))
            ∙ λ k. record w {
              shared = t;
              places = put-put i outside (leaves (length w.entered) e) w.places k;
              entered = w.entered ++ (c ∷ []);
              returned = (length w.entered, r) ∷ w.returned;
            },
      )

  -- The world that moves reach from a state with all threads outside.
  abbrev pub reached : State → ℕ → List Move → World
  reached s count ms = moves os nl ms (at_rest count s)

  reached-Ready :
      (s : State) (count : ℕ) (ms : List Move) (i : ℕ) (c : Call)
      → (reached s count ms).places i ≡ waits c
      → Ready (reached s count ms) i c
  reached-Ready s count ms i (adding stack dest hop) at = tt
  reached-Ready s count ms i (deleting stack dest hop) at = tt
  reached-Ready s count ms i (registering g) at = tt
  reached-Ready s count ms i (getting stack interface type) at =
      reached-unused os nl s count ms i (getting stack interface type) at

  -- Threads that are all outside at first call the functions that take the mutex and take their
  -- steps, in any order, until a thread waits for the mutex, which is free, with a call that, made in
  -- one piece, returns `r` and leaves the state `t`. Then finitely many steps more of that thread
  -- alone, wherever the others stand, are enough: it returns `r` and leaves `t`, and the other
  -- threads stand where they stood.
  pub alone-returns :
      (s : State) (count : ℕ) (ms : List Move) (i : ℕ) (c : Call) (r : ℤ) (t : State)
      → (reached s count ms).places i ≡ waits c
      → (reached s count ms).shared.lock ≡ false
      → perform_call os nl c (reached s count ms).shared ≡ done r t
      → (n : ℕ) × (reached s count (ms ++ repeat n (runs i)) ≡ record (reached s count ms) {
        shared = t;
        places = put i outside (reached s count ms).places;
        entered = (reached s count ms).entered ++ (c ∷ []);
        returned = (length (reached s count ms).entered, r) ∷ (reached s count ms).returned;
      })
  alone-returns s count ms i c r t at free whole =
      let (n, there) =
        returns_by_steps (reached s count ms) i c r t (reached-Ready s count ms i c at) at free
          whole in
      (n, moves-append os nl ms (repeat n (runs i)) (at_rest count s) ∙ there)
