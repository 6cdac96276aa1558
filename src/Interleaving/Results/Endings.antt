-- ===== src/Interleaving/Results/Endings.antt =====
-- How a call ends in its turn, by what it still does behind the mutex.
use manet_testbed.Base.{
  ℕ, ℤ, pos, minus_one, is_zero, true, false, Option, none, some, ◌≡◌, refl, to_size, arith,
}
use manet_testbed.Netlink.{Mem, Netlink, rtm_newroute, rtm_delroute}
use manet_testbed.Api.{
  State, M, Run, done, blocked, fault, out_of_fuel, pure, and_then, Os, call, check, get_msg,
  mutex_lock, mutex_unlock,
}
use manet_testbed.Route.{form_request, add_unicast_routing_entry, delete_entry}
use manet_testbed.Queue.Register.{
  start_thread, register_incoming_callback, register_outgoing_callback, register_forward_callback,
}
use manet_testbed.Queue.Register.Outcomes.{Registration, incoming, outgoing, forward, register}
use manet_testbed.Interleaving.{
  in_route, Call, adding, deleting, getting, registering, asks_route, Ending, reads_error,
  reads_address, gives, first, perform_call,
}
use manet_testbed.Interleaving.Finish.{finish, note_answer}
use manet_testbed.Interleaving.Whole.{locked, status, change_route-finish}

-- What a run returns, if it does.
abbrev pub value_of : Run ℤ → Option ℤ
value_of (done r t) = some r
value_of _ = none

-- If the run returns, its value and the state there satisfy `P`.
abbrev pub OnDone : {A : Type 0} → (A → State → Type 0) → Run A → Type 0
OnDone P (done a t) = P a t
OnDone P _ = Unit {0}

OnDone-bind :
    {A B : Type 0} (P : B → State → Type 0) (r : Run A) (k : A → M B)
    → ((a : A) (t : State) → OnDone P (k a t))
    → OnDone P (and_then r k)
OnDone-bind P (done a t) k h = h a t
OnDone-bind P (blocked t) k h = tt
OnDone-bind P (fault t) k h = tt
OnDone-bind P (out_of_fuel t) k h = tt

-- A change of a route frees the mutex and then looks at the error flag; a registration has its
-- result at once.
abbrev pub ReadsError : Ending → State → Type 0
ReadsError reads_error t = t.lock ≡ false
ReadsError _ t = ⊥

abbrev pub IsGiven : Ending → State → Type 0
IsGiven (gives n) t = Unit {0}
IsGiven _ t = ⊥

-- The result of a registration.
abbrev pub given : Ending → M ℤ
given (gives n) = pure (pos n)
given _ = pure minus_one

module _ (os : Os) (nl : Netlink) where
  -- What a result of a call says of the call made in its turn, from the state `s`: a 0 from a change
  -- of a route is a 0 there too, and what a registration returns is what it returns there.
  abbrev pub Backs : Call → State → ℤ → Type 0
  Backs (getting stack interface type) s r = Unit {0}
  Backs (registering g) s r = value_of (perform_call os nl (registering g) s) ≡ some r
  Backs (adding stack dest hop) s r =
      r ≡ pos 0 → value_of (perform_call os nl (adding stack dest hop) s) ≡ some (pos 0)
  Backs (deleting stack dest hop) s r =
      r ≡ pos 0 → value_of (perform_call os nl (deleting stack dest hop) s) ≡ some (pos 0)

  -- Whatever result the call can still get, it is backed. `fine` is what a result of 0 needs.
  abbrev pub Pends : Ending → (fine : Type 0) → (ℤ → Type 0) → Type 0
  Pends reads_error fine backs = backs minus_one × (fine → backs (pos 0))
  Pends (reads_address frame buf) fine backs = (r : ℤ) → backs r
  Pends (gives n) fine backs = backs (pos n)

  pub route-ReadsError :
      (stack : Mem) (dest hop action : ℕ) (s : State)
      → OnDone ReadsError (finish os nl (in_route (asks_route stack dest hop action)) s)
  unfolding finish form_request call check mutex_unlock
  route-ReadsError stack dest hop action s =
      OnDone-bind ReadsError (get_msg stack _) _
        λ (len, buf) t. OnDone-bind ReadsError (note_answer os nl (to_size len) buf _) _ λ _ u. refl

  -- A change of a route that has freed the mutex, when it looks at the error flag.
  route-Pends :
      (stack : Mem) (dest hop action : ℕ) (s : State) (run : Run ℤ) (e : Ending) (t : State)
      → run ≡ and_then (finish os nl (in_route (asks_route stack dest hop action)) s) status
      → finish os nl (in_route (asks_route stack dest hop action)) s ≡ done e t
      → Pends e (is_zero t.f_err ≡ true) λ r. r ≡ pos 0 → value_of run ≡ some (pos 0)
  route-Pends stack dest hop action s run reads_error t whole ended =
      (λ h. cc, λ fine _. rw (whole, ended) (rw fine refl))
  route-Pends stack dest hop action s run (reads_address frame buf) t whole ended =
      absurd (rw ended at (route-ReadsError stack dest hop action s))
  route-Pends stack dest hop action s run (gives n) t whole ended =
      absurd (rw ended at (route-ReadsError stack dest hop action s))

  pub registration-IsGiven :
      (g : Registration) (s : State) → OnDone IsGiven (finish os nl (first (registering g)) s)
  unfolding finish first start_thread call mutex_unlock
  registration-IsGiven (incoming none none) s = tt
  registration-IsGiven (incoming none (some d)) s = ground arith
  registration-IsGiven (incoming (some c) d) s = ground arith
  registration-IsGiven (outgoing none) s = tt
  registration-IsGiven (outgoing (some callback)) s = ground arith
  registration-IsGiven (forward none) s = tt
  registration-IsGiven (forward (some callback)) s = ground arith

  pub registration-finish :
      (g : Registration) (s : State)
      → s.lock ≡ false
      → perform_call os nl (registering g) s
        ≡ and_then (finish os nl (first (registering g)) (locked s)) given
  unfolding finish first perform_call register register_incoming_callback register_outgoing_callback
      register_forward_callback start_thread call mutex_lock mutex_unlock
  registration-finish (incoming none none) s free = rw free refl
  registration-finish (incoming none (some d)) s free = rw free (ground arith)
  registration-finish (incoming (some c) none) s free = rw free (ground arith)
  registration-finish (incoming (some c) (some d)) s free = rw free (ground arith)
  registration-finish (outgoing none) s free = rw free refl
  registration-finish (outgoing (some callback)) s free = rw free (ground arith)
  registration-finish (forward none) s free = rw free refl
  registration-finish (forward (some callback)) s free = rw free (ground arith)

  registration-Pends :
      (g : Registration) (s : State) (e : Ending) (t : State)
      → s.lock ≡ false
      → finish os nl (first (registering g)) (locked s) ≡ done e t
      → Pends e (is_zero t.f_err ≡ true) (Backs (registering g) s)
  registration-Pends g s (gives n) t free ended = rw (registration-finish g s free, ended) refl
  registration-Pends g s reads_error t free ended =
      absurd (rw ended at (registration-IsGiven g (locked s)))
  registration-Pends g s (reads_address frame buf) t free ended =
      absurd (rw ended at (registration-IsGiven g (locked s)))

  pub finish-Pends :
      (c : Call) (s : State) (e : Ending) (t : State)
      → s.lock ≡ false
      → finish os nl (first c) (locked s) ≡ done e t
      → Pends e (is_zero t.f_err ≡ true) (Backs c s)
  unfolding first perform_call add_unicast_routing_entry delete_entry
  finish-Pends (adding stack dest hop) s e t free ended =
      route-Pends stack dest hop rtm_newroute (locked s) _ e t
        (change_route-finish os nl stack dest hop rtm_newroute s free) ended
  finish-Pends (deleting stack dest hop) s e t free ended =
      route-Pends stack dest hop rtm_delroute (locked s) _ e t
        (change_route-finish os nl stack dest hop rtm_delroute s free) ended
  finish-Pends (getting stack interface type) s reads_error t free ended = (tt, λ _. tt)
  finish-Pends (getting stack interface type) s (reads_address frame buf) t free ended = λ r. tt
  finish-Pends (getting stack interface type) s (gives n) t free ended = tt
  finish-Pends (registering g) s e t free ended = registration-Pends g s e t free ended
