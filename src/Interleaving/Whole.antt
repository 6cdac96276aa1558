-- ===== src/Interleaving/Whole.antt =====
-- A call whose steps are taken without a break is the call in one piece.
use manet_testbed.Base.{
  ℕ, ℤ, String, ◌+◌, pos, minus_one, is_zero, u32_max, true, false, Option, none, some, ◌≡◌, refl,
  sym, ◌∙◌, if◌then◌else◌, to_size, Bool-cases, inl, inr, ◌==◌, arith,
}
use manet_testbed.Netlink.{Mem, Netlink, load_u32, rtm_newroute, rtm_delroute}
use manet_testbed.Api.{
  State, Pointer, null, into, M, Run, done, blocked, fault, out_of_fuel, pure, gets, and_then,
  ◌>>=◌, ◌>>◌, Os, call, check, get_msg, mutex_lock, mutex_unlock,
}
use manet_testbed.Iface.{get_ip, receive_all, load_addr, query_interface, get_interface_ip}
use manet_testbed.Route.{form_request, change_route, add_unicast_routing_entry, delete_entry}
use manet_testbed.Queue.Register.{
  start_thread, register_incoming_callback, register_outgoing_callback, register_forward_callback,
}
use manet_testbed.Queue.Register.Outcomes.{Registration, incoming, outgoing, forward, register}
use manet_testbed.System.{state_of}
use manet_testbed.Interleaving.{
  in_route, Call, adding, deleting, getting, registering, asks_route, Ending, reads_error,
  reads_address, first, perform_call,
}
use manet_testbed.Interleaving.Finish.{finish, released, answer_noted, note_answer}

and_then_assoc :
    {A B C : Type 0} (r : Run A) (k : A → M B) (l : B → M C)
    → and_then (and_then r k) l ≡ and_then r (λ a t. and_then (k a t) l)
and_then_assoc (done a s) k l = refl
and_then_assoc (blocked s) k l = refl
and_then_assoc (fault s) k l = refl
and_then_assoc (out_of_fuel s) k l = refl

-- What follows a run and changes nothing.
pub state_of-and_then :
    {A B : Type 0} (r : Run A) (k : A → M B)
    → ((a : A) (t : State) → state_of (k a t) ≡ t)
    → state_of (and_then r k) ≡ state_of r
state_of-and_then (done a s) k h = h a s
state_of-and_then (blocked s) k h = refl
state_of-and_then (fault s) k h = refl
state_of-and_then (out_of_fuel s) k h = refl

pub state_of-load_addr : (buf : Mem) (s : State) → state_of (load_addr buf s) ≡ s
unfolding load_addr
state_of-load_addr buf s = through s.addr
  where
    through :
        (p : Pointer)
        → state_of (elim p [
          | null ↦ fault s
          | into frame offset ↦ if frame == s.frame then done (load_u32 buf offset) s else fault s
        ])
          ≡ s
    through null = refl
    through (into frame offset) = elim (Bool-cases (frame == s.frame)) [
      | inl here ↦ rw here refl
      | inr gone ↦ rw gone refl
    ]

-- The state when a call has taken the mutex.
abbrev pub locked : State → State
locked s = record s { lock = true }

-- The result of a change of a route.
abbrev pub status : Ending → M ℤ
status e = gets (λ s. if is_zero s.f_err then pos 0 else minus_one)

module _ (os : Os) (nl : Netlink) where
  pub change_route-finish :
      (stack : Mem) (dest hop action : ℕ) (s : State)
      → s.lock ≡ false
      → change_route os nl stack dest hop action s
        ≡ and_then (finish os nl (in_route (asks_route stack dest hop action)) (locked s)) status
  unfolding finish change_route form_request call check mutex_lock mutex_unlock
  change_route-finish stack dest hop action s free = rw free (answered _)
    where
      answer : ℤ × Mem → M Ending
      answer (len, buf) = do check len; answer_noted os nl (to_size len) buf

      noted :
          (a : ℤ × Mem) (t : State)
          → (do check a.0; note_answer os nl (to_size a.0) a.1; mutex_unlock; status reads_error) t
            ≡ and_then (answer a t) status
      noted (len, buf) t = sym (
          and_then_assoc (note_answer os nl (to_size len) buf _) (λ _. released reads_error) status)

      answered :
          (u : State)
          → (do
            a ← get_msg stack
            check a.0
            note_answer os nl (to_size a.0) a.1
            mutex_unlock
            status reads_error)
              u
            ≡ and_then (and_then (get_msg stack u) answer) status
      answered u =
          (λ i. and_then (get_msg stack u) λ a t. noted a t i)
          ∙ sym (and_then_assoc (get_msg stack u) answer status)

  -- The registrations, when they have set their rules up.
  pub register-finish :
      (g : Registration) (s : State)
      → s.lock ≡ false
      → state_of (register os g s) ≡ state_of (finish os nl (first (registering g)) (locked s))
  unfolding finish first register register_incoming_callback register_outgoing_callback
      register_forward_callback start_thread call mutex_lock mutex_unlock
  register-finish (incoming none none) s free = rw free refl
  register-finish (incoming none (some d)) s free = rw free (ground arith)
  register-finish (incoming (some c) d) s free = rw free (ground arith)
  register-finish (outgoing none) s free = rw free refl
  register-finish (outgoing (some callback)) s free = rw free (ground arith)
  register-finish (forward none) s free = rw free refl
  register-finish (forward (some callback)) s free = rw free (ground arith)

  -- Reading the result changes nothing.
  pub get_interface_ip-queried :
      (stack : Mem) (interface : Option String) (type : ℕ) (s : State)
      → state_of (get_interface_ip os nl stack interface type s)
        ≡ state_of (query_interface os nl stack interface type s)
  unfolding get_interface_ip
  get_interface_ip-queried stack interface type s =
      state_of-and_then (query_interface os nl stack interface type s) result unchanged
    where
      result : Mem → M ℕ
      result buf = do
        f_err ← gets (λ s'. s'.f_err)
        if is_zero f_err then load_addr buf else pure u32_max

      unchanged : (buf : Mem) (t : State) → state_of (result buf t) ≡ t
      unchanged buf t = elim (Bool-cases (is_zero t.f_err)) [
        | inl fine ↦ rw fine (state_of-load_addr buf t)
        | inr noted ↦ rw noted refl
      ]

  -- The release, with one value or another.
  release-state :
      (frame : ℕ) (r : Run Mem)
      → state_of (and_then r (λ buf. do mutex_unlock; pure buf))
        ≡ state_of (and_then r (λ buf. released (reads_address frame buf)))
  unfolding mutex_unlock
  release-state frame (done a t) = refl
  release-state frame (blocked t) = refl
  release-state frame (fault t) = refl
  release-state frame (out_of_fuel t) = refl

  query_interface-finish :
      (stack : Mem) (interface : Option String) (type : ℕ) (s : State)
      → s.lock ≡ false
      → state_of (query_interface os nl stack interface type s)
        ≡ state_of (finish os nl (first (getting stack interface type)) (locked s))
  unfolding finish first query_interface get_ip call check mutex_lock
  query_interface-finish stack interface type s free =
      rw free (release-state (s.frame + 1) (receive_all os nl s.inbox stack type _))

  -- The state that a call leaves, made in one piece or by its steps.
  pub perform_call-finish :
      (c : Call) (s : State)
      → s.lock ≡ false
      → state_of (perform_call os nl c s) ≡ state_of (finish os nl (first c) (locked s))
  unfolding perform_call first add_unicast_routing_entry delete_entry
  perform_call-finish (adding stack dest hop) s free =
      rw (change_route-finish stack dest hop _ s free) (
        state_of-and_then
          (finish os nl (in_route (asks_route stack dest hop rtm_newroute)) (locked s)) status
          (λ e t. refl))
  perform_call-finish (deleting stack dest hop) s free =
      rw (change_route-finish stack dest hop _ s free) (
        state_of-and_then
          (finish os nl (in_route (asks_route stack dest hop rtm_delroute)) (locked s)) status
          (λ e t. refl))
  perform_call-finish (getting stack interface type) s free =
      state_of-and_then (get_interface_ip os nl stack interface type s) _ (λ a t. refl)
      ∙ get_interface_ip-queried stack interface type s
      ∙ query_interface-finish stack interface type s free
  perform_call-finish (registering g) s free =
      state_of-and_then (register os g s) _ (λ a t. refl) ∙ register-finish g s free
