-- ===== src/System/Deadlock.antt =====
-- A registration that fails keeps the mutex, and no call frees it again.
use manet_testbed.Base.{
  ℕ, ℤ, u32_max, String, true, false, Option, none, some, List, [], ◌∷◌, ◌≡◌, inl, inr, Bool-cases,
  subst, arith,
}
use manet_testbed.Netlink.{Mem, Netlink}
use manet_testbed.Api.{
  State, CallbackFunction, Plane, in_control, in_data, out, for, M, done, blocked, Os, call, ntop,
  mutex_lock,
}
use manet_testbed.Api.Laws.{Leaves, Leaves-bind, Returns}
use manet_testbed.Iface.{get_interface_ip, query_interface}
use manet_testbed.Route.{change_route, add_unicast_routing_entry, delete_entry}
use manet_testbed.Send.{send_sock_msg, send_to_text, send_unicast, send_broadcast}
use manet_testbed.Queue.Handlers.{
  Packet, Netfilter, User, Arguments, with_payload, arguments, is_own_broadcast, set_verdict, ask,
  handle_unless_own, handle_incoming_control, handle_incoming_data, handle_outgoing,
  handle_forwarded, handle,
}
use manet_testbed.Queue.Register.{
  register_incoming_callback, register_outgoing_callback, register_forward_callback,
}
use manet_testbed.Queue.Register.Outcomes.{
  Registration, incoming, outgoing, forward, register, FreedOnSuccess, register-FreedOnSuccess,
}
use manet_testbed.System.{
  Event, gets_address, adds_route, deletes_route, sends_unicast, sends_broadcast, registers,
  handles, Leaves-state_of, happen, after,
}

abbrev pub IsHeld : State → Type 0
IsHeld s = s.lock ≡ true

-- Users whose callbacks do not free a mutex that is held: only its holder may unlock it.
abbrev pub LeavesHeld : User → Type 0
LeavesHeld user =
    (callback : CallbackFunction) (args : Arguments) (s : State)
    → s.lock ≡ true
    → Leaves IsHeld (user callback args s)

-- The calls that take the mutex wait for ever, and change nothing.
module _ (os : Os) (nl : Netlink) (s : State) (held : s.lock ≡ true) where
  register-blocked : (g : Registration) → register os g s ≡ blocked s
  unfolding register register_incoming_callback register_outgoing_callback register_forward_callback
      mutex_lock
  register-blocked (incoming c d) = simp held
  register-blocked (outgoing cb) = simp held
  register-blocked (forward cb) = simp held

  change_route-blocked :
      (stack : Mem) (dest hop action : ℕ) → change_route os nl stack dest hop action s ≡ blocked s
  unfolding change_route mutex_lock
  change_route-blocked stack dest hop action = simp held

  get_interface_ip-blocked :
      (stack : Mem) (interface : Option String) (type : ℕ)
      → get_interface_ip os nl stack interface type s ≡ blocked s
  unfolding get_interface_ip query_interface mutex_lock
  get_interface_ip-blocked stack interface type = simp held

module _ (os : Os) (nf : Netfilter) (user : User) (keeps : LeavesHeld user) where
  ask-IsHeld :
      (plane : Plane) (cb : Option CallbackFunction) (id : ℕ) (args : Arguments) (s : State)
      → s.lock ≡ true
      → Leaves IsHeld (ask os nf user plane cb id args s)
  unfolding ask set_verdict call
  ask-IsHeld plane none id args s held = held
  ask-IsHeld plane (some f) id args s held =
      Leaves-bind IsHeld (user f args) _ s (keeps f args s held) λ ret t h. h

  handle_unless_own-IsHeld :
      (plane : Plane) (cb : State → Option CallbackFunction) (id : ℕ) (bs : List ℕ) (s : State)
      → s.lock ≡ true
      → Leaves IsHeld (handle_unless_own os nf user plane cb id bs s)
  unfolding handle_unless_own set_verdict call
  handle_unless_own-IsHeld plane cb id bs s held =
      elim (Bool-cases (is_own_broadcast s (arguments nf bs))) [
        | inl own ↦ rw own held
        | inr other ↦ rw other (ask-IsHeld plane (cb s) id (arguments nf bs) s held)
      ]

  with_payload-IsHeld :
      (bs : Option (List ℕ)) (body : List ℕ → M ℤ) (s : State)
      → s.lock ≡ true
      → ((b : List ℕ) → Leaves IsHeld (body b s))
      → Leaves IsHeld (with_payload bs body s)
  with_payload-IsHeld none body s held h = held
  with_payload-IsHeld (some b) body s held h = h b

  handle-IsHeld :
      (plane : Plane) (packet : Packet) (s : State)
      → s.lock ≡ true
      → Leaves IsHeld (handle os nf user plane packet s)
  unfolding handle handle_incoming_control handle_incoming_data handle_outgoing handle_forwarded
  handle-IsHeld in_control packet s held =
      with_payload-IsHeld packet.payload _ s held
        λ bs. handle_unless_own-IsHeld in_control _ _ bs s held
  handle-IsHeld in_data packet s held =
      with_payload-IsHeld packet.payload _ s held
        λ bs. handle_unless_own-IsHeld in_data _ _ bs s held
  handle-IsHeld out packet s held =
      with_payload-IsHeld packet.payload _ s held λ bs. handle_unless_own-IsHeld out _ _ bs s held
  handle-IsHeld for packet s held =
      with_payload-IsHeld packet.payload _ s held
        λ bs. ask-IsHeld for s.forwarded _ (arguments nf bs) s held

  happen-IsHeld :
      (nl : Netlink) (e : Event) (s : State) → s.lock ≡ true → IsHeld (happen os nl nf user e s)
  unfolding happen add_unicast_routing_entry delete_entry send_unicast send_broadcast send_sock_msg
      send_to_text ntop call
  happen-IsHeld nl (gets_address stack interface type) s held =
      rw (get_interface_ip-blocked os nl s held stack interface type) held
  happen-IsHeld nl (adds_route stack dest hop) s held =
      rw (change_route-blocked os nl s held stack dest hop _) held
  happen-IsHeld nl (deletes_route stack dest hop) s held =
      rw (change_route-blocked os nl s held stack dest hop _) held
  happen-IsHeld nl (sends_unicast dest msg_buf size) s held = held
  happen-IsHeld nl (sends_broadcast msg_buf size) s held = held
  happen-IsHeld nl (registers g) s held = rw (register-blocked os nl s held g) held
  happen-IsHeld nl (handles plane packet) s held =
      Leaves-state_of IsHeld _ (handle-IsHeld plane packet s held)

  after-IsHeld :
      (nl : Netlink) (es : List Event) (s : State)
      → s.lock ≡ true
      → IsHeld (after os nl nf user es s)
  unfolding after
  after-IsHeld nl [] s held = held
  after-IsHeld nl (e ∷ es) s held = after-IsHeld nl es _ (happen-IsHeld nl e s held)

-- The result of a registration that finds the mutex free and returns -1 has the mutex held.
failed-IsHeld :
    (os : Os) (g : Registration) (s t : State)
    → s.lock ≡ false
    → register os g s ≡ done u32_max t
    → t.lock ≡ true
failed-IsHeld os g s t free e =
    elim (subst (Returns FreedOnSuccess) e (register-FreedOnSuccess os s free g)) [
      | inl freed ↦ absurd (omega (arith, freed.0))
      | inr held ↦ held.1
    ]

module _ (os : Os) (nl : Netlink) (stack : Mem) (address hop : ℕ) where
  module _ (interface : Option String) (type : ℕ) (g : Registration) where
    -- A registration, both changes of a route and `GetInterfaceIP` wait for ever and change nothing.
    abbrev pub AllWait : State → Type 0
    AllWait s =
        (register os g s ≡ blocked s)
        × (add_unicast_routing_entry os nl stack address hop s ≡ blocked s)
        × (delete_entry os nl stack address hop s ≡ blocked s)
        × (get_interface_ip os nl stack interface type s ≡ blocked s)

    all-wait : (s : State) → s.lock ≡ true → AllWait s
    unfolding add_unicast_routing_entry delete_entry
    all-wait s held = (
      register-blocked os nl s held g,
      change_route-blocked os nl s held stack address hop _,
      change_route-blocked os nl s held stack address hop _,
      get_interface_ip-blocked os nl s held stack interface type,
    )

    -- A registration that finds the mutex free and returns -1 leaves the program in a deadlock:
    -- where the user's callbacks do not free a mutex that is held, then after any sequence of calls
    -- and packets every registration, both changes of a route and `GetInterfaceIP` wait for ever.
    register-Deadlock :
        (nf : Netfilter) (user : User) (failing : Registration) (es : List Event) (s t : State)
        → LeavesHeld user
        → s.lock ≡ false
        → register os failing s ≡ done u32_max t
        → AllWait (after os nl nf user es t)
    register-Deadlock nf user failing es s t keeps free e =
        all-wait _ (after-IsHeld os nf user keeps nl es t (failed-IsHeld os failing s t free e))
