-- ===== src/System/Kept/Events.antt =====
-- The handlers and every other event, and any sequence of events.
use manet_testbed.Base.{
  ℕ, ℤ, true, false, Option, none, some, List, [], ◌∷◌, refl, inl, inr, Bool-cases,
}
use manet_testbed.Netlink.{Netlink}
use manet_testbed.Api.{State, CallbackFunction, Plane, in_control, in_data, out, for, M, Os, call}
use manet_testbed.Api.Laws.{Leaves}
use manet_testbed.Route.{add_unicast_routing_entry, delete_entry}
use manet_testbed.Send.{send_sock_msg, send_unicast, send_broadcast}
use manet_testbed.Queue.Handlers.{
  Packet, Netfilter, User, with_payload, id_of, arguments, is_own_broadcast, set_verdict, ask,
  handle_unless_own, handle_incoming_control, handle_incoming_data, handle_outgoing,
  handle_forwarded, handle, Arguments,
}
use manet_testbed.System.{
  Leaves-state_of, Event, gets_address, adds_route, deletes_route, sends_unicast, sends_broadcast,
  registers, handles, happen, after,
}
use manet_testbed.System.Calm.{Calm, Calm-self, edited, bind, change_route-Calm, send_sock_msg-Calm}
use manet_testbed.System.Calm.Interface.{get_interface_ip-Calm}
use manet_testbed.System.Kept.{Kept, IsCalmUser, state_of-Calm}
use manet_testbed.System.Kept.Registrations.{register-Kept}

-- The handlers, where the user's callbacks are calm.
module _ (os : Os) (nf : Netfilter) (user : User) (calm : IsCalmUser user) where
  ask-Calm :
      (plane : Plane) (cb : Option CallbackFunction) (id : ℕ) (args : Arguments) (s : State)
      → Leaves (Calm s) (ask os nf user plane cb id args s)
  unfolding ask set_verdict call
  ask-Calm plane none id args s = Calm-self s
  ask-Calm plane (some f) id args s =
      bind s (user f args s) _ (calm f args s)
        λ ret t c. edited c (refl, refl, refl, refl, λ plane. refl, λ h. h)

  handle_unless_own-Calm :
      (plane : Plane) (cb : State → Option CallbackFunction) (id : ℕ) (bs : List ℕ) (s : State)
      → Leaves (Calm s) (handle_unless_own os nf user plane cb id bs s)
  unfolding handle_unless_own set_verdict call
  handle_unless_own-Calm plane cb id bs s =
      elim (Bool-cases (is_own_broadcast s (arguments nf bs))) [
        | inl own ↦ rw own (edited (Calm-self s) (refl, refl, refl, refl, λ plane. refl, λ h. h))
        | inr other ↦ rw other (ask-Calm plane (cb s) id (arguments nf bs) s)
      ]

  with_payload-Calm :
      (bs : Option (List ℕ)) (body : List ℕ → M ℤ) (s : State)
      → ((b : List ℕ) → Leaves (Calm s) (body b s))
      → Leaves (Calm s) (with_payload bs body s)
  with_payload-Calm none body s h = Calm-self s
  with_payload-Calm (some b) body s h = h b

  handle-Calm :
      (plane : Plane) (packet : Packet) (s : State)
      → Leaves (Calm s) (handle os nf user plane packet s)
  unfolding handle handle_incoming_control handle_incoming_data handle_outgoing handle_forwarded
  handle-Calm in_control packet s =
      with_payload-Calm packet.payload _ s λ bs. handle_unless_own-Calm in_control _ _ bs s
  handle-Calm in_data packet s =
      with_payload-Calm packet.payload _ s λ bs. handle_unless_own-Calm in_data _ _ bs s
  handle-Calm out packet s =
      with_payload-Calm packet.payload _ s λ bs. handle_unless_own-Calm out _ _ bs s
  handle-Calm for packet s =
      with_payload-Calm packet.payload _ s
        λ bs. ask-Calm for s.forwarded (id_of packet) (arguments nf bs) s

  -- Every event keeps the callbacks of the started planes, and a noted error.
  pub happen-Kept : (nl : Netlink) (e : Event) (s : State) → Kept s (happen os nl nf user e s)
  unfolding happen add_unicast_routing_entry delete_entry send_unicast send_broadcast
  happen-Kept nl (gets_address stack interface type) s =
      state_of-Calm s _ (get_interface_ip-Calm os nl stack interface type s)
  happen-Kept nl (adds_route stack dest hop) s =
      state_of-Calm s _ (change_route-Calm os nl stack dest hop _ s)
  happen-Kept nl (deletes_route stack dest hop) s =
      state_of-Calm s _ (change_route-Calm os nl stack dest hop _ s)
  happen-Kept nl (sends_unicast dest msg_buf size) s = state_of-Calm s _ (
      bind s (send_sock_msg os dest msg_buf false size s) _
        (send_sock_msg-Calm os dest msg_buf false size s) λ r t c. c)
  happen-Kept nl (sends_broadcast msg_buf size) s = state_of-Calm s _ (
      bind s (send_sock_msg os 0 msg_buf true size s) _
        (send_sock_msg-Calm os 0 msg_buf true size s) λ r t c. c)
  happen-Kept nl (registers g) s = Leaves-state_of (Kept s) _ (register-Kept os g s)
  happen-Kept nl (handles plane packet) s = state_of-Calm s _ (handle-Calm plane packet s)

  pub after-Kept : (nl : Netlink) (es : List Event) (s : State) → Kept s (after os nl nf user es s)
  unfolding after
  after-Kept nl [] s = (λ g. g, λ h. h)
  after-Kept nl (e ∷ es) s =
      let first = happen-Kept nl e s in
      let rest = after-Kept nl es (happen os nl nf user e s) in
      (λ g. rest.0 (first.0 g), λ h. rest.1 (first.1 h))
