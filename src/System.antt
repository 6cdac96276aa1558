-- ===== src/System.antt =====
-- The library as a whole: the calls that a program makes of it once it is initialised and the
-- packets that its threads handle, one after the other in any order.
pub mod Calm
pub mod Kept
pub mod Started
pub mod NotedError
pub mod Deadlock
pub mod Race
pub mod Misread
use manet_testbed.Base.{ℕ, String, Option, List, [], ◌∷◌}
use manet_testbed.Netlink.{Mem, Netlink}
use manet_testbed.Api.{
  State, Plane, M, Run, done, blocked, fault, out_of_fuel, and_then, pure, ◌>>=◌, Os,
}
use manet_testbed.Api.Laws.{Leaves}
use manet_testbed.Iface.{get_interface_ip}
use manet_testbed.Route.{add_unicast_routing_entry, delete_entry}
use manet_testbed.Send.{send_unicast, send_broadcast}
use manet_testbed.Queue.Handlers.{Packet, Netfilter, User, handle}
use manet_testbed.Queue.Register.Outcomes.{Registration, register}

-- What may happen next. Each call that receives from the kernel has its own stack.
pub data Event : Type 0 where
  gets_address : (stack : Mem) (interface : Option String) (type : ℕ) → Event
  adds_route deletes_route : (stack : Mem) (dest_address next_hop : ℕ) → Event
  sends_unicast : (dest_address : ℕ) (msg_buf : List ℕ) (size : ℕ) → Event
  sends_broadcast : (msg_buf : List ℕ) (size : ℕ) → Event
  registers : Registration → Event
  handles : Plane → Packet → Event

-- The state where a run stops, however it ends.
abbrev pub state_of : {A : Type 0} → Run A → State
state_of (done a s) = s
state_of (blocked s) = s
state_of (fault s) = s
state_of (out_of_fuel s) = s

pub Leaves-state_of : {A : Type 0} (P : State → Type 0) (r : Run A) → Leaves P r → P (state_of r)
Leaves-state_of P (done a s) h = h
Leaves-state_of P (blocked s) h = h
Leaves-state_of P (fault s) h = h
Leaves-state_of P (out_of_fuel s) h = h

module _ (os : Os) (nl : Netlink) (nf : Netfilter) (user : User) where
  unfoldable pub happen : Event → State → State
  happen (gets_address stack interface type) s =
      state_of (get_interface_ip os nl stack interface type s)
  happen (adds_route stack dest hop) s = state_of (add_unicast_routing_entry os nl stack dest hop s)
  happen (deletes_route stack dest hop) s = state_of (delete_entry os nl stack dest hop s)
  happen (sends_unicast dest msg_buf size) s = state_of (send_unicast os dest msg_buf size s)
  happen (sends_broadcast msg_buf size) s = state_of (send_broadcast os msg_buf size s)
  happen (registers g) s = state_of (register os g s)
  happen (handles plane packet) s = state_of (handle os nf user plane packet s)

  unfoldable pub after : List Event → State → State
  after [] s = s
  after (e ∷ es) s = after es (happen e s)
