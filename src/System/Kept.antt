-- ===== src/System/Kept.antt =====
-- What every event keeps: a plane whose thread was started has a callback, and a noted error stays.
pub mod Registrations
pub mod Events
use manet_testbed.Base.{
  ℕ, ℤ, Bool, true, false, Option, none, some, List, [], ◌∷◌, ◌≡◌, ◌≢◌, ◌∙◌, sym, refl, minus_one,
  pos, is_neg, u32_max, if◌then◌else◌, inl, inr, is_zero, Bool-cases,
}
use manet_testbed.Netlink.{Netlink}
use manet_testbed.Api.{
  State, CallbackFunction, Plane, in_control, in_data, out, for, Action, pthread_create, M, Run,
  done, blocked, fault, out_of_fuel, and_then, pure, ◌>>=◌, ◌>>◌, Os, call, mutex_lock,
  mutex_unlock,
}
use manet_testbed.Api.Laws.{Leaves}
use manet_testbed.Route.{add_unicast_routing_entry, delete_entry}
use manet_testbed.Send.{send_sock_msg, send_to_text, send_unicast, send_broadcast}
use manet_testbed.Queue.Handlers.{
  Packet, Netfilter, User, with_payload, id_of, arguments, is_own_broadcast, set_verdict, ask,
  handle_unless_own, handle_incoming_control, handle_incoming_data, handle_outgoing,
  handle_forwarded, handle, Arguments,
}
use manet_testbed.Queue.Register.{
  start_thread, register_incoming_callback, register_outgoing_callback, register_forward_callback,
}
use manet_testbed.Queue.Register.Outcomes.{
  Registration, incoming, outgoing, forward, register, outgoing_filtered, forward_filtered,
  incoming_filtered,
}
use manet_testbed.System.{
  Leaves-state_of, Event, gets_address, adds_route, deletes_route, sends_unicast, sends_broadcast,
  registers, handles, state_of, happen, after,
}
use manet_testbed.System.Calm.{
  spawned, Calm, Calm-self, Edits, edited, bind, lock-Calm, change_route-Calm, send_sock_msg-Calm,
}
use manet_testbed.System.Calm.Interface.{get_interface_ip-Calm}
use manet_testbed.Queue.Handlers.Verdicts.{registered}

-- A plane whose thread was started has a callback.
abbrev pub HasCallback : State → Plane → Type 0
HasCallback s plane = spawned plane s.log ≡ true → registered plane s ≢ none

abbrev pub Guarded : State → Type 0
Guarded s = HasCallback s in_control × HasCallback s in_data × HasCallback s out × HasCallback s for

-- What is kept from `s` to `t`.
abbrev pub Kept : State → State → Type 0
Kept s t = (Guarded s → Guarded t) × (is_zero s.f_err ≡ false → is_zero t.f_err ≡ false)

-- Users whose callbacks leave the registered callbacks and the threads as they are, and a noted error
-- noted: they may call the API, but register nothing.
abbrev pub IsCalmUser : User → Type 0
IsCalmUser user =
    (callback : CallbackFunction) (args : Arguments) (s : State)
    → Leaves (Calm s) (user callback args s)

pub Calm-Kept : {s t : State} → Calm s t → Kept s t
Calm-Kept c = (
  λ g. (
    λ started none'. g.0 (sym (c.threads in_control) ∙ started) (sym c.control ∙ none'),
    λ started none'. g.1 (sym (c.threads in_data) ∙ started) (sym c.arriving ∙ none'),
    λ started none'. g.2 (sym (c.threads out) ∙ started) (sym c.leaving ∙ none'),
    λ started none'. g.3 (sym (c.threads for) ∙ started) (sym c.passing ∙ none'),
  ),
  c.noted,
)

pub state_of-Calm : {A : Type 0} (s : State) (r : Run A) → Leaves (Calm s) r → Kept s (state_of r)
state_of-Calm s r c = Calm-Kept (Leaves-state_of (Calm s) r c)

-- A step of a registration, and what follows it.
pub bind-Kept :
    {A B : Type 0} (s : State) (r : Run A) (k : A → M B)
    → Leaves (Kept s) r
    → ((a : A) (t : State) → Kept s t → Leaves (Kept s) (k a t))
    → Leaves (Kept s) (and_then r k)
bind-Kept s (done a t) k h next = next a t h
bind-Kept s (blocked t) k h next = h
bind-Kept s (fault t) k h next = h
bind-Kept s (out_of_fuel t) k h next = h

pub callback : {a : CallbackFunction} → some a ≢ none
callback {a} same = cc

pub lock-Kept : (s : State) → Leaves (Kept s) (mutex_lock s)
unfolding mutex_lock
lock-Kept s = elim (Bool-cases s.lock) [
  | inl held ↦ rw held ((λ g. g), λ h. h)
  | inr free ↦ rw free ((λ g. g), λ h. h)
]
