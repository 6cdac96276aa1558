-- ===== src/System/Calm.antt =====
-- What the calls other than registrations and initialisation leave alone.
pub mod Interface
use manet_testbed.Base.{
  ℕ, zero, suc, String, ℤ, Bool, true, false, Option, none, some, List, [], ◌∷◌, ◌||◌, ◌≡◌, refl,
  ap, ◌∙◌, ◌==◌, ◌&&◌, not, to_size, inl, inr, is_zero, u32, Bool-cases, arith, if◌then◌else◌,
  length,
}
use manet_testbed.Netlink.{
  Mem, load_u32, Netlink, nlmsg_error, nlmsg_done, rtm_newaddr, rtm_newroute, rtm_delroute,
}
use manet_testbed.Api.{
  State, Plane, in_control, in_data, out, for, Action, pthread_create, Reply, failed, message, M,
  Pointer, null, into, Run, done, blocked, fault, out_of_fuel, and_then, Os, call, check, ntop,
  receive, get_msg, mutex_lock, mutex_unlock,
}
use manet_testbed.Api.Laws.{Leaves}
use manet_testbed.Route.{
  form_request, parse_nl_route_msg, note_error, change_route, add_unicast_routing_entry,
  delete_entry,
}
use manet_testbed.Send.{send_sock_msg, send_to_text, send_unicast, send_broadcast}
use manet_testbed.Iface.{
  for_each_rattr, get_ip, parse_ifa_msg, parse_nl_if_msg_from, parse_nl_if_msg, receive_all,
  load_addr, get_interface_ip,
}

abbrev pub same : Plane → Plane → Bool
same in_control in_control = true
same in_data in_data = true
same out out = true
same for for = true
same _ _ = false

-- Whether the creation of a plane's thread is among the calls made.
abbrev pub spawned : Plane → List Action → Bool
spawned plane [] = false
spawned plane (pthread_create other ∷ log) = same plane other || spawned plane log
spawned plane (_ ∷ log) = spawned plane log

-- From `s` to `t` the callbacks and the threads stay as they are, and a noted error stays noted.
pub record Calm (s t : State) : Type 0 where
  pub control : t.incoming_control ≡ s.incoming_control
  pub arriving : t.incoming_data ≡ s.incoming_data
  pub leaving : t.outgoing ≡ s.outgoing
  pub passing : t.forwarded ≡ s.forwarded
  pub threads : (plane : Plane) → spawned plane t.log ≡ spawned plane s.log
  pub noted : is_zero s.f_err ≡ false → is_zero t.f_err ≡ false

pub Calm-self : (s : State) → Calm s s
Calm-self s = record {
  control = refl;
  arriving = refl;
  leaving = refl;
  passing = refl;
  threads = λ plane. refl;
  noted = λ h. h;
}

pub Calm-trans : {s t u : State} → Calm s t → Calm t u → Calm s u
Calm-trans a b = record {
  control = b.control ∙ a.control;
  arriving = b.arriving ∙ a.arriving;
  leaving = b.leaving ∙ a.leaving;
  passing = b.passing ∙ a.passing;
  threads = λ plane. b.threads plane ∙ a.threads plane;
  noted = λ h. b.noted (a.noted h);
}

-- The fields of `Calm`, as a tuple.
abbrev pub Edits : State → State → Type 0
Edits s t =
    (t.incoming_control ≡ s.incoming_control)
    × (t.incoming_data ≡ s.incoming_data)
    × (t.outgoing ≡ s.outgoing)
    × (t.forwarded ≡ s.forwarded)
    × ((plane : Plane) → spawned plane t.log ≡ spawned plane s.log)
    × (is_zero s.f_err ≡ false → is_zero t.f_err ≡ false)

pub edited : {s t u : State} → Calm s t → Edits t u → Calm s u
edited c e = Calm-trans c (record {
  control = e.0;
  arriving = e.1;
  leaving = e.2;
  passing = e.3;
  threads = e.4;
  noted = e.5;
})

-- A step in the middle of a function, and what follows it.
pub bind :
    {A B : Type 0} (s : State) (r : Run A) (k : A → M B)
    → Leaves (Calm s) r
    → ((a : A) (t : State) → Calm s t → Leaves (Calm s) (k a t))
    → Leaves (Calm s) (and_then r k)
bind s (done a t) k h next = next a t h
bind s (blocked t) k h next = h
bind s (fault t) k h next = h
bind s (out_of_fuel t) k h next = h

pub lock-Calm : (s : State) → Leaves (Calm s) (mutex_lock s)
unfolding mutex_lock
lock-Calm s = elim (Bool-cases s.lock) [
  | inl held ↦ simp held (Calm-self s)
  | inr free ↦ simp free (edited (Calm-self s) (refl, refl, refl, refl, λ plane. refl, λ h. h))
]

receive-Calm :
    (s t : State) (buf : Mem) (inbox : List Reply)
    → Calm s t
    → Leaves (Calm s) (receive buf t inbox)
unfolding receive
receive-Calm s t buf [] c = c
receive-Calm s t buf (failed ∷ rest) c = edited c (refl, refl, refl, refl, λ plane. refl, λ h. h)
receive-Calm s t buf (message bs ∷ rest) c =
    edited c (refl, refl, refl, refl, λ plane. refl, λ h. h)

pub get_msg-Calm : (s t : State) (buf : Mem) → Calm s t → Leaves (Calm s) (get_msg buf t)
unfolding get_msg
get_msg-Calm s t buf c = receive-Calm s t buf t.inbox c

pub change_route-Calm :
    (os : Os) (nl : Netlink) (stack : Mem) (dest hop action : ℕ) (s : State)
    → Leaves (Calm s) (change_route os nl stack dest hop action s)
unfolding change_route form_request note_error call check mutex_unlock
change_route-Calm os nl stack dest hop action s = bind s (mutex_lock s) _ (lock-Calm s) λ _ t c.
    bind s (get_msg stack _) _
      (get_msg-Calm s _ stack (edited c (refl, refl, refl, refl, λ plane. refl, λ h. ground arith)))
      λ (len, buf) u d. elim (Bool-cases (parse_nl_route_msg nl buf (to_size len) == nlmsg_error)) [
        | inl error ↦ rw error (edited d (refl, refl, refl, refl, λ plane. refl, λ h. ground arith))
        | inr fine ↦ rw fine (edited d (refl, refl, refl, refl, λ plane. refl, λ h. ground arith))
      ]

pub send_sock_msg-Calm :
    (os : Os) (dest : ℕ) (msg_buf : List ℕ) (type : Bool) (size : ℕ) (s : State)
    → Leaves (Calm s) (send_sock_msg os dest msg_buf type size s)
unfolding send_sock_msg send_to_text ntop call
send_sock_msg-Calm os dest msg_buf true size s =
    edited (Calm-self s) (refl, refl, refl, refl, λ plane. refl, λ h. h)
send_sock_msg-Calm os dest msg_buf false size s =
    edited (Calm-self s) (refl, refl, refl, refl, λ plane. refl, λ h. h)
