-- ===== src/System/NotedError.antt =====
-- After an error is noted in `f_err` no call succeeds again: nothing sets the variable back.
use manet_testbed.Base.{
  ℕ, minus_one, is_zero, u32_max, String, false, Option, List, ◌≡◌, refl, inl, inr, Bool-cases,
  to_size, ◌==◌, arith,
}
use manet_testbed.Netlink.{Mem, Netlink, nlmsg_error, rtm_newroute, rtm_delroute}
use manet_testbed.Api.{
  State, Run, M, done, blocked, fault, out_of_fuel, and_then, Os, call, check, ntop, mutex_lock,
  mutex_unlock, get_msg,
}
use manet_testbed.Api.Laws.{Leaves, Returns}
use manet_testbed.Iface.{get_interface_ip, query_interface}
use manet_testbed.Route.{
  form_request, note_error, parse_nl_route_msg, change_route, add_unicast_routing_entry,
  delete_entry,
}
use manet_testbed.Send.{send_sock_msg, send_to_text, send_unicast, send_broadcast}
use manet_testbed.Queue.Handlers.{Netfilter, User}
use manet_testbed.System.{Event, after}
use manet_testbed.System.Calm.{Calm, lock-Calm, get_msg-Calm, edited}
use manet_testbed.System.Calm.Interface.{query_interface-Calm}
use manet_testbed.System.Kept.{IsCalmUser}
use manet_testbed.System.Kept.Events.{after-Kept}

-- The run returns nothing but `v`.
abbrev pub ReturnsOnly : {A : Type 0} → A → Run A → Type 0
ReturnsOnly v (done a s) = a ≡ v
ReturnsOnly v _ = Unit {0}

-- A step of a call that keeps a noted error, and what follows it.
only-bind :
    {A B : Type 0} (v : B) (s : State) (r : Run A) (k : A → M B)
    → Leaves (Calm s) r
    → ((a : A) (t : State) → Calm s t → ReturnsOnly v (k a t))
    → ReturnsOnly v (and_then r k)
only-bind v s (done a t) k h next = next a t h
only-bind v s (blocked t) k h next = tt
only-bind v s (fault t) k h next = tt
only-bind v s (out_of_fuel t) k h next = tt

module _ (os : Os) (nl : Netlink) (s : State) (noted : is_zero s.f_err ≡ false) where
  change_route-ReturnsOnly :
      (stack : Mem) (dest hop action : ℕ)
      → ReturnsOnly minus_one (change_route os nl stack dest hop action s)
  unfolding change_route form_request note_error call check mutex_unlock
  change_route-ReturnsOnly stack dest hop action =
      only-bind _ s (mutex_lock s) _ (lock-Calm s) λ _ t c.
        only-bind _ s (get_msg stack _) _
          (get_msg-Calm s _ stack
            (edited c (refl, refl, refl, refl, λ plane. refl, λ h. ground arith)))
          λ (len, buf) u d.
            let still = d.noted noted in
            elim (Bool-cases (parse_nl_route_msg nl buf (to_size len) == nlmsg_error)) [
              | inl error ↦ rw error (ground arith)
              | inr fine ↦ rw fine (ground arith)
            ]

  get_interface_ip-ReturnsOnly :
      (stack : Mem) (interface : Option String) (type : ℕ)
      → ReturnsOnly u32_max (get_interface_ip os nl stack interface type s)
  unfolding get_interface_ip
  get_interface_ip-ReturnsOnly stack interface type =
      only-bind _ s (query_interface os nl stack interface type s) _
        (query_interface-Calm os nl stack interface type s) λ buf u d. rw (d.noted noted) refl

  send-Returns :
      (dest : ℕ) (msg_buf : List ℕ) (size : ℕ)
      → Returns (λ r t. r ≡ minus_one) (send_unicast os dest msg_buf size s)
  unfolding send_unicast send_sock_msg send_to_text ntop call
  send-Returns dest msg_buf size = ground arith

  send_broadcast-Returns :
      (msg_buf : List ℕ) (size : ℕ)
      → Returns (λ r t. r ≡ minus_one) (send_broadcast os msg_buf size s)
  unfolding send_broadcast send_sock_msg send_to_text ntop call
  send_broadcast-Returns msg_buf size = ground arith

module _ (os : Os) (nl : Netlink) (stack : Mem) (address : ℕ) where
  module _ (hop : ℕ) (interface : Option String) (type : ℕ) (msg_buf : List ℕ) (size : ℕ) where
    -- Both changes of a route return nothing but -1, `GetInterfaceIP` nothing but
    -- `(uint32_t)-1`, and both sends do return -1.
    abbrev pub AllFail : State → Type 0
    AllFail s =
        ReturnsOnly minus_one (add_unicast_routing_entry os nl stack address hop s)
        × ReturnsOnly minus_one (delete_entry os nl stack address hop s)
        × ReturnsOnly u32_max (get_interface_ip os nl stack interface type s)
        × Returns (λ r t. r ≡ minus_one) (send_unicast os address msg_buf size s)
        × Returns (λ r t. r ≡ minus_one) (send_broadcast os msg_buf size s)

    all-fail : (s : State) → is_zero s.f_err ≡ false → AllFail s
    unfolding add_unicast_routing_entry delete_entry
    all-fail s noted = (
      change_route-ReturnsOnly os nl s noted stack address hop rtm_newroute,
      change_route-ReturnsOnly os nl s noted stack address hop rtm_delroute,
      get_interface_ip-ReturnsOnly os nl s noted stack interface type,
      send-Returns os nl s noted address msg_buf size,
      send_broadcast-Returns os nl s noted msg_buf size,
    )

    -- Once an error is noted in `f_err`, and where the user's callbacks leave it noted, then after
    -- any sequence of calls and packets both changes of a route return nothing but -1,
    -- `GetInterfaceIP` nothing but -1 as a `uint32_t`, and both sends do return -1: no call of the
    -- API clears the error.
    noted-AllFail :
        (nf : Netfilter) (user : User) (es : List Event) (s : State)
        → IsCalmUser user
        → is_zero s.f_err ≡ false
        → AllFail (after os nl nf user es s)
    noted-AllFail nf user es s calm noted =
        all-fail _ ((after-Kept os nf user calm nl es s).1 noted)
