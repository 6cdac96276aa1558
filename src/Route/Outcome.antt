-- ===== src/Route/Outcome.antt =====
-- What `AddUnicastRoutingEntry` and `DeleteEntry` return and leave behind, on every branch.
use manet_testbed.Base.{
  ℕ, ℤ, pos, minus_one, is_neg, is_zero, Bool, false, List, [], ◌∷◌, if◌then◌else◌, ◌≡◌, arith,
  ◌==◌, take, length, not, ◌&&◌, ◌||◌,
}
use manet_testbed.Netlink.{Mem, Netlink, overlay, nlmsg_error, af_inet, rtm_newroute, rtm_delroute}
use manet_testbed.Api.{
  State, route, Action, sendmsg, Reply, failed, message, Os, buflen, call, check, get_msg,
  mutex_lock, mutex_unlock,
}
use manet_testbed.Api.Laws.{Returns, WaitsLocked}
use manet_testbed.Route.{
  form_route, form_request, parse_nl_route_msg, note_error, change_route, add_unicast_routing_entry,
  delete_entry,
}

module _ (os : Os) (nl : Netlink) (stack : Mem) where
  -- Whether a reply of the kernel reports no error: it arrives, and it is either no error message
  -- or one whose error is 0, an acknowledgement.
  abbrev pub grants : Reply → Bool
  grants failed = false
  grants (message bs) =
      let got = take buflen bs in
      let buf = overlay got stack in
      not (parse_nl_route_msg nl buf (length got) == nlmsg_error)
      || is_zero (nl.nlmsgerr_error buf (nl.nlmsg_data 0))

  -- The system calls after the request for `action` is sent.
  abbrev pub requested : ℕ → ℕ → ℕ → State → List Action
  requested dest next_hop action s =
      sendmsg s.fd (route (form_route nl af_inet dest next_hop action)) ∷ s.log

  -- How a change of a route ends: the kernel has been asked, its reply is taken, and the result is
  -- 0 exactly if no error was noted before, the request was sent and the reply reports no error.
  abbrev pub Answered : List Action → State → Reply → List Reply → ℤ → State → Type 0
  Answered log' s reply rest r t =
      (r ≡ (if is_zero t.f_err then pos 0 else minus_one))
      × (is_zero t.f_err ≡ (is_zero s.f_err && (not (is_neg (os.result log')) && grants reply)))
      × (t.lock ≡ false)
      × (t.inbox ≡ rest)
      × (t.log ≡ log')
      × (t.fd ≡ s.fd)

  change_route_lem :
      (dest next_hop action : ℕ) (s : State) (reply : Reply) (rest : List Reply)
      → s.lock ≡ false
      → s.inbox ≡ reply ∷ rest
      → Returns
          (Answered (requested dest next_hop action s) s reply rest)
          (change_route os nl stack dest next_hop action s)
  unfolding change_route form_request note_error call check get_msg mutex_lock mutex_unlock
  change_route_lem dest next_hop action s failed rest free queued = ground arith
  change_route_lem dest next_hop action s (message bs) rest free queued = ground arith

  -- With the mutex free and a reply at hand, `AddUnicastRoutingEntry` returns: it has sent the one
  -- request for a new route and taken the reply, the mutex is free again, and the result is 0
  -- exactly if no error was noted before, the request was sent and the reply reports no error, and
  -- -1 if not.
  pub add_unicast_routing_entry_lem :
      (dest next_hop : ℕ) (s : State) (reply : Reply) (rest : List Reply)
      → s.lock ≡ false
      → s.inbox ≡ reply ∷ rest
      → Returns
          (Answered (requested dest next_hop rtm_newroute s) s reply rest)
          (add_unicast_routing_entry os nl stack dest next_hop s)
  unfolding add_unicast_routing_entry
  add_unicast_routing_entry_lem dest next_hop = change_route_lem dest next_hop rtm_newroute

  -- With the mutex free and a reply at hand, `DeleteEntry` returns: it has sent the one request to
  -- delete the route and taken the reply, the mutex is free again, and the result is 0 exactly if
  -- no error was noted before, the request was sent and the reply reports no error, and -1 if not.
  pub delete_entry_lem :
      (dest next_hop : ℕ) (s : State) (reply : Reply) (rest : List Reply)
      → s.lock ≡ false
      → s.inbox ≡ reply ∷ rest
      → Returns
          (Answered (requested dest next_hop rtm_delroute s) s reply rest)
          (delete_entry os nl stack dest next_hop s)
  unfolding delete_entry
  delete_entry_lem dest next_hop = change_route_lem dest next_hop rtm_delroute

  -- With the mutex free and no reply to come, a change of a route waits for ever, and holds the
  -- mutex while it waits.
  pub change_route-WaitsLocked :
      (dest next_hop action : ℕ) (s : State)
      → s.lock ≡ false
      → s.inbox ≡ []
      → WaitsLocked (change_route os nl stack dest next_hop action s)
  unfolding change_route form_request call check get_msg mutex_lock
  change_route-WaitsLocked dest next_hop action s free none_left = ground arith
