-- ===== src/Route.antt =====
-- src/api_route.c: routes of the main table, added and deleted by a netlink request that the kernel
-- acknowledges.
pub mod Request
pub mod Outcome
pub mod Kernel
pub mod Table
use manet_testbed.Base.{
  ℕ, ℤ, pos, minus_one, is_neg, is_zero, Bool, true, false, List, [], ◌∷◌, ◌++◌, if◌then◌else◌, ◌+◌,
  ◌==◌, bit_or, to_size, u8,
}
use manet_testbed.Netlink.{
  Mem, Netlink, nlmsg_error, rtm_newroute, rtm_delroute, nlm_f_request, nlm_f_ack, nlm_f_root,
  nlm_f_replace, nlm_f_create, rt_table_main, rtprot_static, rt_scope_universe, rtn_unicast,
  rta_dst, rta_oif, rta_gateway, sizeof_rtmsg, sizeof_u32, sizeof_int, af_inet,
}
use manet_testbed.Api.{
  State, Attribute, RtRequest, Message, route, Action, sendmsg, M, Run, done, pure, gets, modify,
  ◌>>=◌, ◌>>◌, Os, call, check, get_msg, mutex_lock, mutex_unlock,
}

-- `interface` of `form_request`: the index of wlan0.
abbrev pub wlan0_index : ℕ
wlan0_index = 3

-- The flags of every request.
abbrev pub route_flags : ℕ
route_flags =
    bit_or (bit_or (bit_or (bit_or nlm_f_request nlm_f_ack) nlm_f_replace) nlm_f_create) nlm_f_root

module _ (nl : Netlink) where
  open nl use {nlmsg_length, rta_length}

  -- The three attributes that `form_request` writes one behind the other, with `rt_len` rolling.
  -- `rta` is the offset of the attribute in `req.buf`.
  unfoldable pub form_route : ℕ → ℕ → ℕ → ℕ → RtRequest
  form_route domain dest nexthop action =
      let len1 = rta_length sizeof_u32 in
      let first : Attribute = record {
        offset = 0;
        rta_type = rta_dst;
        rta_len = len1;
        value = dest;
      } in
      let rt_len1 = sizeof_rtmsg + len1 in
      let rta2 = 0 + len1 in
      let len2 = rta_length sizeof_int in
      let second : Attribute = record {
        offset = rta2;
        rta_type = rta_oif;
        rta_len = len2;
        value = wlan0_index;
      } in
      let rt_len2 = rt_len1 + len2 in
      let rta3 = rta2 + len2 in
      let len3 = rta_length sizeof_u32 in
      let third : Attribute = record {
        offset = rta3;
        rta_type = rta_gateway;
        rta_len = len3;
        value = nexthop;
      } in
      let rt_len3 = rt_len2 + len3 in
      record {
        nlmsg_len = nlmsg_length rt_len3;
        nlmsg_type = u8 action;
        nlmsg_flags = route_flags;
        rtm_family = domain;
        rtm_table = rt_table_main;
        rtm_protocol = rtprot_static;
        rtm_scope = rt_scope_universe;
        rtm_type = rtn_unicast;
        rtm_dst_len = 32;
        buf = first ∷ second ∷ third ∷ [];
      }

  -- `parse_nl_route_msg`
  unfoldable pub parse_nl_route_msg : Mem → ℕ → ℕ
  parse_nl_route_msg buf len = if nl.nlmsg_ok buf 0 len then nl.nlmsg_type buf 0 else 0

module _ (os : Os) (nl : Netlink) where
  unfoldable pub form_request : ℕ → ℕ → ℕ → ℕ → M ℤ
  form_request domain dest nexthop action = do
    fd ← gets (λ s. s.fd)
    r ← call os (sendmsg fd (route (form_route nl domain dest nexthop action)))
    pure (if is_neg r then minus_one else pos 0)

  -- The `switch` on the error that the kernel reports, 0 for an acknowledgement.
  unfoldable pub note_error : ℤ → M (Unit {0})
  note_error error s = done tt (record s { f_err = if is_zero error then s.f_err else pos 1 })

  -- What both functions do between locking and unlocking, and what they return. `stack` is what
  -- the uninitialised `buf` holds.
  unfoldable pub change_route : Mem → ℕ → ℕ → ℕ → M ℤ
  change_route stack dest_address next_hop action = do
    mutex_lock
    sent ← form_request af_inet dest_address next_hop action
    check sent
    (len, buf) ← get_msg stack
    check len
    if parse_nl_route_msg nl buf (to_size len) == nlmsg_error
        then note_error (nl.nlmsgerr_error buf (nl.nlmsg_data 0))
        else pure tt
    mutex_unlock
    gets (λ s. if is_zero s.f_err then pos 0 else minus_one)

  unfoldable pub add_unicast_routing_entry : Mem → ℕ → ℕ → M ℤ
  add_unicast_routing_entry stack dest_address next_hop =
      change_route stack dest_address next_hop rtm_newroute

  unfoldable pub delete_entry : Mem → ℕ → ℕ → M ℤ
  delete_entry stack dest_address next_hop = change_route stack dest_address next_hop rtm_delroute

  unfoldable pub initialize_route : M ℤ
  initialize_route = pure (pos 0)
