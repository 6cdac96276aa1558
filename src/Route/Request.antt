-- ===== src/Route/Request.antt =====
-- The request of `form_request`, read back by the layout that the kernel documents.
use manet_testbed.Base.{
  Bool, true, ◌/◌, ◌%◌, ℕ, Option, none, some, List, [], ◌∷◌, if◌then◌else◌, ◌+◌, ◌≤◌, ◌≡◌, arith,
  ◌==◌, u8,
}
use manet_testbed.Netlink.{
  nlm_f_request, nlm_f_ack, nlm_f_replace, nlm_f_create, rt_table_main, rtprot_static,
  rt_scope_universe, rtn_unicast, Netlink, rta_dst, rta_oif, rta_gateway, sizeof_rtmsg, sizeof_u32,
}
use manet_testbed.Api.{Attribute, RtRequest, buflen}
use manet_testbed.Route.{form_route, wlan0_index}

-- What a message of type RTM_NEWROUTE or RTM_DELROUTE says to the kernel, by rtnetlink(7) and
-- netlink(7): the fields of its headers, its flags one by one, and its three attributes.
pub record Change : Type 0 where
  pub kind : ℕ
  pub is_request : Bool
  pub wants_ack : Bool
  pub replaces : Bool
  pub creates : Bool
  pub family : ℕ
  pub table : ℕ
  pub protocol : ℕ
  pub scope : ℕ
  pub route_type : ℕ
  pub prefix : ℕ
  pub destination : ℕ
  pub device : ℕ
  pub gateway : ℕ

-- Whether a flag, a power of 2, is set.
abbrev pub has_flag : (flags flag : ℕ) → Bool
has_flag flags flag = (flags / flag) % 2 == 1

-- The value of the first attribute of a type.
abbrev pub attribute : ℕ → List Attribute → Option ℕ
attribute kind [] = none
attribute kind (a ∷ rest) = if a.rta_type == kind then some a.value else attribute kind rest

-- The end of the attributes, where each begins at the end of the one before.
abbrev pub walk : ℕ → List Attribute → Option ℕ
walk offset [] = some offset
walk offset (a ∷ rest) = if a.offset == offset then walk (offset + a.rta_len) rest else none

abbrev change_of : RtRequest → Option ℕ → Option ℕ → Option ℕ → Option Change
change_of req (some destination) (some device) (some gateway) = some (record {
  kind = req.nlmsg_type;
  is_request = has_flag req.nlmsg_flags nlm_f_request;
  wants_ack = has_flag req.nlmsg_flags nlm_f_ack;
  replaces = has_flag req.nlmsg_flags nlm_f_replace;
  creates = has_flag req.nlmsg_flags nlm_f_create;
  family = req.rtm_family;
  table = req.rtm_table;
  protocol = req.rtm_protocol;
  scope = req.rtm_scope;
  route_type = req.rtm_type;
  prefix = req.rtm_dst_len;
  destination = destination;
  device = device;
  gateway = gateway;
})
change_of req _ _ _ = none

abbrev fitting : ℕ → (ℕ → ℕ) → Option ℕ → Option Change → Option Change
fitting nlmsg_len nlmsg_length none change = none
fitting nlmsg_len nlmsg_length (some end) change =
    if nlmsg_len == nlmsg_length (sizeof_rtmsg + end) then change else none

-- The change that a request asks for, if its attributes lie one behind the other and fill it.
unfoldable pub decode : Netlink → RtRequest → Option Change
decode nl req = fitting req.nlmsg_len nl.nlmsg_length (walk 0 req.buf) (
    change_of req (attribute rta_dst req.buf) (attribute rta_oif req.buf)
      (attribute rta_gateway req.buf))

module _ (nl : Netlink) (domain dest nexthop action : ℕ) where
  -- Read back, a message of `form_request` is a request that wants an acknowledgement, may create a
  -- route and replaces one that is there; it asks for its action on the unicast route, made by an
  -- administrator and of universal scope, of the main table and the family given, to its destination
  -- with all 32 bits of it, through its next hop on interface 3. Its attributes lie without a gap and
  -- fill the message's length exactly.
  pub decode-form_route :
      decode nl (form_route nl domain dest nexthop action)
      ≡ some (record {
        kind = u8 action;
        is_request = true;
        wants_ack = true;
        replaces = true;
        creates = true;
        family = domain;
        table = rt_table_main;
        protocol = rtprot_static;
        scope = rt_scope_universe;
        route_type = rtn_unicast;
        prefix = 32;
        destination = dest;
        device = wlan0_index;
        gateway = nexthop;
      })
  unfolding decode form_route
  decode-form_route = ground arith

  -- With attribute headers of 4 bytes the three attributes end at byte 24 of the request's buffer,
  -- which has 4096, and each begins at a multiple of 4.
  pub walk-form_route :
      nl.rta_length sizeof_u32 ≡ 8
      → (walk 0 (form_route nl domain dest nexthop action).buf ≡ some 24) × (24 ≤ buflen)
  unfolding form_route
  walk-form_route e = (rw e, omega arith)
