-- ===== src/Iface.antt =====
-- src/api_if.c: the addresses of an interface, asked of the kernel over the netlink socket.
pub mod Attributes
pub mod Messages
pub mod Address
use manet_testbed.Base.{
  ℕ, zero, suc, String, ℤ, pos, minus_one, is_neg, is_zero, Bool, true, false, Option, none, some,
  List, [], ◌∷◌, if◌then◌else◌, ◌+◌, ◌==◌, ◌&&◌, ◌||◌, not, bit_or, to_size, u32, u32_max, take,
  length,
}
use manet_testbed.Netlink.{
  Mem, Netlink, overlay, load_u32, nlmsg_error, nlmsg_done, rtm_newaddr, rtm_getaddr, nlm_f_request,
  nlm_f_root, ifa_address, ifa_broadcast, ifa_local, sizeof_ifaddrmsg, af_inet, af_netlink,
  sock_raw, netlink_route,
}
use manet_testbed.Api.{
  State, AddrRequest, Message, getaddr, Action, socket, sendmsg, Reply, failed, message, Pointer,
  null, into, M, Run, done, blocked, fault, out_of_fuel, pure, gets, modify, and_then, ◌>>=◌, ◌>>◌,
  Os, call, check, get_msg, buflen, mutex_lock, mutex_unlock,
}

-- The interface name that a call leaves set: the last one given, if this call gives a null
-- pointer.
abbrev pub name_after : Option String → String → String
name_after none name = name
name_after (some name') name = name'

-- `*addr`, read in the call that is the `frame`-th: null and what points into the stack buffer of
-- an earlier call cannot be read.
unfoldable pub load_addr : Mem → M ℕ
load_addr buf s = elim s.addr [
  | null ↦ fault s
  | into frame offset ↦ if frame == s.frame then done (load_u32 buf offset) s else fault s
]

module _ (nl : Netlink) where
  unfoldable pub form_getaddr : ℕ → AddrRequest
  form_getaddr domain = record {
    nlmsg_len = nl.nlmsg_length sizeof_ifaddrmsg;
    nlmsg_type = rtm_getaddr;
    nlmsg_flags = bit_or nlm_f_request nlm_f_root;
    ifa_family = domain;
  }

  -- Whether the attribute at `rta` is the one that is asked for: the address for `type` 0, the
  -- broadcast address for any other.
  unfoldable pub is_wanted : Mem → ℕ → ℕ → Bool
  is_wanted buf type rta =
      ((nl.rta_type buf rta == ifa_address) && (type == 0))
      || (not (nl.rta_type buf rta == ifa_local)
          && ((nl.rta_type buf rta == ifa_broadcast) && not (type == 0)))

  -- `for_each_rattr` with the body of `parse_ifa_msg`, from the attribute at `rta` with `len` bytes
  -- left. `frame` says whose stack buffer `buf` is.
  unfoldable pub for_each_rattr : ℕ → Mem → ℕ → ℕ → ℕ → M (Unit {0})
  for_each_rattr zero buf type rta len s = out_of_fuel s
  for_each_rattr (suc rounds) buf type rta len s =
      let addr' = if is_wanted buf type rta then into s.frame (nl.rta_data rta) else s.addr in
      let (next, left) = nl.rta_next buf rta len in
      let rest = for_each_rattr rounds buf type next left (record s { addr = addr' }) in
      if nl.rta_ok buf rta len then rest else done tt s

module _ (os : Os) (nl : Netlink) where
  unfoldable pub get_ip : ℕ → M ℤ
  get_ip domain = do
    fd ← gets (λ s. s.fd)
    r ← call os (sendmsg fd (getaddr (form_getaddr nl domain)))
    pure (if is_neg r then minus_one else pos 0)

  -- `parse_ifa_msg`, for the message whose `struct ifaddrmsg` is at `ifa`. Its result is not used.
  unfoldable pub parse_ifa_msg : Mem → ℕ → ℕ → ℕ → ℕ → M (Unit {0})
  parse_ifa_msg buf ifa rta len type s =
      let index = os.if_nametoindex s.log s.interface_name in
      if nl.ifa_index buf ifa == index
      then for_each_rattr nl (suc len) buf type rta len s
      else done tt (if index == 0 then record s { f_err = minus_one } else s)

  -- `for_each_nlmsg` with the body of `parse_nl_if_msg`, from the message at `p` with `len` bytes
  -- left, a `size_t`.
  unfoldable pub parse_nl_if_msg_from : ℕ → Mem → ℕ → ℕ → ℕ → M ℕ
  parse_nl_if_msg_from zero buf type p len s = out_of_fuel s
  parse_nl_if_msg_from (suc rounds) buf type p len s =
      let kind = nl.nlmsg_type buf p in
      let (next, left) = nl.nlmsg_next buf p len in
      let ifa = nl.nlmsg_data p in
      let body =
        (if kind == rtm_newaddr
          then parse_ifa_msg buf ifa (nl.ifa_rta ifa) (nl.ifa_payload buf p) type s
          else done tt s) in
      let rest = and_then body (λ _. parse_nl_if_msg_from rounds buf type next left) in
      if nl.nlmsg_ok buf p (u32 len) && not (kind == nlmsg_done)
      then (if kind == nlmsg_error then done u32_max (record s { f_err = minus_one }) else rest)
      else done kind s

  unfoldable pub parse_nl_if_msg : Mem → ℕ → ℕ → M ℕ
  parse_nl_if_msg buf len type = parse_nl_if_msg_from (suc len) buf type 0 len

  -- The `do` loop of `GetInterfaceIP`, over the replies that the kernel still holds. When there are
  -- none left `recvmsg` waits for ever.
  unfoldable pub receive_all : List Reply → Mem → ℕ → M Mem
  receive_all [] buf type s = blocked (record s { inbox = [] })
  receive_all (reply ∷ rest) buf type s =
      let again = receive_all rest in
      and_then (get_msg buf (record s { inbox = reply ∷ rest })) λ (len, buf'). do
        check len
        nl_msg_type ← parse_nl_if_msg buf' (to_size len) type
        if not (nl_msg_type == nlmsg_done) && not (nl_msg_type == nlmsg_error)
            then again buf' type
            else pure buf'

  -- What `GetInterfaceIP` does with the mutex held; the buffer is what `addr` points into. `stack` is
  -- what the uninitialised `buf` holds; `interface` is `none` for a null pointer.
  unfoldable pub query_interface : Mem → Option String → ℕ → M Mem
  query_interface stack interface type = do
    mutex_lock
    modify (λ s. record s { frame = s.frame + 1 })
    modify (λ s. record s { interface_name = name_after interface s.interface_name })
    sent ← get_ip af_inet
    check sent
    inbox ← gets (λ s. s.inbox)
    buf ← receive_all inbox stack type
    mutex_unlock
    pure buf

  -- The result is made after the mutex is free again.
  unfoldable pub get_interface_ip : Mem → Option String → ℕ → M ℕ
  get_interface_ip stack interface type = do
    buf ← query_interface stack interface type
    f_err ← gets (λ s. s.f_err)
    if is_zero f_err then load_addr buf else pure u32_max

  unfoldable pub open_netlink : M (Unit {0})
  open_netlink = do
    fd ← gets (λ s. s.fd)
    if is_zero fd
        then (do
          fd' ← call os (socket af_netlink sock_raw netlink_route)
          modify (λ s. record s { fd = fd' })
          check fd')
        else pure tt

  -- The two stack buffers are those of the two calls.
  unfoldable pub initialize_if : Mem → Mem → M ℤ
  initialize_if stack1 stack2 = do
    open_netlink
    local_ip ← get_interface_ip stack1 none 0
    modify (λ s. record s { local_ip = local_ip })
    broadcast_ip ← get_interface_ip stack2 none 1
    modify (λ s. record s { broadcast_ip = broadcast_ip })
    gets (λ s.
        if (s.local_ip == 0) || ((s.broadcast_ip == 0) || not (is_zero s.f_err))
        then minus_one
        else pos 0)
