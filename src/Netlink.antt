-- ===== src/Netlink.antt =====
-- The netlink headers of the system, `linux/netlink.h` and `linux/rtnetlink.h`. Their constants
-- are the kernel's published numbers. Their macros and structs are not code of the repository, so
-- they are a parameter, the record `Netlink`, of every definition that uses them.
use manet_testbed.Base.{ℕ, Bool, ℤ, List, get_or, ◌+◌, ◌*◌}

-- The bytes of a buffer by offset. What lies past its end is whatever the stack holds there.
abbrev pub Mem : Type 0
Mem = ℕ → ℕ

-- The buffer after `bs` is received into its front.
abbrev pub overlay : List ℕ → Mem → Mem
overlay bs m i = get_or bs i (m i)

-- `*p` for a `uint32_t *p`, on a little-endian machine.
abbrev pub load_u32 : Mem → ℕ → ℕ
load_u32 m p = m p + 256 * (m (p + 1) + 256 * (m (p + 2) + 256 * m (p + 3)))

-- The macros, and the struct fields that are read through them. A pointer into a buffer is its
-- offset, and a macro that changes its length argument returns the new pointer and length.
pub record Netlink : Type 0 where
  pub nlmsg_length : ℕ → ℕ
  pub nlmsg_ok : Mem → ℕ → ℕ → Bool
  pub nlmsg_next : Mem → ℕ → ℕ → ℕ × ℕ
  pub nlmsg_type : Mem → ℕ → ℕ
  pub nlmsg_data : ℕ → ℕ
  pub nlmsgerr_error : Mem → ℕ → ℤ
  pub ifa_index : Mem → ℕ → ℕ
  pub ifa_rta : ℕ → ℕ
  pub ifa_payload : Mem → ℕ → ℕ
  pub rta_length : ℕ → ℕ
  pub rta_ok : Mem → ℕ → ℕ → Bool
  pub rta_next : Mem → ℕ → ℕ → ℕ × ℕ
  pub rta_type : Mem → ℕ → ℕ
  pub rta_data : ℕ → ℕ

-- Message types.
abbrev pub nlmsg_error : ℕ
nlmsg_error = 2

abbrev pub nlmsg_done : ℕ
nlmsg_done = 3

abbrev pub rtm_newaddr : ℕ
rtm_newaddr = 20

abbrev pub rtm_getaddr : ℕ
rtm_getaddr = 22

abbrev pub rtm_newroute : ℕ
rtm_newroute = 24

abbrev pub rtm_delroute : ℕ
rtm_delroute = 25

-- Message flags.
abbrev pub nlm_f_request : ℕ
nlm_f_request = 0x1

abbrev pub nlm_f_ack : ℕ
nlm_f_ack = 0x4

abbrev pub nlm_f_root : ℕ
nlm_f_root = 0x100

abbrev pub nlm_f_replace : ℕ
nlm_f_replace = 0x100

abbrev pub nlm_f_create : ℕ
nlm_f_create = 0x400

-- Fields of a route message.
abbrev pub rt_table_main : ℕ
rt_table_main = 254

abbrev pub rtprot_static : ℕ
rtprot_static = 4

abbrev pub rt_scope_universe : ℕ
rt_scope_universe = 0

abbrev pub rtn_unicast : ℕ
rtn_unicast = 1

-- Attribute types.
abbrev pub rta_dst : ℕ
rta_dst = 1

abbrev pub rta_oif : ℕ
rta_oif = 4

abbrev pub rta_gateway : ℕ
rta_gateway = 5

abbrev pub ifa_address : ℕ
ifa_address = 1

abbrev pub ifa_local : ℕ
ifa_local = 2

abbrev pub ifa_broadcast : ℕ
ifa_broadcast = 4

-- Struct sizes.
abbrev pub sizeof_rtmsg : ℕ
sizeof_rtmsg = 12

abbrev pub sizeof_ifaddrmsg : ℕ
sizeof_ifaddrmsg = 8

abbrev pub sizeof_u32 : ℕ
sizeof_u32 = 4

abbrev pub sizeof_int : ℕ
sizeof_int = 4

-- Socket constants.
abbrev pub af_inet : ℕ
af_inet = 2

abbrev pub af_netlink : ℕ
af_netlink = 16

abbrev pub sock_dgram : ℕ
sock_dgram = 2

abbrev pub sock_raw : ℕ
sock_raw = 3

abbrev pub netlink_route : ℕ
netlink_route = 0

abbrev pub ipproto_udp : ℕ
ipproto_udp = 17

abbrev pub sol_socket : ℕ
sol_socket = 1

abbrev pub so_broadcast : ℕ
so_broadcast = 6
