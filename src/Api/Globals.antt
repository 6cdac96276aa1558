-- ===== src/Api/Globals.antt =====
-- The global variables of src/api.c, src/api_if.c, head/api_send.h and head/api_queue.h, and the
-- calls into the system that the code makes.
use manet_testbed.Base.{ℕ, String, ℤ, pos, Bool, false, Option, none, List, []}

-- An attribute written into the buffer of a request, at its offset there.
pub record Attribute : Type 0 where
  pub offset : ℕ
  pub rta_type : ℕ
  pub rta_len : ℕ
  pub value : ℕ

-- `struct rt_request` of head/api_route.h: the fields that are set; all else is zeroed.
pub record RtRequest : Type 0 where
  pub nlmsg_len : ℕ
  pub nlmsg_type : ℕ
  pub nlmsg_flags : ℕ
  pub rtm_family : ℕ
  pub rtm_table : ℕ
  pub rtm_protocol : ℕ
  pub rtm_scope : ℕ
  pub rtm_type : ℕ
  pub rtm_dst_len : ℕ
  pub buf : List Attribute

-- The request of `get_ip`: a `struct nlmsghdr` and a `struct ifaddrmsg`.
pub record AddrRequest : Type 0 where
  pub nlmsg_len : ℕ
  pub nlmsg_type : ℕ
  pub nlmsg_flags : ℕ
  pub ifa_family : ℕ

-- A message sent on the netlink socket.
pub data Message : Type 0 where
  route : RtRequest → Message
  getaddr : AddrRequest → Message

-- A UDP datagram: where it goes, and its bytes.
pub record Datagram : Type 0 where
  pub sin_family : ℕ
  pub sin_addr : ℕ
  pub sin_port : ℕ
  pub payload : List ℕ

-- The threads of head/api_queue.h, by the function that they start in.
pub data Plane : Type 0 where
  in_control in_data out for : Plane

-- A call into the C library or the kernel. Each has an `int` for its result, 0 for a null pointer.
pub data Action : Type 0 where
  socket : (domain kind protocol : ℕ) → Action
  setsockopt : (sock : ℤ) (level name value : ℕ) → Action
  sendmsg : (fd : ℤ) → Message → Action
  sendto : (sock : ℤ) → Datagram → Action
  system : String → Action
  pthread_create : Plane → Action
  nfq_open : Plane → Action
  nfq_create_queue : Plane → (number : ℕ) → Action
  nfq_set_queue_maxlen : Plane → (len : ℕ) → Action
  nfq_set_mode : Plane → (mode range : ℕ) → Action
  nfq_set_verdict : Plane → (id verdict : ℕ) → Action
  nfq_destroy_queue nfq_close : Plane → Action

-- What `recvmsg` on the netlink socket gives: -1, or a message.
pub data Reply : Type 0 where
  failed : Reply
  message : List ℕ → Reply

-- The global `addr`: null, or at an offset into the stack buffer of the n-th call of
-- `GetInterfaceIP`.
pub data Pointer : Type 0 where
  null : Pointer
  into : (frame offset : ℕ) → Pointer

-- A function pointer of the user's.
abbrev pub CallbackFunction : Type 0
CallbackFunction = ℕ

pub record State : Type 0 where
  -- src/api.c
  pub lock : Bool
  pub fd : ℤ
  pub f_err : ℤ
  pub local_ip : ℕ
  pub broadcast_ip : ℕ
  pub ip : String
  -- src/api_if.c
  pub addr : Pointer
  pub interface_name : String
  -- head/api_send.h
  pub sock : ℤ
  -- head/api_queue.h; a null function pointer is `none`
  pub incoming_control : Option CallbackFunction
  pub incoming_data : Option CallbackFunction
  pub outgoing : Option CallbackFunction
  pub forwarded : Option CallbackFunction
  pub in_thread_control : ℕ
  pub in_thread_data : ℕ
  pub out_thread : ℕ
  pub forward_thread : ℕ
  -- not variables of the program: the replies that the kernel still holds for the netlink socket,
  -- the number of calls of `GetInterfaceIP` so far, and the system calls made, the newest first
  pub inbox : List Reply
  pub frame : ℕ
  pub log : List Action

-- The variables as the program loads.
abbrev pub initial : List Reply → State
initial replies = record {
  lock = false;
  fd = pos 0;
  f_err = pos 0;
  local_ip = 0;
  broadcast_ip = 0;
  ip = "";
  addr = null;
  interface_name = "wlan0";
  sock = pos 0;
  incoming_control = none;
  incoming_data = none;
  outgoing = none;
  forwarded = none;
  in_thread_control = 0;
  in_thread_data = 0;
  out_thread = 0;
  forward_thread = 0;
  inbox = replies;
  frame = 0;
  log = [];
}
