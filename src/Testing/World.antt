-- ===== src/Testing/World.antt =====
-- A system to run the model on: the netlink macros as on a little-endian machine with a `size_t` of
-- 64 bits, and a kernel that grants what it is asked.
use text.Mathlib.Text.{◌==◌ as str_eq}
use manet_testbed.Base.{
  ℕ, ℤ, pos, negsuc, List, [], ◌∷◌, if◌then◌else◌, ◌+◌, ◌-◌, ◌*◌, ◌/◌, ◌%◌, ◌^◌, ◌&&◌, ltb, leb,
  ◌==◌,
}
use manet_testbed.Netlink.{Mem, Netlink, load_u32}
use manet_testbed.Api.{State, Action, pthread_create, Reply, Os, initial}

abbrev load_u16 : Mem → ℕ → ℕ
load_u16 m p = m p + 256 * m (p + 1)

-- Rounded up to a multiple of 4.
abbrev align : ℕ → ℕ
align n = (n + 3) / 4 * 4

abbrev less : ℕ → ℕ → ℕ
less len n = (len + 2 ^ 64 - n) % 2 ^ 64

abbrev to_int : ℕ → ℤ
to_int n = if ltb n (2 ^ 31) then pos n else negsuc (2 ^ 32 - n - 1)

abbrev pub linux : Netlink
linux = record {
  nlmsg_length = λ n. n + 16;
  nlmsg_ok = λ m p len. leb 16 len && (leb 16 (load_u32 m p) && leb (load_u32 m p) len);
  nlmsg_next = λ m p len. (p + align (load_u32 m p), less len (align (load_u32 m p)));
  nlmsg_type = λ m p. load_u16 m (p + 4);
  nlmsg_data = λ p. p + 16;
  nlmsgerr_error = λ m p. to_int (load_u32 m p);
  ifa_index = λ m p. load_u32 m (p + 4);
  ifa_rta = λ p. p + 8;
  ifa_payload = λ m p. less (load_u32 m p) 24;
  rta_length = λ n. n + 4;
  rta_ok = λ m p len. leb 4 len && (leb 4 (load_u16 m p) && leb (load_u16 m p) len);
  rta_next = λ m p len. (p + align (load_u16 m p), less len (align (load_u16 m p)));
  rta_type = λ m p. load_u16 m (p + 2);
  rta_data = λ p. p + 4;
}

-- The results of a system that grants everything: 0 from `pthread_create` and 1 from all else.
abbrev granted : List Action → ℤ
granted [] = pos 1
granted (pthread_create plane ∷ log) = pos 0
granted (_ ∷ log) = pos 1

-- 192.168.1.7 and 192.168.1.255, as they lie in memory.
abbrev pub node : ℕ
node = 0x0701_a8c0

abbrev pub everyone : ℕ
everyone = 0xff01_a8c0

abbrev pub world : Os
world = record {
  result = granted;
  thread_id = λ log. 77;
  if_nametoindex = λ log name. if str_eq name "wlan0" then 3 else 0;
  inet_ntop = λ a.
      if a == node then "192.168.1.7" else if a == everyone then "192.168.1.255" else "0.0.0.0";
  inet_pton = λ t.
      if str_eq t "192.168.1.7" then node else if str_eq t "192.168.1.255" then everyone else 0;
}

abbrev pub zeros : Mem
zeros i = 0

-- The netlink socket is open, and the kernel has replies for it.
abbrev pub opened : List Reply → State
opened replies = record (initial replies) { fd = pos 3 }
