-- ===== src/System/Misread.antt =====
-- Calls of `GetInterfaceIP` in two threads. The result is read through the global `addr` after the
-- mutex is free again, so another thread's call may have moved `addr` by then.
use manet_testbed.Base.{
  ℕ, is_neg, is_zero, true, false, Option, none, some, List, if◌then◌else◌, ◌≡◌, refl, ◌+◌, ◌==◌,
  u32_max, Bool-cases, inl, inr, String,
}
use manet_testbed.Netlink.{Mem, Netlink, load_u32}
use manet_testbed.Api.{State, Reply, pure, Pointer, null, into, M, done, fault, and_then, Os}
use manet_testbed.Iface.{name_after, query_interface, get_interface_ip, load_addr}
use manet_testbed.Iface.Address.{Dump, asked, entered, query_interface_lem}

-- The last statement of a call in one of several threads: `live` holds the buffers of the calls that
-- have not returned, by the number of the call.
unfoldable pub read_result : (live : ℕ → Option Mem) → M ℕ
read_result live s =
    if is_zero s.f_err
    then elim s.addr [
      | null ↦ fault s
      | into frame offset ↦ elim (live frame) [
        | none ↦ fault s
        | some buf ↦ done (load_u32 buf offset) s
      ]
    ]
    else done u32_max s

module _ (os : Os) (nl : Netlink) where
  -- What a query for an address of the interface leaves.
  abbrev pub asked_for : Option String → (offset : ℕ) → List Reply → State → State
  asked_for interface offset rest s = record (entered os nl interface s) {
    lock = false;
    addr = into (s.frame + 1) offset;
    inbox = rest;
  }

  -- A query for an interface, null or a name, with the kernel's replies to it: `address` is what it
  -- finds.
  pub record Asks (interface : Option String) (stack : Mem) (type : ℕ) (s : State)
      (address offset : ℕ) (rest : List Reply) : Type 0 where
    pub index : ℕ
    pub buf : Mem
    pub is_sent : is_neg (os.result (asked os nl s)) ≡ false
    pub is_known : os.if_nametoindex (asked os nl s) (name_after interface s.interface_name) ≡ index
    pub dump :
        Dump nl type index (s.frame + 1) stack s.addr s.inbox buf (into (s.frame + 1) offset) rest
    pub found : load_u32 buf offset ≡ address

module _ (os : Os) (nl : Netlink) (interface1 interface2 : Option String) (stack1 stack2 : Mem)
    (type1 type2 : ℕ) (s : State) (free : s.lock ≡ false) (fine : is_zero s.f_err ≡ true) where
  module _ {address1 address2 offset1 offset2 : ℕ} {rest1 rest2 : List Reply}
      (first : Asks os nl interface1 stack1 type1 s address1 offset1 rest1)
      (second : Asks os nl interface2 stack2 type2
        (asked_for os nl interface1 offset1 rest1 s)
        address2
        offset2
        rest2) where
    -- The state when both calls have freed the mutex.
    abbrev pub both_queried : State
    both_queried =
        asked_for os nl interface2 offset2 rest2 (asked_for os nl interface1 offset1 rest1 s)

    -- Two threads call `GetInterfaceIP`, each for an interface by name or by a null pointer, with the
    -- mutex free and no error noted, the kernel dumps an address for each call, and the second call is made between the moment when the first frees
    -- the mutex and the moment when it reads its result. Then the first call returns the address
    -- that the second asked for, if the second has not returned yet; and if the second has returned,
    -- the first reads through a pointer into a buffer that is gone.
    pub overlap-misread :
        (running returned : ℕ → Option Mem)
        → running (s.frame + 1 + 1) ≡ some second.buf
        → returned (s.frame + 1 + 1) ≡ none
        → (query_interface os nl stack1 interface1 type1 s
            ≡ done first.buf (asked_for os nl interface1 offset1 rest1 s))
          × (query_interface os nl stack2 interface2 type2
                (asked_for os nl interface1 offset1 rest1 s)
              ≡ done second.buf both_queried)
          × (read_result running both_queried ≡ done address2 both_queried)
          × (read_result returned both_queried ≡ fault both_queried)
    unfolding read_result
    overlap-misread running returned still gone = (
      query_interface_lem os nl type1 first.index stack1 interface1 s free first.is_sent
          first.is_known first.dump fine,
      query_interface_lem os nl type2 second.index stack2 interface2 _ refl second.is_sent
          second.is_known second.dump fine,
      rw (fine, still, second.found) refl,
      rw (fine, gone) refl,
    )

-- The buffer of the call whose number is `frame`, and no other.
abbrev alone : ℕ → Mem → ℕ → Option Mem
alone frame buf f = if f == frame then some buf else none

load_addr-alone :
    (buf : Mem) (s : State)
    → (if is_zero s.f_err then load_addr buf s else done u32_max s)
      ≡ read_result (alone s.frame buf) s
unfolding read_result load_addr
load_addr-alone buf s = elim (Bool-cases (is_zero s.f_err)) [
  | inr noted ↦ rw noted refl
  | inl fine ↦ rw fine (through s.addr)
]
  where
    through :
        (p : Pointer)
        → (elim p [
          | null ↦ fault s
          | into frame offset ↦ if frame == s.frame then done (load_u32 buf offset) s else fault s
        ])
          ≡ (elim p [
            | null ↦ fault s
            | into frame offset ↦ elim (alone s.frame buf frame) [
              | none ↦ fault s
              | some buf' ↦ done (load_u32 buf' offset) s
            ]
          ])
    through null = refl
    through (into frame offset) = elim (Bool-cases (frame == s.frame)) [
      | inl here ↦ rw here refl
      | inr gone ↦ rw gone refl
    ]

-- In one thread alone the result is read from the call's own buffer.
get_interface_ip-read_result :
    (os : Os) (nl : Netlink) (stack : Mem) (interface : Option String) (type : ℕ) (s : State)
    → get_interface_ip os nl stack interface type s
      ≡ and_then
          (query_interface os nl stack interface type s)
          λ buf t. read_result (alone t.frame buf) t
unfolding get_interface_ip
get_interface_ip-read_result os nl stack interface type s =
    λ i. and_then (query_interface os nl stack interface type s) λ buf t. tail buf t i
  where
    tail :
        (buf : Mem) (t : State)
        → (if is_zero t.f_err then load_addr buf else pure u32_max) t
          ≡ read_result (alone t.frame buf) t
    tail buf t = elim (Bool-cases (is_zero t.f_err)) [
      | inl fine ↦ rw fine (rw fine at (load_addr-alone buf t))
      | inr noted ↦ rw noted (rw noted at (load_addr-alone buf t))
    ]
