-- ===== src/Queue/Handlers.antt =====
-- `handle_incoming_control`, `handle_incoming_data`, `handle_outgoing` and `handle_forwarded` of
-- src/api_queue.c: the verdict on one queued packet.
pub mod Verdicts
use manet_testbed.Base.{
  ℕ, ℤ, Bool, true, false, Option, none, some, List, [], ◌∷◌, if◌then◌else◌, ◌+◌, ◌-◌, ◌%◌, ◌^◌,
  ◌==◌, ◌&&◌, u8, u32, u32_max, length, drop,
}
use manet_testbed.Api.{
  State, CallbackFunction, Plane, in_control, in_data, out, for, Action, nfq_set_verdict, M, Run,
  done, fault, pure, gets, and_then, ◌>>=◌, ◌>>◌, Os, call,
}

-- What `nfq_data` holds of a packet: its id, `none` where there is no packet header, and its bytes,
-- `none` where `nfq_get_payload` fails.
pub record Packet : Type 0 where
  pub packet_id : Option ℕ
  pub payload : Option (List ℕ)

-- The libraries that the handlers use: the address fields of `struct iphdr`, and the packets that
-- `nfq_handle_packet` finds in what a queue's socket received.
pub record Netfilter : Type 0 where
  pub saddr : List ℕ → ℕ
  pub daddr : List ℕ → ℕ
  pub packets : List ℕ → List Packet

-- The arguments of a user's callback.
pub record Arguments : Type 0 where
  pub raw_pack : List ℕ
  pub src : ℕ
  pub dest : ℕ
  pub payload : List ℕ
  pub payload_length : ℕ

-- The user's callbacks. They may call the API, and so change its state.
abbrev pub User : Type 0
User = CallbackFunction → Arguments → M ℕ

abbrev pub nf_drop : ℕ
nf_drop = 0

abbrev pub nf_accept : ℕ
nf_accept = 1

-- The size of an IPv4 and a UDP header.
abbrev pub ip_udp_hdr_offset : ℕ
ip_udp_hdr_offset = 28

-- `id`, which is -1 without a header.
abbrev pub id_of : Packet → ℕ
id_of packet = elim packet.packet_id [ none ↦ u32_max | some id ↦ u32 id ]

-- What the callback is given of a packet. `p_length` is converted to `uint32_t`, so for a packet
-- that is shorter than the headers it wraps.
unfoldable pub arguments : Netfilter → List ℕ → Arguments
arguments nf p_data = record {
  raw_pack = p_data;
  src = u32 (nf.saddr p_data);
  dest = u32 (nf.daddr p_data);
  payload = drop ip_udp_hdr_offset p_data;
  payload_length = (length p_data + 2 ^ 32 - ip_udp_hdr_offset) % 2 ^ 32;
}

-- `nfq_get_payload` into `p_data`: where it fails the handlers read through the uninitialised
-- pointer.
abbrev pub with_payload : Option (List ℕ) → (List ℕ → M ℤ) → M ℤ
with_payload none body = fault
with_payload (some p_data) body = body p_data

-- A broadcast of this node's own.
unfoldable pub is_own_broadcast : State → Arguments → Bool
is_own_broadcast s args = (args.dest == s.broadcast_ip) && (args.src == s.local_ip)

module _ (os : Os) (nf : Netfilter) (user : User) where
  unfoldable pub set_verdict : Plane → ℕ → ℕ → M ℤ
  set_verdict plane id verdict = call os (nfq_set_verdict plane id verdict)

  -- The call through a function pointer, and the verdict by what it returns, a `uint8_t`.
  unfoldable pub ask : Plane → Option CallbackFunction → ℕ → Arguments → M ℤ
  ask plane none id args = fault
  ask plane (some callback) id args = do
    ret ← user callback args
    set_verdict plane id (if u8 ret == 0 then nf_drop else nf_accept)

  unfoldable pub handle_unless_own : Plane → (State → Option CallbackFunction) → ℕ → List ℕ → M ℤ
  handle_unless_own plane callback id p_data s =
      let args = arguments nf p_data in
      if is_own_broadcast s args
      then set_verdict plane id nf_drop s
      else ask plane (callback s) id args s

  unfoldable pub handle_incoming_control : Packet → M ℤ
  handle_incoming_control packet =
      with_payload packet.payload
        λ p_data. handle_unless_own in_control (λ s. s.incoming_control) (id_of packet) p_data

  unfoldable pub handle_incoming_data : Packet → M ℤ
  handle_incoming_data packet =
      with_payload packet.payload
        λ p_data. handle_unless_own in_data (λ s. s.incoming_data) (id_of packet) p_data

  unfoldable pub handle_outgoing : Packet → M ℤ
  handle_outgoing packet =
      with_payload packet.payload
        λ p_data. handle_unless_own out (λ s. s.outgoing) (id_of packet) p_data

  -- Forwarded packets are handed over without a test for own broadcasts.
  unfoldable pub handle_forwarded : Packet → M ℤ
  handle_forwarded packet =
      with_payload packet.payload
        λ p_data. λ s. ask for s.forwarded (id_of packet) (arguments nf p_data) s

  -- The handler that each thread gives to `nfq_create_queue`.
  unfoldable pub handle : Plane → Packet → M ℤ
  handle in_control = handle_incoming_control
  handle in_data = handle_incoming_data
  handle out = handle_outgoing
  handle for = handle_forwarded
