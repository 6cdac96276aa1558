-- ===== src/UavRouting/Transfer.antt =====
-- The callbacks by which a socket of the simulation sends and receives.
pub mod Progress
pub mod Counters
use manet_testbed.Base.{
  ℕ, zero, suc, ℤ, pos, negsuc, is_neg, Bool, true, false, List, [], ◌∷◌, if◌then◌else◌, ◌+◌, ◌-◌,
  ◌%◌, ◌*◌, ◌^◌, ◌==◌, ltb, leb, u32,
}
use manet_testbed.UavRouting.Ns3.{
  Call, Ns3, Callback, accept, receive_packet, recv, set_recv_callback, remove_tos_tag,
  remove_ttl_tag, get_tx_available, send, lookup_type, create_socket, bind, connect,
}
use manet_testbed.UavRouting.Outcome.{
  Sim, Outcome, returned, aborted, crashed, exhausted, M, pure, and_then, ◌>>=◌, ◌>>◌, gets, modify,
  call, object, number,
}

abbrev pub total_tx_bytes : ℕ
total_tx_bytes = 1000000

abbrev pub write_size : ℕ
write_size = 1448

abbrev pub port : ℕ
port = 50000

abbrev pub min : ℕ → ℕ → ℕ
min a b = if leb a b then a else b

-- What ns-3 gives as a `uint32_t`.
abbrev pub to_u32 : ℤ → ℕ
to_u32 (pos n) = u32 n
to_u32 (negsuc n) = 0

-- `packet->GetSize()`
unfoldable pub get_size : Ns3 → ℕ → M ℕ
get_size ns3 zero = crashed
get_size ns3 (suc p) = pure (ns3.packet_size (suc p))

unfoldable pub accept_socket : ℕ → M (Unit {0})
accept_socket socket = call (set_recv_callback socket receive_packet)

module _ (ns3 : Ns3) where
  -- The tags that are taken off the packet are only printed.
  unfoldable pub receive : ℕ → M (Unit {0})
  receive socket = do
    packet ← object ns3 (recv socket)
    modify (λ s. record s { packets_received = u32 (s.packets_received + 1) })
    size ← get_size ns3 packet
    modify (λ s. record s { current_rx_bytes = u32 (s.current_rx_bytes + size) })
    call (remove_tos_tag packet)
    call (remove_ttl_tag packet)

  unfoldable pub setup_packet_receive : (addr node source_address : ℕ) → M (Unit {0})
  setup_packet_receive addr node source_address = do
    tid ← object ns3 (lookup_type "ns3::TcpSocketFactory")
    sink ← object ns3 (create_socket node tid)
    call (bind sink addr port)
    call (connect sink source_address port)
    call (set_recv_callback sink receive_packet)
    receive sink

  -- `localSocket->GetTxAvailable()`, a `uint32_t`.
  unfoldable pub tx_available : ℕ → M ℕ
  tx_available socket = do n ← number ns3 (get_tx_available socket); pure (to_u32 n)

  -- The `while` loop. The argument of `Send` points behind the last byte of `data`.
  unfoldable pub write_loop : ℕ → ℕ → M (Unit {0})
  write_loop zero socket = exhausted
  write_loop (suc rounds) socket = do
    let again = write_loop rounds socket
    received ← gets (λ s. s.current_rx_bytes)
    if ltb received total_tx_bytes
        then (do
          available ← tx_available socket
          if available == 0 then pure tt else (do
            let left = total_tx_bytes - received
            room ← tx_available socket
            amount_sent ← number ns3 (send socket write_size (min (min write_size left) room))
            elim amount_sent [
              | pos sent ↦ do
                modify (λ s. record s { current_tx_bytes = u32 (s.current_tx_bytes + sent) })
                again
              | _ ↦ pure tt
            ]))
        else pure tt
