-- ===== src/Send.antt =====
-- src/api_send.c: datagrams over the UDP socket.
pub mod Delivery
use manet_testbed.Base.{
  ℕ, ℤ, pos, minus_one, is_neg, is_zero, Bool, true, false, List, ◌||◌, not, if◌then◌else◌, take,
}
use manet_testbed.Netlink.{af_inet, sock_dgram, ipproto_udp, sol_socket, so_broadcast}
use manet_testbed.Api.{
  State, Datagram, Action, socket, setsockopt, sendto, M, done, pure, gets, modify, ◌>>=◌, ◌>>◌, Os,
  call, ntop,
}

-- The port of MANET traffic.
abbrev pub manet_port : ℕ
manet_port = 269

module _ (os : Os) where
  -- The rest of `send_sock_msg`, after the call of `ntop`: it reads the address back from the static
  -- text. The port is kept in host order.
  unfoldable pub send_to_text : List ℕ → ℕ → M ℤ
  send_to_text msg_buf size = do
    ip ← gets (λ s. s.ip)
    sock ← gets (λ s. s.sock)
    r ← call os (
        sendto sock (record {
          sin_family = af_inet;
          sin_addr = os.inet_pton ip;
          sin_port = manet_port;
          payload = take size msg_buf;
        }))
    f_err ← gets (λ s. s.f_err)
    pure (if is_neg r || not (is_zero f_err) then minus_one else r)

  -- `type` is nonzero for a broadcast. The address goes through `ntop`'s static text and back. The
  -- parameter `header` is not used.
  unfoldable pub send_sock_msg : ℕ → List ℕ → Bool → ℕ → M ℤ
  send_sock_msg dest_address msg_buf type size = do
    broadcast_ip ← gets (λ s. s.broadcast_ip)
    if type then ntop os broadcast_ip else ntop os dest_address
    send_to_text msg_buf size

  unfoldable pub send_unicast : ℕ → List ℕ → ℕ → M ℤ
  send_unicast dest_address msg_buf size = do
    r ← send_sock_msg dest_address msg_buf false size
    pure (if is_neg r then minus_one else pos 0)

  unfoldable pub send_broadcast : List ℕ → ℕ → M ℤ
  send_broadcast msg_buf size = do
    r ← send_sock_msg 0 msg_buf true size
    pure (if is_neg r then minus_one else pos 0)

  unfoldable pub initialize_send : M ℤ
  initialize_send = do
    sock ← call os (socket af_inet sock_dgram ipproto_udp)
    modify (λ s. record s { sock = sock })
    ret ← call os (setsockopt sock sol_socket so_broadcast 1)
    pure (if is_neg ret then minus_one else pos 0)
