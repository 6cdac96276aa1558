-- ===== src/Send/Delivery.antt =====
-- What `SendUnicast`, `SendBroadcast` and `InitializeSend` send, return and leave behind.
use manet_testbed.Base.{
  ℕ, ℤ, pos, minus_one, is_neg, is_zero, List, ◌∷◌, if◌then◌else◌, ◌≡◌, refl, arith, take, not,
  ◌&&◌,
}
use manet_testbed.Netlink.{af_inet, sock_dgram, ipproto_udp, sol_socket, so_broadcast}
use manet_testbed.Api.{State, Datagram, Action, socket, setsockopt, sendto, Os, call, ntop}
use manet_testbed.Api.Laws.{Returns}
use manet_testbed.Send.{
  manet_port, send_sock_msg, send_to_text, send_unicast, send_broadcast, initialize_send,
}

-- A datagram to the MANET port of an address.
abbrev pub datagram : ℕ → List ℕ → Datagram
datagram address payload = record {
  sin_family = af_inet;
  sin_addr = address;
  sin_port = manet_port;
  payload = payload;
}

module _ (os : Os) (msg_buf : List ℕ) (size : ℕ) (s : State) where
  -- The one call of a send to an address.
  abbrev pub sent : ℕ → List Action
  sent address = sendto s.sock (datagram address (take size msg_buf)) ∷ s.log

  -- How a send to an address ends: the datagram is sent, and the result is 0 exactly if that
  -- succeeded and no error was noted before, and -1 if not. Of the variables only the text of
  -- `ntop` changes.
  abbrev pub Sent : ℕ → ℤ → State → Type 0
  Sent address r t =
      (r
        ≡ (if not (is_neg (os.result (sent address))) && is_zero s.f_err then pos 0 else minus_one))
      × (t ≡ record s { ip = os.inet_ntop address; log = sent address })

  -- Where `inet_pton` reads back what `inet_ntop` writes for the destination, `SendUnicast` sends
  -- one datagram, with the first `size` bytes of the message, to port 269 of the destination. It
  -- returns 0 exactly if that succeeds and no error was noted before, and -1 if not; of the
  -- variables only the text of `ntop` changes.
  pub send_unicast_lem :
      (dest_address : ℕ)
      → os.inet_pton (os.inet_ntop dest_address) ≡ dest_address
      → Returns (Sent dest_address) (send_unicast os dest_address msg_buf size s)
  unfolding send_unicast send_sock_msg send_to_text ntop call
  send_unicast_lem dest_address e = rw e (ground arith, refl)

  -- Where `inet_pton` reads back what `inet_ntop` writes for the broadcast address, `SendBroadcast`
  -- sends one datagram, with the first `size` bytes of the message, to port 269 of the broadcast
  -- address. It returns 0 exactly if that succeeds and no error was noted before, and -1 if not; of
  -- the variables only the text of `ntop` changes.
  pub send_broadcast_lem :
      os.inet_pton (os.inet_ntop s.broadcast_ip) ≡ s.broadcast_ip
      → Returns (Sent s.broadcast_ip) (send_broadcast os msg_buf size s)
  unfolding send_broadcast send_sock_msg send_to_text ntop call
  send_broadcast_lem e = rw e (ground arith, refl)

-- `InitializeSend` opens a UDP socket, keeps it in `sock` even if it is -1, and asks for broadcasts
-- on it. It returns 0 exactly if the latter succeeds, and -1 if not.
pub initialize_send_lem :
    (os : Os) (s : State)
    → let opened = socket af_inet sock_dgram ipproto_udp ∷ s.log in
      let sock = os.result opened in
      let log' = setsockopt sock sol_socket so_broadcast 1 ∷ opened in
      Returns
        (λ r t.
          (r ≡ (if is_neg (os.result log') then minus_one else pos 0))
          × (t ≡ record s { sock = sock; log = log' }))
        (initialize_send os s)
unfolding initialize_send call
initialize_send_lem os s = (refl, refl)
