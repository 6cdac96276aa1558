-- ===== src/Traffic/Unbroken.antt =====
-- What a send does whose steps are taken without a break, wherever the other threads stand.
use manet_testbed.Base.{
  arith, repeat, ℕ, ℤ, pos, minus_one, is_neg, true, none, some, List, ◌∷◌, ◌≡◌, refl, ◌∙◌,
  if◌then◌else◌, ◌||◌, not, is_zero, ==_self, take,
}
use manet_testbed.Netlink.{Netlink}
use manet_testbed.Api.{State, sendto, Os, call, ntop}
use manet_testbed.Send.Delivery.{datagram, Sent}
use manet_testbed.Traffic.Owed.{destination, IsReadable}
use manet_testbed.Queue.Handlers.{Netfilter}
use manet_testbed.Traffic.{
  Departure, unicast, broadcast, SendPoint, reads_broadcast, names_address, reads_text, sends_to,
  makes_result, first_send, step_send, Program, update, may_call, departs, proceeds, send_on,
  happens, course,
}

-- The arguments of a send.
abbrev pub buffer_of : Departure → List ℕ
buffer_of (unicast dest_address msg_buf size) = msg_buf
buffer_of (broadcast msg_buf size) = msg_buf

abbrev pub size_of : Departure → ℕ
size_of (unicast dest_address msg_buf size) = size
size_of (broadcast msg_buf size) = size

-- The steps of a send.
abbrev pub steps_of : Departure → ℕ
steps_of (unicast dest_address msg_buf size) = 4
steps_of (broadcast msg_buf size) = 5

module _ (os : Os) (nl : Netlink) (nf : Netfilter) (i : ℕ) where
  -- The thread is at a point of a send.
  abbrev sending : SendPoint → State → Program → Program
  sending p s x = record x {
    world = record x.world { shared = s };
    sends = update i (some p) x.sends;
  }

  -- The send ends here with the result and the state.
  abbrev EndsSend : ℕ → Program → ℤ → State → List ℤ → Type 0
  EndsSend n x r t sent =
      let y = course os nl nf (repeat n (proceeds i)) x in
      (y.world.shared ≡ t) × (y.sent ≡ r ∷ sent) × (y.sends i ≡ none)

  proceeds-send :
      (x : Program) (p : SendPoint)
      → x.sends i ≡ some p
      → happens os nl nf (proceeds i) x ≡ send_on i (step_send os p x.world.shared) x
  unfolding happens
  proceeds-send x p e = rw e refl

  -- What `SendUnicast` and `SendBroadcast` return where `sendto` has returned `r`.
  abbrev status : ℤ → State → ℤ
  status r s =
      if is_neg (if is_neg r || not (is_zero s.f_err) then minus_one else r)
      then minus_one
      else pos 0

  -- The state when the datagram is sent, and the result of `sendto`.
  abbrev sent_to : ℕ → List ℕ → ℕ → State → State
  sent_to a msg_buf size s = record s {
    log = sendto s.sock (datagram a (take size msg_buf)) ∷ s.log;
  }

  abbrev outcome : ℕ → List ℕ → ℕ → State → ℤ
  outcome a msg_buf size s = status (os.result (sent_to a msg_buf size s).log) s

  result_made :
      (x : Program) (r : ℤ)
      → x.sends i ≡ some (makes_result r)
      → EndsSend 1 x (status r x.world.shared) x.world.shared x.sent
  unfolding course step_send
  result_made x r e = rw (proceeds-send x (makes_result r) e) (refl, refl, rw (==_self i) refl)

  datagram_sent :
      (x : Program) (a : ℕ) (msg_buf : List ℕ) (size : ℕ)
      → x.sends i ≡ some (sends_to a msg_buf size)
      → EndsSend 2 x
          (outcome a msg_buf size x.world.shared)
          (sent_to a msg_buf size x.world.shared)
          x.sent
  unfolding course step_send call
  datagram_sent x a msg_buf size e = rw (proceeds-send x (sends_to a msg_buf size) e) (
      result_made
        (sending (makes_result (os.result (sent_to a msg_buf size x.world.shared).log))
          (sent_to a msg_buf size x.world.shared) x)
        _ (rw (==_self i) refl))

  text_read :
      (x : Program) (msg_buf : List ℕ) (size : ℕ)
      → x.sends i ≡ some (reads_text msg_buf size)
      → EndsSend 3 x
          (outcome (os.inet_pton x.world.shared.ip) msg_buf size x.world.shared)
          (sent_to (os.inet_pton x.world.shared.ip) msg_buf size x.world.shared)
          x.sent
  unfolding course step_send
  text_read x msg_buf size e = rw (proceeds-send x (reads_text msg_buf size) e) (
      datagram_sent
        (sending (sends_to (os.inet_pton x.world.shared.ip) msg_buf size) x.world.shared x) _
        msg_buf size (rw (==_self i) refl))

  abbrev named : ℕ → State → State
  named a s = record s { ip = os.inet_ntop a }

  address_named :
      (x : Program) (a : ℕ) (msg_buf : List ℕ) (size : ℕ)
      → x.sends i ≡ some (names_address a msg_buf size)
      → EndsSend 4 x
          (outcome (os.inet_pton (os.inet_ntop a)) msg_buf size (named a x.world.shared))
          (sent_to (os.inet_pton (os.inet_ntop a)) msg_buf size (named a x.world.shared))
          x.sent
  unfolding course step_send ntop
  address_named x a msg_buf size e = rw (proceeds-send x (names_address a msg_buf size) e) (
      text_read (sending (reads_text msg_buf size) (named a x.world.shared) x) msg_buf size
        (rw (==_self i) refl))

  broadcast_read :
      (x : Program) (msg_buf : List ℕ) (size : ℕ)
      → x.sends i ≡ some (reads_broadcast msg_buf size)
      → let b = x.world.shared.broadcast_ip in
        EndsSend 5 x
          (outcome (os.inet_pton (os.inet_ntop b)) msg_buf size (named b x.world.shared))
          (sent_to (os.inet_pton (os.inet_ntop b)) msg_buf size (named b x.world.shared))
          x.sent
  unfolding course step_send
  broadcast_read x msg_buf size e = rw (proceeds-send x (reads_broadcast msg_buf size) e) (
      address_named
        (sending (names_address x.world.shared.broadcast_ip msg_buf size) x.world.shared x) _
        msg_buf size (rw (==_self i) refl))

  -- The call of a send, where the thread may make it.
  abbrev begun : Departure → Program → Program
  begun d x = record x {
    sends = update i (some (first_send d)) x.sends;
    departed = (i, d) ∷ x.departed;
  }

  departs-begun :
      (x : Program) (d : Departure)
      → may_call (x.world.places i) (x.sends i) (x.tasks i) ≡ true
      → happens os nl nf (departs i d) x ≡ begun d x
  unfolding happens
  departs-begun x d may = rw may refl

  -- What the text of the address is read back as does not matter where it is the address.
  status_lem :
      (a : ℕ) (msg_buf : List ℕ) (size : ℕ) (s : State)
      → IsReadable os a
      → Sent os msg_buf size s a
          (outcome (os.inet_pton (os.inet_ntop a)) msg_buf size (named a s))
          (sent_to (os.inet_pton (os.inet_ntop a)) msg_buf size (named a s))
  status_lem a msg_buf size s readable = rw readable (ground arith, refl)

  -- A send that ends so has sent what it was to send.
  ends-Sent :
      (n : ℕ) (x y : Program) (a : ℕ) (msg_buf : List ℕ) (size : ℕ) (s : State)
      → IsReadable os a
      → EndsSend n x
          (outcome (os.inet_pton (os.inet_ntop a)) msg_buf size (named a s))
          (sent_to (os.inet_pton (os.inet_ntop a)) msg_buf size (named a s))
          y.sent
      → let z = course os nl nf (repeat n (proceeds i)) x in
        (r : ℤ) × Sent os msg_buf size s a r z.world.shared
        × (z.sent ≡ r ∷ y.sent)
        × (z.sends i ≡ none)
  ends-Sent n x y a msg_buf size s readable (shared, sent, gone) =
      let (value, left) = status_lem a msg_buf size s readable in
      (
        outcome (os.inet_pton (os.inet_ntop a)) msg_buf size (named a s),
        (value, shared ∙ left),
        sent,
        gone,
      )

  -- A thread that may call sends to an address that `inet_pton` reads back from what `inet_ntop`
  -- writes, and takes its steps without a break, four for a unicast and five for a broadcast, wherever
  -- the other threads stand. Then the first `size` bytes of the message have gone, in one datagram, to
  -- port 269 of the address given or of the broadcast address; of the variables only the text of `ntop`
  -- has changed; and the result is 0 exactly if `sendto` succeeded and no error is noted, and -1 if not.
  pub send-unbroken :
      (x : Program) (d : Departure)
      → may_call (x.world.places i) (x.sends i) (x.tasks i) ≡ true
      → IsReadable os (destination x.world.shared.broadcast_ip d)
      → let y = course os nl nf (departs i d ∷ repeat (steps_of d) (proceeds i)) x in
        (r : ℤ) × Sent os
          (buffer_of d)
          (size_of d)
          x.world.shared
          (destination x.world.shared.broadcast_ip d)
          r
          y.world.shared
        × (y.sent ≡ r ∷ x.sent)
        × (y.sends i ≡ none)
  unfolding course first_send
  send-unbroken x (unicast a msg_buf size) may readable =
      let begins = begun (unicast a msg_buf size) x in
      rw (departs-begun x (unicast a msg_buf size) may) (
        ends-Sent 4 begins x a msg_buf size x.world.shared readable
          (address_named begins a msg_buf size (rw (==_self i) refl)))
  send-unbroken x (broadcast msg_buf size) may readable =
      let begins = begun (broadcast msg_buf size) x in
      rw (departs-begun x (broadcast msg_buf size) may) (
        ends-Sent 5 begins x x.world.shared.broadcast_ip msg_buf size x.world.shared readable
          (broadcast_read begins msg_buf size (rw (==_self i) refl)))
