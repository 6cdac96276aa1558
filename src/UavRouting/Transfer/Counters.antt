-- ===== src/UavRouting/Transfer/Counters.antt =====
-- The counters of the simulation against the calls of ns-3, over any sequence of callbacks.
pub mod Session
use manet_testbed.Base.{
  ℕ, zero, suc, ℤ, pos, negsuc, Bool, true, false, List, [], ◌∷◌, if◌then◌else◌, ◌+◌, ◌-◌, ◌%◌, ◌*◌,
  ◌^◌, ◌==◌, ltb, leb, u32, ◌≤◌, ◌<◌, ◌≡◌, refl, arith, Bool-cases, inl, inr, ◌⊎◌, length,
}
use manet_testbed.UavRouting.Ns3.{Call, Ns3, recv, send, get_tx_available}
use manet_testbed.UavRouting.Outcome.{
  Sim, Outcome, returned, aborted, crashed, exhausted, M, pure, and_then, ◌>>=◌, ◌>>◌, call, number,
  object,
}
use manet_testbed.UavRouting.Transfer.{
  total_tx_bytes, write_size, min, to_u32, get_size, accept_socket, receive, tx_available,
  write_loop,
}

-- The callbacks that ns-3 makes for a socket.
pub data Event : Type 0 where
  accepts receives has_space : (socket : ℕ) → Event

-- Unless the program ends, the state at the end satisfies `P`.
abbrev pub Holds : {A : Type 0} → (Sim → Type 0) → Outcome A → Type 0
Holds P (returned a s) = P s
Holds P (exhausted s) = P s
Holds P (aborted s) = Unit {0}
Holds P (crashed s) = Unit {0}

-- The packets in the calls of `Recv`, of the log.
abbrev pub packets_in : List Call → ℕ
packets_in [] = 0
packets_in (recv socket ∷ log) = packets_in log + 1
packets_in (_ ∷ log) = packets_in log

-- The calls of `Send`.
abbrev pub sends_in : List Call → ℕ
sends_in [] = 0
sends_in (send socket offset size ∷ log) = sends_in log + 1
sends_in (_ ∷ log) = sends_in log

-- No `Send` reads a byte of an array of `size` bytes: all begin at its end or behind.
abbrev pub AllBehind : (size : ℕ) → List Call → Type 0
AllBehind size [] = Unit {0}
AllBehind size (send socket offset n ∷ log) = (size ≤ offset) × AllBehind size log
AllBehind size (_ ∷ log) = AllBehind size log

-- What a `Send` returned, if not an error.
abbrev amount : ℤ → ℕ
amount (pos n) = n
amount (negsuc n) = 0

ℤ-cases : (z : ℤ) → ((n : ℕ) × (z ≡ pos n)) ⊎ ((n : ℕ) × (z ≡ negsuc n))
ℤ-cases (pos n) = inl (n, refl)
ℤ-cases (negsuc n) = inr (n, refl)

module _ (ns3 : Ns3) where
  -- The bytes of the packets received, and the bytes that were sent.
  abbrev pub bytes_in : List Call → ℕ
  bytes_in [] = 0
  bytes_in (recv socket ∷ log) = bytes_in log + ns3.packet_size (ns3.object (recv socket ∷ log))
  bytes_in (_ ∷ log) = bytes_in log

  abbrev pub bytes_out : List Call → ℕ
  bytes_out [] = 0
  bytes_out (send socket offset size ∷ log) =
      bytes_out log + amount (ns3.number (send socket offset size ∷ log))
  bytes_out (_ ∷ log) = bytes_out log

  -- The counters hold what the calls say, modulo 2^32.
  pub record Counted (s : Sim) : Type 0 where
    pub packets : s.packets_received ≡ u32 (packets_in s.log)
    pub received : s.current_rx_bytes ≡ u32 (bytes_in s.log)
    pub sent : s.current_tx_bytes ≡ u32 (bytes_out s.log)

  -- `rounds` bounds the loop of each `WriteUntilBufferFull`.
  unfoldable pub fire : ℕ → Event → M (Unit {0})
  fire rounds (accepts socket) = accept_socket socket
  fire rounds (receives socket) = receive ns3 socket
  fire rounds (has_space socket) = write_loop ns3 rounds socket

  unfoldable pub session : ℕ → List Event → M (Unit {0})
  session rounds [] = pure tt
  session rounds (e ∷ es) = fire rounds e >> session rounds es

  pub Holds-bind :
      {A B : Type 0} (P Q : Sim → Type 0) (r : Outcome A) (k : A → M B)
      → Holds P r
      → ((a : A) (t : Sim) → P t → Holds Q (k a t))
      → ((t : Sim) → P t → Q t)
      → Holds Q (and_then r k)
  Holds-bind P Q (returned a t) k h next over = next a t h
  Holds-bind P Q (exhausted t) k h next over = over t h
  Holds-bind P Q (aborted t) k h next over = tt
  Holds-bind P Q (crashed t) k h next over = tt

  -- What the write loop leaves alone, and that it counts what it sends.
  abbrev pub Writes : Sim → Sim → Type 0
  Writes s t =
      (t.current_rx_bytes ≡ s.current_rx_bytes)
      × (t.packets_received ≡ s.packets_received)
      × (bytes_in t.log ≡ bytes_in s.log)
      × (packets_in t.log ≡ packets_in s.log)
      × (t.data_bytes ≡ s.data_bytes)
      × (t.current_tx_bytes ≡ u32 (bytes_out t.log))
      × (AllBehind write_size s.log → AllBehind write_size t.log)

  -- The calls of a round of the loop.
  abbrev asked_after : ℕ → Sim → List Call
  asked_after socket t = get_tx_available socket ∷ get_tx_available socket ∷ t.log

  abbrev sent_after : ℕ → Sim → Call
  sent_after socket t = send socket write_size (
      min (min write_size (total_tx_bytes - t.current_rx_bytes))
        (to_u32 (ns3.number (asked_after socket t))))

  pub write_loop-Writes :
      (rounds socket : ℕ) (s t : Sim)
      → Writes s t
      → Holds (Writes s) (write_loop ns3 rounds socket t)
  unfolding write_loop tx_available number
  write_loop-Writes zero socket s t w = w
  write_loop-Writes (suc rounds) socket s t w =
      elim (Bool-cases (ltb t.current_rx_bytes total_tx_bytes)) [
        | inr complete ↦ rw complete w
        | inl wanting ↦
            rw wanting
              (elim (Bool-cases (to_u32 (ns3.number (get_tx_available socket ∷ t.log)) == 0)) [
                | inl full ↦ rw full w
                | inr some' ↦
                    rw some'
                      (elim (ℤ-cases (ns3.number (sent_after socket t ∷ asked_after socket t))) [
                        | inl (n, e) ↦ rw e (
                            write_loop-Writes rounds socket s _ (
                              w.0,
                              w.1,
                              w.2,
                              w.3,
                              w.4,
                              rw e (omega (arith, w.5)),
                              λ b. (omega arith, w.6 b),
                            ))
                        | inr (n, e) ↦ rw e (
                          w.0,
                          w.1,
                          w.2,
                          w.3,
                          w.4,
                          rw e (omega (arith, w.5)),
                          λ b. (omega arith, w.6 b),
                        )
                      ])
              ])
      ]
