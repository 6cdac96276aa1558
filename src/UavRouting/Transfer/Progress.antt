-- ===== src/UavRouting/Transfer/Progress.antt =====
-- `WriteUntilBufferFull` against a socket that behaves as a buffer: it ends, and what it sends.
use manet_testbed.Base.{
  ℕ, zero, suc, pos, true, false, List, ◌∷◌, ◌+◌, ◌-◌, ◌^◌, ◌==◌, ltb, u32, ◌≤◌, ◌<◌, ◌≡◌, refl,
  arith, Bool-cases, inl, inr, ap, ◌∙◌,
}
use manet_testbed.UavRouting.Ns3.{Call, Ns3, get_tx_available, send}
use manet_testbed.UavRouting.Outcome.{Sim, returned, number}
use manet_testbed.UavRouting.Laws.{Returned, Returned-mono}
use manet_testbed.UavRouting.Transfer.{total_tx_bytes, write_size, min, tx_available, write_loop}

-- A socket as ns-3 documents it: `GetTxAvailable` gives the room for bytes in its buffer, and a
-- `Send` of no more than that takes all of them and returns their number.
pub record IsSocket (ns3 : Ns3) (socket : ℕ) (room : List Call → ℕ) : Type 0 where
  pub fits : (log : List Call) → room log < 2 ^ 32
  pub available : (log : List Call) → ns3.number (get_tx_available socket ∷ log) ≡ pos (room log)
  pub asked : (log : List Call) → room (get_tx_available socket ∷ log) ≡ room log
  pub accepted :
      (log : List Call) (offset size : ℕ)
      → size ≤ room log
      → ns3.number (send socket offset size ∷ log) ≡ pos size
  pub taken :
      (log : List Call) (offset size : ℕ)
      → size ≤ room log
      → room (send socket offset size ∷ log) + size ≡ room log

module _ (ns3 : Ns3) (socket : ℕ) (room : List Call → ℕ) (is : IsSocket ns3 socket room) where
  -- What the loop leaves: the buffer is full, its bytes are counted, and nothing is received.
  abbrev pub Filled : Sim → Sim → Type 0
  Filled s t =
      (room t.log ≡ 0)
      × (t.current_tx_bytes ≡ u32 (s.current_tx_bytes + room s.log))
      × (t.current_rx_bytes ≡ s.current_rx_bytes)
      × (t.packets_received ≡ s.packets_received)

  tx_available_lem :
      (s : Sim)
      → tx_available ns3 socket s
        ≡ returned (room s.log) (record s { log = get_tx_available socket ∷ s.log })
  unfolding tx_available number
  tx_available_lem s = rw (is.available s.log) (
      ap (λ (k : ℕ). returned k (record s { log = get_tx_available socket ∷ s.log }))
        (omega (arith, is.fits s.log)))

  -- How much one round sends.
  abbrev piece : Sim → ℕ
  piece s = min (min write_size (total_tx_bytes - s.current_rx_bytes)) (room s.log)

  abbrev asked_twice : Sim → List Call
  asked_twice s = get_tx_available socket ∷ get_tx_available socket ∷ s.log

  room-asked_twice : (s : Sim) → room (asked_twice s) ≡ room s.log
  room-asked_twice s = is.asked _ ∙ is.asked _

  -- A round that has room.
  abbrev pieced : Sim → Sim
  pieced s = record s {
    current_tx_bytes = u32 (s.current_tx_bytes + piece s);
    log = send socket write_size (piece s) ∷ asked_twice s;
  }

  write_loop-round :
      (rounds : ℕ) (s : Sim)
      → ltb s.current_rx_bytes total_tx_bytes ≡ true
      → (room s.log == 0) ≡ false
      → write_loop ns3 (suc rounds) socket s ≡ write_loop ns3 rounds socket (pieced s)
  unfolding write_loop number
  write_loop-round rounds s h some' = rw h (
      rw (tx_available_lem s) (
        rw some' (
          rw (tx_available_lem (record s { log = get_tx_available socket ∷ s.log })) (
            rw (is.asked s.log) (rw (is.accepted (asked_twice s) write_size (piece s) fit) refl)))))
    where
      fit : piece s ≤ room (asked_twice s)
      fit = rw (room-asked_twice s) (ground arith)

  write_loop-full :
      (rounds : ℕ) (s : Sim)
      → ltb s.current_rx_bytes total_tx_bytes ≡ true
      → (room s.log == 0) ≡ true
      → write_loop ns3 (suc rounds) socket s
        ≡ returned tt (record s { log = get_tx_available socket ∷ s.log })
  unfolding write_loop
  write_loop-full rounds s h full = rw h (rw (tx_available_lem s) (rw full refl))

  -- A round leaves less room, by what it sends.
  room-pieced : (s : Sim) → room (pieced s).log + piece s ≡ room s.log
  room-pieced s =
      is.taken (asked_twice s) write_size (piece s) (rw (room-asked_twice s) (ground arith))
      ∙ room-asked_twice s

  piece-pos :
      (s : Sim)
      → ltb s.current_rx_bytes total_tx_bytes ≡ true
      → (room s.log == 0) ≡ false
      → 0 < piece s
  piece-pos s h some' = ground arith

  -- One more than the room in the socket's buffer is enough rounds. While the file is not received,
  -- `WriteUntilBufferFull` on a socket that behaves as ns-3 documents it returns with the buffer
  -- full: it has sent as many bytes as there was room for, however many were sent before, and it
  -- counts them modulo 2^32. What is received does not change.
  pub write_loop-Filled :
      (rounds : ℕ) (s : Sim)
      → s.current_tx_bytes < 2 ^ 32
      → ltb s.current_rx_bytes total_tx_bytes ≡ true
      → room s.log < rounds
      → Returned (λ _ t. Filled s t) (write_loop ns3 rounds socket s)
  write_loop-Filled zero s w h e = absurd (omega arith)
  write_loop-Filled (suc rounds) s w h e = elim (Bool-cases (room s.log == 0)) [
    | inl full ↦ rw (write_loop-full rounds s h full) (ground (arith, is.asked s.log))
    | inr some' ↦ rw (write_loop-round rounds s h some') (
        Returned-mono (λ _ t. Filled (pieced s) t) (λ _ t. Filled s t)
          (write_loop ns3 rounds socket (pieced s))
          (write_loop-Filled rounds (pieced s) (omega arith) h
            (omega (arith, room-pieced s, piece-pos s h some')))
          λ _ t q. (q.0, omega (arith, q.1, room-pieced s), q.2, q.3))
  ]
